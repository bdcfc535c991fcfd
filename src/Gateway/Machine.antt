-- ===== src/Gateway/Machine.antt =====
-- The gateway process as a state machine. Between two events it waits: a packet of the BBS is
-- handled by `dispatchMessage`, a message that comes into the storage interrupts the wait and is
-- handled by `Send`, and what is around the process changes meanwhile. A call that ends with `exit`
-- or with an access outside a buffer has no state after it.
pub mod Keeps
pub mod Frames
pub mod Requests
pub mod Handlers
pub mod Invariant
use aka_smsd.Common.{ℕ, zero, suc, ◌≡◌, Bool, true, List}
use aka_smsd.Common.Int.{ℤ}
use aka_smsd.Sms.{SmsMessage}
use aka_smsd.Gateway.Login.{login_user}
use aka_smsd.Gateway.Deliver.{send}
use aka_smsd.Gateway.Dispatch.{dispatch_message}
use aka_smsd.Gateway.Session.{new_protocol}
use aka_smsd.Gateway.World.{Env, Gw, done}

module _ (env : Env) where
  -- The case of `OnAccept` between the read of the login's body and the answer to it.
  abbrev pub connect : Gw env → Gw env
  connect s = record s { connected = true }

  pub data Step (s s' : Gw env) : Type 0 where
    -- A packet in the buffer, of this length.
    packet :
        (buf : List ℕ) (len : ℕ) (ret : ℤ)
        → dispatch_message env buf len s ≡ done (ret, s')
        → Step s s'
    -- A message from the storage, in a signal handler.
    message : (msg : SmsMessage) (ret : ℤ) → send env msg s ≡ done (ret, s') → Step s s'
    login :
        (address : ℕ) (user password : List ℕ) (permitted : Bool)
        → login_user env address user password (connect s) ≡ done (permitted, s')
        → Step s s'
    -- Time passes; other processes, the BBS and the reads change what is around the process.
    elsewhere :
        (clock : ℕ) (db : env.Store) (disk : env.Disk) (net : env.Net)
        → s' ≡ record s { clock = clock; db = db; disk = disk; net = net }
        → Step s s'

  -- So many steps from the constructor lead to the state.
  pub data Reach : ℕ → Gw env → Type 0 where
    start :
        {s : Gw env} (default_money_limit : ℤ) (clock : ℕ) (db : env.Store) (disk : env.Disk)
        (net : env.Net)
        → s ≡ new_protocol env default_money_limit clock db disk net
        → Reach zero s
    next : {n : ℕ} {s s' : Gw env} → Reach n s → Step s s' → Reach (suc n) s'
