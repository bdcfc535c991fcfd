-- ===== src/Gateway/Session.antt =====
-- `OnAccept`: the login of a BBS and the loop over its packets, with the flag DEBUG, without which
-- the function does not compile. Both read into one buffer of 1000 bytes.
pub mod Packet
pub mod Rounds
use aka_smsd.Common.{
  ℕ, zero, suc, ◌+◌, ◌%◌, ◌^◌, Bool, true, false, List, [], ◌∷◌, ◌++◌, Option, none, some, ltb,
  ◌==◌, if◌then◌else◌, length, take, drop,
}
use aka_smsd.Common.Int.{ℤ, pos, negsuc, ◌+ℤ◌, leb_ℤ, to_unsigned, ◌==ℤ◌}
use aka_smsd.Common.Code
use aka_smsd.Wire.{header_at, sms_byte_to_long, packet_login_user, packet_login_password}
use aka_smsd.Wire.Cmd
use aka_smsd.Sms.{SmsMessage}
use aka_smsd.Gateway.Link.{do_reply}
use aka_smsd.Gateway.Login.{login_user}
use aka_smsd.Gateway.Deliver.{send}
use aka_smsd.Gateway.Dispatch.{dispatch_message}
use aka_smsd.Gateway.World.{Env, Gw, Outcome, done, exited, fault, M, ◌>>=◌, ◌>>◌, pure, get, put}

abbrev pub buffer_size : ℕ
buffer_size = 1000

-- These bytes written at an offset of the buffer.
abbrev pub place : ℕ → List ℕ → List ℕ → List ℕ
place offset bytes buf = take offset buf ++ (bytes ++ drop (offset + length bytes) buf)

module _ (env : Env) where
  -- The constructor, with the clock and the services as they are.
  abbrev pub new_protocol : ℤ → ℕ → env.Store → env.Disk → env.Net → Gw env
  new_protocol default_money_limit clock db disk net = record {
    connected = false;
    serial = 0;
    child_code = [];
    child_name = [];
    checker_code = [];
    default_money_limit = default_money_limit;
    request_list = [];
    blocked = false;
    clock = clock;
    db = db;
    disk = disk;
    net = net;
  }

  abbrev filled : ℕ → List ℕ → Gw env → env.Net × ℤ × List ℕ → Outcome ((ℤ × List ℕ) × Gw env)
  filled offset buf s (net', ret, bytes) =
      if ltb buffer_size (offset + length bytes)
      then fault
      else done ((ret, place offset bytes buf), record s { net = net' })

  -- pStream->read(buf+offset, size): the value, and the buffer after it.
  unfoldable pub read_into : ℕ → ℕ → List ℕ → M env (ℤ × List ℕ)
  read_into offset size buf s = filled offset buf s (env.read s.net size)

  -- What follows the reading of a body: `i` is compared as an unsigned number. `none` goes on with
  -- the loop.
  unfoldable pub after_body : ℕ → ℤ × List ℕ → M env (Option ℤ × List ℕ)
  after_body msg_len (i, buf) =
      if ltb (to_unsigned 32 i) msg_len then pure (some (pos 0), buf) else (do
        ret ← dispatch_message env buf (to_unsigned 32 (pos Cmd.header_size +ℤ i))
        pure (if ret ==ℤ Code.quit then some (pos 0) else none, buf))

  unfoldable pub after_head : ℤ × List ℕ → M env (Option ℤ × List ℕ)
  unfolding after_body
  after_head (i, buf) =
      if leb_ℤ (pos Cmd.header_size) i
      then (do
        body ← read_into Cmd.header_size (sms_byte_to_long (header_at buf).msg_length) buf
        after_body (sms_byte_to_long (header_at buf).msg_length) body)
      else pure (some (pos 0), buf)

  -- One round of the loop.
  unfoldable pub serve_one : List ℕ → M env (Option ℤ × List ℕ)
  unfolding after_head
  serve_one buf = do head ← read_into 0 Cmd.header_size buf; after_head head

  -- At most this many rounds; `none` when the session goes on.
  unfoldable pub serve : ℕ → List ℕ → M env (Option ℤ)
  unfolding serve_one
  serve zero buf s = done (none, s)
  serve (suc rounds) buf s = elim (serve_one buf s) [
    | done ((some ret, buf'), s') ↦ done (some ret, s')
    | done ((none, buf'), s') ↦ serve rounds buf' s'
    | exited ↦ exited
    | fault ↦ fault
  ]

  -- The messages that wait in the storage are passed to `Send` one after the other.
  unfoldable pub send_all : List SmsMessage → M env (Unit {0})
  send_all [] = pure tt
  send_all (msg ∷ msgs) = do ret ← send env msg; send_all msgs

  -- The answer to the login, and what waits for the BBS. `none` is the failure of the login.
  unfoldable pub welcome : List SmsMessage → List ℕ → Bool → M env Bool
  unfolding send_all
  welcome waiting buf false = do sent ← do_reply env Cmd.err (header_at buf); pure false
  welcome waiting buf true = do
    sent ← do_reply env Cmd.ok (header_at buf)
    send_all waiting
    pure true

  -- The test `i<l` of the login's body still compares with the size of the header.
  unfoldable pub login_body : ℕ → List SmsMessage → ℤ × List ℕ → M env (Bool × List ℕ)
  unfolding welcome
  login_body address waiting (i, buf) =
      if leb_ℤ (pos Cmd.header_size) i
      then (do
        s ← get
        put (record s { connected = true })
        permitted ← login_user env address (packet_login_user buf) (packet_login_password buf)
        ready ← welcome waiting buf permitted
        pure (ready, buf))
      else pure (false, buf)

  unfoldable pub login_head : ℕ → List SmsMessage → ℤ × List ℕ → M env (Bool × List ℕ)
  unfolding login_body
  login_head address waiting (i, buf) =
      if leb_ℤ (pos Cmd.header_size) i
      then if (header_at buf).type == Cmd.login
        then (do
          body ← read_into Cmd.header_size (sms_byte_to_long (header_at buf).msg_length) buf
          login_body address waiting body)
        else pure (false, buf)
      else pure (false, buf)

  -- `buf` is what the stack held in the buffer; -1 is the failure of the login.
  unfoldable pub on_accept : ℕ → ℕ → List SmsMessage → List ℕ → M env (Option ℤ)
  unfolding login_head serve
  on_accept rounds address waiting buf = do
    head ← read_into 0 Cmd.header_size buf
    login ← login_head address waiting head
    let (ready, buf') = login
    if ready then serve rounds buf' else pure (some (negsuc 0))
