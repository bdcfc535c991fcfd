-- ===== src/Demo/Remote.antt =====
-- libbbssms/demo/akasmsd.c: what the daemon does with a packet of the gateway.
pub mod Answers
use aka_smsd.Common.{ℕ, Bool, List, [], ◌∷◌, ◌++◌, ◌||◌, ◌==◌, if◌then◌else◌}
use aka_smsd.Common.Int.{ℤ, pos, negsuc}
use aka_smsd.Common.Text.{c_str}
use aka_smsd.Wire.Cmd
use aka_smsd.Gateway.World.{Outcome, done, exited, fault}
use aka_smsd.Client.{System, Client}
use aka_smsd.Client.Receive.{
  Reply, failed_reply, plain_reply, bind_reply, sms_reply, overrun, sms_get_reply, cmd_gwsms,
  cmd_register, cmd_unregister,
}

pub data Signal : Type 0 where
  sigusr1 : Signal
  sigusr2 : Signal

-- What a line of the file of messages is printed from: the user, the phone and the text.
pub record Saved : Type 0 where
  pub user : ℕ
  pub phone : List ℕ
  pub text : List ℕ

-- The library with its connection, the signals that were sent, and the file of messages.
pub record Remote (sys : System) : Type 0 where
  pub client : Client sys
  pub kills : List (ℕ × Signal)
  pub saved : List Saved

-- `SMS_request` and `SMS_request2`: what the process finds in `smsresult` after the signal.
abbrev pub smsresult : Signal → ℤ
smsresult sigusr1 = pos 1
smsresult sigusr2 = negsuc 0

module _ (sys : System) where
  abbrev pub kill : ℕ → Signal → Remote sys → Outcome (Remote sys)
  kill pid sig r = done (record r { kills = r.kills ++ (pid, sig) ∷ [] })

  -- `save_sms`; `can_open` says whether `fopen` gives a file.
  unfoldable pub save_sms : Bool → ℕ → List ℕ → List ℕ → Remote sys → Remote sys
  save_sms can_open user phone text r =
      if can_open
      then record r {
        saved = r.saved ++ record { user = user; phone = phone; text = c_str text } ∷ [];
      }
      else r

  -- switch(replyType). Of the kinds 1 to 3 that come without a buffer, `buf` is not set.
  unfoldable pub by_reply : Bool → Remote sys → Reply → Outcome (Remote sys)
  unfolding save_sms
  by_reply can_open r (failed_reply rc) = exited
  by_reply can_open r (plain_reply serial pid type) =
      if type == Cmd.ok
      then kill pid sigusr1 r
      else if type == cmd_gwsms || (type == cmd_register || type == cmd_unregister)
      then fault
      else kill pid sigusr2 r
  by_reply can_open r (bind_reply serial pid type user mobile) = done r
  by_reply can_open r (sms_reply serial pid user phone text) =
      done (save_sms can_open user phone text r)
  by_reply can_open r overrun = fault

  unfoldable pub process_remote : List ℕ → List ℕ → Bool → Remote sys → Outcome (Remote sys)
  unfolding by_reply
  process_remote head_stale stale can_open r =
      let (c, reply) = sms_get_reply sys head_stale stale r.client in
      by_reply can_open (record r { client = c }) reply
