-- ===== src/Gateway/Deliver.antt =====
-- `Send`: a message from a phone is a command to the gateway or goes on to the BBS.
pub mod Addressing
pub mod Routing
use aka_smsd.Common.{
  ℕ, ◌+◌, ◌-◌, Bool, true, false, List, [], ◌∷◌, ◌++◌, Option, none, some, ltb, leb, ◌==◌,
  if◌then◌else◌, length, drop,
}
use aka_smsd.Common.Int.{ℤ, pos, to_unsigned, ◌==ℤ◌}
use aka_smsd.Common.Text.{field}
use aka_smsd.Common.Decimal.{atoi}
use aka_smsd.Common.Code
use aka_smsd.Wire.{make_header, header_bytes, sms_long_to_byte}
use aka_smsd.Wire.Cmd
use aka_smsd.Sms.{SmsMessage}
use aka_smsd.Gateway.Texts.{bad_command_text}
use aka_smsd.Gateway.Message.{generate_sms}
use aka_smsd.Gateway.Billing.{send_sms}
use aka_smsd.Gateway.Link.{get_serial, do_send_msg}
use aka_smsd.Gateway.Command.{process_command_sms}
use aka_smsd.Gateway.World.{
  Statement, log_sms, Env, Gw, Outcome, done, exited, fault, M, ◌>>=◌, ◌>>◌, pure, get, exit,
}

pub data SmsType : Type 0 where
  common command none_type : SmsType

unfoldable pub get_sms_type : List ℕ → List ℕ → SmsType
get_sms_type child_code target_mobile_no =
    if ltb (length target_mobile_no) (length child_code)
    then none_type
    else if length target_mobile_no == length child_code
    then command
    else common

-- The `int` of `atoi` becomes a DWORD.
unfoldable pub get_target_id : List ℕ → List ℕ → ℕ
get_target_id child_code target_mobile_no =
    if leb (length target_mobile_no) (length child_code)
    then 0
    else to_unsigned 32 (atoi (drop (length child_code) target_mobile_no))

-- `SMS_BBS_GWSENDSMS`: 13 bytes of header, 25 of fields, the text.
abbrev pub gw_send_bytes : ℕ → ℕ → SmsMessage → List ℕ
gw_send_bytes serial user_id msg =
    header_bytes (make_header Cmd.gw_send serial 0 (25 + msg.body_length))
    ++ (sms_long_to_byte user_id
        ++ (field Cmd.mobile_number_length msg.sender_number
            ++ (sms_long_to_byte msg.body_length ++ msg.body)))

module _ (env : Env) where
  unfoldable pub deliver_sms : SmsMessage → M env ℤ
  unfolding get_target_id
  deliver_sms msg s =
      if env.malloc (38 + msg.body_length)
      then (do
        serial ← get_serial env
        do_send_msg env (gw_send_bytes serial (get_target_id s.child_code msg.target_number) msg))
          s
      else exited

  -- The answer to a command that was not understood.
  unfoldable pub report_bad_command : SmsMessage → M env ℕ
  report_bad_command msg = do
    made ← generate_sms env 0 msg.sender_number msg.sender_number bad_command_text (pos 6)
    elim made [ none ↦ exit | some sms ↦ send_sms env sms none true ]

  -- The `case` of a command has no `break` where the command was not understood: it goes on into
  -- the next one.
  unfoldable pub route : SmsType → SmsMessage → M env ℤ
  route none_type msg = pure Code.error
  route common msg = deliver_sms msg
  route command msg = do
    ret ← process_command_sms env msg
    if ret ==ℤ Code.parse_error
        then (do reported ← report_bad_command msg; deliver_sms msg)
        else pure ret

  -- `logIt`; a `BadQuery` is caught and changes nothing.
  unfoldable pub log_it : SmsMessage → M env (Unit {0})
  log_it msg s = elim (env.exec s.db (log_sms msg s.clock s.child_code)) [
    | none ↦ done (tt, s)
    | some db' ↦ done (tt, record s { db = db' })
  ]

  unfoldable pub send : SmsMessage → M env ℤ
  unfolding get_sms_type route log_it
  send msg s =
      (do
        ret ← route (get_sms_type s.child_code msg.target_number) msg
        if ret ==ℤ Code.success then (do log_it msg; pure ret) else pure ret)
        s
