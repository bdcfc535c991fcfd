-- ===== src/Gateway/Deliver/Routing.antt =====
-- What `Send` does with a message that is addressed to the gateway itself.
use aka_smsd.Common.{length, ℕ, ◌≤◌, ◌≡◌, refl, arith, true, false, List, [], ltb}
use aka_smsd.Common.Code
use aka_smsd.Sms.{SmsMessage}
use aka_smsd.Gateway.Command.{CommandLine, scan_command, run_command, process_command_sms}
use aka_smsd.Gateway.Register.{is_empty}
use aka_smsd.Gateway.Deliver.{get_sms_type, command, deliver_sms, report_bad_command, route}
use aka_smsd.Gateway.World.{Env, Gw, done}

module _ (env : Env) where
  run_command-no_user :
      (s : Gw env) (from : List ℕ) (line : CommandLine)
      → line.usr_id ≡ []
      → run_command env from line s ≡ done (Code.parse_error, s)
  unfolding run_command
  run_command-no_user s from line e =
      let none_given : is_empty line.usr_id ≡ true = rw e refl in rw none_given refl

  -- A message that holds no second word is not understood and changes nothing by itself.
  process_command_sms-no_user :
      (s : Gw env) (msg : SmsMessage)
      → msg.body_length ≤ 200
      → (scan_command msg.body).usr_id ≡ []
      → process_command_sms env msg s ≡ done (Code.parse_error, s)
  unfolding process_command_sms
  process_command_sms-no_user s msg short e =
      let fits : ltb 200 msg.body_length ≡ false = ground arith in
      rw (
        process_command_sms,
        fits,
        run_command-no_user s msg.sender_number (scan_command msg.body) e,
      )

  -- A message to the gateway's own number that has at most 200 bytes and no second word is answered
  -- with the text that it was not understood, and then it is delivered to the BBS all the same:
  -- whatever the outcome of the answer, the result is that of the delivery, in the state that the
  -- answer left.
  pub route-bad_command :
      (s t : Gw env) (msg : SmsMessage) (reported : ℕ)
      → length msg.target_number ≡ length s.child_code
      → msg.body_length ≤ 200
      → (scan_command msg.body).usr_id ≡ []
      → report_bad_command env msg s ≡ done (reported, t)
      → route env (get_sms_type s.child_code msg.target_number) msg s ≡ deliver_sms env msg t
  unfolding route get_sms_type
  route-bad_command s t msg reported own short e answered =
      let bad = process_command_sms-no_user s msg short e in
      let own_number : get_sms_type s.child_code msg.target_number ≡ command =
        ground (arith, own) in
      rw own_number (ground (arith, bad, answered))
