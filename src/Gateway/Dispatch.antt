-- ===== src/Gateway/Dispatch.antt =====
-- `doSend` and `dispatchMessage`: a packet from the BBS, as it stands at the head of the session's
-- buffer, becomes a call.
pub mod Permission
pub mod Guard
use aka_smsd.Common.{
  ℕ, ◌+◌, ◌%◌, ◌^◌, Bool, true, false, List, [], ◌∷◌, Option, none, some, ◌==◌, if◌then◌else◌,
}
use aka_smsd.Common.Int.{ℤ, pos}
use aka_smsd.Common.Code
use aka_smsd.Wire.{
  Header, header_at, sms_byte_to_long, packet_mobile_no, packet_user_id, packet_validate_no,
  reply_is_succeed, send_src_mobile_no, send_src_user_id,
}
use aka_smsd.Wire.Cmd
use aka_smsd.Sms.{SmsMessage}
use aka_smsd.Gateway.Message.{convert_sms}
use aka_smsd.Gateway.Billing.{send_sms, has_rows, filter_rows}
use aka_smsd.Gateway.Link.{do_reply}
use aka_smsd.Gateway.Register.{
  is_empty, do_send_register_sms, do_register_validation, do_unregister,
}
use aka_smsd.Gateway.Bind.{do_reply_register_request}
use aka_smsd.Gateway.World.{
  Key, Row, Env, Gw, Outcome, done, exited, fault, M, ◌>>=◌, ◌>>◌, pure, exit,
}

-- `and ValidatationNumber=''`
abbrev pub is_confirmed : Row → Bool
is_confirmed row = is_empty row.validatation_number

module _ (env : Env) where
  -- CSMSBBSChildPrivilegeChecker::canSendSMS, with the checker's own copy of the code.
  unfoldable pub can_send_sms : List ℕ → List ℕ → M env Bool
  can_send_sms src_mobile_no src_id s =
      let key : Key = record {
        child_code = s.checker_code;
        mobile = src_mobile_no;
        src_id = src_id;
      } in
      elim (env.select s.db key) [
        | none ↦ done (false, s)
        | some rows ↦ done (has_rows (filter_rows is_confirmed rows), s)
      ]

  -- The message that `convertSMS` made is sent in the user's name; without memory for it the
  -- process exits.
  unfoldable pub send_made : List ℕ → Option SmsMessage → M env ℕ
  send_made usr_id none = exit
  send_made usr_id (some sms) = send_sms env sms (some usr_id) true

  unfoldable pub do_send : List ℕ → M env ℕ
  do_send msg = do
    allowed ← can_send_sms (send_src_mobile_no msg) (send_src_user_id msg)
    if allowed
        then (do made ← convert_sms env msg; send_made (send_src_user_id msg) made)
        else pure Cmd.sms_validate_failed

  -- A reply with the result of an operation; then `retCode` is 0.
  abbrev pub reply_with : Header → M env ℕ → M env ℤ
  reply_with to op = do code ← op; sent ← do_reply env code to; pure (pos 0)

  -- OnCMDOK and OnCMDError, which only write to the log.
  abbrev pub on_cmd_ok : M env ℤ
  on_cmd_ok = pure Code.success

  abbrev pub on_cmd_error : M env ℤ
  on_cmd_error = pure Code.success

  -- switch (msgType)
  unfoldable pub dispatch_type : ℕ → List ℕ → M env ℤ
  dispatch_type type msg =
      if type == Cmd.login
      then reply_with (header_at msg) (pure Cmd.err)
      else if type == Cmd.logout
      then (do sent ← do_reply env Cmd.ok (header_at msg); pure Code.quit)
      else if type == Cmd.reg
      then reply_with (header_at msg)
          (do_send_register_sms env (packet_mobile_no msg) (packet_user_id msg))
      else if type == Cmd.check
      then reply_with (header_at msg) (
          do_register_validation env (packet_mobile_no msg) (packet_user_id msg)
            (packet_validate_no msg))
      else if type == Cmd.unreg
      then reply_with (header_at msg)
          (do_unregister env (packet_mobile_no msg) (packet_user_id msg))
      else if type == Cmd.request
      then pure (pos 0)
      else if type == Cmd.request_reply
      then (do
        ret ←
            do_reply_register_request env (reply_is_succeed msg)
              (sms_byte_to_long (header_at msg).serial_no)
        pure (pos 0))
      else if type == Cmd.bbs_send
      then reply_with (header_at msg) (do_send msg)
      else if type == Cmd.ok
      then (do ret ← on_cmd_ok; pure (pos 0))
      else if type == Cmd.err
      then (do ret ← on_cmd_error; pure (pos 0))
      else if type == Cmd.link
      then reply_with (header_at msg) (pure Cmd.link)
      else pure Code.quit

  -- `len` is the number of bytes read: header and body.
  unfoldable pub dispatch_message : List ℕ → ℕ → M env ℤ
  dispatch_message msg len =
      if (sms_byte_to_long (header_at msg).msg_length + Cmd.header_size) % 2 ^ 32 == len
      then dispatch_type (header_at msg).type msg
      else (do sent ← do_reply env Cmd.length_err (header_at msg); pure Code.quit)
