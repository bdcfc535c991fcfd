-- ===== src/Gateway/Machine/Handlers.antt =====
-- How many serial numbers each handler uses up: a message from a phone at most one, a packet of the
-- BBS none.
use aka_smsd.Common.{
  ℕ, arith, Bool, List, ◌==◌, ltb, Option-cases, Bool-cases, inl, inr, ◌+◌, ◌%◌, ◌^◌,
}
use aka_smsd.Common.Int.{ℤ, pos, ◌==ℤ◌}
use aka_smsd.Common.Code
use aka_smsd.Wire.{
  packet_mobile_no, packet_user_id, packet_validate_no, reply_is_succeed, Header, header_at,
  sms_byte_to_long,
}
use aka_smsd.Wire.Cmd
use aka_smsd.Sms.{SmsMessage}
use aka_smsd.Common.Text.{codes, str_case_eq}
use aka_smsd.Common.Decimal.{atoi}
use aka_smsd.Gateway.Link.{get_serial}
use aka_smsd.Gateway.Register.{is_empty}
use Prim.Native.String.{String}
use aka_smsd.Gateway.Bind.{take_request, do_reply_register_request}
use aka_smsd.Gateway.Command.{
  CommandLine, scan_command, run_command, process_command_sms, do_register_command,
  do_unregister_command,
}
use aka_smsd.Gateway.Deliver.{
  gw_send_bytes, get_target_id, SmsType, common, command, none_type, deliver_sms, route, send,
  get_sms_type,
}
use aka_smsd.Gateway.Dispatch.{reply_with, dispatch_type, dispatch_message}
use aka_smsd.Gateway.World.{Env, M, pure}
use aka_smsd.Gateway.Machine.Keeps.{Keeps, IsSame, IsSame-bind, IsSame-pure, IsSame-option}
use aka_smsd.Gateway.Machine.Frames.{
  do_set_money_limit_command-IsSame, do_zero_today_total_command-IsSame,
  do_get_money_limit_command-IsSame, do_get_today_total_command-IsSame, report_bad_command-IsSame,
  log_it-IsSame, do_send_msg-IsSame, do_reply-IsSame, act_on_reply-IsSame, notify-IsSame,
  do_send-IsSame, do_send_register_sms-IsSame, do_register_validation-IsSame, do_unregister-IsSame,
}
use aka_smsd.Gateway.Machine.Requests.{
  Grows, same-Grows, Keeps-Grows, Grows-bind, Grows-if, get_serial-Grows, Grows-more,
  do_send_register_msg-Grows, AreOrdered-take_request,
}

module _ (env : Env) where
  run_command-Grows :
      (from : List ℕ) (line : CommandLine) → Keeps (Grows 1) (run_command env from line)
  unfolding run_command do_register_command do_unregister_command
  run_command-Grows from line =
      Grows-if 1 (is_empty line.usr_id) _ _ (Keeps-Grows 1 _ (IsSame-pure Code.parse_error)) (
        Grows-if 1 (names "ZCYH") _ _
          (do_send_register_msg-Grows env from line.usr_id Cmd.require_bind)
          (Grows-if 1 (names "QXZC") _ _
            (do_send_register_msg-Grows env from line.usr_id Cmd.require_unbind)
            (Grows-if 1 (names "SZXE") _ _
              (Keeps-Grows 1 _
                (do_set_money_limit_command-IsSame env from line.usr_id (atoi line.option1)))
              (Grows-if 1 (names "QKYY") _ _
                (Keeps-Grows 1 _ (do_zero_today_total_command-IsSame env from line.usr_id))
                (Grows-if 1 (names "CXXE") _ _
                  (Keeps-Grows 1 _ (do_get_money_limit_command-IsSame env from line.usr_id))
                  (Grows-if 1 (names "CXYY") _ _
                    (Keeps-Grows 1 _ (do_get_today_total_command-IsSame env from line.usr_id))
                    (Keeps-Grows 1 _ (IsSame-pure Code.parse_error))))))))
    where
      names : String → Bool
      names s = str_case_eq line.command (codes s)

  process_command_sms-Grows : (msg : SmsMessage) → Keeps (Grows 1) (process_command_sms env msg)
  unfolding process_command_sms
  process_command_sms-Grows msg =
      Grows-if 1 (ltb 200 msg.body_length) _ _ (Keeps-Grows 1 _ (IsSame-pure Code.error))
        (run_command-Grows msg.sender_number (scan_command msg.body))

  deliver_sms-Grows : (msg : SmsMessage) → Keeps (Grows 1) (deliver_sms env msg)
  unfolding deliver_sms
  deliver_sms-Grows msg s s' a e = elim (Bool-cases (env.malloc (38 + msg.body_length))) [
    | inl memory ↦
        Grows-bind 1 0 (get_serial env) _ (get_serial-Grows env)
          (λ serial. Keeps-Grows 0 _ (
            do_send_msg-IsSame env
              (gw_send_bytes serial (get_target_id s.child_code msg.target_number) msg)))
          s s' a (ground (arith, memory))
    | inr full ↦ absurd (ground (arith, full))
  ]

  route-Grows : (type : SmsType) (msg : SmsMessage) → Keeps (Grows 2) (route env type msg)
  unfolding route
  route-Grows none_type msg = Keeps-Grows 2 _ (IsSame-pure Code.error)
  route-Grows common msg = Grows-more 1 2 _ (omega arith) (deliver_sms-Grows msg)
  route-Grows command msg = Grows-bind 1 1 _ _ (process_command_sms-Grows msg) (λ ret.
      Grows-if 1 (ret ==ℤ Code.parse_error) _ _
        (Grows-bind 0 1 _ _ (Keeps-Grows 0 _ (report_bad_command-IsSame env msg))
          (λ reported. deliver_sms-Grows msg))
        (Keeps-Grows 1 _ (IsSame-pure ret)))

  pub send-Grows : (msg : SmsMessage) → Keeps (Grows 2) (send env msg)
  unfolding send
  send-Grows msg s s' a e =
      Grows-bind 2 0 (route env (get_sms_type s.child_code msg.target_number) msg) _
        (route-Grows (get_sms_type s.child_code msg.target_number) msg)
        (λ ret.
          Grows-if 0 (ret ==ℤ Code.success) _ _
            (Keeps-Grows 0 _ (IsSame-bind _ _ (log_it-IsSame env msg) (λ u. IsSame-pure ret)))
            (Keeps-Grows 0 _ (IsSame-pure ret)))
        s s' a e

  do_reply_register_request-Grows :
      (is_succeed serial_no : ℕ)
      → Keeps (Grows 0) (do_reply_register_request env is_succeed serial_no)
  unfolding do_reply_register_request
  do_reply_register_request-Grows is_succeed serial_no s s' a e =
      elim (Option-cases (take_request serial_no s.request_list)) [
        | inl none_waits ↦
            let same : IsSame s s' = (ground (arith, none_waits), ground (arith, none_waits)) in
            same-Grows 0 s s' same
        | inr ((p, rest), found) ↦
            let (serial, requests) =
              IsSame-bind _ _ (act_on_reply-IsSame env p is_succeed)
                (λ text.
                  IsSame-option text _ _ (IsSame-pure Code.success)
                    (λ msg. notify-IsSame env p msg))
                (record s { request_list = rest }) s' a (ground (arith, found)) in
            λ small ordered. (
              omega arith,
              omega arith,
              rw (serial, requests)
                  (AreOrdered-take_request serial_no 0 s.serial s.request_list rest p ordered
                    found),
            )
      ]

  -- A reply with the result of an operation.
  reply_with-Grows :
      (to : Header) (op : M env ℕ) → Keeps IsSame op → Keeps (Grows 0) (reply_with env to op)
  reply_with-Grows to op h = Keeps-Grows 0 _ (
      IsSame-bind _ _ h
        (λ code. IsSame-bind _ _ (do_reply-IsSame env code to) (λ sent. IsSame-pure (pos 0))))

  dispatch_type-Grows : (type : ℕ) (msg : List ℕ) → Keeps (Grows 0) (dispatch_type env type msg)
  unfolding dispatch_type
  dispatch_type-Grows type msg =
      Grows-if 0 (type == Cmd.login) _ _ (reply_with-Grows _ (pure Cmd.err) (IsSame-pure Cmd.err)) (
        Grows-if 0 (type == Cmd.logout) _ _
          (Keeps-Grows 0 _ (
            IsSame-bind _ _ (do_reply-IsSame env Cmd.ok (header_at msg))
              (λ sent. IsSame-pure Code.quit)))
          (Grows-if 0 (type == Cmd.reg) _ _
            (reply_with-Grows (header_at msg) _
              (do_send_register_sms-IsSame env (packet_mobile_no msg) (packet_user_id msg)))
            (Grows-if 0 (type == Cmd.check) _ _
              (reply_with-Grows (header_at msg) _ (
                do_register_validation-IsSame env (packet_mobile_no msg) (packet_user_id msg)
                  (packet_validate_no msg)))
              (Grows-if 0 (type == Cmd.unreg) _ _
                (reply_with-Grows (header_at msg) _
                  (do_unregister-IsSame env (packet_mobile_no msg) (packet_user_id msg)))
                (Grows-if 0 (type == Cmd.request) _ _ (quiet (pos 0)) (
                  Grows-if 0 (type == Cmd.request_reply) _ _
                    (Grows-bind 0 0 _ _
                      (do_reply_register_request-Grows (reply_is_succeed msg)
                        (sms_byte_to_long (header_at msg).serial_no))
                      (λ ret. quiet (pos 0)))
                    (Grows-if 0 (type == Cmd.bbs_send) _ _
                      (reply_with-Grows (header_at msg) _ (do_send-IsSame env msg))
                      (Grows-if 0 (type == Cmd.ok) _ _ (quiet (pos 0)) (
                        Grows-if 0 (type == Cmd.err) _ _ (quiet (pos 0)) (
                          Grows-if 0 (type == Cmd.link) _ _
                            (reply_with-Grows (header_at msg) (pure Cmd.link)
                              (IsSame-pure Cmd.link))
                            (quiet Code.quit)))))))))))
    where
      quiet : (ret : ℤ) → Keeps (Grows 0) (pure {env = env} ret)
      quiet ret = Keeps-Grows 0 _ (IsSame-pure ret)

  pub dispatch_message-Grows :
      (msg : List ℕ) (len : ℕ) → Keeps (Grows 0) (dispatch_message env msg len)
  unfolding dispatch_message
  dispatch_message-Grows msg len =
      Grows-if 0 ((sms_byte_to_long (header_at msg).msg_length + Cmd.header_size) % 2 ^ 32 == len) _
        _ (dispatch_type-Grows (header_at msg).type msg)
        (Keeps-Grows 0 _ (
          IsSame-bind _ _ (do_reply-IsSame env Cmd.length_err (header_at msg))
            (λ sent. IsSame-pure Code.quit)))
