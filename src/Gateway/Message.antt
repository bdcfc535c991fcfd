-- ===== src/Gateway/Message.antt =====
-- `generateSMS` and `convertSMS`: building a message for the storage.
use aka_smsd.Common.{
  ℕ, ◌+◌, ◌-◌, ◌%◌, ◌^◌, List, [], ◌++◌, Option, none, some, ltb, leb, ◌==◌, if◌then◌else◌, length,
  take,
}
use aka_smsd.Common.Int.{ℤ, pos, negsuc}
use aka_smsd.Common.Decimal.{print_int}
use aka_smsd.Wire.{
  send_user_id, send_src_mobile_no, send_dst_mobile_no, send_msg_txt_len, send_msg_txt,
  send_txt_offset,
}
use aka_smsd.Sms.{SmsMessage, sms_message_size, max_child_code_len}
use aka_smsd.Gateway.World.{Env, done, fault, M}

-- A DWORD that `%d` prints: its bit pattern as an `int`.
abbrev pub signed32 : ℕ → ℤ
signed32 w = if ltb w (2 ^ 31) then pos w else negsuc (2 ^ 32 - 1 - w)

-- `snprintf(SenderNumber, 16, "%s%d", m_childCode, userCode)`, or without the number for 0.
unfoldable pub sender_of : List ℕ → ℕ → List ℕ
sender_of child_code user_code =
    if user_code == 0
    then take 15 child_code
    else take 15 (child_code ++ print_int (signed32 user_code))

module _ (env : Env) where
  -- `none` is `NOENOUGHMEMORY`. Where the size wraps around, `memcpy` goes beyond the block.
  unfoldable pub generate_sms : ℕ → List ℕ → List ℕ → List ℕ → ℤ → M env (Option SmsMessage)
  generate_sms user_code target_number fee_target_number content fee_type s =
      let sms_len = (sms_message_size + length content) % 2 ^ 32 in
      if env.malloc sms_len
      then if leb (2 ^ 32) (sms_message_size + length content)
        then fault
        else done (
          some (record {
            length = sms_len;
            sender_number = sender_of s.child_code user_code;
            target_number = take 16 target_number;
            fee_target_number = take 16 fee_target_number;
            fee_type = fee_type;
            child_code = take max_child_code_len s.child_code;
            parent_id = [];
            sms_type = pos 0;
            send_time = s.clock;
            arrive_time = 0;
            service_code = [];
            fee_money = pos 10;
            body_length = length content;
            body = content;
          }),
          s,
        )
      else done (none, s)

  -- The packet stands at the head of the session's buffer; the text that it announces must end
  -- inside the buffer.
  unfoldable pub convert_sms : List ℕ → M env (Option SmsMessage)
  convert_sms msg s =
      if ltb (length msg) (send_txt_offset + send_msg_txt_len msg)
      then fault
      else generate_sms (send_user_id msg) (send_dst_mobile_no msg) (send_src_mobile_no msg)
          (take (send_msg_txt_len msg) (send_msg_txt msg)) (pos 6) s
