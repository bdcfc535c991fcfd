-- ===== src/ChildProtocol.antt =====
-- smschildprotocol.h, childprotocol.h and smschildprivilegechecker.h: CSMSChildProtocol, an older
-- protocol for one partner that logs in with a fixed password.
pub mod Reads
pub mod Messages
pub mod Session
use aka_smsd.Common.{
  ℕ, zero, suc, ◌+◌, ◌%◌, ◌^◌, Bool, true, false, not, ◌&&◌, ◌||◌, List, [], ◌∷◌, ◌++◌, ltb, ◌==◌,
  if◌then◌else◌, length, take, drop, get_or,
}
use aka_smsd.Common.Int.{ℤ, pos, negsuc, leb_ℤ, to_unsigned}
use aka_smsd.Common.Text.{codes, c_str, strncpy, field, str_eq}
use aka_smsd.Common.Code
use aka_smsd.Wire.{sms_byte_to_long, sms_long_to_byte_by_shifts}
use aka_smsd.Sms.{SmsMessage, sms_message_size}
use aka_smsd.Gateway.Message.{signed32}

abbrev pub msgtype_sm : ℕ
msgtype_sm = 0

abbrev pub msgtype_smr : ℕ
msgtype_smr = 1

abbrev pub msgtype_sms : ℕ
msgtype_sms = 2

abbrev pub msgtype_rm : ℕ
msgtype_rm = 3

abbrev pub msgtype_cdr : ℕ
msgtype_cdr = 5

abbrev pub msgtype_pwd : ℕ
msgtype_pwd = 10

abbrev pub msg_ok : ℕ
msg_ok = 0

abbrev pub msgerr_msgtype : ℕ
msgerr_msgtype = 51

-- The stream, the storage, the log and `malloc`.
pub record Services : Type 1 where
  pub Net : Type 0
  pub Disk : Type 0
  pub Log : Type 0
  -- One `readData`: its value and the bytes.
  pub read : Net → ℤ → Net × ℤ × List ℕ
  pub write : Net → List ℕ → Net
  pub write_sms : Disk → List ℕ → List ℕ → SmsMessage → Disk
  pub log_it : Log → SmsMessage → ℕ → Log
  pub malloc : ℕ → Bool

-- `attached`: `m_pStream` is not null.
pub record Cp (sv : Services) : Type 0 where
  pub attached : Bool
  pub serial : ℕ
  pub clock : ℕ
  pub net : sv.Net
  pub disk : sv.Disk
  pub log : sv.Log

-- `waiting` is a run that has not come to its end: its reads have failed so far. `fault` is an
-- access outside a buffer.
pub data Run {ℓ} (A : Type ℓ) : Type ℓ where
  done : A → Run A
  waiting fault : Run A

-- The head of 13 bytes, and the members of the packets behind it.
abbrev pub head_size : ℕ
head_size = 13

abbrev pub msg_type : List ℕ → ℕ
msg_type buf = get_or buf 0 0

abbrev pub serial_no : List ℕ → List ℕ
serial_no buf = take 4 (drop 1 buf)

abbrev pub msg_length : List ℕ → ℕ
msg_length buf = sms_byte_to_long (take 4 (drop 5 buf))

abbrev pub login_user : List ℕ → List ℕ
login_user buf = c_str (drop 13 buf)

abbrev pub login_password : List ℕ → List ℕ
login_password buf = c_str (drop 33 buf)

unfoldable pub sm_sender_no : List ℕ → List ℕ
sm_sender_no buf = take 16 (c_str (drop 13 buf))

unfoldable pub sm_target_no : List ℕ → List ℕ
sm_target_no buf = take 16 (c_str (drop 30 buf))

unfoldable pub sm_fee_target_no : List ℕ → List ℕ
sm_fee_target_no buf = take 16 (c_str (drop 47 buf))

unfoldable pub sm_body_length : List ℕ → ℕ
sm_body_length buf = sms_byte_to_long (take 4 (drop 66 buf))

-- CSMSChildPrivilegeChecker::canUserConnect
abbrev pub can_user_connect : List ℕ → List ℕ → Bool
can_user_connect user password = str_eq user (codes "test") && str_eq password (codes "test123")

-- `isMsgValid`, which takes every message.
unfoldable pub formated_msg : ℕ → List ℕ → SmsMessage
formated_msg now buf = record {
  length = (sms_message_size + sm_body_length buf) % 2 ^ 32;
  sender_number = sm_sender_no buf;
  target_number = sm_target_no buf;
  fee_type = pos 6;
  fee_target_number = sm_fee_target_no buf;
  child_code = codes "11";
  parent_id = [];
  sms_type = pos 0;
  send_time = now;
  arrive_time = 0;
  service_code = [];
  fee_money = pos 10;
  body_length = sm_body_length buf;
  body = take (sm_body_length buf) (drop 70 buf);
}

-- `SMSChildProtocolSendMessageSended`: the head and five bytes.
abbrev pub reply_bytes : ℕ → List ℕ → ℕ → ℕ → List ℕ
reply_bytes type to serial error_code =
    type
    ∷ (to
        ++ (sms_long_to_byte_by_shifts 5
            ++ (0 ∷ 0 ∷ 0 ∷ 0 ∷ (sms_long_to_byte_by_shifts serial ++ error_code ∷ []))))

-- `SMSChildProtocolReceivedMessage`; the length in the head leaves out the text.
abbrev pub received_bytes : ℕ → SmsMessage → List ℕ
received_bytes serial msg =
    msgtype_rm
    ∷ (sms_long_to_byte_by_shifts serial
        ++ (sms_long_to_byte_by_shifts 39
            ++ (0
                ∷ 0
                ∷ 0
                ∷ 0
                ∷ (field 16 msg.sender_number
                    ++ (field 16 msg.target_number
                        ++ (1 ∷ (sms_long_to_byte_by_shifts msg.body_length ++ msg.body)))))))

module _ (sv : Services) where
  abbrev pub M : Type 0 → Type 0
  M A = Cp sv → Run (A × Cp sv)

  -- With a null pointer the bytes are written to address 0.
  unfoldable pub do_send_error_msg : ℕ → List ℕ → ℕ → Cp sv → Run (Cp sv)
  do_send_error_msg type to error_code s =
      if sv.malloc 18
      then done (record s {
        serial = (s.serial + 1) % 2 ^ 32;
        net = sv.write s.net (reply_bytes type to s.serial error_code);
      })
      else fault

  unfoldable pub then_send : Run (Cp sv) → ℕ → List ℕ → ℕ → Run (Cp sv)
  then_send (done s) type to error_code = do_send_error_msg type to error_code s
  then_send waiting type to error_code = waiting
  then_send fault type to error_code = fault

  -- The text that the packet announces must end inside the buffer.
  unfoldable pub do_message : List ℕ → Cp sv → Run (Cp sv)
  unfolding do_send_error_msg then_send formated_msg
  do_message buf s =
      if msg_type buf == msgtype_sm
      then if ltb (length buf) (70 + sm_body_length buf)
        then fault
        else (let msg = formated_msg s.clock buf in
            then_send
              (do_send_error_msg msgtype_smr (serial_no buf) msg_ok
                (record s { disk = sv.write_sms s.disk msg.sender_number msg.target_number msg }))
              msgtype_sms (serial_no buf) msg_ok)
      else done s

  -- `Send`: -1, or 0 once the message is written and logged.
  unfoldable pub send : SmsMessage → Cp sv → Run (Cp sv × ℤ)
  send msg s =
      if s.attached
      then if sv.malloc (52 + msg.body_length)
        then done (
          record s {
            serial = (s.serial + 1) % 2 ^ 32;
            net = sv.write s.net (received_bytes s.serial msg);
            log = sv.log_it s.log msg s.clock;
          },
          pos 0,
        )
        else fault
      else done (s, negsuc 0)

  -- The `read` at a `redo` label: as `errno=EINTR` is an assignment, every negative value reads
  -- again. This many times at most.
  unfoldable pub read_again : ℕ → ℤ → sv.Net → Run (sv.Net × ℕ × List ℕ)
  read_again zero size net = waiting
  read_again (suc tries) size net =
      let (net', ret, bytes) = sv.read net size in
      elim ret [ negsuc n ↦ read_again tries size net' | pos i ↦ done (net', i, bytes) ]

  -- The bytes in the buffer of 1000, behind `offset`.
  abbrev put_bytes : ℕ → List ℕ → Cp sv → Run (sv.Net × ℕ × List ℕ) → Run ((ℕ × List ℕ) × Cp sv)
  put_bytes offset buf s waiting = waiting
  put_bytes offset buf s fault = fault
  put_bytes offset buf s (done (net', i, bytes)) =
      if ltb 1000 (offset + length bytes)
      then fault
      else done (
        (i, take offset buf ++ (bytes ++ drop (offset + length bytes) buf)),
        record s { net = net' },
      )

  unfoldable pub read_into : ℕ → ℕ → ℤ → List ℕ → Cp sv → Run ((ℕ × List ℕ) × Cp sv)
  unfolding read_again
  read_into tries offset size buf s = put_bytes offset buf s (read_again tries size s.net)
