-- ===== src/Sms.antt =====
-- sms.h: the message record that the parts of the gateway pass on, `SMSMessage`.
pub mod Layout
use aka_smsd.Common.{ℕ, List}
use aka_smsd.Common.Int.{ℤ}

-- The `char` arrays are kept as the C strings in them; the body is exact.
pub record SmsMessage : Type 0 where
  pub length : ℕ
  pub sender_number : List ℕ
  pub target_number : List ℕ
  pub fee_type : ℤ
  pub fee_target_number : List ℕ
  pub child_code : List ℕ
  pub parent_id : List ℕ
  pub sms_type : ℤ
  pub send_time : ℕ
  pub arrive_time : ℕ
  pub service_code : List ℕ
  pub fee_money : ℤ
  pub body_length : ℕ
  pub body : List ℕ

-- `sizeof(SMSMessage)` where `int`, `time_t` and pointers have four bytes: the numbers and the
-- arrays of 17, 17, 17, 5, 81 and 11 bytes, with the padding before each `int`.
abbrev pub sms_message_size : ℕ
sms_message_size = 180

abbrev pub max_child_code_len : ℕ
max_child_code_len = 4

abbrev pub max_child_name_len : ℕ
max_child_name_len = 50
