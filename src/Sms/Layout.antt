-- ===== src/Sms/Layout.antt =====
-- sms.h: the bytes of an `SMSMessage`, as one process writes them into a file and another one reads
-- them again.
pub mod Reading
use aka_smsd.Common.{
  ℕ, ◌+◌, ◌-◌, ◌%◌, ◌^◌, ◌≤◌, ◌<◌, ◌≡◌, refl, sym, ap, ◌∙◌, arith, false, List, ◌∷◌, ◌++◌, Option,
  none, some, ltb, if◌then◌else◌, length, take, drop, drop-drop, drop-append, take_all,
  length-append,
}
use aka_smsd.Common.Int.{ℤ, pos, negsuc, to_unsigned}
use aka_smsd.Common.Text.{IsText, c_str, field, c_str-field, length-field}
use aka_smsd.Sms.{SmsMessage, sms_message_size}
use aka_smsd.Gateway.Message.{signed32}
use aka_smsd.Operator.Words.{word_bytes, read_word, read_word-word_bytes}

-- An `int`.
abbrev pub int_bytes : ℤ → List ℕ
int_bytes z = word_bytes (to_unsigned 32 z)

-- The members from `serviceCode` on; each `char` array has been zero behind its string since
-- `memset`.
abbrev pub money_bytes : SmsMessage → List ℕ
money_bytes m = int_bytes m.fee_money ++ (word_bytes m.body_length ++ m.body)

abbrev pub service_bytes : SmsMessage → List ℕ
service_bytes m =
    word_bytes m.send_time
    ++ (word_bytes m.arrive_time ++ (field 10 m.service_code ++ (0 ∷ money_bytes m)))

abbrev pub fee_bytes : SmsMessage → List ℕ
fee_bytes m =
    field 16 m.fee_target_number
    ++ (field 4 m.child_code
        ++ (field 80 m.parent_id ++ (0 ∷ (int_bytes m.sms_type ++ service_bytes m))))

-- The struct, with two bytes of padding in front of `FeeType` and one in front of `SMSType` and of
-- `FeeMoney`.
unfoldable pub sms_bytes : SmsMessage → List ℕ
sms_bytes m =
    word_bytes m.length
    ++ (field 16 m.sender_number
        ++ (field 16 m.target_number ++ (0 ∷ 0 ∷ (int_bytes m.fee_type ++ fee_bytes m))))

-- The cast of a pointer to the bytes; `none` where the members reach over their end.
unfoldable pub sms_of_bytes : List ℕ → Option SmsMessage
sms_of_bytes bytes =
    let len : ℕ = read_word (drop 176 bytes) in
    if ltb (length bytes) (sms_message_size + len)
    then none
    else some (record {
      length = read_word bytes;
      sender_number = c_str (drop 4 bytes);
      target_number = c_str (drop 21 bytes);
      fee_type = signed32 (read_word (drop 40 bytes));
      fee_target_number = c_str (drop 44 bytes);
      child_code = c_str (drop 61 bytes);
      parent_id = c_str (drop 66 bytes);
      sms_type = signed32 (read_word (drop 148 bytes));
      send_time = read_word (drop 152 bytes);
      arrive_time = read_word (drop 156 bytes);
      service_code = c_str (drop 160 bytes);
      fee_money = signed32 (read_word (drop 172 bytes));
      body_length = len;
      body = take len (drop 180 bytes);
    })

abbrev pub IsInt : ℤ → Type 0
IsInt (pos n) = n < 2 ^ 31
IsInt (negsuc n) = n < 2 ^ 31

-- A string that has room in its array.
abbrev pub FitsIn : ℕ → List ℕ → Type 0
FitsIn n s = IsText s × (length s ≤ n)

-- A message that the struct can hold.
pub record IsStorable (m : SmsMessage) : Type 0 where
  pub length_fits : m.length < 2 ^ 32
  pub sender_fits : FitsIn 16 m.sender_number
  pub target_fits : FitsIn 16 m.target_number
  pub fee_type_fits : IsInt m.fee_type
  pub fee_target_fits : FitsIn 16 m.fee_target_number
  pub child_fits : FitsIn 4 m.child_code
  pub parent_fits : FitsIn 80 m.parent_id
  pub sms_type_fits : IsInt m.sms_type
  pub send_time_fits : m.send_time < 2 ^ 32
  pub arrive_time_fits : m.arrive_time < 2 ^ 32
  pub service_fits : FitsIn 10 m.service_code
  pub fee_money_fits : IsInt m.fee_money
  pub body_length_fits : m.body_length < 2 ^ 32
  pub body_whole : m.body_length ≡ length m.body
