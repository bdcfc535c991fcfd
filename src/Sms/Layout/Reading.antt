-- ===== src/Sms/Layout/Reading.antt =====
-- A message is read from its bytes as it was written.
use aka_smsd.Common.{
  ℕ, ◌+◌, ◌-◌, ◌%◌, ◌^◌, ◌<◌, ◌≡◌, refl, sym, ap, ◌∙◌, arith, false, List, ◌∷◌, ◌++◌, some, ltb,
  length, take, drop, drop-drop, drop-append, take_all, length-append,
}
use aka_smsd.Common.Int.{ℤ, pos, negsuc}
use aka_smsd.Common.Text.{c_str, field, c_str-field, length-field}
use aka_smsd.Sms.{SmsMessage}
use aka_smsd.Gateway.Message.{signed32}
use aka_smsd.Operator.Words.{word_bytes, read_word, read_word-word_bytes}
use aka_smsd.Sms.Layout.{
  int_bytes, money_bytes, service_bytes, fee_bytes, sms_bytes, sms_of_bytes, IsInt, FitsIn,
  IsStorable,
}

signed32-int_bytes :
    (z : ℤ) (rest : List ℕ) → IsInt z → signed32 (read_word (int_bytes z ++ rest)) ≡ z
signed32-int_bytes (pos n) rest h =
    ap signed32 (read_word-word_bytes (n % 2 ^ 32) rest (omega arith)) ∙ ground arith
signed32-int_bytes (negsuc n) rest h =
    ap signed32 (read_word-word_bytes (2 ^ 32 - 1 - n % 2 ^ 32) rest (omega arith)) ∙ ground arith

c_str-FitsIn : (n : ℕ) (s rest : List ℕ) → FitsIn n s → c_str (field n s ++ rest) ≡ s
c_str-FitsIn n s rest (text, short) = c_str-field n s rest text ∙ take_all n s short

-- What stands behind a `char` array.
behind :
    (bytes s rest : List ℕ) (at n : ℕ)
    → drop at bytes ≡ field n s ++ rest
    → drop (at + (n + 1)) bytes ≡ rest
behind bytes s rest at n e =
    drop-drop at (n + 1) bytes
    ∙ ap (drop (n + 1)) e
    ∙ drop-append (n + 1) (field n s) rest (length-field n s)

length-field_append : (n : ℕ) (s rest : List ℕ) → length (field n s ++ rest) ≡ n + 1 + length rest
length-field_append n s rest = omega (arith, length-append (field n s) rest, length-field n s)

not_over : (s : List ℕ) (n : ℕ) → length s ≡ 180 + n → ltb (length s) (180 + n) ≡ false
not_over s n e = ground (arith, e)

module _ (m : SmsMessage) where
  length_at : m.length < 2 ^ 32 → read_word (sms_bytes m) ≡ m.length
  unfolding sms_bytes
  length_at h =
      read_word-word_bytes m.length
        (field 16 m.sender_number
          ++ (field 16 m.target_number ++ (0 ∷ 0 ∷ (int_bytes m.fee_type ++ fee_bytes m))))
        h

  at_4 :
      drop 4 (sms_bytes m)
      ≡ field 16 m.sender_number
        ++ (field 16 m.target_number ++ (0 ∷ 0 ∷ (int_bytes m.fee_type ++ fee_bytes m)))
  unfolding sms_bytes
  at_4 = refl

  at_21 :
      drop 21 (sms_bytes m)
      ≡ field 16 m.target_number ++ (0 ∷ 0 ∷ (int_bytes m.fee_type ++ fee_bytes m))
  at_21 = behind (sms_bytes m) m.sender_number _ 4 16 at_4

  at_40 : drop 40 (sms_bytes m) ≡ int_bytes m.fee_type ++ fee_bytes m
  at_40 =
      drop-drop 38 2 (sms_bytes m)
      ∙ ap (drop 2) (behind (sms_bytes m) m.target_number _ 21 16 at_21)

  at_44 : drop 44 (sms_bytes m) ≡ fee_bytes m
  at_44 = drop-drop 40 4 (sms_bytes m) ∙ ap (drop 4) at_40

  at_61 :
      drop 61 (sms_bytes m)
      ≡ field 4 m.child_code
        ++ (field 80 m.parent_id ++ (0 ∷ (int_bytes m.sms_type ++ service_bytes m)))
  at_61 = behind (sms_bytes m) m.fee_target_number _ 44 16 at_44

  at_66 :
      drop 66 (sms_bytes m)
      ≡ field 80 m.parent_id ++ (0 ∷ (int_bytes m.sms_type ++ service_bytes m))
  at_66 = behind (sms_bytes m) m.child_code _ 61 4 at_61

  at_148 : drop 148 (sms_bytes m) ≡ int_bytes m.sms_type ++ service_bytes m
  at_148 =
      drop-drop 147 1 (sms_bytes m) ∙ ap (drop 1) (behind (sms_bytes m) m.parent_id _ 66 80 at_66)

  at_152 : drop 152 (sms_bytes m) ≡ service_bytes m
  at_152 = drop-drop 148 4 (sms_bytes m) ∙ ap (drop 4) at_148

  at_156 :
      drop 156 (sms_bytes m)
      ≡ word_bytes m.arrive_time ++ (field 10 m.service_code ++ (0 ∷ money_bytes m))
  at_156 = drop-drop 152 4 (sms_bytes m) ∙ ap (drop 4) at_152

  at_160 : drop 160 (sms_bytes m) ≡ field 10 m.service_code ++ (0 ∷ money_bytes m)
  at_160 = drop-drop 156 4 (sms_bytes m) ∙ ap (drop 4) at_156

  at_172 : drop 172 (sms_bytes m) ≡ money_bytes m
  at_172 =
      drop-drop 171 1 (sms_bytes m)
      ∙ ap (drop 1) (behind (sms_bytes m) m.service_code _ 160 10 at_160)

  at_176 : drop 176 (sms_bytes m) ≡ word_bytes m.body_length ++ m.body
  at_176 = drop-drop 172 4 (sms_bytes m) ∙ ap (drop 4) at_172

  at_180 : drop 180 (sms_bytes m) ≡ m.body
  at_180 = drop-drop 176 4 (sms_bytes m) ∙ ap (drop 4) at_176

  pub length-sms_bytes : length (sms_bytes m) ≡ 180 + length m.body
  unfolding sms_bytes
  length-sms_bytes = omega (
    arith,
    length-field_append 16 m.sender_number
        (field 16 m.target_number ++ (0 ∷ 0 ∷ (int_bytes m.fee_type ++ fee_bytes m))),
    length-field_append 16 m.target_number (0 ∷ 0 ∷ (int_bytes m.fee_type ++ fee_bytes m)),
    length-field_append 16 m.fee_target_number (
        field 4 m.child_code
        ++ (field 80 m.parent_id ++ (0 ∷ (int_bytes m.sms_type ++ service_bytes m)))),
    length-field_append 4 m.child_code
        (field 80 m.parent_id ++ (0 ∷ (int_bytes m.sms_type ++ service_bytes m))),
    length-field_append 80 m.parent_id (0 ∷ (int_bytes m.sms_type ++ service_bytes m)),
    length-field_append 10 m.service_code (0 ∷ money_bytes m),
  )

-- A message that the struct can hold is read again from its bytes as it was written.
pub sms_of_bytes-sms_bytes : (m : SmsMessage) → IsStorable m → sms_of_bytes (sms_bytes m) ≡ some m
unfolding sms_of_bytes
sms_of_bytes-sms_bytes m ok =
    let len : read_word (drop 176 (sms_bytes m)) ≡ m.body_length =
      ap read_word (at_176 m) ∙ read_word-word_bytes m.body_length m.body ok.body_length_fits in
    let inside : ltb (length (sms_bytes m)) (180 + m.body_length) ≡ false =
      not_over (sms_bytes m) m.body_length
        (length-sms_bytes m ∙ ap (◌+◌ 180) (sym ok.body_whole)) in
    let sender_number : c_str (drop 4 (sms_bytes m)) ≡ m.sender_number =
      ap c_str (at_4 m)
      ∙ c_str-FitsIn 16 m.sender_number
          (field 16 m.target_number ++ (0 ∷ 0 ∷ (int_bytes m.fee_type ++ fee_bytes m)))
          ok.sender_fits in
    let target_number : c_str (drop 21 (sms_bytes m)) ≡ m.target_number =
      ap c_str (at_21 m)
      ∙ c_str-FitsIn 16 m.target_number (0 ∷ 0 ∷ (int_bytes m.fee_type ++ fee_bytes m))
          ok.target_fits in
    let fee_type : signed32 (read_word (drop 40 (sms_bytes m))) ≡ m.fee_type =
      ap (λ (l : List ℕ). signed32 (read_word l)) (at_40 m)
      ∙ signed32-int_bytes m.fee_type (fee_bytes m) ok.fee_type_fits in
    let fee_target_number : c_str (drop 44 (sms_bytes m)) ≡ m.fee_target_number =
      ap c_str (at_44 m)
      ∙ c_str-FitsIn 16 m.fee_target_number
          (field 4 m.child_code
            ++ (field 80 m.parent_id ++ (0 ∷ (int_bytes m.sms_type ++ service_bytes m))))
          ok.fee_target_fits in
    let child_code : c_str (drop 61 (sms_bytes m)) ≡ m.child_code =
      ap c_str (at_61 m)
      ∙ c_str-FitsIn 4 m.child_code
          (field 80 m.parent_id ++ (0 ∷ (int_bytes m.sms_type ++ service_bytes m))) ok.child_fits in
    let parent_id : c_str (drop 66 (sms_bytes m)) ≡ m.parent_id =
      ap c_str (at_66 m)
      ∙ c_str-FitsIn 80 m.parent_id (0 ∷ (int_bytes m.sms_type ++ service_bytes m))
          ok.parent_fits in
    let sms_type : signed32 (read_word (drop 148 (sms_bytes m))) ≡ m.sms_type =
      ap (λ (l : List ℕ). signed32 (read_word l)) (at_148 m)
      ∙ signed32-int_bytes m.sms_type (service_bytes m) ok.sms_type_fits in
    let send_time : read_word (drop 152 (sms_bytes m)) ≡ m.send_time =
      ap read_word (at_152 m)
      ∙ read_word-word_bytes m.send_time
          (word_bytes m.arrive_time ++ (field 10 m.service_code ++ (0 ∷ money_bytes m)))
          ok.send_time_fits in
    let arrive_time : read_word (drop 156 (sms_bytes m)) ≡ m.arrive_time =
      ap read_word (at_156 m)
      ∙ read_word-word_bytes m.arrive_time (field 10 m.service_code ++ (0 ∷ money_bytes m))
          ok.arrive_time_fits in
    let service_code : c_str (drop 160 (sms_bytes m)) ≡ m.service_code =
      ap c_str (at_160 m) ∙ c_str-FitsIn 10 m.service_code (0 ∷ money_bytes m) ok.service_fits in
    let fee_money : signed32 (read_word (drop 172 (sms_bytes m))) ≡ m.fee_money =
      ap (λ (l : List ℕ). signed32 (read_word l)) (at_172 m)
      ∙ signed32-int_bytes m.fee_money (word_bytes m.body_length ++ m.body) ok.fee_money_fits in
    let whole : take m.body_length m.body ≡ m.body =
      take_all m.body_length m.body (omega (arith, ok.body_whole)) in
    rw
      (
        len,
        inside,
        length_at m ok.length_fits,
        sender_number,
        target_number,
        fee_type,
        fee_target_number,
        child_code,
        parent_id,
        sms_type,
        send_time,
        arrive_time,
        service_code,
        fee_money,
        at_180 m,
        whole,
      )
      refl
