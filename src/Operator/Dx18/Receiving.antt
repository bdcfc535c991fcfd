-- ===== src/Operator/Dx18/Receiving.antt =====
-- A message of a phone, from the operator's packet to the storage.
use aka_smsd.Common.{
  ℕ, zero, suc, ◌+◌, ◌^◌, ◌≤◌, ◌<◌, ◌≡◌, refl, ap, ◌∙◌, arith, List, [], ◌∷◌, ◌++◌, leb, ltb, true,
  false, length, take, drop, take_all, length-append, append_assoc, drop-append, take-append,
  drop-drop,
}
use aka_smsd.Common.Int.{ℤ, pos}
use aka_smsd.Common.Text.{IsText, c_str, strncpy, length-strncpy}
use aka_smsd.Sms.{SmsMessage}
use aka_smsd.Gateway.Message.{signed32}
use aka_smsd.Gateway.World.{done}
use aka_smsd.Operator.Words.{word_bytes, read_word, read_word-word_bytes}
use aka_smsd.Operator.Dx18.{
  Services, Dx, mo_mobile_no, mo_sp_code, mo_len_msg, formated_msg, store, after_body, after_head,
  on_accept,
}

-- The operator's head of a message of `len` bytes from a phone to a service number of 4 characters
-- and more.
abbrev pub mo_info_bytes : List ℕ → List ℕ → List ℕ → ℕ → List ℕ
mo_info_bytes phone operator number len =
    (word_bytes 344 ++ (word_bytes (44 + len) ++ (word_bytes 0 ++ word_bytes 0)))
    ++ (strncpy 16 phone ++ ((operator ++ strncpy 16 number) ++ word_bytes len))

c_str-strncpy_all : (n : ℕ) (s : List ℕ) → IsText s → length s ≤ n → c_str (strncpy n s) ≡ s
unfolding c_str strncpy
c_str-strncpy_all zero [] h k = refl
c_str-strncpy_all zero (x ∷ s) h k = absurd (omega arith)
c_str-strncpy_all (suc n) [] h k = refl
c_str-strncpy_all (suc n) (x ∷ s) h k = ground (arith, c_str-strncpy_all n s h.1)

module _ (phone operator number : List ℕ) (len : ℕ) (four : length operator ≡ 4) where
  pub mo_mobile_no-mo_info_bytes :
      IsText phone
      → length phone ≤ 16
      → mo_mobile_no (mo_info_bytes phone operator number len) ≡ phone
  unfolding mo_mobile_no
  mo_mobile_no-mo_info_bytes text short =
      ap c_str (take-append 16 (strncpy 16 phone) _ (length-strncpy 16 phone))
      ∙ c_str-strncpy_all 16 phone text short

  behind_phone :
      drop 32 (mo_info_bytes phone operator number len)
      ≡ (operator ++ strncpy 16 number) ++ word_bytes len
  behind_phone = drop-append 16 (strncpy 16 phone) _ (length-strncpy 16 phone)

  pub mo_sp_code-mo_info_bytes :
      IsText number
      → length number ≤ 16
      → mo_sp_code (mo_info_bytes phone operator number len) ≡ number
  unfolding mo_sp_code
  mo_sp_code-mo_info_bytes text short =
      let code : drop 36 (mo_info_bytes phone operator number len)
          ≡ strncpy 16 number ++ word_bytes len =
        drop-drop 32 4 (mo_info_bytes phone operator number len)
        ∙ ap (drop 4) (behind_phone ∙ append_assoc operator (strncpy 16 number) (word_bytes len))
        ∙ drop-append 4 operator (strncpy 16 number ++ word_bytes len) four in
      ap (λ (l : List ℕ). c_str (take 16 l)) code
      ∙ ap c_str (take-append 16 (strncpy 16 number) (word_bytes len) (length-strncpy 16 number))
      ∙ c_str-strncpy_all 16 number text short

  -- The end of the head.
  pub last_bytes : drop 52 (mo_info_bytes phone operator number len) ≡ word_bytes len
  last_bytes =
      let size : length (operator ++ strncpy 16 number) ≡ 20 =
        omega (arith, length-append operator (strncpy 16 number), length-strncpy 16 number) in
      drop-drop 32 20 (mo_info_bytes phone operator number len)
      ∙ ap (drop 20) behind_phone
      ∙ drop-append 20 (operator ++ strncpy 16 number) (word_bytes len) size

  mo_len_msg-mo_info_bytes :
      len < 2 ^ 31 → mo_len_msg (mo_info_bytes phone operator number len) ≡ pos len
  unfolding mo_len_msg
  mo_len_msg-mo_info_bytes small =
      let value : read_word (word_bytes len) ≡ len = read_word-word_bytes len [] (omega arith) in
      ap (λ (l : List ℕ). signed32 (read_word l)) last_bytes ∙ ap signed32 value ∙ ground arith

module _ (sv : Services) where
  after_body-whole :
      (s : Dx sv) (head body : List ℕ) (net : sv.Net)
      → mo_len_msg head ≡ pos (length body)
      → length body ≤ 1000
      → after_body sv head s (net, pos (length body), body)
        ≡ store sv head body (pos (length body)) (record s { net = net })
  unfolding after_body
  after_body-whole s head body net size short =
      let fits : ltb 1000 (length body) ≡ false = ground arith in
      let whole : leb (length body + 0) (length body + 0) ≡ true = ground arith in
      rw (fits, size, whole) refl

  store_lem :
      (s : Dx sv) (head body phone number : List ℕ)
      → mo_mobile_no head ≡ phone
      → mo_sp_code head ≡ number
      → store sv head body (pos (length body)) s
        ≡ done (
          pos 0,
          record s {
            disk =
                (sv.write_sms s.disk phone number (formated_msg s.clock head body (length body))).0;
          },
        )
  unfolding store formated_msg
  store_lem s head body phone number sender target = rw (sender, target) refl

-- The message that is handed to the storage.
pub on_accept-formated_msg :
    (sv : Services) (s : Dx sv) (phone operator number body : List ℕ) (net net' : sv.Net)
    → length operator ≡ 4
    → IsText phone
    → length phone ≤ 16
    → IsText number
    → length number ≤ 16
    → length body ≤ 1000
    → sv.read s.net (pos 56) ≡ (net, pos 56, mo_info_bytes phone operator number (length body))
    → sv.read net (pos (length body)) ≡ (net', pos (length body), body)
    → on_accept sv s
      ≡ done (
        pos 0,
        record s {
          net = net';
          disk =
              (sv.write_sms s.disk phone number (
                formated_msg s.clock
                  (mo_info_bytes phone operator number (length body))
                  body
                  (length body))).0;
        },
      )
unfolding on_accept after_head
on_accept-formated_msg sv s phone operator number body net net' four phone_text phone_short
      number_text number_short body_short first second =
    let head : List ℕ = mo_info_bytes phone operator number (length body) in
    let sender =
      mo_mobile_no-mo_info_bytes phone operator number (length body) four phone_text phone_short in
    let target =
      mo_sp_code-mo_info_bytes phone operator number (length body) four number_text number_short in
    let size = mo_len_msg-mo_info_bytes phone operator number (length body) four (omega arith) in
    ap (after_head sv s) first
    ∙ ap (λ (n : ℤ). after_body sv head (record s { net = net }) (sv.read net n)) size
    ∙ ap (after_body sv head (record s { net = net })) second
    ∙ after_body-whole sv (record s { net = net }) head body net' size body_short
    ∙ store_lem sv (record s { net = net' }) head body phone number sender target

-- A message that the operator passes on - from a phone and to a number of at most 16 characters
-- each behind the operator's four, with up to 1000 bytes, which the stream reads whole - is handed
-- to the storage exactly once, from this phone to this number and with these bytes, and `OnAccept`
-- returns 0 whatever the storage answers.
pub on_accept-mo_info_bytes :
    (sv : Services) (s : Dx sv) (phone operator number body : List ℕ) (net net' : sv.Net)
    → length operator ≡ 4
    → IsText phone
    → length phone ≤ 16
    → IsText number
    → length number ≤ 16
    → length body ≤ 1000
    → sv.read s.net (pos 56) ≡ (net, pos 56, mo_info_bytes phone operator number (length body))
    → sv.read net (pos (length body)) ≡ (net', pos (length body), body)
    → (msg : SmsMessage) × (on_accept sv s
        ≡ done (pos 0, record s { net = net'; disk = (sv.write_sms s.disk phone number msg).0 }))
      × (msg.sender_number ≡ phone)
      × (msg.target_number ≡ number)
      × (msg.body_length ≡ length body)
      × (msg.body ≡ body)
unfolding formated_msg
on_accept-mo_info_bytes sv s phone operator number body net net' four phone_text phone_short
      number_text number_short body_short first second =
    (
      formated_msg s.clock (mo_info_bytes phone operator number (length body)) body (length body),
      on_accept-formated_msg sv s phone operator number body net net' four phone_text phone_short
          number_text number_short body_short first second,
      mo_mobile_no-mo_info_bytes phone operator number (length body) four phone_text phone_short,
      mo_sp_code-mo_info_bytes phone operator number (length body) four number_text number_short,
      refl,
      take_all (length body) body (omega arith),
    )
