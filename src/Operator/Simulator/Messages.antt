-- ===== src/Operator/Simulator/Messages.antt =====
-- A message of the driver, from its pieces to the storage.
use aka_smsd.Common.{
  ℕ, zero, suc, ◌+◌, ◌^◌, ◌≤◌, ◌<◌, ◌≡◌, refl, ap, ◌∙◌, arith, List, [], ◌∷◌, ◌++◌, ltb, false,
  length, take, drop, length-append, append_assoc, drop-append, take-append,
}
use aka_smsd.Common.Int.{pos}
use aka_smsd.Common.Text.{IsText, c_str, length-strncpy, strncpy}
use aka_smsd.Sms.{SmsMessage}
use aka_smsd.ChildProtocol.{done}
use aka_smsd.Operator.Words.{word_bytes, read_word, read_word-word_bytes}
use aka_smsd.Operator.Dx18.{Services, Dx, mo_mobile_no, mo_sp_code}
use aka_smsd.Operator.Dx18.Receiving.{
  mo_info_bytes, mo_mobile_no-mo_info_bytes, mo_sp_code-mo_info_bytes, last_bytes,
}
use aka_smsd.Operator.Simulator.{
  overwrite, is_outside, text_length, test_msg, read_text, store, after_head, on_accept,
}
use aka_smsd.Operator.Simulator.Pieces.{
  is_outside-fits, whole, Arrives, read_text-Arrives, overwrite_lem, overwrite-overwrite,
}

drop_within : (n : ℕ) (xs ys : List ℕ) → n ≤ length xs → drop n (xs ++ ys) ≡ drop n xs ++ ys
drop_within zero xs ys h = refl
drop_within (suc n) [] ys h = absurd (omega arith)
drop_within (suc n) (x ∷ xs) ys h = drop_within n xs ys (omega arith)

take_within : (n : ℕ) (xs ys : List ℕ) → n ≤ length xs → take n (xs ++ ys) ≡ take n xs
take_within zero xs ys h = refl
take_within (suc n) [] ys h = absurd (omega arith)
take_within (suc n) (x ∷ xs) ys h = ap (◌∷◌ x) (take_within n xs ys (omega arith))

length-drop_le : (n m : ℕ) (xs : List ℕ) → n + m ≤ length xs → m ≤ length (drop n xs)
length-drop_le zero m xs h = omega arith
length-drop_le (suc n) m [] h = absurd (omega arith)
length-drop_le (suc n) m (x ∷ xs) h = length-drop_le n m xs (omega arith)

window :
    (m n : ℕ) (xs ys : List ℕ) → n + m ≤ length xs → take m (drop n (xs ++ ys)) ≡ take m (drop n xs)
window m n xs ys h =
    ap (take m) (drop_within n xs ys (omega arith))
    ∙ take_within m (drop n xs) ys (length-drop_le n m xs h)

module _ (phone operator number : List ℕ) (len : ℕ) (four : length operator ≡ 4) where
  length-mo_info_bytes : length (mo_info_bytes phone operator number len) ≡ 56
  length-mo_info_bytes = omega (
    arith,
    length-append (strncpy 16 phone) ((operator ++ strncpy 16 number) ++ word_bytes len),
    length-append (operator ++ strncpy 16 number) (word_bytes len),
    length-append operator (strncpy 16 number),
    length-strncpy 16 phone,
    length-strncpy 16 number,
  )

  text_length-mo_info_bytes :
      (rest : List ℕ)
      → len < 2 ^ 32
      → text_length (mo_info_bytes phone operator number len ++ rest) ≡ len
  unfolding text_length
  text_length-mo_info_bytes rest small =
      ap read_word (
        drop_within 52 (mo_info_bytes phone operator number len) rest
          (omega (arith, length-mo_info_bytes))
        ∙ ap (λ (l : List ℕ). l ++ rest) (last_bytes phone operator number len four))
      ∙ read_word-word_bytes len rest small

  sender-mo_info_bytes :
      (rest : List ℕ)
      → IsText phone
      → length phone ≤ 16
      → mo_mobile_no (mo_info_bytes phone operator number len ++ rest) ≡ phone
  unfolding mo_mobile_no
  sender-mo_info_bytes rest text short =
      ap c_str (
        window 16 16 (mo_info_bytes phone operator number len) rest
          (omega (arith, length-mo_info_bytes)))
      ∙ mo_mobile_no-mo_info_bytes phone operator number len four text short

  target-mo_info_bytes :
      (rest : List ℕ)
      → IsText number
      → length number ≤ 16
      → mo_sp_code (mo_info_bytes phone operator number len ++ rest) ≡ number
  unfolding mo_sp_code
  target-mo_info_bytes rest text short =
      ap c_str (
        window 16 36 (mo_info_bytes phone operator number len) rest
          (omega (arith, length-mo_info_bytes)))
      ∙ mo_sp_code-mo_info_bytes phone operator number len four text short

module _ (sv : Services) where
  store_lem :
      (s : Dx sv) (buf phone number : List ℕ) (net : sv.Net)
      → mo_mobile_no buf ≡ phone
      → mo_sp_code buf ≡ number
      → text_length buf ≤ 9944
      → store sv s (done (buf, net))
        ≡ done (record s {
          net = net;
          disk = (sv.write_sms s.disk phone number (test_msg s.clock buf)).0;
        })
  unfolding store test_msg
  store_lem s buf phone number net sender target short =
      let fits : ltb 10000 (56 + text_length buf) ≡ false = ground (arith, short) in
      rw (fits, sender, target) refl

  after_head_lem :
      (s : Dx sv) (rounds : ℕ) (garbage head : List ℕ) (net : sv.Net)
      → length head ≡ 56
      → after_head sv rounds garbage s (net, pos 56, head)
        ≡ store sv s (
            read_text sv rounds 56
              (text_length (overwrite 0 head garbage))
              (overwrite 0 head garbage)
              net)
  unfolding after_head
  after_head_lem s rounds garbage head net size =
      let fits : is_outside 0 head ≡ false = is_outside-fits 0 head (omega (arith, size)) in
      rw fits refl

-- A message of the driver, from a phone and to a number of at most 16 characters each, with a text
-- of up to 9944 bytes that comes in any pieces, none of them empty: `OnAccept` reads no more often
-- than there are pieces besides the head, and hands the message to the storage exactly once, from
-- this phone to this number and with the pieces put together, whatever was in its buffer before.
pub on_accept-Arrives :
    (sv : Services) (s : Dx sv) (phone operator number garbage piece : List ℕ)
    (pieces : List (List ℕ)) (net net' : sv.Net)
    → length operator ≡ 4
    → IsText phone
    → length phone ≤ 16
    → IsText number
    → length number ≤ 16
    → length (whole (piece ∷ pieces)) ≤ 9944
    → sv.read s.net (pos 56)
      ≡ (net, pos 56, mo_info_bytes phone operator number (length (whole (piece ∷ pieces))))
    → Arrives sv net (piece ∷ pieces) net'
    → (msg : SmsMessage) × (on_accept sv (suc (length pieces)) garbage s
        ≡ done (record s { net = net'; disk = (sv.write_sms s.disk phone number msg).0 }))
      × (msg.sender_number ≡ phone)
      × (msg.target_number ≡ number)
      × (msg.body_length ≡ length (whole (piece ∷ pieces)))
      × (msg.body ≡ whole (piece ∷ pieces))
unfolding on_accept test_msg
on_accept-Arrives sv s phone operator number garbage piece pieces net net' four phone_text
      phone_short number_text number_short short first arrives =
    let text : List ℕ = whole (piece ∷ pieces) in
    let head : List ℕ = mo_info_bytes phone operator number (length text) in
    let size = length-mo_info_bytes phone operator number (length text) four in
    let start : overwrite 0 head garbage ≡ head ++ drop (length head) garbage =
      overwrite_lem head garbage in
    let behind : List ℕ = drop (length (head ++ text)) garbage in
    let buf : List ℕ = head ++ (text ++ behind) in
    let filled : overwrite 56 text (overwrite 0 head garbage) ≡ buf =
      overwrite-overwrite 56 0 head text garbage (omega (arith, size))
      ∙ overwrite_lem (head ++ text) garbage
      ∙ append_assoc head text behind in
    let sender =
      sender-mo_info_bytes phone operator number (length text) four (text ++ behind) phone_text
        phone_short in
    let target =
      target-mo_info_bytes phone operator number (length text) four (text ++ behind) number_text
        number_short in
    let announced =
      text_length-mo_info_bytes phone operator number (length text) four (text ++ behind)
        (omega arith) in
    let asked : text_length (overwrite 0 head garbage) ≡ length text =
      ap text_length start
      ∙ text_length-mo_info_bytes phone operator number (length text) four
          (drop (length head) garbage) (omega arith) in
    (
      test_msg s.clock buf,
      ap (after_head sv (suc (length pieces)) garbage s) first
          ∙ after_head_lem sv s (suc (length pieces)) garbage head net size
          ∙ ap (store sv s) (
              ap (λ (n : ℕ). read_text sv (suc (length pieces)) 56 n (overwrite 0 head garbage) net)
                asked
              ∙ read_text-Arrives sv (suc (length pieces)) 56 (overwrite 0 head garbage) piece
                  pieces net net' (omega arith) (omega arith) arrives
              ∙ ap (λ (b : List ℕ). done (b, net')) filled)
          ∙ store_lem sv s buf phone number net' sender target (omega (arith, announced)),
      sender,
      target,
      announced,
      ap (λ (n : ℕ). take n (drop 56 buf)) announced
          ∙ ap (take (length text)) (drop-append 56 head (text ++ behind) size)
          ∙ take-append (length text) text behind refl,
    )
