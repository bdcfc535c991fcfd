-- ===== src/Php/Message.antt =====
-- One round of the child protocol's loop with the message of `sendsms`.
use aka_smsd.Common.{
  ℕ, suc, ◌+◌, ◌^◌, ◌≤◌, ◌<◌, ◌≡◌, refl, sym, ap, ◌∙◌, arith, true, List, [], ◌∷◌, ◌++◌, ltb,
  if◌then◌else◌, length, take, drop, take-append, drop-append, append_assoc, length-append,
}
use aka_smsd.Common.Int.{ℤ, pos, leb_ℤ}
use aka_smsd.Common.Text.{codes, field, length-field}
use aka_smsd.Wire.{
  sms_long_to_byte_by_shifts, sms_byte_to_long, sms_long_to_byte, long_to_byte-by_shifts,
  byte_to_long-long_to_byte,
}
use aka_smsd.Gateway.Message.{signed32}
use aka_smsd.ChildProtocol.{Services, Cp, done, read_into, sm_body_length, do_message}
use aka_smsd.ChildProtocol.Session.{
  ◌>>=◌, next_packet, after_text, after_body, after_head, serve_one, serve,
}
use aka_smsd.Php.{message_packet}
use aka_smsd.Php.Login.{read_into_fits, bind_done}

abbrev message_head : List ℕ
message_head = 0 ∷ 0 ∷ 0 ∷ 0 ∷ 2 ∷ 0 ∷ 0 ∷ 0 ∷ 57 ∷ 0 ∷ 0 ∷ 0 ∷ 0 ∷ []

-- The three numbers, the two types and the length of the text.
abbrev numbers : List ℕ → List ℕ → List ℕ
numbers sender target = field 16 sender ++ (field 16 target ++ (field 16 target ++ (0 ∷ 0 ∷ [])))

length-numbers : (sender target : List ℕ) → length (numbers sender target) ≡ 53
length-numbers sender target = omega (
  arith,
  length-append (field 16 sender) (field 16 target ++ (field 16 target ++ (0 ∷ 0 ∷ []))),
  length-append (field 16 target) (field 16 target ++ (0 ∷ 0 ∷ [])),
  length-append (field 16 target) (0 ∷ 0 ∷ []),
  length-field 16 sender,
  length-field 16 target,
)

regrouped :
    (a b c l content : List ℕ)
    → a ++ (b ++ (c ++ (0 ∷ 0 ∷ (l ++ content))))
      ≡ ((a ++ (b ++ (c ++ (0 ∷ 0 ∷ [])))) ++ l) ++ content
regrouped a b c l content = simp append_assoc

message_packet-parts :
    (id target content : List ℕ)
    → length content < 2 ^ 32
    → message_packet id target content
      ≡ message_head
        ++ ((numbers (take 15 (codes "11" ++ id)) target ++ sms_long_to_byte (length content))
            ++ content)
unfolding message_packet sms_long_to_byte_by_shifts
message_packet-parts id target content small =
    ap (λ (l : List ℕ). message_head ++ l)
      (ap
          (λ (l : List ℕ).
            field 16 (take 15 (codes "11" ++ id))
            ++ (field 16 target ++ (field 16 target ++ (0 ∷ 0 ∷ (l ++ content)))))
          (long_to_byte-by_shifts (length content) small)
        ∙ regrouped (field 16 (take 15 (codes "11" ++ id))) (field 16 target) (field 16 target)
            (sms_long_to_byte (length content)) content)

length-long : (n : ℕ) → length (sms_long_to_byte n) ≡ 4
unfolding sms_long_to_byte
length-long n = refl

sm_body_length-numbers :
    (front : List ℕ) (n : ℕ) (rest : List ℕ)
    → length front ≡ 53
    → n < 2 ^ 32
    → sm_body_length (message_head ++ ((front ++ sms_long_to_byte n) ++ rest)) ≡ n
unfolding sm_body_length
sm_body_length-numbers front n rest size small =
    ap (λ (l : List ℕ). sms_byte_to_long (take 4 (drop 53 l)))
      (append_assoc front (sms_long_to_byte n) rest)
    ∙ ap (λ (l : List ℕ). sms_byte_to_long (take 4 l))
        (drop-append 53 front (sms_long_to_byte n ++ rest) size)
    ∙ ap sms_byte_to_long (take-append 4 (sms_long_to_byte n) rest (length-long n))
    ∙ byte_to_long-long_to_byte n small

module _ (sv : Services) where
  head_step :
      (s : Cp sv) (net : sv.Net) (tries : ℕ) (buf : List ℕ)
      → sv.read s.net (pos 13) ≡ (net, pos 13, message_head)
      → serve_one sv (suc tries) buf s
        ≡ after_head sv (suc tries) (13, message_head ++ drop 13 buf) (record s { net = net })
  unfolding serve_one
  head_step s net tries buf e =
      bind_done sv (read_into sv (suc tries) 0 (pos 13) buf) (after_head sv (suc tries)) s
        (record s { net = net }) (13, message_head ++ drop 13 buf)
        (read_into_fits sv s net tries 0 13 (pos 13) message_head buf e (omega arith))

  body_step :
      (s : Cp sv) (net : sv.Net) (tries : ℕ) (middle rest : List ℕ)
      → length middle ≡ 57
      → sv.read s.net (pos 57) ≡ (net, pos 57, middle)
      → after_head sv (suc tries) (13, message_head ++ rest) s
        ≡ after_body sv
            (suc tries)
            57
            (57, message_head ++ (middle ++ drop (13 + length middle) (message_head ++ rest)))
            (record s { net = net })
  unfolding after_head sms_byte_to_long
  body_step s net tries middle rest size e =
      bind_done sv (read_into sv (suc tries) 13 (pos 57) (message_head ++ rest))
        (after_body sv (suc tries) 57) s (record s { net = net })
        (57, message_head ++ (middle ++ drop (13 + length middle) (message_head ++ rest)))
        (read_into_fits sv s net tries 13 57 (pos 57) middle (message_head ++ rest) e
          (omega (arith, size)))

  text_step :
      (s : Cp sv) (net : sv.Net) (tries : ℕ) (middle content rest : List ℕ)
      → length middle ≡ 57
      → sm_body_length (message_head ++ (middle ++ rest)) ≡ length content
      → 70 + length content ≤ 1000
      → sv.read s.net (pos (length content)) ≡ (net, pos (length content), content)
      → (behind : List ℕ) × (after_body sv (suc tries) 57 (57, message_head ++ (middle ++ rest)) s
          ≡ after_text sv
              (pos (length content))
              (length content, message_head ++ (middle ++ (content ++ behind)))
              (record s { net = net }))
  unfolding after_body
  text_step s net tries middle content rest size shown small e =
      let buf : List ℕ = message_head ++ (middle ++ rest) in
      let behind : List ℕ = drop (70 + length content) buf in
      let positive : ltb (length content) (2 ^ 31) ≡ true = ground arith in
      let len : signed32 (sm_body_length buf) ≡ pos (length content) =
        ap signed32 shown ∙ rw positive refl in
      let placed =
        read_into_fits sv s net tries 70 (length content) (pos (length content)) content buf e
          small in
      let front =
        ap (λ (l : List ℕ). message_head ++ (l ++ (content ++ behind)))
          (take-append 57 middle rest size) in
      (
        behind,
        ap (λ (z : ℤ). (◌>>=◌ sv (read_into sv (suc tries) 70 z buf) (after_text sv z)) s) len
            ∙ bind_done sv (read_into sv (suc tries) 70 (pos (length content)) buf)
                (after_text sv (pos (length content))) s (record s { net = net })
                (length content, message_head ++ (take 57 (middle ++ rest) ++ (content ++ behind)))
                placed
            ∙ ap
                (λ (l : List ℕ).
                  after_text sv (pos (length content)) (length content, l) (record s { net = net }))
                front,
      )

  handled_step :
      (s s' : Cp sv) (n : ℕ) (buf : List ℕ)
      → do_message sv buf s ≡ done s'
      → after_text sv (pos n) (n, buf) s ≡ done (next_packet buf, s')
  unfolding after_text
  handled_step s s' n buf e =
      let whole : leb_ℤ (pos n) (pos n) ≡ true = ground arith in
      rw (whole, if◌then◌else◌, ◌>>=◌, e) refl

  -- The loop takes the packet, when it comes in as its head, its members and its text, as
  -- `doMessage` does.
  pub serve-message_packet :
      (s : Cp sv) (n1 n2 n3 : sv.Net) (tries rounds : ℕ) (id target content buf : List ℕ)
      → 70 + length content ≤ 1000
      → sv.read s.net (pos 13) ≡ (n1, pos 13, take 13 (message_packet id target content))
      → sv.read n1 (pos 57) ≡ (n2, pos 57, take 57 (drop 13 (message_packet id target content)))
      → sv.read n2 (pos (length content))
        ≡ (n3, pos (length content), drop 70 (message_packet id target content))
      → (behind : List ℕ) × ((s' : Cp sv)
          → do_message sv (message_packet id target content ++ behind) (record s { net = n3 })
            ≡ done s'
          → serve sv (suc tries) (suc rounds) buf s
            ≡ serve sv (suc tries) rounds (message_packet id target content ++ behind) s')
  unfolding serve
  serve-message_packet s n1 n2 n3 tries rounds id target content buf small e1 e2 e3 =
      let front : List ℕ = numbers (take 15 (codes "11" ++ id)) target in
      let middle : List ℕ = front ++ sms_long_to_byte (length content) in
      let few : length content < 2 ^ 32 = omega arith in
      let parts = message_packet-parts id target content few in
      let width : length middle ≡ 57 = omega (
        arith,
        length-append front (sms_long_to_byte (length content)),
        length-numbers (take 15 (codes "11" ++ id)) target,
        length-long (length content),
      ) in
      let head : take 13 (message_packet id target content) ≡ message_head = ap (take 13) parts in
      let members : take 57 (drop 13 (message_packet id target content)) ≡ middle =
        ap (λ (l : List ℕ). take 57 (drop 13 l)) parts ∙ take-append 57 middle content width in
      let text : drop 70 (message_packet id target content) ≡ content =
        ap (drop 70) parts ∙ drop-append 57 middle content width in
      let rest : List ℕ = drop (13 + length middle) (message_head ++ drop 13 buf) in
      let (behind, read) =
        text_step (record s { net = n2 }) n3 tries middle content rest width
          (sm_body_length-numbers front (length content) rest
            (length-numbers (take 15 (codes "11" ++ id)) target) few)
          small (e3 ∙ ap (λ (l : List ℕ). (n3, pos (length content), l)) text) in
      let whole : message_packet id target content ++ behind
          ≡ message_head ++ (middle ++ (content ++ behind)) =
        ap (λ (l : List ℕ). l ++ behind) parts
        ∙ ap (λ (l : List ℕ). message_head ++ l) (append_assoc middle content behind) in
      (
        behind,
        λ s' e.
            let handled : after_text sv (pos (length content))
                  (length content, message_packet id target content ++ behind)
                  (record s { net = n3 })
                ≡ done (next_packet (message_packet id target content ++ behind), s') =
              handled_step (record s { net = n3 }) s' (length content)
                (message_packet id target content ++ behind) e in
            let one : serve_one sv (suc tries) buf s
                ≡ done (next_packet (message_packet id target content ++ behind), s') =
              head_step s n1 tries buf (e1 ∙ ap (λ (l : List ℕ). (n1, pos 13, l)) head)
              ∙ body_step (record s { net = n1 }) n2 tries middle (drop 13 buf) width
                  (e2 ∙ ap (λ (l : List ℕ). (n2, pos 57, l)) members)
              ∙ read
              ∙ ap
                  (λ (l : List ℕ).
                    after_text sv (pos (length content)) (length content, l)
                      (record s { net = n3 }))
                  (sym whole)
              ∙ handled in
            rw (one, serve) refl,
      )
