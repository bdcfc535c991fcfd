-- ===== src/Operator/Simulator/Pieces.antt =====
-- A text that comes in pieces.
use aka_smsd.Common.{
  ℕ, zero, suc, ◌+◌, ◌-◌, ◌%◌, ◌^◌, ◌≤◌, ◌<◌, ◌≡◌, refl, sym, ap, ◌∙◌, arith, List, [], ◌∷◌, ◌++◌,
  true, false, length, drop, ◌==◌, length-append, drop_nil, append-nil, if◌then◌else◌,
}
use aka_smsd.Common.Int.{pos}
use aka_smsd.Gateway.Message.{signed32}
use aka_smsd.ChildProtocol.{done}
use aka_smsd.Operator.Dx18.{Services}
use aka_smsd.Operator.Simulator.{overwrite, is_outside, read_text}

pub overwrite-overwrite :
    (m n : ℕ) (a b buf : List ℕ)
    → m ≡ n + length a
    → overwrite m b (overwrite n a buf) ≡ overwrite n (a ++ b) buf
overwrite-overwrite zero zero [] b buf e = refl
overwrite-overwrite (suc m) zero [] b buf e = absurd (omega arith)
overwrite-overwrite zero zero (x ∷ a) b buf e = absurd (omega arith)
overwrite-overwrite (suc m) zero (x ∷ a) b [] e =
    ap (◌∷◌ x) (overwrite-overwrite m zero a b [] (omega arith))
overwrite-overwrite (suc m) zero (x ∷ a) b (c ∷ buf) e =
    ap (◌∷◌ x) (overwrite-overwrite m zero a b buf (omega arith))
overwrite-overwrite zero (suc n) a b buf e = absurd (omega arith)
overwrite-overwrite (suc m) (suc n) a b [] e = refl
overwrite-overwrite (suc m) (suc n) a b (c ∷ buf) e =
    ap (◌∷◌ c) (overwrite-overwrite m n a b buf (omega arith))

pub overwrite_lem : (a buf : List ℕ) → overwrite zero a buf ≡ a ++ drop (length a) buf
overwrite_lem [] buf = refl
overwrite_lem (x ∷ a) [] =
    ap (◌∷◌ x) (overwrite_lem a [] ∙ ap (λ (l : List ℕ). a ++ l) (drop_nil (length a)))
overwrite_lem (x ∷ a) (c ∷ buf) = ap (◌∷◌ x) (overwrite_lem a buf)

pub is_outside-fits :
    (n : ℕ) (bytes : List ℕ) → n + length bytes ≤ 10000 → is_outside n bytes ≡ false
is_outside-fits n [] h = refl
is_outside-fits n (b ∷ bytes) h = ground arith

abbrev pub whole : List (List ℕ) → List ℕ
whole [] = []
whole (piece ∷ pieces) = piece ++ whole pieces

module _ (sv : Services) where
  -- The stream gives these pieces, one at each `read` of what is still missing, and none is empty.
  abbrev pub Arrives : sv.Net → List (List ℕ) → sv.Net → Type 0
  Arrives net [] net' = net ≡ net'
  Arrives net (piece ∷ pieces) net' =
      (next : sv.Net) × (sv.read net (pos (length (piece ++ whole pieces)))
        ≡ (next, pos (length piece), piece))
      × (0 < length piece)
      × Arrives next pieces net'

  read_text-piece :
      (rounds len l : ℕ) (buf piece : List ℕ) (net next : sv.Net)
      → sv.read net (pos l) ≡ (next, pos (length piece), piece)
      → 0 < length piece
      → length piece ≤ l
      → len + l ≤ 10000
      → read_text sv (suc rounds) len l buf net ≡ (
          if l - length piece == 0
          then done (overwrite len piece buf, next)
          else read_text sv rounds
              (len + length piece)
              (l - length piece)
              (overwrite len piece buf)
              next)
  unfolding read_text
  read_text-piece rounds len l buf piece net next e some_bytes part small =
      let size : signed32 l ≡ pos l = ground arith in
      let fits = is_outside-fits len piece (omega arith) in
      let word : length piece % 2 ^ 32 ≡ length piece = omega arith in
      let not_zero : (length piece == 0) ≡ false = ground arith in
      let left : (l + (2 ^ 32 - length piece)) % 2 ^ 32 ≡ l - length piece = omega arith in
      let sum : (len + length piece) % 2 ^ 32 ≡ len + length piece = omega arith in
      rw (size, e, fits, word, not_zero, left, sum) refl

  -- The pieces are put together behind `len`.
  pub read_text-Arrives :
      (rounds len : ℕ) (buf piece : List ℕ) (pieces : List (List ℕ)) (net net' : sv.Net)
      → length pieces < rounds
      → len + length (whole (piece ∷ pieces)) ≤ 10000
      → Arrives net (piece ∷ pieces) net'
      → read_text sv rounds len (length (whole (piece ∷ pieces))) buf net
        ≡ done (overwrite len (whole (piece ∷ pieces)) buf, net')
  read_text-Arrives zero len buf piece pieces net net' enough small (next, e, some_bytes, rest) =
      absurd (omega arith)
  read_text-Arrives (suc rounds) len buf piece [] net net' enough small
        (next, e, some_bytes, rest) =
      let size = length-append piece [] in
      let none_left : (length (piece ++ []) - length piece == 0) ≡ true = ground (arith, size) in
      read_text-piece rounds len (length (piece ++ [])) buf piece net next e some_bytes
        (omega (arith, size)) small
      ∙ rw none_left (
          ap (λ (l : List ℕ). done (overwrite len l buf, next)) (sym (append-nil piece))
          ∙ ap (λ (n : sv.Net). done (overwrite len (piece ++ []) buf, n)) rest)
  read_text-Arrives (suc rounds) len buf piece (piece' ∷ pieces) net net' enough small
        (next, e, some_bytes, rest) =
      let all : List ℕ = whole (piece' ∷ pieces) in
      let size = length-append piece all in
      let more = length-append piece' (whole pieces) in
      let some_left : (length (piece ++ all) - length piece == 0) ≡ false =
        (let (_, _, some', _) = rest in ground (arith, size, more, some')) in
      let left : length (piece ++ all) - length piece ≡ length all = omega (arith, size) in
      read_text-piece rounds len (length (piece ++ all)) buf piece net next e some_bytes
        (omega (arith, size)) small
      ∙ rw (some_left, left)
          (read_text-Arrives rounds (len + length piece) (overwrite len piece buf) piece' pieces
              next net' (omega arith) (omega (arith, size)) rest
            ∙ ap (λ (b : List ℕ). done (b, net'))
                (overwrite-overwrite (len + length piece) len piece all buf refl))
