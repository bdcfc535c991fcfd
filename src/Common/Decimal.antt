-- ===== src/Common/Decimal.antt =====
-- Decimal text of C: `%d`, `%02d` and `atoi`.
use aka_smsd.Common.{
  ℕ, zero, suc, ◌+◌, ◌-◌, ◌*◌, ◌/◌, ◌%◌, ◌^◌, ◌≤◌, ◌<◌, ◌≡◌, refl, ap, ◌∙◌, arith, Bool, ◌&&◌, ◌||◌,
  List, [], ◌∷◌, ◌++◌, ltb, leb, ◌==◌, if◌then◌else◌, append_assoc, append-nil, sym, inl, inr,
  Bool-cases, length, length-append,
}
use aka_smsd.Common.Int.{ℤ, pos, negsuc}
use native.Mathlib.Nat.{pow-suc}

-- The digits of a number below 10 ^ fuel, most significant first.
unfoldable pub print_digits : ℕ → ℕ → List ℕ
print_digits zero n = []
print_digits (suc fuel) n =
    let shorter = print_digits fuel (n / 10) ++ (b'0' + n % 10) ∷ [] in
    if ltb n 10 then (b'0' + n) ∷ [] else shorter

-- `%d`; ten digits are enough for an `int`.
unfoldable pub print_int : ℤ → List ℕ
unfolding print_digits
print_int (pos n) = print_digits 10 n
print_int (negsuc n) = b'-' ∷ print_digits 10 (suc n)

-- `%02d`
unfoldable pub print_int_02 : ℤ → List ℕ
unfolding print_int
print_int_02 (pos n) = if ltb n 10 then b'0' ∷ print_int (pos n) else print_int (pos n)
print_int_02 (negsuc n) = print_int (negsuc n)

-- `a / d` and `a % d` of C round towards zero; `d` is positive.
abbrev pub neg : ℕ → ℤ
neg zero = pos 0
neg (suc n) = negsuc n

abbrev pub quot_int : ℤ → ℕ → ℤ
quot_int (pos n) d = pos (n / d)
quot_int (negsuc n) d = neg (suc n / d)

abbrev pub rem_int : ℤ → ℕ → ℤ
rem_int (pos n) d = pos (n % d)
rem_int (negsuc n) d = neg (suc n % d)

abbrev pub is_digit : ℕ → Bool
is_digit c = leb b'0' c && leb c b'9'

-- The `isspace` of the C locale.
abbrev pub is_space : ℕ → Bool
is_space c = c == b' ' || leb 9 c && leb c 13

-- The number that the leading digits stand for, after `acc`.
unfoldable pub read_digits : ℕ → List ℕ → ℕ
read_digits acc [] = acc
read_digits acc (c ∷ s) =
    let rest = read_digits (acc * 10 + (c - b'0')) s in if is_digit c then rest else acc

unfoldable pub skip_space : List ℕ → List ℕ
skip_space [] = []
skip_space (c ∷ s) = let rest = skip_space s in if is_space c then rest else c ∷ s

unfoldable pub read_signed : List ℕ → ℤ
unfolding read_digits
read_signed [] = pos 0
read_signed (c ∷ s) =
    if c == b'-'
    then neg (read_digits 0 s)
    else if c == b'+'
    then pos (read_digits 0 s)
    else pos (read_digits 0 (c ∷ s))

-- `atoi`, for texts whose number fits an `int`.
unfoldable pub atoi : List ℕ → ℤ
unfolding skip_space read_signed
atoi s = read_signed (skip_space s)

read_digits_digit :
    (acc d m : ℕ) (s : List ℕ)
    → d < 10
    → acc * 10 + d ≡ m
    → read_digits acc ((b'0' + d) ∷ s) ≡ read_digits m s
unfolding read_digits
read_digits_digit acc d m s h e =
    let e' : acc * 10 + (b'0' + d - b'0') ≡ m = omega arith in
    ground (arith, ap (λ (t : ℕ). read_digits t s) e')

-- What was printed is read back, and reading goes on behind it.
pub read_digits-print :
    (fuel n : ℕ) (s : List ℕ)
    → n < 10 ^ fuel
    → read_digits 0 (print_digits fuel n ++ s) ≡ read_digits n s
unfolding print_digits
read_digits-print zero n s h = ap (λ (t : ℕ). read_digits t s) (omega arith)
read_digits-print (suc fuel) n s h = elim (Bool-cases (ltb n 10)) [
  | inl small ↦ rw small (read_digits_digit 0 n n s (ground arith) (omega arith))
  | inr large ↦
      let smaller : n / 10 < 10 ^ fuel = omega (arith, pow-suc 10 fuel) in
      rw large (
        ap (read_digits 0) (append_assoc (print_digits fuel (n / 10)) _ s)
        ∙ read_digits-print fuel (n / 10) _ smaller
        ∙ read_digits_digit (n / 10) (n % 10) n s (omega arith) (omega arith))
]

abbrev pub StartsWithDigit : List ℕ → Type 0
StartsWithDigit [] = ⊥
StartsWithDigit (c ∷ s) = (b'0' ≤ c) × (c ≤ b'9')

pub StartsWithDigit-append : (s t : List ℕ) → StartsWithDigit s → StartsWithDigit (s ++ t)
StartsWithDigit-append [] t h = absurd h
StartsWithDigit-append (c ∷ s) t h = h

pub print_digits-StartsWithDigit :
    (fuel n : ℕ) → n < 10 ^ suc fuel → StartsWithDigit (print_digits (suc fuel) n)
unfolding print_digits
print_digits-StartsWithDigit zero n h = ground arith
print_digits-StartsWithDigit (suc fuel) n h = elim (Bool-cases (ltb n 10)) [
  | inl small ↦ rw small (ground arith)
  | inr large ↦ rw large (
      StartsWithDigit-append _ _
        (print_digits-StartsWithDigit fuel (n / 10) (omega (arith, pow-suc 10 (suc fuel)))))
]

pub atoi-digits : (s : List ℕ) → StartsWithDigit s → atoi s ≡ pos (read_digits 0 s)
unfolding atoi
atoi-digits [] h = absurd h
atoi-digits (c ∷ s) h = ground arith

-- `atoi` undoes `%d` on every `int` that is not negative.
pub atoi-print_int : (n : ℕ) → n < 10 ^ 10 → atoi (print_int (pos n)) ≡ pos n
unfolding print_int
atoi-print_int n h =
    atoi-digits _ (print_digits-StartsWithDigit 9 n h)
    ∙ ap pos (
        ap (read_digits 0) (sym (append-nil _))
        ∙ read_digits-print 10 n [] h
        ∙ unfold read_digits in refl)

length-print_digits : (fuel n : ℕ) → length (print_digits fuel n) ≤ fuel
unfolding print_digits
length-print_digits zero n = omega arith
length-print_digits (suc fuel) n = ground (
  arith,
  length-print_digits fuel (n / 10),
  length-append (print_digits fuel (n / 10)) ((b'0' + n % 10) ∷ []),
)

StartsWithDigit-length : (s : List ℕ) → StartsWithDigit s → 0 < length s
StartsWithDigit-length [] h = absurd h
StartsWithDigit-length (c ∷ s) h = omega arith

-- The text of a number that is not negative has one to ten digits.
pub length-print_int :
    (n : ℕ) → n < 10 ^ 10 → (0 < length (print_int (pos n))) × (length (print_int (pos n)) ≤ 10)
unfolding print_int
length-print_int n h =
    (StartsWithDigit-length _ (print_digits-StartsWithDigit 9 n h), length-print_digits 10 n)
