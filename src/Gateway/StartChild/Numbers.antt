-- ===== src/Gateway/StartChild/Numbers.antt =====
-- Which process is killed: the numbers in the file, one written over the other.
use aka_smsd.Common.{
  ℕ, zero, suc, ◌+◌, ◌*◌, ◌-◌, ◌/◌, ◌^◌, ◌≤◌, ◌<◌, ◌≡◌, refl, sym, ap, ◌∙◌, arith, true, List, [],
  ◌∷◌, ◌++◌, Option, some, ltb, length, take, drop, Bool-cases, inl, inr, take_all, length-append,
  append-nil, drop_nil, length-drop,
}
use aka_smsd.Common.Int.{ℤ, pos}
use aka_smsd.Common.Text.{c_str}
use aka_smsd.Common.Decimal.{
  print_digits, print_int, read_digits, atoi, StartsWithDigit, atoi-digits, read_digits-print,
  length-print_int,
}
use aka_smsd.Gateway.StartChild.{killed, do_start_child}

abbrev AreDigits : List ℕ → Type 0
AreDigits [] = Unit {0}
AreDigits (c ∷ s) = (b'0' ≤ c) × (c ≤ b'9') × AreDigits s

AreDigits-append : (s t : List ℕ) → AreDigits s → AreDigits t → AreDigits (s ++ t)
AreDigits-append [] t h k = k
AreDigits-append (c ∷ s) t h k = (h.0, h.1, AreDigits-append s t h.2 k)

AreDigits-drop : (n : ℕ) (s : List ℕ) → AreDigits s → AreDigits (drop n s)
AreDigits-drop zero s h = h
AreDigits-drop (suc n) [] h = tt
AreDigits-drop (suc n) (c ∷ s) h = AreDigits-drop n s h.2

print_digits-AreDigits : (fuel n : ℕ) → AreDigits (print_digits fuel n)
unfolding print_digits
print_digits-AreDigits zero n = tt
print_digits-AreDigits (suc fuel) n = elim (Bool-cases (ltb n 10)) [
  | inl small ↦ rw small (ground arith)
  | inr large ↦ rw large (
      AreDigits-append (print_digits fuel (n / 10)) _ (print_digits-AreDigits fuel (n / 10))
        (ground arith))
]

c_str-AreDigits : (s : List ℕ) → AreDigits s → c_str s ≡ s
unfolding c_str
c_str-AreDigits [] h = refl
c_str-AreDigits (c ∷ s) h = ground (arith, c_str-AreDigits s h.2)

read_digits-le : (acc : ℕ) (s : List ℕ) → AreDigits s → acc ≤ read_digits acc s
unfolding read_digits
read_digits-le acc [] h = omega arith
read_digits-le acc (c ∷ s) h = ground (arith, read_digits-le (acc * 10 + (c - b'0')) s h.2)

read_digits-more :
    (acc : ℕ) (s : List ℕ) → AreDigits s → 0 < length s → 10 * acc ≤ read_digits acc s
unfolding read_digits
read_digits-more acc [] h more = absurd (omega arith)
read_digits-more acc (c ∷ s) h more = ground (arith, read_digits-le (acc * 10 + (c - b'0')) s h.2)

starts : (s : List ℕ) → AreDigits s → 0 < length s → StartsWithDigit s
starts [] h more = absurd (omega arith)
starts (c ∷ s) h more = (h.0, h.1)

killed-AreDigits :
    (s : List ℕ) → AreDigits s → 0 < length s → killed s ≡ some (pos (read_digits 0 s))
unfolding killed
killed-AreDigits [] h more = absurd (omega arith)
killed-AreDigits (c ∷ s) h more =
    ap (λ (l : List ℕ). some (atoi l)) (c_str-AreDigits (c ∷ s) h)
    ∙ ap some (atoi-digits (c ∷ s) (starts (c ∷ s) h more))

-- The number of a process, with digits behind it, in the file.
killed-print_int :
    (n : ℕ) (s : List ℕ)
    → n < 10 ^ 10
    → AreDigits s
    → killed (print_int (pos n) ++ s) ≡ some (pos (read_digits n s))
unfolding print_int
killed-print_int n s small digits =
    let (some_digit, few) = length-print_int n small in
    let more : 0 < length (print_digits 10 n ++ s) =
      omega (arith, length-append (print_digits 10 n) s, some_digit) in
    killed-AreDigits (print_digits 10 n ++ s)
      (AreDigits-append (print_digits 10 n) s (print_digits-AreDigits 10 n) digits) more
    ∙ ap (λ (k : ℕ). some (pos k)) (read_digits-print 10 n s small)

do_start_child_lem :
    (pid : ℕ) (file : List ℕ)
    → pid < 10 ^ 10
    → length file ≤ 30
    → do_start_child true true true pid file
      ≡ (print_int (pos pid) ++ drop (length (print_int (pos pid))) file, killed file)
unfolding do_start_child
do_start_child_lem pid file small short =
    let (some_digit, few) = length-print_int pid small in
    let whole : take 29 (print_int (pos pid)) ≡ print_int (pos pid) =
      take_all 29 (print_int (pos pid)) (omega arith) in
    let all : take 30 file ≡ file = take_all 30 file short in rw (whole, all) refl

print_int-AreDigits : (n : ℕ) → AreDigits (print_int (pos n))
unfolding print_int
print_int-AreDigits n = print_digits-AreDigits 10 n

-- What the first process writes, and what the third one reads.
file_of_first :
    (first : ℕ)
    → first < 10 ^ 10
    → (do_start_child true true true first []).0 ≡ print_int (pos first)
file_of_first first small =
    ap (λ (r : List ℕ × Option ℤ). r.0) (do_start_child_lem first [] small (omega arith))
    ∙ ap (λ (l : List ℕ). print_int (pos first) ++ l) (drop_nil (length (print_int (pos first))))
    ∙ append-nil (print_int (pos first))

killed_by_third :
    (first second third : ℕ)
    → first < 10 ^ 10
    → second < 10 ^ 10
    → third < 10 ^ 10
    → (do_start_child true true true third
        (do_start_child true true true second (do_start_child true true true first []).0).0).1
      ≡ some (
          pos (read_digits second (drop (length (print_int (pos second))) (print_int (pos first)))))
killed_by_third first second third small small' small'' =
    let left : List ℕ = drop (length (print_int (pos second))) (print_int (pos first)) in
    let (_, few) = length-print_int first small in
    let (_, few') = length-print_int second small' in
    let short : length (print_int (pos second) ++ left) ≤ 30 = omega (
      arith,
      length-append (print_int (pos second)) left,
      length-drop (length (print_int (pos second))) (print_int (pos first)),
    ) in
    let file : (do_start_child true true true second (do_start_child true true true first []).0).0
        ≡ print_int (pos second) ++ left =
      ap (λ (f : List ℕ). (do_start_child true true true second f).0) (file_of_first first small)
      ∙ ap (λ (r : List ℕ × Option ℤ). r.0)
          (do_start_child_lem second (print_int (pos first)) small' (omega arith)) in
    ap (λ (f : List ℕ). (do_start_child true true true third f).1) file
    ∙ ap (λ (r : List ℕ × Option ℤ). r.1)
        (do_start_child_lem third (print_int (pos second) ++ left) small'' short)
    ∙ killed-print_int second left small' (
        AreDigits-drop (length (print_int (pos second))) (print_int (pos first))
          (print_int-AreDigits first))

nothing_left : (n : ℕ) (s : List ℕ) → length s ≤ n → drop n s ≡ []
nothing_left zero [] h = refl
nothing_left zero (c ∷ s) h = absurd (omega arith)
nothing_left (suc n) [] h = refl
nothing_left (suc n) (c ∷ s) h = nothing_left n s (omega arith)

-- Three processes start one after the other, the first with an empty file, and nothing fails. The
-- second one kills the first. The third one kills the second, unless the second one's number has
-- fewer digits than the first one's: then digits of that number are left in the file, and the third
-- kills a process with at least ten times the second one's number.
pub do_start_child-do_start_child :
    (first second third : ℕ)
    → first < 10 ^ 9
    → second < 10 ^ 9
    → third < 10 ^ 9
    → ((do_start_child true true true second (do_start_child true true true first []).0).1
        ≡ some (pos first))
      × (length (print_int (pos first)) ≤ length (print_int (pos second))
          → (do_start_child true true true third
              (do_start_child true true true second (do_start_child true true true first []).0).0).1
            ≡ some (pos second))
      × (length (print_int (pos second)) < length (print_int (pos first))
          → (k : ℕ) × ((do_start_child true true true third
                (do_start_child true true true second
                  (do_start_child true true true first []).0).0).1
              ≡ some (pos k))
            × (10 * second ≤ k))
do_start_child-do_start_child first second third few_digits few_digits' few_digits'' =
    let small : first < 10 ^ 10 = omega arith in
    let small' : second < 10 ^ 10 = omega arith in
    let small'' : third < 10 ^ 10 = omega arith in
    let (_, few) = length-print_int first small in
    let left : List ℕ = drop (length (print_int (pos second))) (print_int (pos first)) in
    let by_third = killed_by_third first second third small small' small'' in
    (
      ap (λ (f : List ℕ). (do_start_child true true true second f).1) (file_of_first first small)
          ∙ ap (λ (r : List ℕ × Option ℤ). r.1)
              (do_start_child_lem second (print_int (pos first)) small' (omega arith))
          ∙ ap killed (sym (append-nil (print_int (pos first))))
          ∙ killed-print_int first [] small tt
          ∙ ap (λ (k : ℕ). some (pos k)) (unfold read_digits in refl),
      λ covered.
          by_third
          ∙ ap (λ (l : List ℕ). some (pos (read_digits second l)))
              (nothing_left (length (print_int (pos second))) (print_int (pos first)) covered)
          ∙ ap (λ (k : ℕ). some (pos k)) (unfold read_digits in refl),
      λ shorter. (
        read_digits second left,
        by_third,
        read_digits-more second left
            (AreDigits-drop (length (print_int (pos second))) (print_int (pos first))
              (print_int-AreDigits first))
            (omega (arith, length-drop (length (print_int (pos second))) (print_int (pos first)))),
      ),
    )
