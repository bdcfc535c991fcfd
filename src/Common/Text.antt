-- ===== src/Common/Text.antt =====
-- C strings as lists of bytes: reading up to the terminator, `strncpy` into a field, comparison.
use Prim.Native.Char.{code}
use Prim.Native.String.{String}
use Prim.Native.Nat.{ℕ, zero, suc, ◌+◌, ◌-◌, ◌<◌}
use mathlib.Core.Path.{◌≡◌, refl}
use mathlib.Core.Logic.{◌↔◌}
use mathlib.Core.Bool.{Bool, true, false, ◌&&◌}
use mathlib.Core.List.{List, [], ◌∷◌, ◌++◌, append_assoc}
use native.Mathlib.Omega.{arith}
use aka_smsd.Common.Tests.{leb, ◌==◌, if◌then◌else◌}
use aka_smsd.Common.Lists.{length, take, replicate, length-append, length-replicate}

-- The bytes of an ASCII literal.
abbrev pub codes : String → List ℕ
codes String.[] = []
codes (String.◌∷◌ c s) = code c ∷ codes s

-- The string that starts at the head of this memory: the bytes before the first 0.
unfoldable pub c_str : List ℕ → List ℕ
c_str [] = []
c_str (x ∷ xs) = let rest = c_str xs in if x == 0 then [] else x ∷ rest

-- `strncpy(dst, src, n)`: at most `n` bytes of the string, filled up with zeros.
unfoldable pub strncpy : ℕ → List ℕ → List ℕ
strncpy zero s = []
strncpy (suc n) [] = 0 ∷ strncpy n []
strncpy (suc n) (x ∷ s) = let rest = strncpy n s in if x == 0 then replicate (suc n) 0 else x ∷ rest

-- `strncpy(field, src, n); field[n] = 0;`
abbrev pub field : ℕ → List ℕ → List ℕ
field n s = strncpy n s ++ 0 ∷ []

-- `strcmp(s, t) == 0`
abbrev pub str_eq : List ℕ → List ℕ → Bool
str_eq [] [] = true
str_eq [] (y ∷ t) = false
str_eq (x ∷ s) [] = false
str_eq (x ∷ s) (y ∷ t) = x == y && str_eq s t

-- `toupper` in the C locale.
abbrev pub to_upper : ℕ → ℕ
to_upper c = if leb b'a' c && leb c b'z' then c - 32 else c

-- `strcasecmp(s, t) == 0`
abbrev pub str_case_eq : List ℕ → List ℕ → Bool
str_case_eq [] [] = true
str_case_eq [] (y ∷ t) = false
str_case_eq (x ∷ s) [] = false
str_case_eq (x ∷ s) (y ∷ t) = to_upper x == to_upper y && str_case_eq s t

-- No zero byte: such a list is the content of a C string.
abbrev pub IsText : List ℕ → Type 0
IsText [] = Unit {0}
IsText (x ∷ xs) = (0 < x) × IsText xs

pub length-strncpy : (n : ℕ) (s : List ℕ) → length (strncpy n s) ≡ n
unfolding strncpy
length-strncpy zero s = refl
length-strncpy (suc n) [] = omega (arith, length-strncpy n [])
length-strncpy (suc n) (x ∷ s) = ground (arith, length-strncpy n s, length-replicate {A = ℕ} n 0)

pub length-field : (n : ℕ) (s : List ℕ) → length (field n s) ≡ n + 1
length-field n s = omega (arith, length-append (strncpy n s) (0 ∷ []), length-strncpy n s)

c_str-strncpy_nil : (n : ℕ) (rest : List ℕ) → c_str (strncpy n [] ++ 0 ∷ rest) ≡ []
unfolding c_str strncpy
c_str-strncpy_nil zero rest = refl
c_str-strncpy_nil (suc n) rest = refl

-- A field reads back as the string that was put into it, cut to the field's size.
pub c_str-strncpy :
    (n : ℕ) (s rest : List ℕ) → IsText s → c_str (strncpy n s ++ 0 ∷ rest) ≡ take n s
unfolding c_str strncpy
c_str-strncpy zero s rest h = refl
c_str-strncpy (suc n) [] rest h = refl
c_str-strncpy (suc n) (x ∷ s) rest h = ground (arith, c_str-strncpy n s rest h.1)

pub c_str-field : (n : ℕ) (s rest : List ℕ) → IsText s → c_str (field n s ++ rest) ≡ take n s
c_str-field n s rest h = rw append_assoc (c_str-strncpy n s rest h)

pub str_eq_iff : (s t : List ℕ) → (str_eq s t ≡ true) ↔ (s ≡ t)
str_eq_iff [] [] = ground arith
str_eq_iff [] (y ∷ t) = ground arith
str_eq_iff (x ∷ s) [] = ground arith
str_eq_iff (x ∷ s) (y ∷ t) = ground (arith, str_eq_iff s t)
