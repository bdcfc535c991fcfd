-- ===== src/Gateway/Register/Codes.antt =====
-- The validation codes that `generateValidateNum` draws.
use aka_smsd.Common.{
  ℕ, zero, suc, ◌+◌, ◌*◌, ◌/◌, ◌^◌, ◌≤◌, ◌<◌, ◌≡◌, refl, arith, List, [], ◌∷◌, length, get_or,
}
use aka_smsd.Gateway.Register.{code_chars, generate_validate_num}

abbrev pub AreDigits : List ℕ → Type 0
AreDigits [] = Unit {0}
AreDigits (c ∷ s) = (b'0' ≤ c) × (c ≤ b'9') × AreDigits s

code_chars_digit : (i : ℕ) → i < 10 → get_or code_chars i 0 ≡ b'0' + i
code_chars_digit zero h = refl
code_chars_digit (suc zero) h = refl
code_chars_digit (suc (suc zero)) h = refl
code_chars_digit (suc (suc (suc zero))) h = refl
code_chars_digit (suc (suc (suc (suc zero)))) h = refl
code_chars_digit (suc (suc (suc (suc (suc zero))))) h = refl
code_chars_digit (suc (suc (suc (suc (suc (suc zero)))))) h = refl
code_chars_digit (suc (suc (suc (suc (suc (suc (suc zero))))))) h = refl
code_chars_digit (suc (suc (suc (suc (suc (suc (suc (suc zero)))))))) h = refl
code_chars_digit (suc (suc (suc (suc (suc (suc (suc (suc (suc zero))))))))) h = refl
code_chars_digit (suc (suc (suc (suc (suc (suc (suc (suc (suc (suc i)))))))))) h =
    absurd (omega arith)

-- When every `rand()` is at most RAND_MAX, a validation code has the asked length, consists of
-- decimal digits, and so no index into CODES is out of range.
pub generate_validate_num-AreDigits :
    (rand : ℕ → ℕ)
    → ((i : ℕ) → rand i < 2 ^ 31)
    → (i len : ℕ)
    → (length (generate_validate_num rand i len) ≡ len)
      × AreDigits (generate_validate_num rand i len)
unfolding generate_validate_num
generate_validate_num-AreDigits rand bound i zero = (refl, tt)
generate_validate_num-AreDigits rand bound i (suc len) =
    let (same, digits) = generate_validate_num-AreDigits rand bound (i + 1) len in
    let below : 10 * rand i / 2 ^ 31 < 10 = omega (arith, bound i) in
    let digit = code_chars_digit (10 * rand i / 2 ^ 31) below in
    (omega arith, (omega arith, omega arith, digits))
