-- ===== src/Wire/Codec.antt =====
-- `sms_byteToLong` and `sms_longToByte` of smsbbsprotocoldefine.h, and the variant of
-- childprotocol.h. A DWORD is a number below 2 ^ 32; `long` has 32 bits too.
use aka_smsd.Common.{ℕ, ◌+◌, ◌*◌, ◌/◌, ◌%◌, ◌^◌, ◌<◌, ◌≡◌, arith, List, [], ◌∷◌, get_or}

abbrev pub byte_at : List ℕ → ℕ → ℕ
byte_at arg i = get_or arg i 0

unfoldable pub sms_byte_to_long : List ℕ → ℕ
sms_byte_to_long arg =
    (byte_at arg 0 * 2 ^ 24 + byte_at arg 1 * 2 ^ 16 + byte_at arg 2 * 2 ^ 8 + byte_at arg 3)
    % 2 ^ 32

unfoldable pub sms_long_to_byte : ℕ → List ℕ
sms_long_to_byte num =
    (num / 2 ^ 24 % 2 ^ 8) ∷ (num / 2 ^ 16 % 2 ^ 8) ∷ (num / 2 ^ 8 % 2 ^ 8) ∷ (num % 2 ^ 8) ∷ []

-- childprotocol.h shifts each byte to the top of the 32-bit word and down again.
unfoldable pub sms_long_to_byte_by_shifts : ℕ → List ℕ
sms_long_to_byte_by_shifts num =
    (num / 2 ^ 24 % 2 ^ 8)
    ∷ (num * 2 ^ 8 % 2 ^ 32 / 2 ^ 24)
    ∷ (num * 2 ^ 16 % 2 ^ 32 / 2 ^ 24)
    ∷ (num * 2 ^ 24 % 2 ^ 32 / 2 ^ 24)
    ∷ []

abbrev pub IsBytes : List ℕ → Type 0
IsBytes [] = Unit {0}
IsBytes (x ∷ xs) = (x < 256) × IsBytes xs

-- Every DWORD survives being written to four bytes and read back.
pub byte_to_long-long_to_byte :
    (num : ℕ) → num < 2 ^ 32 → sms_byte_to_long (sms_long_to_byte num) ≡ num
unfolding sms_byte_to_long sms_long_to_byte
byte_to_long-long_to_byte num h = omega arith

-- Every four bytes survive being read as a DWORD and written back.
pub long_to_byte-byte_to_long :
    (a b c d : ℕ)
    → IsBytes (a ∷ b ∷ c ∷ d ∷ [])
    → sms_long_to_byte (sms_byte_to_long (a ∷ b ∷ c ∷ d ∷ [])) ≡ a ∷ b ∷ c ∷ d ∷ []
unfolding sms_byte_to_long sms_long_to_byte
long_to_byte-byte_to_long a b c d h = ground arith

-- The two headers' encoders write the same bytes for every DWORD.
pub long_to_byte-by_shifts :
    (num : ℕ) → num < 2 ^ 32 → sms_long_to_byte_by_shifts num ≡ sms_long_to_byte num
unfolding sms_long_to_byte sms_long_to_byte_by_shifts
long_to_byte-by_shifts num h = ground arith

pub byte_to_long-lt : (arg : List ℕ) → sms_byte_to_long arg < 2 ^ 32
unfolding sms_byte_to_long
byte_to_long-lt arg = omega arith
