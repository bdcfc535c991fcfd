-- ===== src/Operator/Words.antt =====
-- DWORDs as the machine stores them: least significant byte first.
use aka_smsd.Common.{ℕ, ◌+◌, ◌*◌, ◌/◌, ◌%◌, ◌^◌, ◌<◌, ◌≡◌, arith, List, [], ◌∷◌, ◌++◌, get_or}

abbrev pub word_bytes : ℕ → List ℕ
word_bytes n = n % 256 ∷ n / 256 % 256 ∷ n / 65536 % 256 ∷ n / 16777216 % 256 ∷ []

abbrev pub read_word : List ℕ → ℕ
read_word s = get_or s 0 0 + 256 * get_or s 1 0 + 65536 * get_or s 2 0 + 16777216 * get_or s 3 0

pub read_word-word_bytes :
    (n : ℕ) (rest : List ℕ) → n < 2 ^ 32 → read_word (word_bytes n ++ rest) ≡ n
read_word-word_bytes n rest h = omega arith
