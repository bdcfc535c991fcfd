-- ===== src/Stream/Reading.antt =====
-- What `read` promises to `OnAccept`.
use aka_smsd.Common.{
  ℕ, zero, suc, ◌+◌, ◌<◌, ◌≡◌, refl, arith, List, [], ◌∷◌, ◌++◌, some, inl, inr, leb, Bool-cases,
  length, length-append, append_assoc, append-nil,
}
use aka_smsd.Common.Int.{pos}
use aka_smsd.Stream.{ReadData, got, read_timed_out, read_interrupted, read_broken, read_from, read}

-- The bytes that came in.
abbrev pub bytes_of : List ReadData → List ℕ
bytes_of [] = []
bytes_of (got xs ∷ rs) = xs ++ bytes_of rs
bytes_of (r ∷ rs) = bytes_of rs

-- Every call brought some bytes or was interrupted.
abbrev pub IsWhole : List ReadData → Type 0
IsWhole [] = Unit {0}
IsWhole (got xs ∷ rs) = (0 < length xs) × IsWhole rs
IsWhole (read_interrupted ∷ rs) = IsWhole rs
IsWhole (read_timed_out ∷ rs) = ⊥
IsWhole (read_broken ∷ rs) = ⊥

nothing_more : (rs : List ReadData) → IsWhole rs → length (bytes_of rs) ≡ 0 → bytes_of rs ≡ []
nothing_more [] w e = refl
nothing_more (got [] ∷ rs) w e = absurd (omega (arith, w.0))
nothing_more (got (x ∷ xs) ∷ rs) w e = absurd (omega arith)
nothing_more (read_interrupted ∷ rs) w e = nothing_more rs w e
nothing_more (read_timed_out ∷ rs) w e = absurd w
nothing_more (read_broken ∷ rs) w e = absurd w

read_from_all :
    (n : ℕ) (buf : List ℕ) (rs : List ReadData)
    → length buf < n
    → IsWhole rs
    → length buf + length (bytes_of rs) ≡ n
    → read_from n buf rs ≡ some (record { value = pos n; bytes = buf ++ bytes_of rs })
unfolding read_from
read_from_all n buf [] h w e = absurd (omega arith)
read_from_all n buf (got [] ∷ rs) h w e = absurd (omega (arith, w.0))
read_from_all n buf (got (x ∷ xs) ∷ rs) h w e =
    let longer = length-append buf (x ∷ xs) in
    let whole = length-append (x ∷ xs) (bytes_of rs) in
    elim (Bool-cases (leb n (length (buf ++ x ∷ xs)))) [
      | inl all ↦
          let ends : length (buf ++ x ∷ xs) ≡ n = ground arith in
          let no_more = nothing_more rs w.1 (ground arith) in
          rw (all, ends, no_more, append-nil (x ∷ xs)) refl
      | inr more ↦
          rw
            (
              more,
              read_from_all n (buf ++ x ∷ xs) rs (ground arith) w.1 (omega arith),
              append_assoc buf (x ∷ xs) (bytes_of rs),
            )
            refl
    ]
read_from_all n buf (read_timed_out ∷ rs) h w e = absurd w
read_from_all n buf (read_interrupted ∷ rs) h w e = read_from_all n buf rs h w e
read_from_all n buf (read_broken ∷ rs) h w e = absurd w

-- In however many pieces the bytes asked for come in, and however often a signal interrupts the
-- wait: once they are there, `read` has returned their number, with all of them in order in the
-- buffer. This holds for every number of bytes but 0.
pub read-IsWhole :
    (n : ℕ) (rs : List ReadData)
    → 0 < n
    → IsWhole rs
    → length (bytes_of rs) ≡ n
    → read n rs ≡ some (record { value = pos n; bytes = bytes_of rs })
unfolding read
read-IsWhole zero rs h w e = absurd (omega arith)
read-IsWhole (suc n) rs h w e = read_from_all (suc n) [] rs (omega arith) w (omega arith)
