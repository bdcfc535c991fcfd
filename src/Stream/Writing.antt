-- ===== src/Stream/Writing.antt =====
-- What `write` promises to `doSendMsg`.
use aka_smsd.Common.{
  ℕ, zero, suc, ◌+◌, ◌-◌, ◌≤◌, ◌<◌, ◌≡◌, refl, ap, ◌∙◌, sym, arith, true, false, List, [], ◌∷◌,
  ◌++◌, some, ◌⊎◌, inl, inr, leb, if◌then◌else◌, Bool-cases, length, take, drop, length-take,
  take_all,
}
use aka_smsd.Common.Int.{pos}
use aka_smsd.Common.Code
use aka_smsd.Stream.{
  WriteData, moved, write_timed_out, write_interrupted, write_broken, Written, write_from, write,
}

-- No call reports more bytes than it was given, as the system documents of `write`.
abbrev pub IsFaithful : ℕ → List WriteData → Type 0
IsFaithful left [] = Unit {0}
IsFaithful left (moved n ∷ rs) = (n ≤ left) × IsFaithful (left - n) rs
IsFaithful left (r ∷ rs) = IsFaithful left rs

-- The state of the signals and the bytes that went out, as the value of the call tells them.
abbrev pub IsReported : List ℕ → Written → Type 0
IsReported buf w =
    (((w.value ≡ Code.timeout) × (w.is_restored ≡ false))
      ⊎ ((w.value ≡ Code.error) × (w.is_restored ≡ true))
      ⊎ ((w.value ≡ pos (length w.bytes)) × (w.is_restored ≡ true)))
    × (w.bytes ≡ take (length w.bytes) buf)

take-take-drop :
    (m n k : ℕ) (xs : List ℕ)
    → m + n ≤ length xs
    → m + n ≡ k
    → take m xs ++ take n (drop m xs) ≡ take k xs
take-take-drop zero n k xs h e = ap (λ (i : ℕ). take i xs) (omega arith)
take-take-drop (suc m) n k [] h e = absurd (omega arith)
take-take-drop (suc m) n zero (x ∷ xs) h e = absurd (omega arith)
take-take-drop (suc m) n (suc k) (x ∷ xs) h e =
    ap (◌∷◌ x) (take-take-drop m n k xs (omega arith) (omega arith))

length-take_all : (n : ℕ) (xs : List ℕ) → n ≤ length xs → length (take n xs) ≡ n
length-take_all n xs h = omega (arith, length-take n xs)

-- What went out is a prefix of the buffer, of the length given.
prefix-IsReported :
    (buf : List ℕ) (n : ℕ) (w : Written)
    → n ≤ length buf
    → record { value = pos n; is_restored = true; bytes = take n buf } ≡ w
    → IsReported buf w
prefix-IsReported buf n w h e =
    let same : n ≡ length (take n buf) = sym (length-take_all n buf h) in
    rw (← e) (inr (inr (ap pos same, refl)), ap (λ (i : ℕ). take i buf) same)

failed-IsReported :
    (buf : List ℕ) (n : ℕ) (w : Written)
    → n ≤ length buf
    → w.bytes ≡ take n buf
    → w.bytes ≡ take (length w.bytes) buf
failed-IsReported buf n w h e =
    e ∙ ap (λ (i : ℕ). take i buf) (sym (ap length e ∙ length-take_all n buf h))

write_from-IsReported :
    (buf : List ℕ) (sended left : ℕ) (rs : List WriteData) (w : Written)
    → sended + left ≡ length buf
    → IsFaithful left rs
    → write_from buf sended (take sended buf) rs ≡ some w
    → IsReported buf w
unfolding write_from
write_from-IsReported buf sended left [] w h f e = cc
write_from-IsReported buf sended left (moved zero ∷ rs) w h f e =
    prefix-IsReported buf sended w (omega arith) cc
write_from-IsReported buf sended left (moved (suc n) ∷ rs) w h f e =
    let out = take-take-drop sended (suc n) (sended + suc n) buf (omega (arith, f.0)) refl in
    let e' : (if leb (length buf) (sended + suc n)
          then some (record {
            value = pos (sended + suc n);
            is_restored = true;
            bytes = take (sended + suc n) buf;
          })
          else write_from buf (sended + suc n) (take (sended + suc n) buf) rs)
        ≡ some w =
      rw (← out) e in
    elim (Bool-cases (leb (length buf) (sended + suc n))) [
      | inl all ↦ prefix-IsReported buf (sended + suc n) w (omega (arith, f.0)) (ground (arith, e'))
      | inr more ↦
          write_from-IsReported buf (sended + suc n) (left - suc n) rs w (omega (arith, f.0)) f.1
            (ground (arith, e'))
    ]
write_from-IsReported buf sended left (write_timed_out ∷ rs) w h f e =
    let same : w ≡ record { value = Code.timeout; is_restored = false; bytes = take sended buf } =
      cc in
    (
      inl (ap (λ (x : Written). x.value) same, ap (λ (x : Written). x.is_restored) same),
      failed-IsReported buf sended w (omega arith) (ap (λ (x : Written). x.bytes) same),
    )
write_from-IsReported buf sended left (write_interrupted ∷ rs) w h f e =
    write_from-IsReported buf sended left rs w h f e
write_from-IsReported buf sended left (write_broken ∷ rs) w h f e =
    let same : w ≡ record { value = Code.error; is_restored = true; bytes = take sended buf } =
      cc in
    (
      inr (inl (ap (λ (x : Written). x.value) same, ap (λ (x : Written). x.is_restored) same)),
      failed-IsReported buf sended w (omega arith) (ap (λ (x : Written). x.bytes) same),
    )

-- When no call of the system reports more bytes than it was given, a call of `write` that returns
-- has put out a prefix of its buffer, and its value is TIMEOUT with the signals still blocked, or
-- ERROR or the length of that prefix with the signals unblocked again.
pub write-IsReported :
    (buf : List ℕ) (rs : List WriteData) (w : Written)
    → IsFaithful (length buf) rs
    → write buf rs ≡ some w
    → IsReported buf w
unfolding write
write-IsReported buf rs w f e = write_from-IsReported buf 0 (length buf) rs w (omega arith) f e

-- Calls that move something or are interrupted, and that move `left` bytes in all.
abbrev pub IsComplete : ℕ → List WriteData → Type 0
IsComplete left [] = left ≡ 0
IsComplete left (moved n ∷ rs) = (0 < n) × (n ≤ left) × IsComplete (left - n) rs
IsComplete left (write_interrupted ∷ rs) = IsComplete left rs
IsComplete left (write_timed_out ∷ rs) = ⊥
IsComplete left (write_broken ∷ rs) = ⊥

write_from_all :
    (buf : List ℕ) (sended left : ℕ) (rs : List WriteData)
    → 0 < left
    → sended + left ≡ length buf
    → IsComplete left rs
    → write_from buf sended (take sended buf) rs
      ≡ some (record { value = pos (length buf); is_restored = true; bytes = buf })
unfolding write_from
write_from_all buf sended left [] h g c = absurd (omega arith)
write_from_all buf sended left (moved zero ∷ rs) h g c = absurd (omega (arith, c.0))
write_from_all buf sended left (moved (suc n) ∷ rs) h g c =
    let (some_moved, fits, later) = c in
    let out = take-take-drop sended (suc n) (sended + suc n) buf (omega arith) refl in
    elim (Bool-cases (leb (length buf) (sended + suc n))) [
      | inl all ↦
          let ends : sended + suc n ≡ length buf = ground arith in
          rw (out, all, ends, take_all (length buf) buf (omega arith)) refl
      | inr more ↦
          rw (out, more)
            (write_from_all buf (sended + suc n) (left - suc n) rs (ground arith) (omega arith)
              later)
    ]
write_from_all buf sended left (write_timed_out ∷ rs) h g c = absurd c
write_from_all buf sended left (write_interrupted ∷ rs) h g c =
    write_from_all buf sended left rs h g c
write_from_all buf sended left (write_broken ∷ rs) h g c = absurd c

-- In however many pieces the system takes a buffer that is not empty, and however often a signal
-- interrupts it: once the pieces make up the buffer, `write` has returned its length, with exactly
-- these bytes put out and the signals unblocked again.
pub write-IsComplete :
    (buf : List ℕ) (rs : List WriteData)
    → 0 < length buf
    → IsComplete (length buf) rs
    → write buf rs ≡ some (record { value = pos (length buf); is_restored = true; bytes = buf })
unfolding write
write-IsComplete buf rs h c = write_from_all buf 0 (length buf) rs h (omega arith) c
