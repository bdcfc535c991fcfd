-- ===== src/Storage/Outgoing.antt =====
-- What becomes of a message that is handed to the storage, and of the filter in front of it.
use aka_smsd.Common.{
  ℕ, ◌+◌, ◌-◌, ◌%◌, ◌^◌, ◌≤◌, ◌≡◌, refl, sym, ap, ◌∙◌, arith, true, false, List, [], ◌∷◌, ◌++◌, ◌⊎◌,
  inl, inr, Bool-cases, leb, take,
}
use aka_smsd.Common.Int.{ℤ, pos, ◌==ℤ◌, ==ℤ_iff}
use aka_smsd.Common.Code
use aka_smsd.Storage.{
  WriteResult, written_whole, not_opened, broken_off, write_end, FileOp, create, outgoing, Services,
  Disk, filterinterval, init_filter, check_words, file_name, write_checked, write_sms_to_storage,
}

module _ (sv : Services) where
  false_ne_true : ¬ (false ≡ true)
  false_ne_true e = cc

  init_filter_frame :
      (d : Disk sv)
      → ((init_filter sv d).ops ≡ d.ops)
        × ((init_filter sv d).count ≡ d.count)
        × ((init_filter sv d).clock ≡ d.clock)
  unfolding init_filter
  init_filter_frame d = elim (Bool-cases (leb (d.clock - d.filter_time) filterinterval)) [
    | inl e ↦ rw e (refl, refl, refl)
    | inr e ↦ rw e (refl, refl, refl)
  ]

  -- The call, where the filter finds nothing.
  clean_run :
      (source target buf : List ℕ) (d : Disk sv) (w : WriteResult)
      → (sv.mgrep_str buf (init_filter sv d).filter_buf ==ℤ pos 0) ≡ true
      → sv.write_result (file_name source target d.clock ((d.count + 1) % 2 ^ 32)) ≡ w
      → write_sms_to_storage sv source target buf d
        ≡ write_end sv
            (file_name source target d.clock ((d.count + 1) % 2 ^ 32))
            buf
            w
            (record (init_filter sv d) { count = (d.count + 1) % 2 ^ 32 })
  unfolding write_sms_to_storage check_words write_checked
  clean_run source target buf d written_whole clean e =
      let (_, same_count, same_clock) = init_filter_frame d in
      rw (clean, same_count, same_clock, e) refl
  clean_run source target buf d not_opened clean e =
      let (_, same_count, same_clock) = init_filter_frame d in
      rw (clean, same_count, same_clock, e) refl
  clean_run source target buf d (broken_off n) clean e =
      let (_, same_count, same_clock) = init_filter_frame d in
      rw (clean, same_count, same_clock, e) refl

  -- What a message that is handed to the storage can come to.
  abbrev pub IsStored : List ℕ → List ℕ → Disk sv → ℤ → Disk sv → Type 0
  IsStored name buf d ret d' =
      ((ret ≡ Code.success)
        × (sv.mgrep_str buf (init_filter sv d).filter_buf ≡ pos 0)
        × (d'.ops ≡ d.ops ++ create outgoing name buf ∷ []))
      ⊎ ((ret ≡ Code.error)
          × (d'.ops ≡ d.ops)
          × (¬ (sv.mgrep_str buf (init_filter sv d).filter_buf ≡ pos 0)
              ⊎ (sv.write_result name ≡ not_opened)))
      ⊎ ((ret ≡ Code.error)
          × (sv.mgrep_str buf (init_filter sv d).filter_buf ≡ pos 0)
          × ((n : ℕ) × (sv.write_result name ≡ broken_off n)
              × (d'.ops ≡ d.ops ++ create outgoing name (take n buf) ∷ [])))

  after_open :
      (name buf : List ℕ) (d : Disk sv) (w : WriteResult) (count' : ℕ)
      → sv.mgrep_str buf (init_filter sv d).filter_buf ≡ pos 0
      → sv.write_result name ≡ w
      → (ret : ℤ) × (d' : Disk sv) × (write_end sv name buf w
            (record (init_filter sv d) { count = count' })
          ≡ (d', ret))
        × IsStored name buf d ret d'
  after_open name buf d written_whole count' clean e =
      let (same_ops, _, _) = init_filter_frame d in
      (
        Code.success,
        _,
        refl,
        inl (refl, clean, ap (λ (l : List FileOp). l ++ create outgoing name buf ∷ []) same_ops),
      )
  after_open name buf d not_opened count' clean e =
      let (same_ops, _, _) = init_filter_frame d in
      (Code.error, _, refl, inr (inl (refl, same_ops, inr e)))
  after_open name buf d (broken_off n) count' clean e =
      let (same_ops, _, _) = init_filter_frame d in
      (
        Code.error,
        _,
        refl,
        inr (
            inr (
              refl,
              clean,
              (
                n,
                e,
                ap (λ (l : List FileOp). l ++ create outgoing name (take n buf) ∷ []) same_ops,
              ),
            )),
      )

  pub write_sms_to_storage_outcome :
      (source target buf : List ℕ) (d : Disk sv)
      → (ret : ℤ) × (d' : Disk sv) × (write_sms_to_storage sv source target buf d ≡ (d', ret))
        × IsStored (file_name source target d.clock ((d.count + 1) % 2 ^ 32)) buf d ret d'
  unfolding write_sms_to_storage check_words write_checked
  write_sms_to_storage_outcome source target buf d =
      let (same_ops, _, _) = init_filter_frame d in
      let name : List ℕ = file_name source target d.clock ((d.count + 1) % 2 ^ 32) in
      elim (Bool-cases (sv.mgrep_str buf (init_filter sv d).filter_buf ==ℤ pos 0)) [
        | inr bad ↦ (
          Code.error,
          init_filter sv d,
          rw bad refl,
          inr (
              inl
                (refl, same_ops, inl (λ e. absurd (false_ne_true (sym bad ∙ (==ℤ_iff _ _).1 e))))),
        )
        | inl clean ↦
            let (ret, d', e, stored) =
              after_open name buf d (sv.write_result name) ((d.count + 1) % 2 ^ 32)
                ((==ℤ_iff _ _).0 clean) refl in
            (ret, d', clean_run source target buf d (sv.write_result name) clean refl ∙ e, stored)
      ]

  -- The filter asked at each of these times.
  unfoldable pub init_filter_at : List ℕ → Disk sv → Disk sv
  init_filter_at [] d = d
  init_filter_at (time ∷ times) d =
      init_filter_at times (init_filter sv (record d { clock = time }))

-- Each time is at most 600 seconds after the one before; the first one follows `last`.
abbrev pub AreClose : ℕ → List ℕ → Type 0
AreClose last [] = Unit {0}
AreClose last (time ∷ times) = (time ≤ last + 600) × AreClose time times

module _ (sv : Services) where
  -- While no two messages in a row are more than 600 seconds apart, the bad words are never read
  -- again, however long this lasts: each message puts off the time of the last reading.
  pub init_filter-AreClose :
      (times : List ℕ) (d : Disk sv)
      → AreClose d.filter_time times
      → (init_filter_at sv times d).filter_buf ≡ d.filter_buf
  unfolding init_filter_at init_filter
  init_filter-AreClose [] d h = refl
  init_filter-AreClose (time ∷ times) d h =
      let recent : leb (time - d.filter_time) 600 ≡ true = ground (arith, h.0) in
      rw (init_filter_at, init_filter, recent)
        (init_filter-AreClose times (record d { clock = time; filter_time = time }) h.1)
