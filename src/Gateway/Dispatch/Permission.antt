-- ===== src/Gateway/Dispatch/Permission.antt =====
-- Only a phone whose registration is confirmed may send from the BBS.
use aka_smsd.Common.{
  ℕ, ◌≡◌, ◌≢◌, refl, sym, arith, true, List, [], ◌∷◌, map, some, ◌⊎◌, inl, inr, ◌↔◌, Bool-cases,
  Option-cases,
}
use aka_smsd.Wire.{send_src_mobile_no, send_src_user_id}
use aka_smsd.Wire.Cmd
use aka_smsd.Gateway.Database.{Database, without_code}
use aka_smsd.Gateway.Billing.{has_rows, filter_rows, key_of}
use aka_smsd.Gateway.Register.{pending_code, is_empty, do_register_validation}
use aka_smsd.Gateway.Register.Validation.{do_register_validation_outcome}
use aka_smsd.Gateway.Dispatch.{is_confirmed, can_send_sms, do_send}
use aka_smsd.Gateway.World.{Key, Row, Env, Gw, done}

-- Some row of the list has no code left.
abbrev pub SomeConfirmed : List Row → Type 0
SomeConfirmed [] = ⊥
SomeConfirmed (row ∷ rows) = (row.validatation_number ≡ []) ⊎ SomeConfirmed rows

is_empty_iff : (l : List ℕ) → (is_empty l ≡ true) ↔ (l ≡ [])
is_empty_iff [] = ((λ e. refl), (λ e. refl))
is_empty_iff (x ∷ l) = ((λ e. cc), (λ e. cc))

filter-SomeConfirmed :
    (rows : List Row) → has_rows (filter_rows is_confirmed rows) ≡ true → SomeConfirmed rows
filter-SomeConfirmed [] h = cc
filter-SomeConfirmed (row ∷ rows) h = elim (Bool-cases (is_confirmed row)) [
  | inl e ↦ inl ((is_empty_iff row.validatation_number).0 e)
  | inr e ↦ inr (filter-SomeConfirmed rows (ground arith))
]

module _ (env : Env) where
  abbrev checker_key : Gw env → List ℕ → Key
  checker_key s msg = record {
    child_code = s.checker_code;
    mobile = send_src_mobile_no msg;
    src_id = send_src_user_id msg;
  }

  -- A packet to send a message that comes from a phone with no confirmed registration, or while the
  -- database cannot be asked, is answered with the refusal code and changes nothing: nothing is
  -- charged and nothing reaches the storage.
  pub do_send-unconfirmed :
      (s : Gw env) (msg : List ℕ)
      → ((rows : List Row) → env.select s.db (checker_key s msg) ≡ some rows → ¬ SomeConfirmed rows)
      → do_send env msg s ≡ done (Cmd.sms_validate_failed, s)
  unfolding do_send can_send_sms
  do_send-unconfirmed s msg h = elim (Option-cases (env.select s.db (checker_key s msg))) [
    | inl e ↦ ground arith
    | inr (rows, e) ↦ elim (Bool-cases (has_rows (filter_rows is_confirmed rows))) [
      | inl allowed ↦ absurd (h rows e (filter-SomeConfirmed rows allowed))
      | inr refused ↦ ground (arith, e, refused)
    ]
  ]

confirmed-map :
    (rows : List Row)
    → has_rows rows ≡ true
    → has_rows (filter_rows is_confirmed (map without_code rows)) ≡ true
confirmed-map [] h = h
confirmed-map (row ∷ rows) h = refl

has_rows_of_code :
    (rows : List Row) (guess : List ℕ)
    → pending_code rows ≡ guess
    → guess ≢ []
    → has_rows rows ≡ true
has_rows_of_code [] guess e h = absurd (h (sym e))
has_rows_of_code (row ∷ rows) guess e h = refl

module _ (env : Env) (laws : Database env) where
  -- Once `doRegisterValidation` has answered OK to a user, and the privilege checker knows the BBS
  -- by the same code, the user may send.
  pub can_send_sms-do_register_validation :
      (s s' : Gw env) (mobile id guess : List ℕ)
      → do_register_validation env mobile id guess s ≡ done (Cmd.ok, s')
      → s'.checker_code ≡ s'.child_code
      → can_send_sms env mobile id s' ≡ done (true, s')
  unfolding can_send_sms
  can_send_sms-do_register_validation s s' mobile id guess h same_code =
      let (ret, t, e, result) = do_register_validation_outcome env laws s mobile id guess in
      elim result [
        | inr (bad, same) ↦ absurd (bad (ground (arith, e)))
        | inl (good, (rows, before, right, some_code, after)) ↦
            let same : t ≡ s' = cc in
            let after' : env.select s'.db (key_of env s' mobile id) ≡ some (map without_code rows) =
              rw (← same) after in
            let confirmed = confirmed-map rows (has_rows_of_code rows guess right some_code) in
            ground (arith, after', same_code, confirmed)
      ]
