-- ===== src/Gateway/Register/Validation.antt =====
-- The code of a registration: it is drawn and kept, and the right code confirms the phone.
use aka_smsd.Common.{
  ℕ, ◌≤◌, ◌≡◌, ◌≢◌, refl, sym, ◌∙◌, arith, false, List, [], ◌∷◌, map, some, ◌⊎◌, inl, inr,
  Bool-cases, Option-cases, length, take_all,
}
use aka_smsd.Common.Text.{str_eq, str_eq_iff}
use aka_smsd.Wire.Cmd
use aka_smsd.Gateway.Database.{Database, without_code, new_row}
use aka_smsd.Gateway.Billing.{key_of}
use aka_smsd.Gateway.Register.{
  pending_code, is_empty, get_validate_num, do_register_validation, generate_validate_num,
}
use aka_smsd.Gateway.World.{Row, clear_code, replace_row, Env, Gw, done}

is_empty-false : (l : List ℕ) → is_empty l ≡ false → l ≢ []
is_empty-false [] h e = cc
is_empty-false (x ∷ l) h e = cc

pub is_empty_ne : (l : List ℕ) → l ≢ [] → is_empty l ≡ false
is_empty_ne [] h = absurd (h refl)
is_empty_ne (x ∷ l) h = refl

module _ (env : Env) (laws : Database env) where
  -- When the query succeeds and a pending code, if there is one, is no longer than asked for, the
  -- code that `getValidateNum` hands out is the one that the database then holds for the user.
  pub get_validate_num-pending :
      (s s' : Gw env) (mobile id : List ℕ) (len : ℕ) (code : List ℕ) (rows : List Row)
      → env.select s.db (key_of env s mobile id) ≡ some rows
      → length (pending_code rows) ≤ len
      → get_validate_num env mobile id len s ≡ done (some code, s')
      → (rows' : List Row) × (env.select s'.db (key_of env s' mobile id) ≡ some rows')
        × (pending_code rows' ≡ code)
  unfolding get_validate_num
  get_validate_num-pending s s' mobile id len code rows e short h =
      elim (Bool-cases (is_empty (pending_code rows))) [
        | inl fresh ↦
            elim (Option-cases (
              env.exec s.db (
                replace_row (key_of env s mobile id)
                  (generate_validate_num (env.rand s.clock) 0 len) s.default_money_limit))) [
                    | inl x ↦ absurd (ground arith)
                    | inr (db', x) ↦
                        let now =
                          laws.exec_select s.db db' _ (key_of env s mobile id) rows refl x e in
                        (
                          new_row (generate_validate_num (env.rand s.clock) 0 len)
                                s.default_money_limit
                              ∷ [],
                          ground (arith, now),
                          ground arith,
                        )
                  ]
        | inr kept ↦ (rows, ground arith, ground (arith, take_all len (pending_code rows) short))
      ]

  -- `doRegisterValidation` returns in every state. It answers OK only when the code given is not
  -- empty and is the pending one, and then no row of the user has a code left; with any other
  -- answer nothing has changed.
  pub do_register_validation_outcome :
      (s : Gw env) (mobile id guess : List ℕ)
      → (ret : ℕ) × (s' : Gw env) × (do_register_validation env mobile id guess s ≡ done (ret, s'))
        × (((ret ≡ Cmd.ok)
              × ((rows : List Row) × (env.select s.db (key_of env s mobile id) ≡ some rows)
                  × (pending_code rows ≡ guess)
                  × (guess ≢ [])
                  × (env.select s'.db (key_of env s' mobile id) ≡ some (map without_code rows))))
            ⊎ ((ret ≢ Cmd.ok) × (s' ≡ s)))
  unfolding do_register_validation
  do_register_validation_outcome s mobile id guess =
      elim (Option-cases (env.select s.db (key_of env s mobile id))) [
        | inl e ↦ (Cmd.db_error, s, ground arith, inr (omega arith, refl))
        | inr (rows, e) ↦ elim (Bool-cases (is_empty (pending_code rows))) [
          | inl nothing ↦ (Cmd.no_validcode, s, ground arith, inr (omega arith, refl))
          | inr some_code ↦ elim (Bool-cases (str_eq guess (pending_code rows))) [
            | inr wrong ↦ (Cmd.err, s, ground arith, inr (omega arith, refl))
            | inl right ↦
                elim (Option-cases (env.exec s.db (clear_code (key_of env s mobile id)))) [
                  | inl x ↦ (Cmd.db_error, s, ground arith, inr (omega arith, refl))
                  | inr (db', x) ↦
                      let same = (str_eq_iff guess (pending_code rows)).0 right in
                      (
                        Cmd.ok,
                        record s { db = db' },
                        ground arith,
                        inl (
                          refl,
                          (
                            rows,
                            e,
                            sym same,
                            (λ n. is_empty-false (pending_code rows) some_code (sym same ∙ n)),
                            laws.exec_select s.db db' _ _ rows refl x e,
                          ),
                        ),
                      )
                ]
          ]
        ]
      ]
