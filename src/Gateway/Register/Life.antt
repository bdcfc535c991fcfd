-- ===== src/Gateway/Register/Life.antt =====
-- The life of a registration, from the request to the right to send.
use aka_smsd.Common.{
  ℕ, suc, ◌+◌, ◌%◌, ◌^◌, ◌≤◌, ◌≡◌, ◌≢◌, refl, sym, ap, ◌∙◌, arith, true, false, List, [], ◌∷◌, map,
  none, some, ◌⊎◌, inl, inr, Bool-cases, Option-cases, length, take, take_all, subst,
}
use aka_smsd.Common.Int.{ℤ, pos}
use aka_smsd.Common.Text.{str_eq, str_eq_iff}
use aka_smsd.Common.Code
use aka_smsd.Wire.Cmd
use aka_smsd.Sms.{SmsMessage, max_child_code_len}
use aka_smsd.Gateway.Texts.{code_text}
use aka_smsd.Gateway.Texts.Lengths.{IsShort, code_text-IsShort}
use aka_smsd.Common.{leb}
use aka_smsd.Gateway.Database.{Database, with_money}
use aka_smsd.Gateway.Message.{sender_of, generate_sms}
use aka_smsd.Gateway.Billing.{key_of, send_sms}
use aka_smsd.Gateway.Billing.Charge.{IsCharged, send_sms_outcome}
use aka_smsd.Gateway.Register.{
  pending_code, is_empty, generate_validate_num, get_validate_num, do_send_register_sms,
  do_register_validation,
}
use aka_smsd.Gateway.Dispatch.{can_send_sms}
use aka_smsd.Gateway.Dispatch.Permission.{can_send_sms-do_register_validation}
use aka_smsd.Gateway.Register.Validation.{get_validate_num-pending, is_empty_ne}
use aka_smsd.Gateway.World.{Row, Env, Gw, done, bind_done, clear_code, replace_row}

pending_code-with_money :
    (fee : ℤ) (rows : List Row) → pending_code (map (with_money fee) rows) ≡ pending_code rows
pending_code-with_money fee [] = refl
pending_code-with_money fee (row ∷ rows) = refl

take_some : (n : ℕ) (l : List ℕ) → is_empty l ≡ false → take (suc n) l ≢ []
take_some n [] h = absurd cc
take_some n (x ∷ l) h = λ e. cc

module _ (env : Env) (laws : Database env) (mobile id : List ℕ) where
  get_validate_num_cases :
      (s : Gw env) (len : ℕ)
      → (get_validate_num env mobile id (suc len) s ≡ done (none, s))
        ⊎ ((code : List ℕ) × (db' : env.Store) × (get_validate_num env mobile id (suc len) s
              ≡ done (some code, record s { db = db' }))
            × (code ≢ []))
  unfolding get_validate_num
  get_validate_num_cases s len = elim (Option-cases (env.select s.db (key_of env s mobile id))) [
    | inl e ↦ inl (ground arith)
    | inr (rows, e) ↦ elim (Bool-cases (is_empty (pending_code rows))) [
      | inl fresh ↦
          elim (Option-cases (
            env.exec s.db (
              replace_row (key_of env s mobile id)
                (generate_validate_num (env.rand s.clock) 0 (suc len)) s.default_money_limit))) [
                  | inl x ↦ inl (ground arith)
                  | inr (db', x) ↦ inr (
                    generate_validate_num (env.rand s.clock) 0 (suc len),
                    db',
                    ground arith,
                    λ n. cc,
                  )
                ]
      | inr kept ↦ inr (
        take (suc len) (pending_code rows),
        s.db,
        ground arith,
        take_some len (pending_code rows) kept,
      )
    ]
  ]

  -- The message with the code, as it is made.
  code_sms :
      (text : List ℕ) (s : Gw env)
      → IsShort text
      → length mobile ≤ 16
      → ((n : ℕ) → env.malloc n ≡ true)
      → (sms : SmsMessage) × (generate_sms env 0 mobile mobile text (pos 6) s ≡ done (some sms, s))
        × (sms.fee_target_number ≡ mobile)
        × (sms.target_number ≡ mobile)
        × (sms.body ≡ text)
  unfolding generate_sms
  code_sms text s few short memory =
      let fits : leb (2 ^ 32) (180 + length text) ≡ false = ground (arith, few) in
      (
        record {
          length = (180 + length text) % 2 ^ 32;
          sender_number = sender_of s.child_code 0;
          target_number = take 16 mobile;
          fee_target_number = take 16 mobile;
          fee_type = pos 6;
          child_code = take max_child_code_len s.child_code;
          parent_id = [];
          sms_type = pos 0;
          send_time = s.clock;
          arrive_time = 0;
          service_code = [];
          fee_money = pos 10;
          body_length = length text;
          body = text;
        },
        rw (memory ((180 + length text) % 2 ^ 32), fits) refl,
        take_all 16 mobile short,
        take_all 16 mobile short,
        refl,
      )

  -- The database holds this code for the user.
  abbrev pub IsPending : Gw env → List ℕ → Type 0
  IsPending s code =
      (rows : List Row) × (env.select s.db (key_of env s mobile id) ≡ some rows)
      × (pending_code rows ≡ code)

  -- A message of `sendSMS` that is answered OK was given to the storage, and leaves the code.
  send_sms-IsPending :
      (sms : SmsMessage) (s s1 : Gw env) (code : List ℕ)
      → sms.fee_target_number ≡ mobile
      → IsPending s code
      → send_sms env sms (some id) true s ≡ done (Cmd.ok, s1)
      → (db' : env.Store) × (disk' : env.Disk) × (s1 ≡ record s { db = db'; disk = disk' })
        × (env.write_sms s.disk sms.sender_number sms.target_number sms ≡ (disk', Code.success))
        × IsPending s1 code
  send_sms-IsPending sms s s1 code payer (rows, found, same) h =
      let (ret, t, e, result) = send_sms_outcome env sms id s in
      let answer : ret ≡ Cmd.ok = ground (arith, e) in
      elim result [
        | inr (bad, _) ↦ absurd (bad answer)
        | inl (fee, mid, _, charged, inr (bad, _)) ↦ absurd (omega (arith, answer, bad))
        | inl (fee, mid, _, charged, inl (_, (disk', written, last))) ↦
            let c = subst (λ (m : List ℕ). IsCharged env m id fee s mid) payer charged in
            let same_t : t ≡ s1 = cc in
            let final : s1 ≡ record s { db = c.db'; disk = disk' } =
              sym same_t ∙ last ∙ ap (λ (x : Gw env). record x { disk = disk' }) c.rest in
            let same_disk : mid.disk ≡ s.disk = ap (λ (x : Gw env). x.disk) c.rest in
            let now =
              laws.exec_select s.db c.db' _ (key_of env s mobile id) rows refl c.added found in
            (
              c.db',
              disk',
              final,
              rw (← same_disk) written,
              subst (λ (x : Gw env). IsPending x code) (sym final)
                  (map (with_money fee) rows, now, pending_code-with_money fee rows ∙ same),
            )
      ]

  -- What the check of a code comes to while `code` is pending.
  check_pending :
      (s : Gw env) (code guess : List ℕ)
      → IsPending s code
      → code ≢ []
      → ((do_register_validation env mobile id code s ≡ done (Cmd.db_error, s))
          ⊎ ((db' : env.Store) × (do_register_validation env mobile id code s
                ≡ done (Cmd.ok, record s { db = db' }))))
        × ((guess ≡ code) ⊎ (do_register_validation env mobile id guess s ≡ done (Cmd.err, s)))
  unfolding do_register_validation
  check_pending s code guess (rows, found, same) some_code =
      let there : is_empty (pending_code rows) ≡ false = is_empty_ne _ (rw same some_code) in
      let right = (str_eq_iff code (pending_code rows)).1 (sym same) in
      (
        elim (Option-cases (env.exec s.db (clear_code (key_of env s mobile id)))) [
          | inl x ↦ inl (ground (arith, found, right, there))
          | inr (db', x) ↦ inr (db', ground (arith, found, right, there))
        ],
        elim (Bool-cases (str_eq guess (pending_code rows))) [
          | inl equal ↦ inl ((str_eq_iff guess (pending_code rows)).0 equal ∙ same)
          | inr wrong ↦ inr (ground (arith, found, there, wrong))
        ],
      )

  -- A registration that the gateway starts with OK can be brought to its end, and only by the code.
  -- When `doSendRegisterSMS` answers OK, it has given the storage one message to the phone, whose
  -- text is that of a code that is not empty. From the state it leaves, `doRegisterValidation`
  -- answers this code with OK, after which the user may send, or with a database error and no
  -- change; and it answers every other code with ERR and no change. This is so where the query for
  -- the user succeeds, a code that is pending already has at most 6 characters, the phone has at
  -- most 16, the checker knows the BBS by the code that the process has, and memory is not lacking.
  pub do_register_validation-do_send_register_sms :
      (s s1 : Gw env) (rows : List Row) (guess : List ℕ)
      → length mobile ≤ 16
      → env.select s.db (key_of env s mobile id) ≡ some rows
      → length (pending_code rows) ≤ 6
      → s.checker_code ≡ s.child_code
      → ((n : ℕ) → env.malloc n ≡ true)
      → do_send_register_sms env mobile id s ≡ done (Cmd.ok, s1)
      → (code : List ℕ) × (sms : SmsMessage) × (code ≢ [])
        × (sms.target_number ≡ mobile)
        × (sms.body ≡ code_text code)
        × (env.write_sms s.disk sms.sender_number sms.target_number sms ≡ (s1.disk, Code.success))
        × ((do_register_validation env mobile id code s1 ≡ done (Cmd.db_error, s1))
            ⊎ ((s2 : Gw env) × (do_register_validation env mobile id code s1 ≡ done (Cmd.ok, s2))
                × (can_send_sms env mobile id s2 ≡ done (true, s2))))
        × ((guess ≡ code) ⊎ (do_register_validation env mobile id guess s1 ≡ done (Cmd.err, s1)))
  unfolding do_send_register_sms
  do_register_validation-do_send_register_sms s s1 rows guess short found few checker memory h =
      elim (get_validate_num_cases s 5) [
        | inl none_drawn ↦
            let refused : do_send_register_sms env mobile id s ≡ done (Cmd.db_error, s) =
              bind_done {env = env} (get_validate_num env mobile id 6) _ s s none none_drawn in
            absurd (ground (arith, refused, h))
        | inr (code, db', drawn, some_code) ↦
            let sa : Gw env = record s { db = db' } in
            let (sms, made, payer, to, body) =
              code_sms (code_text code) sa (code_text-IsShort code) short memory in
            let pending =
              get_validate_num-pending env laws s sa mobile id 6 code rows found few drawn in
            let sent : send_sms env sms (some id) true sa ≡ done (Cmd.ok, s1) =
              sym (
                bind_done {env = env} (get_validate_num env mobile id 6) _ s sa (some code) drawn
                ∙ bind_done {env = env} (generate_sms env 0 mobile mobile (code_text code) (pos 6))
                    _ sa sa (some sms) made)
              ∙ h in
            let (db1, disk1, final, written, left) =
              send_sms-IsPending sms sa s1 code payer pending sent in
            let same : s1.checker_code ≡ s1.child_code =
              ap (λ (x : Gw env). x.checker_code) final
              ∙ checker
              ∙ sym (ap (λ (x : Gw env). x.child_code) final) in
            let (right, wrong) = check_pending s1 code guess left some_code in
            (
              code,
              sms,
              some_code,
              to,
              body,
              written ∙ ap (λ (x : Gw env). (x.disk, Code.success)) (sym final),
              elim right [
                | inl down ↦ inl down
                | inr (db2, fine) ↦
                    let s2 : Gw env = record s1 { db = db2 } in
                    inr (
                      s2,
                      fine,
                      can_send_sms-do_register_validation env laws s1 s2 mobile id code fine same,
                    )
              ],
              wrong,
            )
      ]
