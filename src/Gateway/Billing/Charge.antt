-- ===== src/Gateway/Billing/Charge.antt =====
-- A message goes to the storage only when its sender has been charged for it within the limit.
use aka_smsd.Common.{
  ℕ, ◌≡◌, ◌≢◌, refl, ap, arith, true, List, [], ◌∷◌, none, some, ◌⊎◌, inl, inr, Bool-cases,
  Option-cases,
}
use aka_smsd.Common.Int.{◌==ℤ◌, ==ℤ_iff, ℤ}
use aka_smsd.Common.Code
use aka_smsd.Wire.Cmd
use aka_smsd.Sms.{SmsMessage}
use aka_smsd.Gateway.Billing.{
  can_pay, filter_rows, has_rows, key_of, count_money, get_fee, write_to_storage, charge, send_sms,
}
use aka_smsd.Gateway.World.{Row, add_money, Env, Gw, done}

-- `countMoney` added the fee to the rows of this sender, one of which could pay it.
pub record IsCharged (env : Env) (mobile usr : List ℕ) (fee : ℤ) (s s' : Gw env) : Type 0 where
  pub rows : List Row
  pub db' : env.Store
  pub found : env.select s.db (key_of env s mobile usr) ≡ some rows
  pub affordable : has_rows (filter_rows (can_pay fee) rows) ≡ true
  pub added : env.exec s.db (add_money (key_of env s mobile usr) fee) ≡ some db'
  pub rest : s' ≡ record s { db = db' }

module _ (env : Env) where
  -- `countMoney` answers OK exactly after it charged; any other answer leaves the state alone.
  count_money_outcome :
      (s : Gw env) (mobile usr : List ℕ) (fee : ℤ)
      → (ret : ℕ) × (s' : Gw env) × (count_money env mobile usr fee s ≡ done (ret, s'))
        × (((ret ≡ Cmd.ok) × IsCharged env mobile usr fee s s') ⊎ ((ret ≢ Cmd.ok) × (s' ≡ s)))
  unfolding count_money
  count_money_outcome s mobile usr fee =
      elim (Option-cases (env.select s.db (key_of env s mobile usr))) [
        | inl e ↦ (Cmd.db_error, s, ground arith, inr (omega arith, refl))
        | inr (rows, e) ↦ elim (Bool-cases (has_rows (filter_rows (can_pay fee) rows))) [
          | inl pays ↦
              elim (Option-cases (env.exec s.db (add_money (key_of env s mobile usr) fee))) [
                | inl x ↦ (Cmd.db_error, s, ground arith, inr (omega arith, refl))
                | inr (db', x) ↦ (
                  Cmd.ok,
                  record s { db = db' },
                  ground arith,
                  inl (
                    refl,
                    record {
                      rows = rows;
                      db' = db';
                      found = e;
                      affordable = pays;
                      added = x;
                      rest = refl;
                    },
                  ),
                )
              ]
          | inr no_row ↦ (Cmd.exceedmoney_limit, s, ground arith, inr (omega arith, refl))
        ]
      ]

  -- The storage was given this message and returned `ret`.
  abbrev pub IsWritten : SmsMessage → ℤ → Gw env → Gw env → Type 0
  IsWritten sms ret s s' =
      (disk' : env.Disk) × (env.write_sms s.disk sms.sender_number sms.target_number sms
        ≡ (disk', ret))
      × (s' ≡ record s { disk = disk' })

  -- What a checked message of a user can come to: it was charged and then written, or charged and
  -- then refused by the storage, or neither charged nor written.
  abbrev pub SendResult : SmsMessage → List ℕ → Gw env → ℕ → Gw env → Type 0
  SendResult sms usr s ret s' =
      ((fee : ℤ) × (mid : Gw env) × (get_fee env sms.fee_type s ≡ done (some fee, s))
        × IsCharged env sms.fee_target_number usr fee s mid
        × (((ret ≡ Cmd.ok) × IsWritten sms Code.success mid s')
            ⊎ ((ret ≡ Cmd.err)
                × ((refusal : ℤ) × (refusal ≢ Code.success) × IsWritten sms refusal mid s'))))
      ⊎ ((ret ≢ Cmd.ok) × (s' ≡ s))

  get_fee_cases :
      (fee_type : ℤ) (s : Gw env)
      → (get_fee env fee_type s ≡ done (none, s))
        ⊎ ((fee : ℤ) × (get_fee env fee_type s ≡ done (some fee, s)))
  unfolding get_fee
  get_fee_cases fee_type s = elim (Option-cases (env.select_fee s.db fee_type)) [
    | inl e ↦ inl (ground arith)
    | inr ([], e) ↦ inl (ground arith)
    | inr (fee ∷ fees, e) ↦ inr (fee, ground arith)
  ]

  write_cases :
      (sms : SmsMessage) (s : Gw env)
      → (ret : ℕ) × (s' : Gw env) × (write_to_storage env sms s ≡ done (ret, s'))
        × (((ret ≡ Cmd.ok) × IsWritten sms Code.success s s')
            ⊎ ((ret ≡ Cmd.err)
                × ((refusal : ℤ) × (refusal ≢ Code.success) × IsWritten sms refusal s s')))
  unfolding write_to_storage
  write_cases sms s =
      let (disk', ret) = env.write_sms s.disk sms.sender_number sms.target_number sms in
      elim (Bool-cases (ret ==ℤ Code.success)) [
        | inl e ↦ (
          Cmd.ok,
          record s { disk = disk' },
          rw e refl,
          inl (refl, (disk', ap (λ (r : ℤ). (disk', r)) ((==ℤ_iff ret Code.success).0 e), refl)),
        )
        | inr e ↦ (
          Cmd.err,
          record s { disk = disk' },
          rw e refl,
          inr (refl, (ret, (λ x. cc ((==ℤ_iff ret Code.success).1 x)), (disk', refl, refl))),
        )
      ]

  -- For every state, checked message and user, `sendSMS` returns, and its result is one of three:
  -- OK, and the fee of the message was added to the sender's total within the limit before the
  -- storage took the message; the error code, and the fee was added but the storage refused the
  -- message; or a code other than OK, and nothing has changed.
  pub send_sms_outcome :
      (sms : SmsMessage) (usr : List ℕ) (s : Gw env)
      → (ret : ℕ) × (s' : Gw env) × (send_sms env sms (some usr) true s ≡ done (ret, s'))
        × SendResult sms usr s ret s'
  unfolding send_sms charge
  send_sms_outcome sms usr s = elim (get_fee_cases sms.fee_type s) [
    | inl g ↦ (Cmd.db_error, s, ground arith, inr (omega arith, refl))
    | inr (fee, g) ↦
        let (ret, mid, c, cases) = count_money_outcome s sms.fee_target_number usr fee in
        elim cases [
          | inr (bad, same) ↦ (ret, s, ground (arith, g, c, same), inr (bad, refl))
          | inl (good, charged) ↦
              let (ret', s', w, written) = write_cases sms mid in
              (ret', s', ground (arith, g, c, w, good), inl (fee, mid, g, charged, written))
        ]
  ]
