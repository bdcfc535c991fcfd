-- ===== src/Gateway/Billing.antt =====
-- `countMoney`, `getFee` and `sendSMS`: a message is charged to the sender's daily total before it
-- goes to the storage.
pub mod Charge
pub mod Limit
use aka_smsd.Common.{ℕ, Bool, true, false, List, [], ◌∷◌, Option, none, some, ◌==◌, if◌then◌else◌}
use aka_smsd.Common.Int.{ℤ, pos, ◌+ℤ◌, leb_ℤ, ◌==ℤ◌}
use aka_smsd.Common.Code
use aka_smsd.Wire.Cmd
use aka_smsd.Sms.{SmsMessage}
use aka_smsd.Gateway.World.{
  Key, Row, Statement, add_money, Env, Gw, Outcome, done, exited, fault, M, ◌>>=◌, ◌>>◌, pure,
}

-- The `where` clause `todayMoney+fee<=moneyLimit`.
abbrev pub can_pay : ℤ → Row → Bool
can_pay fee row = leb_ℤ (row.today_money +ℤ fee) row.money_limit

abbrev pub filter_rows : (Row → Bool) → List Row → List Row
filter_rows p [] = []
filter_rows p (r ∷ rs) = let rest = filter_rows p rs in if p r then r ∷ rest else rest

-- Whether the result of a query has a row: `res.size()!=0`.
abbrev pub has_rows {ℓ} : {A : Type ℓ} → List A → Bool
has_rows [] = false
has_rows (r ∷ rs) = true

module _ (env : Env) where
  abbrev pub key_of : Gw env → List ℕ → List ℕ → Key
  key_of s mobile src_id = record { child_code = s.child_code; mobile = mobile; src_id = src_id }

  -- `query.exec(sql)` in a `try` block: the value returned, or the handler's.
  abbrev pub exec_or : {A : Type 0} → Statement → A → A → M env A
  exec_or stmt ok_value caught s = elim (env.exec s.db stmt) [
    | none ↦ done (caught, s)
    | some db' ↦ done (ok_value, record s { db = db' })
  ]

  unfoldable pub count_money : List ℕ → List ℕ → ℤ → M env ℕ
  count_money mobile_number usr_id fee_money s =
      elim (env.select s.db (key_of s mobile_number usr_id)) [
        | none ↦ done (Cmd.db_error, s)
        | some rows ↦
            if has_rows (filter_rows (can_pay fee_money) rows)
            then exec_or (add_money (key_of s mobile_number usr_id) fee_money) Cmd.ok Cmd.db_error s
            else done (Cmd.exceedmoney_limit, s)
      ]

  -- CSMSMysqlFeeCodeGetter::getFee; `none` is `FAILED`.
  unfoldable pub get_fee : ℤ → M env (Option ℤ)
  get_fee fee_type s = elim (env.select_fee s.db fee_type) [
    | none ↦ done (none, s)
    | some [] ↦ done (none, s)
    | some (fee ∷ _) ↦ done (some fee, s)
  ]

  -- `m_pSMSStorage->writeSMStoStorage(…)`
  unfoldable pub write_to_storage : SmsMessage → M env ℕ
  write_to_storage sms s =
      let (disk', ret) = env.write_sms s.disk sms.sender_number sms.target_number sms in
      done (if ret ==ℤ Code.success then Cmd.ok else Cmd.err, record s { disk = disk' })

  -- The charge of a checked message; `usr_id` is `none` for a null pointer.
  unfoldable pub charge : SmsMessage → Option (List ℕ) → ℤ → M env ℕ
  charge sms none fee = pure Cmd.ok
  charge sms (some usr_id) fee = count_money sms.fee_target_number usr_id fee

  -- `check` is false for `SEND_NO_CHECK`.
  unfoldable pub send_sms : SmsMessage → Option (List ℕ) → Bool → M env ℕ
  send_sms sms usr_id false = write_to_storage sms
  send_sms sms usr_id true = do
    fee ← get_fee sms.fee_type
    elim fee [
      | none ↦ pure Cmd.db_error
      | some fee_money ↦ do
        ret ← charge sms usr_id fee_money
        if ret == Cmd.ok then write_to_storage sms else pure ret
    ]
