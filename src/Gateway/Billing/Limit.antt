-- ===== src/Gateway/Billing/Limit.antt =====
-- What a charge leaves in the row of its sender.
use aka_smsd.Common.{ℕ, ◌≡◌, ◌≢◌, refl, arith, true, List, [], ◌∷◌, some, inl, inr, ap, ◌⊎◌}
use aka_smsd.Common.Int.{ℤ, ◌+ℤ◌, ◌≤ℤ◌}
use aka_smsd.Common.Code
use aka_smsd.Wire.Cmd
use aka_smsd.Sms.{SmsMessage}
use aka_smsd.Gateway.Database.{Database, with_money}
use aka_smsd.Gateway.Billing.{can_pay, filter_rows, has_rows, key_of}
use aka_smsd.Gateway.Billing.Charge.{IsCharged, IsWritten}
use aka_smsd.Gateway.World.{Row, add_money, Env, Gw}

can_pay-le :
    (fee : ℤ) (row : Row)
    → has_rows (filter_rows (can_pay fee) (row ∷ [])) ≡ true
    → row.today_money +ℤ fee ≤ℤ row.money_limit
unfolding ◌+ℤ◌
can_pay-le fee row h = ground arith

pub written_db :
    (env : Env) (sms : SmsMessage) (mid s' : Gw env) (ret : ℕ)
    → ((ret ≡ Cmd.ok) × IsWritten env sms Code.success mid s')
      ⊎ ((ret ≡ Cmd.err)
          × ((refusal : ℤ) × (refusal ≢ Code.success) × IsWritten env sms refusal mid s'))
    → s'.db ≡ mid.db
written_db env sms mid s' ret (inl (_, (_, _, e))) = ap (λ (x : Gw env). x.db) e
written_db env sms mid s' ret (inr (_, (_, _, (_, _, e)))) = ap (λ (x : Gw env). x.db) e

module _ (env : Env) (laws : Database env) where
  pub IsCharged-limit :
      (s s' : Gw env) (mobile usr : List ℕ) (fee : ℤ) (row : Row)
      → env.select s.db (key_of env s mobile usr) ≡ some (row ∷ [])
      → IsCharged env mobile usr fee s s'
      → (env.select s'.db (key_of env s mobile usr) ≡ some (with_money fee row ∷ []))
        × (row.today_money +ℤ fee ≤ℤ row.money_limit)
  IsCharged-limit s s' mobile usr fee row one c =
      let rows_eq : c.rows ≡ row ∷ [] = cc in
      let found : env.select s'.db (key_of env s mobile usr) ≡ some (with_money fee row ∷ []) =
        rw c.rest (
          laws.exec_select s.db c.db' (add_money (key_of env s mobile usr) fee)
            (key_of env s mobile usr) (row ∷ []) refl c.added one) in
      (found, can_pay-le fee row (rw rows_eq at c.affordable))
