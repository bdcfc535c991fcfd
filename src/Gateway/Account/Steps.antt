-- ===== src/Gateway/Account/Steps.antt =====
-- What one operation posts to the account.
use aka_smsd.Common.{false}
use aka_smsd.Common.{
  ℕ, ◌+◌, ◌%◌, ◌^◌, ◌≤◌, ◌≡◌, ◌≢◌, refl, ap, ◌∙◌, arith, true, List, [], ◌∷◌, some, ◌⊎◌, inl, inr,
  length, take, take_all, Bool-cases, Option-cases, ◌==◌, subst,
}
use aka_smsd.Common.Int.{ℤ, pos, negsuc}
use aka_smsd.Common.Code
use aka_smsd.Wire.Cmd
use aka_smsd.Sms.{SmsMessage, max_child_code_len}
use aka_smsd.Gateway.Database.{Database, target, effect, with_money}
use aka_smsd.Gateway.Texts.Lengths.{IsShort}
use aka_smsd.Common.{leb}
use aka_smsd.Gateway.World.{
  Row, Statement, zero_all_money, Env, Gw, done, M, bind_done, ◌>>=◌, pure,
}
use aka_smsd.Clearer.{clear_money}
use aka_smsd.Gateway.Message.{sender_of, generate_sms}
use aka_smsd.Gateway.Billing.{key_of, get_fee, send_sms}
use aka_smsd.Gateway.Billing.Charge.{IsCharged, IsWritten, send_sms_outcome}
use aka_smsd.Gateway.Billing.Limit.{IsCharged-limit, written_db}
use aka_smsd.Gateway.Command.{status_of, answer_command}
use aka_smsd.Gateway.Account.{account_of, Entry, paid, zeroed, post, IsAllowed, IsCharge, clear}
use aka_smsd.Gateway.Account.Postings.{HasRow, Follows, stays}

get_fee-price :
    (env : Env) (fee_type fee : ℤ) (s : Gw env)
    → get_fee env fee_type s ≡ done (some fee, s)
    → (fees : List ℤ) × (env.select_fee s.db fee_type ≡ some (fee ∷ fees))
unfolding get_fee
get_fee-price env fee_type fee s h = elim (Option-cases (env.select_fee s.db fee_type)) [
  | inl e ↦ absurd (ground (arith, e, h))
  | inr ([], e) ↦ absurd (ground (arith, e, h))
  | inr (first ∷ fees, e) ↦ (fees, ground (arith, e, h))
]

written_code :
    (env : Env) (sms : SmsMessage) (mid s' : Gw env) (ret : ℕ)
    → ((ret ≡ Cmd.ok) × IsWritten env sms Code.success mid s')
      ⊎ ((ret ≡ Cmd.err)
          × ((refusal : ℤ) × (refusal ≢ Code.success) × IsWritten env sms refusal mid s'))
    → s'.child_code ≡ mid.child_code
written_code env sms mid s' ret (inl (_, (_, _, e))) = ap (λ (x : Gw env). x.child_code) e
written_code env sms mid s' ret (inr (_, (_, _, (_, _, e)))) = ap (λ (x : Gw env). x.child_code) e

status_of-bad : (ret : ℕ) → ret ≢ Cmd.ok → status_of ret ≢ Code.success
status_of-bad ret bad = elim (Bool-cases (ret == Cmd.ok)) [
  | inl e ↦ absurd (bad (ground (arith, e)))
  | inr e ↦ rw e (λ x. cc)
]

module _ (env : Env) (laws : Database env) (mobile usr_id : List ℕ)
    (prices : (db db' : env.Store) (stmt : Statement)
      → env.exec db stmt ≡ some db'
      → env.select_fee db' ≡ env.select_fee db) where
  -- A statement about the user's row that was run.
  pub exec-Follows :
      (stmt : Statement) (e : Entry) (s : Gw env) (row row' : Row) (db' : env.Store)
      → HasRow env mobile usr_id s row
      → target stmt ≡ some (key_of env s mobile usr_id)
      → effect stmt (row ∷ []) ≡ row' ∷ []
      → account_of row' ≡ post e (account_of row)
      → IsAllowed e (account_of row)
      → env.exec s.db stmt ≡ some db'
      → Follows env mobile usr_id s (record s { db = db' }) row (e ∷ [])
  exec-Follows stmt e s row row' db' h key one posted allowed ran = record {
    row' = row';
    found =
        laws.exec_select s.db db' stmt (key_of env s mobile usr_id) (row ∷ []) key ran h
        ∙ ap some one;
    posted = posted;
    allowed = (allowed, tt);
    same_code = refl;
    same_prices = prices s.db db' stmt ran;
  }

  -- What an operation returns, with what it posts.
  abbrev pub Posts : M env ℤ → (ℤ → List Entry → Type 0) → Gw env → Row → Type 0
  Posts m P s row =
      (ret : ℤ) × (s' : Gw env) × (es : List Entry) × (m s ≡ done (ret, s'))
      × P ret es
      × Follows env mobile usr_id s s' row es

  charged-Follows :
      (s mid s' : Gw env) (row : Row) (fee : ℤ)
      → HasRow env mobile usr_id s row
      → IsCharged env mobile usr_id fee s mid
      → s'.db ≡ mid.db
      → s'.child_code ≡ mid.child_code
      → Follows env mobile usr_id s s' row (paid fee ∷ [])
  charged-Follows s mid s' row fee h c same_db same_code =
      let (found, fits) = IsCharged-limit env laws s mid mobile usr_id fee row h c in
      let mid_code : mid.child_code ≡ s.child_code = ap (λ (x : Gw env). x.child_code) c.rest in
      let mid_db : mid.db ≡ c.db' = ap (λ (x : Gw env). x.db) c.rest in
      record {
        row' = with_money fee row;
        found = rw (same_db, same_code, mid_code) found;
        posted = refl;
        allowed = (fits, tt);
        same_code = same_code ∙ mid_code;
        same_prices = ap env.select_fee (same_db ∙ mid_db) ∙ prices s.db c.db' _ c.added;
      }

  -- `sendSMS` of a message that the user pays.
  pub send_sms-Posts :
      (sms : SmsMessage) (s : Gw env) (row : Row)
      → HasRow env mobile usr_id s row
      → sms.fee_target_number ≡ mobile
      → Posts
          (do ret ← send_sms env sms (some usr_id) true; pure {env = env} (status_of ret))
          (IsCharge (env.select_fee s.db) sms.fee_type)
          s
          row
  send_sms-Posts sms s row h payer =
      let (ret, s', e, result) = send_sms_outcome env sms usr_id s in
      let sent =
        bind_done {env = env} (send_sms env sms (some usr_id) true)
          (λ r. pure {env = env} (status_of r)) s s' ret in
      elim result [
        | inl (fee, mid, price, charged, written) ↦
            let (fees, first) = get_fee-price env sms.fee_type fee s price in
            (
              status_of ret,
              s',
              paid fee ∷ [],
              sent e,
              inr (fee, fees, first, refl),
              charged-Follows s mid s' row fee h
                  (subst (λ (m : List ℕ). IsCharged env m usr_id fee s mid) payer charged)
                  (written_db env sms mid s' ret written) (written_code env sms mid s' ret written),
            )
        | inr (bad, same) ↦ (
          status_of ret,
          s',
          [],
          sent e,
          inl (refl, status_of-bad ret bad),
          rw same (stays env mobile usr_id s row h),
        )
      ]

  generate_sms-payer :
      (text : List ℕ) (s : Gw env)
      → IsShort text
      → length mobile ≤ 16
      → ((n : ℕ) → env.malloc n ≡ true)
      → (sms : SmsMessage) × (generate_sms env 0 mobile mobile text (pos 6) s ≡ done (some sms, s))
        × (sms.fee_target_number ≡ mobile)
        × (sms.fee_type ≡ pos 6)
  unfolding generate_sms
  generate_sms-payer text s few short memory =
      let fits : leb (2 ^ 32) (180 + length text) ≡ false = ground (arith, few) in
      (
        record {
          length = (180 + length text) % 2 ^ 32;
          sender_number = sender_of s.child_code 0;
          target_number = take 16 mobile;
          fee_target_number = take 16 mobile;
          fee_type = pos 6;
          child_code = take max_child_code_len s.child_code;
          parent_id = [];
          sms_type = pos 0;
          send_time = s.clock;
          arrive_time = 0;
          service_code = [];
          fee_money = pos 10;
          body_length = length text;
          body = text;
        },
        rw (memory ((180 + length text) % 2 ^ 32), fits) refl,
        take_all 16 mobile short,
        refl,
      )

  -- The message that answers a command.
  pub answer_command-Posts :
      (text : List ℕ) (s : Gw env) (row : Row)
      → IsShort text
      → HasRow env mobile usr_id s row
      → length mobile ≤ 16
      → ((n : ℕ) → env.malloc n ≡ true)
      → Posts (answer_command env mobile usr_id text) (IsCharge (env.select_fee s.db) (pos 6)) s row
  unfolding answer_command
  answer_command-Posts text s row few h short memory =
      let (sms, made, payer, kind) = generate_sms-payer text s few short memory in
      let (ret, s', es, e, charge, follows) = send_sms-Posts sms s row h payer in
      (
        ret,
        s',
        es,
        bind_done {env = env} (generate_sms env 0 mobile mobile text (pos 6)) _ s s (some sms) made
            ∙ e,
        subst (λ (t : ℤ). IsCharge (env.select_fee s.db) t ret es) kind charge,
        follows,
      )

  clear_lem :
      (s : Gw env) (db' : env.Store) (ret : ℤ)
      → clear_money env s.db ≡ (db', ret)
      → clear env mobile usr_id s ≡ done (ret, record s { db = db' })
  clear_lem s db' ret e = ap (λ (r : env.Store × ℤ). done (r.1, record s { db = r.0 })) e

  -- The clearing of a new day.
  pub clear-Posts :
      (s : Gw env) (row : Row)
      → HasRow env mobile usr_id s row
      → Posts
          (clear env mobile usr_id)
          (λ ret es. ((es ≡ zeroed ∷ []) × (ret ≡ pos 0)) ⊎ ((es ≡ []) × (ret ≡ negsuc 0)))
          s
          row
  unfolding clear_money
  clear-Posts s row h = elim (Option-cases (env.exec s.db zero_all_money)) [
    | inl e ↦ (
      negsuc 0,
      s,
      [],
      clear_lem s _ _ (rw (e, clear_money) refl),
      inr (refl, refl),
      stays env mobile usr_id s row h,
    )
    | inr (db', e) ↦ (
      pos 0,
      record s { db = db' },
      zeroed ∷ [],
      clear_lem s _ _ (rw (e, clear_money) refl),
      inl (refl, refl),
      record {
        row' = record row { today_money = pos 0 };
        found = laws.exec_select_all s.db db' (key_of env s mobile usr_id) (row ∷ []) e h;
        posted = refl;
        allowed = (tt, tt);
        same_code = refl;
        same_prices = prices s.db db' zero_all_money e;
      },
    )
  ]
