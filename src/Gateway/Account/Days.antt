-- ===== src/Gateway/Account/Days.antt =====
-- What a sequence of events posts to the account.
use aka_smsd.Common.{
  ℕ, ◌≤◌, ◌≡◌, refl, ◌∙◌, true, List, [], ◌∷◌, Option, none, some, inl, inr, length, Option-cases,
  subst, if◌then◌else◌,
}
use aka_smsd.Common.Int.{ℤ, pos, ◌==ℤ◌}
use aka_smsd.Common.Code
use aka_smsd.Gateway.Database.{Database, target, effect, with_limit, with_no_money}
use aka_smsd.Gateway.World.{
  Row, Statement, set_limit, zero_money, Env, Gw, done, M, bind_done, ◌>>=◌, pure,
}
use aka_smsd.Gateway.Texts.{limit_set_text, zeroed_text, limit_text, total_text}
use aka_smsd.Gateway.Texts.Lengths.{
  IsShort, limit_set_text-IsShort, zeroed_text-IsShort, limit_text-IsShort, total_text-IsShort,
}
use aka_smsd.Gateway.Billing.{key_of, exec_or}
use aka_smsd.Gateway.Command.{
  answer_command, first_row, do_set_money_limit, do_set_money_limit_command, do_zero_today_total,
  do_zero_today_total_command, do_get_money_limit_command, do_get_today_total_command,
}
use aka_smsd.Gateway.Account.{
  account_of, Entry, limited, zeroed, post, IsAllowed, Event, message, set_limit_command,
  zero_command, ask_limit, ask_total, clearing, do_event, do_events, ArePaidByMobile, concat,
  IsCharge, IsCommand, IsRecorded, AreRecorded,
}
use aka_smsd.Gateway.Account.Postings.{HasRow, Follows, stays, joined}
use aka_smsd.Gateway.Account.Steps.{
  exec-Follows, Posts, send_sms-Posts, answer_command-Posts, clear-Posts,
}

module _ (env : Env) (laws : Database env) (mobile usr_id : List ℕ)
    (prices : (db db' : env.Store) (stmt : Statement)
      → env.exec db stmt ≡ some db'
      → env.select_fee db' ≡ env.select_fee db)
    (short : length mobile ≤ 16) (memory : (n : ℕ) → env.malloc n ≡ true) where
  abbrev answered : List ℕ → ℤ → M env ℤ
  answered text ret =
      if ret ==ℤ Code.success then answer_command env mobile usr_id text else pure {env = env} ret

  -- A command that runs a statement about the user's row and answers it.
  statement-Posts :
      (stmt : Statement) (e : Entry) (text : List ℕ) (s : Gw env) (row row' : Row)
      → IsShort text
      → HasRow env mobile usr_id s row
      → target stmt ≡ some (key_of env s mobile usr_id)
      → effect stmt (row ∷ []) ≡ row' ∷ []
      → account_of row' ≡ post e (account_of row)
      → IsAllowed e (account_of row)
      → Posts env laws mobile usr_id prices
          (exec_or env stmt Code.success Code.error >>= answered text)
          (IsCommand (env.select_fee s.db) e)
          s
          row
  statement-Posts stmt e text s row row' few h key one posted allowed =
      elim (Option-cases (env.exec s.db stmt)) [
        | inl x ↦ (
          Code.error,
          s,
          [],
          bind_done {env = env} (exec_or env stmt Code.success Code.error) (answered text) s s
              Code.error (rw (x, exec_or) refl),
          inl (refl, λ bad. cc),
          stays env mobile usr_id s row h,
        )
        | inr (db', x) ↦
            let s1 : Gw env = record s { db = db' } in
            let f =
              exec-Follows env laws mobile usr_id prices stmt e s row row' db' h key one posted
                allowed x in
            let (ret, s', es, ran, charge, g) =
              answer_command-Posts env laws mobile usr_id prices text s1 f.row' few f.found short
                memory in
            (
              ret,
              s',
              e ∷ es,
              bind_done {env = env} (exec_or env stmt Code.success Code.error) (answered text) s s1
                    Code.success (rw (x, exec_or) refl)
                  ∙ ran,
              inr (
                es,
                refl,
                subst (λ (p : ℤ → Option (List ℤ)). IsCharge p (pos 6) ret es) f.same_prices charge,
              ),
              joined env mobile usr_id s s1 s' row (e ∷ []) es f g,
            )
      ]

  -- A command that answers with something of the user's row.
  asked-Posts :
      (text : Row → List ℕ) (s : Gw env) (row : Row)
      → IsShort (text row)
      → HasRow env mobile usr_id s row
      → Posts env laws mobile usr_id prices
          (do
            found ← first_row env mobile usr_id
            elim found [
              | none ↦ pure {env = env} Code.failed
              | some r ↦ answer_command env mobile usr_id (text r)
            ])
          (IsCharge (env.select_fee s.db) (pos 6))
          s
          row
  unfolding first_row
  asked-Posts text s row few h =
      let (ret, s', es, ran, charge, f) =
        answer_command-Posts env laws mobile usr_id prices (text row) s row few h short memory in
      (
        ret,
        s',
        es,
        bind_done {env = env} (first_row env mobile usr_id) _ s s (some row)
              (rw (h, first_row) refl)
            ∙ ran,
        charge,
        f,
      )

  do_event-Posts :
      (e : Event) (s : Gw env) (row : Row)
      → HasRow env mobile usr_id s row
      → ArePaidByMobile env mobile usr_id (e ∷ [])
      → Posts env laws mobile usr_id prices
          (do_event env mobile usr_id e)
          (IsRecorded (env.select_fee s.db) e)
          s
          row
  unfolding do_set_money_limit_command do_set_money_limit do_zero_today_total_command
      do_zero_today_total do_get_money_limit_command do_get_today_total_command
  do_event-Posts (message sms) s row h paid =
      send_sms-Posts env laws mobile usr_id prices sms s row h paid.0
  do_event-Posts (set_limit_command n) s row h paid =
      statement-Posts (set_limit (key_of env s mobile usr_id) n) (limited n) (limit_set_text n) s
        row (with_limit n row) (limit_set_text-IsShort n) h refl refl refl tt
  do_event-Posts zero_command s row h paid =
      statement-Posts (zero_money (key_of env s mobile usr_id)) zeroed zeroed_text s row
        (with_no_money row) zeroed_text-IsShort h refl refl refl tt
  do_event-Posts ask_limit s row h paid =
      asked-Posts (λ r. limit_text r.money_limit) s row (limit_text-IsShort row.money_limit) h
  do_event-Posts ask_total s row h paid =
      asked-Posts (λ r. total_text r.today_money) s row (total_text-IsShort row.today_money) h
  do_event-Posts clearing s row h paid = clear-Posts env laws mobile usr_id prices s row h

  first_paid :
      (e : Event) (es : List Event)
      → ArePaidByMobile env mobile usr_id (e ∷ es)
      → ArePaidByMobile env mobile usr_id (e ∷ []) × ArePaidByMobile env mobile usr_id es
  first_paid (message sms) es paid = ((paid.0, tt), paid.1)
  first_paid (set_limit_command n) es paid = (tt, paid)
  first_paid zero_command es paid = (tt, paid)
  first_paid ask_limit es paid = (tt, paid)
  first_paid ask_total es paid = (tt, paid)
  first_paid clearing es paid = (tt, paid)

  -- The user's row is an account. Where the tables have one row for the user, every sequence of
  -- messages that the user pays, of the four commands about money and of the clearing of a new day
  -- runs to its end, and what it does to the row is what its entries do to the account: a fee,
  -- which is the price of the message's type, for each message and each answer of a command that
  -- was charged, at least for those with the value SUCCESS; a new limit or a total of zero for each
  -- command to that end and each clearing that the database took; nothing else. No fee is ever
  -- posted that would bring the total of the day above the limit that holds then. This is so for a
  -- phone of at most 16 characters, where memory is not lacking and the statements leave the table
  -- of prices alone.
  pub do_events-Follows :
      (events : List Event) (s : Gw env) (row : Row)
      → HasRow env mobile usr_id s row
      → ArePaidByMobile env mobile usr_id events
      → (rets : List ℤ) × (s' : Gw env) × (posted : List (List Entry)) × (do_events env mobile
            usr_id events s
          ≡ done (rets, s'))
        × AreRecorded (env.select_fee s.db) events rets posted
        × Follows env mobile usr_id s s' row (concat posted)
  do_events-Follows [] s row h paid = ([], s, [], refl, tt, stays env mobile usr_id s row h)
  do_events-Follows (e ∷ es) s row h paid =
      let (first, others) = first_paid e es paid in
      let (ret, s1, ps, ran, recorded, f) = do_event-Posts e s row h first in
      let (rets, s', pss, ran', recorded', g) = do_events-Follows es s1 f.row' f.found others in
      (
        ret ∷ rets,
        s',
        ps ∷ pss,
        bind_done {env = env} (do_event env mobile usr_id e) _ s s1 ret ran
            ∙ bind_done {env = env} (do_events env mobile usr_id es)
                (λ rs. pure {env = env} (ret ∷ rs)) s1 s' rets ran',
        (
          recorded,
          subst (λ (p : ℤ → Option (List ℤ)). AreRecorded p es rets pss) f.same_prices recorded',
        ),
        joined env mobile usr_id s s1 s' row ps (concat pss) f g,
      )
