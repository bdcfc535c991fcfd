-- ===== src/Gateway/Account.antt =====
-- The account of a user, which the registration's row is: the limit and the total of today, and
-- what can be posted to it. `do_event` is what the gateway does for the user, and what the clearing
-- of a new day does.
pub mod Postings
pub mod Steps
pub mod Days
use aka_smsd.Common.{ℕ, ◌≡◌, ◌≢◌, ◌⊎◌, List, [], ◌∷◌, ◌++◌, Option, some, true}
use aka_smsd.Common.Code
use aka_smsd.Common.Int.{ℤ, pos, negsuc, ◌+ℤ◌, ◌≤ℤ◌}
use aka_smsd.Sms.{SmsMessage}
use aka_smsd.Clearer.{clear_money}
use aka_smsd.Gateway.Billing.{send_sms}
use aka_smsd.Gateway.Command.{
  status_of, do_set_money_limit_command, do_zero_today_total_command, do_get_money_limit_command,
  do_get_today_total_command,
}
use aka_smsd.Gateway.World.{Row, Env, Gw, done, M, ◌>>=◌, pure}

pub record Account : Type 0 where
  pub limit : ℤ
  pub today : ℤ

abbrev pub account_of : Row → Account
account_of row = record { limit = row.money_limit; today = row.today_money }

pub data Entry : Type 0 where
  paid : ℤ → Entry
  limited : ℤ → Entry
  zeroed : Entry

abbrev pub post : Entry → Account → Account
post (paid fee) acc = record acc { today = acc.today +ℤ fee }
post (limited n) acc = record acc { limit = n }
post zeroed acc = record acc { today = pos 0 }

abbrev pub post_all : List Entry → Account → Account
post_all [] acc = acc
post_all (e ∷ es) acc = post_all es (post e acc)

-- A fee may be posted only within the limit.
abbrev pub IsAllowed : Entry → Account → Type 0
IsAllowed (paid fee) acc = acc.today +ℤ fee ≤ℤ acc.limit
IsAllowed (limited n) acc = Unit
IsAllowed zeroed acc = Unit

abbrev pub AreAllowed : List Entry → Account → Type 0
AreAllowed [] acc = Unit
AreAllowed (e ∷ es) acc = IsAllowed e acc × AreAllowed es (post e acc)

-- A message that the user pays, the four commands about money, and the clearing of a new day.
pub data Event : Type 0 where
  message : SmsMessage → Event
  set_limit_command : ℤ → Event
  zero_command : Event
  ask_limit : Event
  ask_total : Event
  clearing : Event

abbrev pub concat : List (List Entry) → List Entry
concat [] = []
concat (es ∷ ess) = es ++ concat ess

-- What may be posted for a charge that gives this value: the fee, which is the price of the type of
-- the message; nothing only when the value is not SUCCESS.
abbrev pub IsCharge : (ℤ → Option (List ℤ)) → ℤ → ℤ → List Entry → Type 0
IsCharge prices fee_type ret es =
    ((es ≡ []) × (ret ≢ Code.success))
    ⊎ ((fee : ℤ) × (fees : List ℤ) × (prices fee_type ≡ some (fee ∷ fees)) × (es ≡ paid fee ∷ []))

-- The entry of a command and the charge of its answer, or nothing and not SUCCESS.
abbrev pub IsCommand : (ℤ → Option (List ℤ)) → Entry → ℤ → List Entry → Type 0
IsCommand prices e ret es =
    ((es ≡ []) × (ret ≢ Code.success))
    ⊎ ((rest : List Entry) × (es ≡ e ∷ rest) × IsCharge prices (pos 6) ret rest)

-- What is posted for an event with this value.
abbrev pub IsRecorded : (ℤ → Option (List ℤ)) → Event → ℤ → List Entry → Type 0
IsRecorded prices (message sms) ret es = IsCharge prices sms.fee_type ret es
IsRecorded prices (set_limit_command n) ret es = IsCommand prices (limited n) ret es
IsRecorded prices zero_command ret es = IsCommand prices zeroed ret es
IsRecorded prices ask_limit ret es = IsCharge prices (pos 6) ret es
IsRecorded prices ask_total ret es = IsCharge prices (pos 6) ret es
IsRecorded prices clearing ret es =
    ((es ≡ zeroed ∷ []) × (ret ≡ pos 0)) ⊎ ((es ≡ []) × (ret ≡ negsuc 0))

-- The entries of the events, one after the other.
abbrev pub AreRecorded : (ℤ → Option (List ℤ)) → List Event → List ℤ → List (List Entry) → Type 0
AreRecorded prices [] [] [] = Unit
AreRecorded prices (e ∷ es) (ret ∷ rets) (p ∷ ps) =
    IsRecorded prices e ret p × AreRecorded prices es rets ps
AreRecorded prices es rets ps = ⊥

module _ (env : Env) (mobile usr_id : List ℕ) where
  -- Another process, on the same tables.
  abbrev pub clear : M env ℤ
  clear s = let (db', ret) = clear_money env s.db in done (ret, record s { db = db' })

  abbrev pub do_event : Event → M env ℤ
  do_event (message sms) = do
    ret ← send_sms env sms (some usr_id) true
    pure {env = env} (status_of ret)
  do_event (set_limit_command n) = do_set_money_limit_command env mobile usr_id n
  do_event zero_command = do_zero_today_total_command env mobile usr_id
  do_event ask_limit = do_get_money_limit_command env mobile usr_id
  do_event ask_total = do_get_today_total_command env mobile usr_id
  do_event clearing = clear

  -- The events one after the other, with the value of each.
  abbrev pub do_events : List Event → M env (List ℤ)
  do_events [] = pure {env = env} []
  do_events (e ∷ es) = do ret ← do_event e; rets ← do_events es; pure {env = env} (ret ∷ rets)

  -- The messages among the events are paid by this phone.
  abbrev pub ArePaidByMobile : List Event → Type 0
  ArePaidByMobile [] = Unit
  ArePaidByMobile (message sms ∷ es) = (sms.fee_target_number ≡ mobile) × ArePaidByMobile es
  ArePaidByMobile (e ∷ es) = ArePaidByMobile es
