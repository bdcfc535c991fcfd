-- ===== src/Tests/Sample.antt =====
-- Services that a gateway can run on: tables as functions of the key, a storage and a connection
-- that keep what they are given and answer with a value chosen in advance.
use aka_smsd.Common.{
  ℕ, ◌*◌, ◌^◌, ◌≡◌, refl, ap, ◌∙◌, arith, Bool, true, false, ◌&&◌, List, [], ◌∷◌, ◌++◌, Option,
  none, some, if◌then◌else◌, length, Bool-cases, inl, inr,
}
use aka_smsd.Common.Int.{ℤ, pos}
use aka_smsd.Common.Text.{codes, IsText, str_eq, str_eq_iff, str_case_eq}
use aka_smsd.Sms.{SmsMessage}
use aka_smsd.Gateway.World.{ChildRow, Key, Row, Statement, zero_all_money, BindRequest, Env, Gw}
use aka_smsd.Gateway.Database.{Database, target, effect}

abbrev pub same_key : Key → Key → Bool
same_key k j =
    str_eq k.child_code j.child_code && (str_eq k.mobile j.mobile && str_case_eq k.src_id j.src_id)

-- `none` is a key for which the query fails.
abbrev pub Tables : Type 0
Tables = Key → Option (List Row)

abbrev map_rows : (List Row → List Row) → Option (List Row) → Option (List Row)
map_rows f none = none
map_rows f (some rows) = some (f rows)

abbrev pub update : Option Key → Statement → Tables → Tables
update none stmt db k = map_rows (effect stmt) (db k)
update (some t) stmt db k = if same_key t k then map_rows (effect stmt) (db k) else db k

abbrev pub Line : Type 0
Line = List (List ℕ) × Option ℤ

abbrev pub transmit : Line → List ℕ → Line × ℤ
transmit (sent, none) msg = ((sent ++ msg ∷ [], none), pos (length msg))
transmit (sent, some ret) msg = ((sent, some ret), ret)

abbrev pub Box : Type 0
Box = List SmsMessage × ℤ

abbrev keep : Box → List ℕ → List ℕ → SmsMessage → Box × ℤ
keep (kept, ret) from to sms = ((kept ++ sms ∷ [], ret), ret)

abbrev pub newsmth : ChildRow
newsmth = record {
  login_net = codes "10.0.0.0/8";
  child_name = codes "newsmth";
  default_money_limit = pos 100;
}

abbrev pub sample : Env
sample = record {
  Store = Tables;
  Disk = Box;
  Net = Line;
  select = λ db k. db k;
  select_fee = λ db fee_type. some (pos 10 ∷ []);
  select_child = λ db user password. some (newsmth ∷ []);
  exec = λ db stmt. some (update (target stmt) stmt db);
  write_sms = keep;
  write = transmit;
  read = λ net size. (net, pos 0, []);
  inet_aton = λ text. some (10 * 2 ^ 24);
  wide_shift = λ x distance. x;
  malloc = λ size. true;
  rand = λ seed i. 1000000000;
}

str_case_eq_self : (s : List ℕ) → str_case_eq s s ≡ true
str_case_eq_self [] = refl
str_case_eq_self (x ∷ s) = ground (arith, str_case_eq_self s)

same_key_self : (k : Key) → same_key k k ≡ true
same_key_self k = ground (
  arith,
  (str_eq_iff k.child_code k.child_code).1 refl,
  (str_eq_iff k.mobile k.mobile).1 refl,
  str_case_eq_self k.src_id,
)

update_self :
    (o : Option Key) (stmt : Statement) (db : Tables) (k : Key) (rows : List Row)
    → o ≡ some k
    → db k ≡ some rows
    → update o stmt db k ≡ some (effect stmt rows)
update_self none stmt db k rows e found = cc
update_self (some t) stmt db k rows e found =
    let same : same_key t k ≡ true = ground (arith, e, same_key_self k) in
    ground (arith, same, found)

update_other :
    (o : Option Key) (stmt : Statement) (db : Tables) (k j : Key)
    → o ≡ some k
    → ¬ (same_key k j ≡ true)
    → update o stmt db j ≡ db j
update_other none stmt db k j e other = cc
update_other (some t) stmt db k j e other = elim (Bool-cases (same_key t j)) [
  | inl same ↦ absurd (other (ground (arith, e, same)))
  | inr differs ↦ rw differs refl
]

ran_state :
    (db db' : Tables) (stmt : Statement)
    → sample.exec db stmt ≡ some db'
    → db' ≡ update (target stmt) stmt db
ran_state db db' stmt ran = cc

-- The tables behave as MySQL is documented to.
pub sample_laws : Database sample
sample_laws = record {
  Same = λ k j. same_key k j ≡ true;
  exec_select = λ db db' stmt k rows e ran found.
      ap (λ (t : Tables). t k) (ran_state db db' stmt ran)
      ∙ update_self (target stmt) stmt db k rows e found;
  exec_select_all = λ db db' k rows ran found.
      ap (λ (t : Tables). t k) (ran_state db db' zero_all_money ran)
      ∙ ap (map_rows (effect zero_all_money)) found;
  exec_select_other = λ db db' stmt k j e other ran.
      ap (λ (t : Tables). t j) (ran_state db db' stmt ran)
      ∙ update_other (target stmt) stmt db k j e other;
}

-- A BBS with the code 88, its user zixia, and his phone.
abbrev pub bbs : List ℕ
bbs = codes "88"

abbrev pub phone : List ℕ
phone = codes "13800138000"

abbrev pub zixia : List ℕ
zixia = codes "zixia"

abbrev pub zixia_key : Key
zixia_key = record { child_code = bbs; mobile = phone; src_id = zixia }

-- A confirmed user who has spent 20 of 100 today, and one who was sent the code 123456.
abbrev pub confirmed : Row
confirmed = record { validatation_number = []; money_limit = pos 100; today_money = pos 20 }

abbrev pub secret : List ℕ
secret = codes "123456"

abbrev pub waiting : Row
waiting = record { validatation_number = secret; money_limit = pos 100; today_money = pos 20 }

abbrev pub one_row : Row → Tables
one_row row k = if same_key zixia_key k then some (row ∷ []) else some []

abbrev pub no_table : Tables
no_table k = none

abbrev pub gateway : Tables → Gw sample
gateway db = record {
  connected = true;
  serial = 7;
  child_code = bbs;
  child_name = codes "newsmth";
  checker_code = bbs;
  default_money_limit = pos 100;
  request_list = [];
  blocked = false;
  clock = 1000;
  db = db;
  disk = ([], pos 0);
  net = ([], none);
}

-- The connection answers every write with `ret`.
abbrev pub broken : ℤ → Gw sample
broken ret = record (gateway (one_row confirmed)) { net = ([], some ret) }

abbrev pub hello : SmsMessage
hello = record {
  length = 185;
  sender_number = codes "8842";
  target_number = phone;
  fee_type = pos 6;
  fee_target_number = phone;
  child_code = bbs;
  parent_id = [];
  sms_type = pos 0;
  send_time = 1000;
  arrive_time = 0;
  service_code = [];
  fee_money = pos 10;
  body_length = 5;
  body = codes "hello";
}

-- A message from the phone to the gateway itself.
abbrev pub to_gateway : List ℕ → SmsMessage
to_gateway text = record hello {
  sender_number = phone;
  target_number = bbs;
  body_length = length text;
  body = text;
}

abbrev pub bind_zixia : BindRequest
bind_zixia = record { sn = 7; user_id = zixia; mobile_number = phone; is_bind = 0 }

pub phone-IsText : IsText phone
phone-IsText = ground arith

pub zixia-IsText : IsText zixia
zixia-IsText = ground arith

pub secret-IsText : IsText secret
secret-IsText = ground arith

-- The phone that zixia writes to.
abbrev pub friend : List ℕ
friend = codes "13900139000"

pub friend-IsText : IsText friend
friend-IsText = ground arith
