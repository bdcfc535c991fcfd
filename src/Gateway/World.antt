-- ===== src/Gateway/World.antt =====
-- What one `CSMSBBSChildProtocol` process sees and changes: its member variables, and the
-- services around it. MySQL, the storage behind `m_pSMSStorage`, the stream behind `m_pStream`,
-- `malloc` and `rand` are the fields of `Env`, a parameter of every operation.
use aka_smsd.Common.{ℕ, Bool, List, Option, ◌≡◌, ap}
use aka_smsd.Common.Int.{ℤ}
use aka_smsd.Sms.{SmsMessage}

-- The three columns that every query on `SMSRegister_TB` selects by. The last one is compared
-- in upper case by the server.
pub record Key : Type 0 where
  pub child_code : List ℕ
  pub mobile : List ℕ
  pub src_id : List ℕ

-- The columns of a row of `SMSRegister_TB` that the program reads.
pub record Row : Type 0 where
  pub validatation_number : List ℕ
  pub money_limit : ℤ
  pub today_money : ℤ

-- The columns of `SMSChildUser_TB` that a login reads.
pub record ChildRow : Type 0 where
  pub login_net : List ℕ
  pub child_name : List ℕ
  pub default_money_limit : ℤ

-- The SQL statements of the program that change a table.
pub data Statement : Type 0 where
  -- update … set todayMoney=todayMoney+fee
  add_money : Key → ℤ → Statement
  -- update … set todayMoney=0
  zero_money : Key → Statement
  -- update SMSRegister_TB set todayMoney=0, with no where clause
  zero_all_money : Statement
  -- update … set moneyLimit=limit
  set_limit : Key → ℤ → Statement
  -- update … set ValidatationNumber=''
  clear_code : Key → Statement
  delete_row : Key → Statement
  -- insert into … values (key, '', limit)
  insert_row : Key → ℤ → Statement
  -- replace into … values (key, code, limit)
  replace_row : Key → List ℕ → ℤ → Statement
  -- insert into SMSLog_TB …: the message, the time of delivery and the BBS that took it.
  log_sms : SmsMessage → ℕ → List ℕ → Statement

-- `none` as the result of a query is the exception `BadQuery`.
pub record Env : Type 1 where
  pub Store : Type 0
  pub Disk : Type 0
  pub Net : Type 0
  pub select : Store → Key → Option (List Row)
  pub select_fee : Store → ℤ → Option (List ℤ)
  pub select_child : Store → List ℕ → List ℕ → Option (List ChildRow)
  pub exec : Store → Statement → Option Store
  -- `writeSMStoStorage(from, to, sms)` and the value that it returns.
  pub write_sms : Disk → List ℕ → List ℕ → SmsMessage → Disk × ℤ
  -- `CSMSTcpStream::write` and the value that it returns.
  pub write : Net → List ℕ → Net × ℤ
  -- `CSMSTcpStream::read`: the value that it returns, and the bytes.
  pub read : Net → ℕ → Net × ℤ × List ℕ
  pub malloc : ℕ → Bool
  -- The `i`-th `rand()` after `srand(seed)`.
  pub rand : ℕ → ℕ → ℕ
  -- The address that `inet_aton` reads, most significant byte first.
  pub inet_aton : List ℕ → Option ℕ
  -- What `>>` gives for a distance that is not below the width of the word.
  pub wide_shift : ℕ → ℕ → ℕ

-- struct bindRequest
pub record BindRequest : Type 0 where
  pub sn : ℕ
  pub user_id : List ℕ
  pub mobile_number : List ℕ
  pub is_bind : ℕ

-- The member variables, the process's signal mask, the clock, and the three services' states.
pub record Gw (env : Env) : Type 0 where
  pub connected : Bool
  pub serial : ℕ
  pub child_code : List ℕ
  pub child_name : List ℕ
  pub checker_code : List ℕ
  pub default_money_limit : ℤ
  pub request_list : List BindRequest
  pub blocked : Bool
  pub clock : ℕ
  pub db : env.Store
  pub disk : env.Disk
  pub net : env.Net

-- `exited` is a call of `exit`; `fault` is an access outside a buffer.
pub data Outcome {ℓ} (A : Type ℓ) : Type ℓ where
  done : A → Outcome A
  exited fault : Outcome A

-- An operation that returns an `A`.
abbrev pub M : Env → Type 0 → Type 0
M env A = Gw env → Outcome (A × Gw env)

module _ {env : Env} where
  infixl 5 ◌>>=◌ ◌>>◌
  abbrev pub ◌>>=◌ : {A B : Type 0} → M env A → (A → M env B) → M env B
  ◌>>=◌ m f s = elim (m s) [ done (a, s') ↦ f a s' | exited ↦ exited | fault ↦ fault ]

  abbrev pub ◌>>◌ : {B : Type 0} → M env (Unit {0}) → M env B → M env B
  m >> k = m >>= λ _. k

  abbrev pub pure : {A : Type 0} → A → M env A
  pure a s = done (a, s)

  abbrev pub get : M env (Gw env)
  get s = done (s, s)

  abbrev pub put : Gw env → M env (Unit {0})
  put s' s = done (tt, s')

  abbrev pub exit : {A : Type 0} → M env A
  exit s = exited

  abbrev pub crash : {A : Type 0} → M env A
  crash s = fault

  -- A step that is done is followed by the next.
  pub bind_done :
      {A B : Type 0} (m : M env A) (f : A → M env B) (s s' : Gw env) (a : A)
      → m s ≡ done (a, s')
      → (m >>= f) s ≡ f a s'
  bind_done {A} {B} m f s s' a e =
      ap
        (λ (o : Outcome (A × Gw env)). elim o as (λ _. Outcome (B × Gw env)) [
          | done (b, t) ↦ f b t
          | exited ↦ exited
          | fault ↦ fault
        ])
        e
