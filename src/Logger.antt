-- ===== src/Logger.antt =====
-- smslogger.h: the text of the statement that writes a message to the log.
pub mod Literals
use aka_smsd.Common.{
  ℕ, ◌+◌, ◌-◌, Bool, List, [], ◌∷◌, ◌++◌, Option, none, some, map, ◌==◌, if◌then◌else◌, length,
  replicate,
}
use aka_smsd.Common.Int.{ℤ, pos}
use aka_smsd.Common.Text.{codes, c_str}
use aka_smsd.Common.Decimal.{print_int}
use aka_smsd.Common.Code

-- What `localtime_r` gives, with the year and the month as they are printed.
pub record LocalTime : Type 0 where
  pub year : ℕ
  pub month : ℕ
  pub day : ℕ
  pub hour : ℕ
  pub minute : ℕ
  pub second : ℕ

-- `%04d` and `%02d` of a number that is not negative.
abbrev pub print_padded : ℕ → ℕ → List ℕ
print_padded width n = replicate (width - length (print_int (pos n))) b'0' ++ print_int (pos n)

unfoldable pub convert_date : LocalTime → List ℕ
convert_date t =
    print_padded 4 t.year
    ++ (b'-'
        ∷ (print_padded 2 t.month
            ++ (b'-'
                ∷ (print_padded 2 t.day
                    ++ (b' '
                        ∷ (print_padded 2 t.hour
                            ++ (b':'
                                ∷ (print_padded 2 t.minute
                                    ++ (b':' ∷ print_padded 2 t.second)))))))))

-- The arguments of `logIt` that are used. The texts are C strings; the content has its length.
pub record LogEntry : Type 0 where
  pub source_no : List ℕ
  pub target_no : List ℕ
  pub fee_target_no : List ℕ
  pub fee_type_id : ℤ
  pub child_id : List ℕ
  pub parent_id : List ℕ
  pub send_time : ℕ
  pub deliver_time : ℕ
  pub content : List ℕ
  pub fee_money : ℤ
  pub is_up : Bool

abbrev pub quote : ℕ
quote = 39

-- `std::replace` on the copy.
abbrev pub replace_quote : ℕ → ℕ
replace_quote c = if c == quote then b'"' else c

-- The copy is printed as a C string.
abbrev pub clean : List ℕ → List ℕ
clean content = c_str (map replace_quote content)

abbrev pub direction : Bool → List ℕ
direction is_up = if is_up then codes "UP" else codes "DOWN"

-- A value of the statement: a text between quotes or a number.
pub data Value : Type 0 where
  text : List ℕ → Value
  number : ℤ → Value

abbrev pub print_value : Value → List ℕ
print_value (text s) = quote ∷ (s ++ quote ∷ [])
print_value (number n) = print_int n

-- The values behind the first one, each after a comma, and the closing bracket.
abbrev pub print_more : List Value → List ℕ
print_more [] = b')' ∷ []
print_more (v ∷ vs) = b',' ∷ (print_value v ++ print_more vs)

abbrev pub insert_into : List ℕ
insert_into =
    codes "insert into SMSLog_TB(sourceNo, targetNo,feeTargetNo,feeType,childID, parentID, "
    ++ codes "sentTime, deliveTime, content ,deliverDirection, feeMoney) values ("

abbrev pub values_behind : (ℕ → LocalTime) → LogEntry → List Value
values_behind local_time e =
    text e.target_no
    ∷ text e.fee_target_no
    ∷ number e.fee_type_id
    ∷ text e.child_id
    ∷ text e.parent_id
    ∷ text (convert_date (local_time e.send_time))
    ∷ text (convert_date (local_time e.deliver_time))
    ∷ text (clean e.content)
    ∷ text (direction e.is_up)
    ∷ number e.fee_money
    ∷ []

unfoldable pub log_sql : (ℕ → LocalTime) → LogEntry → List ℕ
unfolding convert_date
log_sql local_time e =
    insert_into ++ (print_value (text e.source_no) ++ print_more (values_behind local_time e))

module _ {Store : Type 0} (exec : Store → List ℕ → Option Store) where
  -- `logIt`: `none` is the exception `BadQuery`, which `exec` throws.
  unfoldable pub log_it : (ℕ → LocalTime) → LogEntry → Store → Store × ℤ
  unfolding log_sql
  log_it local_time e db = elim (exec db (log_sql local_time e)) [
    | none ↦ (db, Code.failed)
    | some db' ↦ (db', Code.success)
  ]
