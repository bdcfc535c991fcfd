-- ===== src/Gateway/Database.antt =====
-- What the program relies on of MySQL: the documented effect of its statements on the rows that
-- its queries return. `BadQuery` may come from any query.
use aka_smsd.Common.{ℕ, ◌≡◌, List, [], ◌∷◌, ◌++◌, map, Option, none, some}
use aka_smsd.Common.Int.{ℤ, pos, ◌+ℤ◌}
use aka_smsd.Gateway.World.{
  Key, Row, Statement, add_money, zero_money, zero_all_money, set_limit, clear_code, delete_row,
  insert_row, replace_row, log_sms, Env,
}

-- The key in the `where` clause, or of the row that is written.
abbrev pub target : Statement → Option Key
target (add_money k fee) = some k
target (zero_money k) = some k
target zero_all_money = none
target (set_limit k limit) = some k
target (clear_code k) = some k
target (delete_row k) = some k
target (insert_row k limit) = some k
target (replace_row k code limit) = some k
target (log_sms sms now code) = none

abbrev pub new_row : List ℕ → ℤ → Row
new_row code limit = record { validatation_number = code; money_limit = limit; today_money = pos 0 }

abbrev pub with_money : ℤ → Row → Row
with_money fee row = record row { today_money = row.today_money +ℤ fee }

abbrev pub with_no_money : Row → Row
with_no_money row = record row { today_money = pos 0 }

abbrev pub with_limit : ℤ → Row → Row
with_limit limit row = record row { money_limit = limit }

abbrev pub without_code : Row → Row
without_code row = record row { validatation_number = [] }

-- What a statement does to the rows of its key. `todayMoney` has the default 0, and the three key
-- columns are the table's primary key, by which `replace` replaces.
abbrev pub effect : Statement → List Row → List Row
effect (add_money k fee) rows = map (with_money fee) rows
effect (zero_money k) rows = map with_no_money rows
effect zero_all_money rows = map with_no_money rows
effect (set_limit k limit) rows = map (with_limit limit) rows
effect (clear_code k) rows = map without_code rows
effect (delete_row k) rows = []
effect (insert_row k limit) rows = rows ++ new_row [] limit ∷ []
effect (replace_row k code limit) rows = new_row code limit ∷ []
effect (log_sms sms now code) rows = rows

pub record Database (env : Env) : Type 1 where
  -- Whether two keys select the same rows (their last columns differ in case only).
  pub Same : Key → Key → Type 0
  pub exec_select :
      (db db' : env.Store) (stmt : Statement) (k : Key) (rows : List Row)
      → target stmt ≡ some k
      → env.exec db stmt ≡ some db'
      → env.select db k ≡ some rows
      → env.select db' k ≡ some (effect stmt rows)
  -- A statement without a `where` clause is about the rows of every key.
  pub exec_select_all :
      (db db' : env.Store) (k : Key) (rows : List Row)
      → env.exec db zero_all_money ≡ some db'
      → env.select db k ≡ some rows
      → env.select db' k ≡ some (effect zero_all_money rows)
  pub exec_select_other :
      (db db' : env.Store) (stmt : Statement) (k j : Key)
      → target stmt ≡ some k
      → ¬ Same k j
      → env.exec db stmt ≡ some db'
      → env.select db' j ≡ env.select db j
