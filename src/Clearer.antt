-- ===== src/Clearer.antt =====
-- sms_money_clearer.cpp: the program that a new day starts.
use aka_smsd.Common.{none, some}
use aka_smsd.Common.Int.{ℤ, pos, negsuc}
use aka_smsd.Gateway.World.{zero_all_money, Env}

-- `main`: the tables after it, and what it returns; `BadQuery` gives -1.
unfoldable pub clear_money : (env : Env) → env.Store → env.Store × ℤ
clear_money env db = elim (env.exec db zero_all_money) [
  | none ↦ (db, negsuc 0)
  | some db' ↦ (db', pos 0)
]
