-- ===== src/Gateway/Register.antt =====
-- Registration of a phone for a BBS account: the validation code, its check, and the two ways to
-- bind and unbind.
pub mod Codes
pub mod Validation
pub mod Life
use aka_smsd.Common.{
  ℕ, zero, suc, ◌+◌, ◌*◌, ◌/◌, ◌^◌, Bool, true, false, not, ◌&&◌, List, [], ◌∷◌, Option, none, some,
  if◌then◌else◌, take, get_or,
}
use aka_smsd.Common.Int.{ℤ, pos}
use aka_smsd.Common.Text.{codes, str_eq}
use aka_smsd.Common.Code
use aka_smsd.Wire.Cmd
use aka_smsd.Sms.{SmsMessage}
use aka_smsd.Gateway.Texts.{code_text}
use aka_smsd.Gateway.Message.{generate_sms}
use aka_smsd.Gateway.Billing.{key_of, exec_or, send_sms}
use aka_smsd.Gateway.World.{
  Row, Statement, clear_code, delete_row, insert_row, replace_row, Env, Gw, Outcome, done, exited,
  fault, M, ◌>>=◌, ◌>>◌, pure, exit,
}

abbrev pub code_chars : List ℕ
code_chars = codes "0123456789"

-- `validateNo[i]=CODES[(int)(10.0*rand()/(RAND_MAX+1.0))]` for `i` up to `len`, from the sequence
-- that `srand(time(NULL))` starts; RAND_MAX is 2 ^ 31 - 1, so the division is exact.
unfoldable pub generate_validate_num : (ℕ → ℕ) → ℕ → ℕ → List ℕ
generate_validate_num rand i zero = []
generate_validate_num rand i (suc len) =
    get_or code_chars (10 * rand i / 2 ^ 31) 0 ∷ generate_validate_num rand (i + 1) len

-- `strlen(row["ValidatationNumber"])!=0` for the first row of the result.
abbrev pub pending_code : List Row → List ℕ
pending_code [] = []
pending_code (row ∷ rows) = row.validatation_number

abbrev pub is_empty : List ℕ → Bool
is_empty [] = true
is_empty (x ∷ xs) = false

module _ (env : Env) where
  -- The code to send; `none` is `SMS_BBS_CMD_DB_ERROR`.
  unfoldable pub get_validate_num : List ℕ → List ℕ → ℕ → M env (Option (List ℕ))
  unfolding generate_validate_num
  get_validate_num mobile_no src_id len s = elim (env.select s.db (key_of env s mobile_no src_id)) [
    | none ↦ done (none, s)
    | some rows ↦
        let fresh = generate_validate_num (env.rand s.clock) 0 len in
        if is_empty (pending_code rows)
        then exec_or env (replace_row (key_of env s mobile_no src_id) fresh s.default_money_limit)
            (some fresh) none s
        else done (some (take len (pending_code rows)), s)
  ]

  unfoldable pub do_send_register_sms : List ℕ → List ℕ → M env ℕ
  do_send_register_sms target_mobile_no usr_id = do
    code ← get_validate_num target_mobile_no usr_id Cmd.valid_len
    elim code [
      | none ↦ pure Cmd.db_error
      | some validate_no ↦ do
        made ← generate_sms env 0 target_mobile_no target_mobile_no (code_text validate_no) (pos 6)
        elim made [ none ↦ exit | some sms ↦ send_sms env sms (some usr_id) true ]
    ]

  unfoldable pub do_register_validation : List ℕ → List ℕ → List ℕ → M env ℕ
  do_register_validation mobile_no src_id validate_no s =
      elim (env.select s.db (key_of env s mobile_no src_id)) [
        | none ↦ done (Cmd.db_error, s)
        | some rows ↦
            if is_empty (pending_code rows)
            then done (Cmd.no_validcode, s)
            else if str_eq validate_no (pending_code rows)
            then exec_or env (clear_code (key_of env s mobile_no src_id)) Cmd.ok Cmd.db_error s
            else done (Cmd.err, s)
      ]

  unfoldable pub do_unregister : List ℕ → List ℕ → M env ℕ
  do_unregister mobile_no src_id s = elim (env.select s.db (key_of env s mobile_no src_id)) [
    | none ↦ done (Cmd.db_error, s)
    | some [] ↦ done (Cmd.ok, s)
    | some (row ∷ rows) ↦
        exec_or env (delete_row (key_of env s mobile_no src_id)) Cmd.ok Cmd.db_error s
  ]

  unfoldable pub do_register_sms : List ℕ → List ℕ → M env ℤ
  do_register_sms mobile_no src_id s = elim (env.select s.db (key_of env s mobile_no src_id)) [
    | none ↦ done (Code.failed, s)
    | some [] ↦
        exec_or env (insert_row (key_of env s mobile_no src_id) s.default_money_limit) Code.success
          Code.failed s
    | some (row ∷ rows) ↦ done (Code.nosevereerror, s)
  ]

  unfoldable pub do_unregister_sms : List ℕ → List ℕ → M env ℤ
  do_unregister_sms mobile_no src_id s = elim (env.select s.db (key_of env s mobile_no src_id)) [
    | none ↦ done (Code.failed, s)
    | some [] ↦ done (Code.nosevereerror, s)
    | some (row ∷ rows) ↦
        exec_or env (delete_row (key_of env s mobile_no src_id)) Code.success Code.failed s
  ]
