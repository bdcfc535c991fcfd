-- ===== src/Gateway/Command.antt =====
-- `processCommandSMS` and the commands of a phone: ZCYH, QXZC, SZXE, QKYY, CXXE and CXYY.
use aka_smsd.Common.{
  ℕ, true, List, [], ◌∷◌, ◌++◌, Option, none, some, ltb, ◌==◌, if◌then◌else◌, get_or,
}
use aka_smsd.Common.Int.{ℤ, pos, ◌==ℤ◌}
use aka_smsd.Common.Text.{codes, c_str, str_case_eq}
use aka_smsd.Common.Decimal.{atoi, is_space}
use aka_smsd.Common.Code
use aka_smsd.Wire.Cmd
use aka_smsd.Sms.{SmsMessage}
use aka_smsd.Gateway.Texts.{limit_set_text, zeroed_text, limit_text, total_text}
use aka_smsd.Gateway.Message.{generate_sms}
use aka_smsd.Gateway.Billing.{key_of, exec_or, send_sms}
use aka_smsd.Gateway.Register.{is_empty}
use aka_smsd.Gateway.Bind.{do_send_register_msg}
use aka_smsd.Gateway.World.{Row, set_limit, zero_money, Env, done, M, ◌>>=◌, pure, exit}

-- The words that `%s` reads: runs of bytes that are no white space. `word` is the word so far.
abbrev pub add_word : List ℕ → List (List ℕ) → List (List ℕ)
add_word [] ws = ws
add_word (c ∷ w) ws = (c ∷ w) ∷ ws

unfoldable pub words_from : List ℕ → List ℕ → List (List ℕ)
words_from word [] = add_word word []
words_from word (c ∷ s) =
    if is_space c then add_word word (words_from [] s) else words_from (word ++ c ∷ []) s

unfoldable pub words : List ℕ → List (List ℕ)
unfolding words_from
words s = words_from [] s

-- What `sscanf(buf,"%s %s %s %s",command,usrID,option1,option2)` leaves in the variables that are
-- used: a word that is not there leaves the empty string.
pub record CommandLine : Type 0 where
  pub command : List ℕ
  pub usr_id : List ℕ
  pub option1 : List ℕ

unfoldable pub scan_command : List ℕ → CommandLine
unfolding words
scan_command body =
    let ws = words (c_str body) in
    record { command = get_or ws 0 []; usr_id = get_or ws 1 []; option1 = get_or ws 2 [] }

abbrev pub status_of : ℕ → ℤ
status_of ret = if ret == Cmd.ok then Code.success else Code.error

module _ (env : Env) where
  -- The message that answers a command; it is charged like any other.
  unfoldable pub answer_command : List ℕ → List ℕ → List ℕ → M env ℤ
  answer_command mobile_number usr_id text = do
    made ← generate_sms env 0 mobile_number mobile_number text (pos 6)
    elim made [
      | none ↦ exit
      | some sms ↦ do ret ← send_sms env sms (some usr_id) true; pure (status_of ret)
    ]

  unfoldable pub do_set_money_limit : List ℕ → List ℕ → ℤ → M env ℤ
  do_set_money_limit mobile_number usr_id limit s =
      exec_or env (set_limit (key_of env s mobile_number usr_id) limit) Code.success Code.error s

  unfoldable pub do_set_money_limit_command : List ℕ → List ℕ → ℤ → M env ℤ
  do_set_money_limit_command mobile_number usr_id limit = do
    ret ← do_set_money_limit mobile_number usr_id limit
    if ret ==ℤ Code.success
        then answer_command mobile_number usr_id (limit_set_text limit)
        else pure ret

  unfoldable pub do_zero_today_total : List ℕ → List ℕ → M env ℤ
  do_zero_today_total mobile_number usr_id s =
      exec_or env (zero_money (key_of env s mobile_number usr_id)) Code.success Code.error s

  unfoldable pub do_zero_today_total_command : List ℕ → List ℕ → M env ℤ
  do_zero_today_total_command mobile_number usr_id = do
    ret ← do_zero_today_total mobile_number usr_id
    if ret ==ℤ Code.success then answer_command mobile_number usr_id zeroed_text else pure ret

  -- The first row of the result; `none` is `FAILED`.
  unfoldable pub first_row : List ℕ → List ℕ → M env (Option Row)
  first_row mobile_number usr_id s = elim (env.select s.db (key_of env s mobile_number usr_id)) [
    | none ↦ done (none, s)
    | some [] ↦ done (none, s)
    | some (row ∷ _) ↦ done (some row, s)
  ]

  unfoldable pub do_get_money_limit_command : List ℕ → List ℕ → M env ℤ
  unfolding first_row
  do_get_money_limit_command mobile_number usr_id = do
    found ← first_row mobile_number usr_id
    elim found [
      | none ↦ pure Code.failed
      | some row ↦ answer_command mobile_number usr_id (limit_text row.money_limit)
    ]

  unfoldable pub do_get_today_total_command : List ℕ → List ℕ → M env ℤ
  unfolding first_row
  do_get_today_total_command mobile_number usr_id = do
    found ← first_row mobile_number usr_id
    elim found [
      | none ↦ pure Code.failed
      | some row ↦ answer_command mobile_number usr_id (total_text row.today_money)
    ]

  unfoldable pub do_register_command : List ℕ → List ℕ → M env ℤ
  do_register_command mobile_number usr_id =
      do_send_register_msg env mobile_number usr_id Cmd.require_bind

  unfoldable pub do_unregister_command : List ℕ → List ℕ → M env ℤ
  do_unregister_command mobile_number usr_id =
      do_send_register_msg env mobile_number usr_id Cmd.require_unbind

  unfoldable pub run_command : List ℕ → CommandLine → M env ℤ
  run_command from line =
      if is_empty line.usr_id
      then pure Code.parse_error
      else if str_case_eq line.command (codes "ZCYH")
      then do_register_command from line.usr_id
      else if str_case_eq line.command (codes "QXZC")
      then do_unregister_command from line.usr_id
      else if str_case_eq line.command (codes "SZXE")
      then do_set_money_limit_command from line.usr_id (atoi line.option1)
      else if str_case_eq line.command (codes "QKYY")
      then do_zero_today_total_command from line.usr_id
      else if str_case_eq line.command (codes "CXXE")
      then do_get_money_limit_command from line.usr_id
      else if str_case_eq line.command (codes "CXYY")
      then do_get_today_total_command from line.usr_id
      else pure Code.parse_error

  unfoldable pub process_command_sms : SmsMessage → M env ℤ
  process_command_sms msg =
      if ltb Cmd.max_command_sms_len msg.body_length
      then pure Code.error
      else run_command msg.sender_number (scan_command msg.body)
