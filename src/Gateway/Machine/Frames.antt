-- ===== src/Gateway/Machine/Frames.antt =====
-- The operations that leave the serial number and the waiting requests alone.
use aka_smsd.Common.{arith, ℕ, List, Option, Bool, true, false, none, some, ◌==◌, take}
use aka_smsd.Common.Int.{ℤ, pos}
use aka_smsd.Sms.{SmsMessage}
use aka_smsd.Gateway.World.{Env, Statement}
use aka_smsd.Gateway.Billing.{exec_or, count_money, get_fee, write_to_storage, charge, send_sms}
use aka_smsd.Wire.{
  Header, send_user_id, send_src_mobile_no, send_dst_mobile_no, send_msg_txt_len, send_msg_txt,
}
use aka_smsd.Gateway.Texts.{no_id_text, other_mobile_text}
use aka_smsd.Gateway.Message.{generate_sms, convert_sms}
use aka_smsd.Gateway.Register.{
  get_validate_num, do_send_register_sms, do_register_validation, do_unregister, do_register_sms,
  do_unregister_sms,
}
use aka_smsd.Gateway.Command.{
  answer_command, do_set_money_limit, do_set_money_limit_command, do_zero_today_total,
  do_zero_today_total_command, first_row, do_get_money_limit_command, do_get_today_total_command,
}
use aka_smsd.Gateway.Link.{do_send_msg, do_reply}
use aka_smsd.Gateway.Bind.{act_on_reply, notify}
use aka_smsd.Gateway.Dispatch.{can_send_sms, send_made, do_send}
use aka_smsd.Gateway.Deliver.{log_it, report_bad_command}
use aka_smsd.Gateway.World.{BindRequest, exit}
use aka_smsd.Gateway.Machine.Keeps.{
  Keeps, IsSame, IsSame-bind, IsSame-pure, IsSame-if, IsSame-option,
}

module _ (env : Env) where
  exec_or-IsSame : {A : Type 0} (stmt : Statement) (x y : A) → Keeps IsSame (exec_or env stmt x y)
  exec_or-IsSame stmt x y s s' a e = ground arith

  count_money-IsSame : (mobile id : List ℕ) (fee : ℤ) → Keeps IsSame (count_money env mobile id fee)
  unfolding count_money
  count_money-IsSame mobile id fee s s' a e = ground arith

  get_fee-IsSame : (fee : ℤ) → Keeps IsSame (get_fee env fee)
  unfolding get_fee
  get_fee-IsSame fee s s' a e = ground arith

  write_to_storage-IsSame : (sms : SmsMessage) → Keeps IsSame (write_to_storage env sms)
  unfolding write_to_storage
  write_to_storage-IsSame sms s s' a e = ground arith

  charge-IsSame :
      (sms : SmsMessage) (id : Option (List ℕ)) (fee : ℤ) → Keeps IsSame (charge env sms id fee)
  unfolding charge
  charge-IsSame sms none fee = IsSame-pure _
  charge-IsSame sms (some id) fee = count_money-IsSame _ _ _

  pub send_sms-IsSame :
      (sms : SmsMessage) (id : Option (List ℕ)) (check : Bool)
      → Keeps IsSame (send_sms env sms id check)
  unfolding send_sms
  send_sms-IsSame sms id false = write_to_storage-IsSame sms
  send_sms-IsSame sms id true = IsSame-bind _ _ (get_fee-IsSame _) (λ fee.
      IsSame-option fee _ _ (IsSame-pure _) (λ m.
        IsSame-bind _ _ (charge-IsSame sms id m)
          (λ ret. IsSame-if _ _ _ (write_to_storage-IsSame sms) (IsSame-pure _))))

  IsSame-exit : {A : Type 0} → Keeps IsSame (exit {env = env} {A = A})
  IsSame-exit s s' a e = absurd (cc)

  pub generate_sms-IsSame :
      (user : ℕ) (target fee content : List ℕ) (type : ℤ)
      → Keeps IsSame (generate_sms env user target fee content type)
  unfolding generate_sms
  generate_sms-IsSame user target fee content type s s' a e = ground arith

  convert_sms-IsSame : (msg : List ℕ) → Keeps IsSame (convert_sms env msg)
  unfolding convert_sms
  convert_sms-IsSame msg s s' a e = ground (
    arith,
    generate_sms-IsSame (send_user_id msg) (send_dst_mobile_no msg) (send_src_mobile_no msg)
        (take (send_msg_txt_len msg) (send_msg_txt msg)) (pos 6) s s' a,
  )

  get_validate_num-IsSame :
      (mobile id : List ℕ) (len : ℕ) → Keeps IsSame (get_validate_num env mobile id len)
  unfolding get_validate_num
  get_validate_num-IsSame mobile id len s s' a e = ground arith

  pub do_send_register_sms-IsSame :
      (mobile id : List ℕ) → Keeps IsSame (do_send_register_sms env mobile id)
  unfolding do_send_register_sms
  do_send_register_sms-IsSame mobile id = IsSame-bind _ _ (get_validate_num-IsSame _ _ _) (λ code.
      IsSame-option code _ _ (IsSame-pure _) (λ c.
        IsSame-bind _ _ (generate_sms-IsSame _ _ _ _ _)
          (λ made. IsSame-option made _ _ IsSame-exit (λ sms. send_sms-IsSame _ _ _))))

  pub do_register_validation-IsSame :
      (mobile id code : List ℕ) → Keeps IsSame (do_register_validation env mobile id code)
  unfolding do_register_validation
  do_register_validation-IsSame mobile id code s s' a e = ground arith

  pub do_unregister-IsSame : (mobile id : List ℕ) → Keeps IsSame (do_unregister env mobile id)
  unfolding do_unregister
  do_unregister-IsSame mobile id s s' a e = ground arith

  do_register_sms-IsSame : (mobile id : List ℕ) → Keeps IsSame (do_register_sms env mobile id)
  unfolding do_register_sms
  do_register_sms-IsSame mobile id s s' a e = ground arith

  do_unregister_sms-IsSame : (mobile id : List ℕ) → Keeps IsSame (do_unregister_sms env mobile id)
  unfolding do_unregister_sms
  do_unregister_sms-IsSame mobile id s s' a e = ground arith

  answer_command-IsSame :
      (mobile id text : List ℕ) → Keeps IsSame (answer_command env mobile id text)
  unfolding answer_command
  answer_command-IsSame mobile id text = IsSame-bind _ _ (generate_sms-IsSame _ _ _ _ _) (λ made.
      IsSame-option made _ _ IsSame-exit
        (λ sms. IsSame-bind _ _ (send_sms-IsSame _ _ _) (λ ret. IsSame-pure _)))

  do_set_money_limit-IsSame :
      (mobile id : List ℕ) (limit : ℤ) → Keeps IsSame (do_set_money_limit env mobile id limit)
  unfolding do_set_money_limit
  do_set_money_limit-IsSame mobile id limit s s' a e = ground arith

  pub do_set_money_limit_command-IsSame :
      (mobile id : List ℕ) (limit : ℤ)
      → Keeps IsSame (do_set_money_limit_command env mobile id limit)
  unfolding do_set_money_limit_command
  do_set_money_limit_command-IsSame mobile id limit =
      IsSame-bind _ _ (do_set_money_limit-IsSame _ _ _)
        (λ ret. IsSame-if _ _ _ (answer_command-IsSame _ _ _) (IsSame-pure _))

  do_zero_today_total-IsSame :
      (mobile id : List ℕ) → Keeps IsSame (do_zero_today_total env mobile id)
  unfolding do_zero_today_total
  do_zero_today_total-IsSame mobile id s s' a e = ground arith

  pub do_zero_today_total_command-IsSame :
      (mobile id : List ℕ) → Keeps IsSame (do_zero_today_total_command env mobile id)
  unfolding do_zero_today_total_command
  do_zero_today_total_command-IsSame mobile id =
      IsSame-bind _ _ (do_zero_today_total-IsSame _ _)
        (λ ret. IsSame-if _ _ _ (answer_command-IsSame _ _ _) (IsSame-pure _))

  first_row-IsSame : (mobile id : List ℕ) → Keeps IsSame (first_row env mobile id)
  unfolding first_row
  first_row-IsSame mobile id s s' a e = ground arith

  pub do_get_money_limit_command-IsSame :
      (mobile id : List ℕ) → Keeps IsSame (do_get_money_limit_command env mobile id)
  unfolding do_get_money_limit_command
  do_get_money_limit_command-IsSame mobile id =
      IsSame-bind _ _ (first_row-IsSame _ _)
        (λ found. IsSame-option found _ _ (IsSame-pure _) (λ row. answer_command-IsSame _ _ _))

  pub do_get_today_total_command-IsSame :
      (mobile id : List ℕ) → Keeps IsSame (do_get_today_total_command env mobile id)
  unfolding do_get_today_total_command
  do_get_today_total_command-IsSame mobile id =
      IsSame-bind _ _ (first_row-IsSame _ _)
        (λ found. IsSame-option found _ _ (IsSame-pure _) (λ row. answer_command-IsSame _ _ _))

  pub do_send_msg-IsSame : (msg : List ℕ) → Keeps IsSame (do_send_msg env msg)
  unfolding do_send_msg
  do_send_msg-IsSame msg s s' a e = ground arith

  pub do_reply-IsSame : (type : ℕ) (to : Header) → Keeps IsSame (do_reply env type to)
  unfolding do_reply
  do_reply-IsSame type to s s' a e = ground (arith, do_send_msg-IsSame _ s s' a)

  pub act_on_reply-IsSame : (p : BindRequest) (n : ℕ) → Keeps IsSame (act_on_reply env p n)
  unfolding act_on_reply
  act_on_reply-IsSame p n =
      IsSame-if _ _ _
        (IsSame-if _ _ _ (IsSame-bind _ _ (do_register_sms-IsSame _ _) (λ ret. IsSame-pure _))
          (IsSame-bind _ _ (do_unregister_sms-IsSame _ _) (λ ret. IsSame-pure _)))
        (IsSame-if (n == 1) _ _ (IsSame-pure (some (no_id_text p.user_id)))
          (IsSame-if (n == 2) _ _ (IsSame-pure (some other_mobile_text)) (IsSame-pure none)))

  pub notify-IsSame : (p : BindRequest) (msg : List ℕ) → Keeps IsSame (notify env p msg)
  unfolding notify
  notify-IsSame p msg = IsSame-bind _ _ (generate_sms-IsSame _ _ _ _ _) (λ made.
      IsSame-option made _ _ IsSame-exit
        (λ sms. IsSame-bind _ _ (send_sms-IsSame _ _ _) (λ ret. IsSame-pure _)))

  can_send_sms-IsSame : (mobile id : List ℕ) → Keeps IsSame (can_send_sms env mobile id)
  unfolding can_send_sms
  can_send_sms-IsSame mobile id s s' a e = ground arith

  send_made-IsSame : (id : List ℕ) (made : Option SmsMessage) → Keeps IsSame (send_made env id made)
  unfolding send_made
  send_made-IsSame id none = IsSame-exit
  send_made-IsSame id (some sms) = send_sms-IsSame _ _ _

  pub do_send-IsSame : (msg : List ℕ) → Keeps IsSame (do_send env msg)
  unfolding do_send
  do_send-IsSame msg = IsSame-bind _ _ (can_send_sms-IsSame _ _) (λ allowed.
      IsSame-if _ _ _ (IsSame-bind _ _ (convert_sms-IsSame _) (λ made. send_made-IsSame _ made))
        (IsSame-pure _))

  pub log_it-IsSame : (msg : SmsMessage) → Keeps IsSame (log_it env msg)
  unfolding log_it
  log_it-IsSame msg s s' a e = ground arith

  pub report_bad_command-IsSame : (msg : SmsMessage) → Keeps IsSame (report_bad_command env msg)
  unfolding report_bad_command
  report_bad_command-IsSame msg =
      IsSame-bind _ _ (generate_sms-IsSame _ _ _ _ _)
        (λ made. IsSame-option made _ _ IsSame-exit (λ sms. send_sms-IsSame _ _ _))
