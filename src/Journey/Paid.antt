-- ===== src/Journey/Paid.antt =====
-- A packet of the library of a BBS, from a user who may send and can pay, becomes a message in the
-- storage.
use aka_smsd.Common.{leb, false}
use aka_smsd.Sms.{sms_message_size}
use aka_smsd.Common.{
  ℕ, ◌+◌, ◌%◌, ◌^◌, ◌≤◌, ◌<◌, ◌≡◌, refl, ◌∙◌, arith, Bool, true, if◌then◌else◌, some, List, [], ◌∷◌,
  ◌++◌, length, take_all,
}
use aka_smsd.Common.Int.{ℤ, pos, ◌+ℤ◌, ◌≤ℤ◌}
use aka_smsd.Common.Text.{IsText}
use aka_smsd.Common.Code
use aka_smsd.Wire.Cmd
use aka_smsd.Sms.{SmsMessage, sms_message_size, max_child_code_len}
use aka_smsd.Gateway.Message.{sender_of, generate_sms}
use aka_smsd.Gateway.World.{Row, add_money, Env, Gw, done, M, ◌>>=◌, pure}
use aka_smsd.Gateway.Billing.{
  can_pay, key_of, count_money, get_fee, write_to_storage, charge, send_sms,
}
use aka_smsd.Gateway.Dispatch.{is_confirmed, can_send_sms, send_made, do_send}
use aka_smsd.Client.Frames.{packet}
use aka_smsd.Client.Calls.{do_send-send_packet}
use aka_smsd.Gateway.World.{bind_done}

-- The message that the gateway makes for a user of a BBS.
abbrev pub made : List ℕ → ℕ → ℕ → List ℕ → List ℕ → List ℕ → SmsMessage
made code clock user source target text = record {
  length = (sms_message_size + length text) % 2 ^ 32;
  sender_number = sender_of code user;
  target_number = target;
  fee_type = pos 6;
  fee_target_number = source;
  child_code = code;
  parent_id = [];
  sms_type = pos 0;
  send_time = clock;
  arrive_time = 0;
  service_code = [];
  fee_money = pos 10;
  body_length = length text;
  body = text;
}

can_pay_iff :
    (fee : ℤ) (row : Row) → row.today_money +ℤ fee ≤ℤ row.money_limit → can_pay fee row ≡ true
unfolding ◌+ℤ◌
can_pay_iff fee row h = ground arith

module _ (env : Env) where
  generate_sms-made :
      (user : ℕ) (source target text : List ℕ) (s : Gw env)
      → length s.child_code ≤ max_child_code_len
      → length source ≤ 16
      → length target ≤ 16
      → sms_message_size + length text < 2 ^ 32
      → ((n : ℕ) → env.malloc n ≡ true)
      → generate_sms env user target source text (pos 6) s
        ≡ done (some (made s.child_code s.clock user source target text), s)
  unfolding generate_sms
  generate_sms-made user source target text s code short short' small memory =
      let fits : leb (2 ^ 32) (180 + length text) ≡ false = ground (arith, small) in
      rw
        (
          memory ((180 + length text) % 2 ^ 32),
          fits,
          take_all 16 target short',
          take_all 16 source short,
          take_all 4 s.child_code code,
        )
        refl

  can_send_sms-confirmed :
      (source user_id : List ℕ) (s : Gw env) (row : Row)
      → s.checker_code ≡ s.child_code
      → env.select s.db (key_of env s source user_id) ≡ some (row ∷ [])
      → row.validatation_number ≡ []
      → can_send_sms env source user_id s ≡ done (true, s)
  unfolding can_send_sms
  can_send_sms-confirmed source user_id s row same found confirmed =
      let is : is_confirmed row ≡ true = rw confirmed refl in ground (arith, same, found, is)

  count_money-pays :
      (source user_id : List ℕ) (fee : ℤ) (s : Gw env) (row : Row) (db' : env.Store)
      → env.select s.db (key_of env s source user_id) ≡ some (row ∷ [])
      → row.today_money +ℤ fee ≤ℤ row.money_limit
      → env.exec s.db (add_money (key_of env s source user_id) fee) ≡ some db'
      → count_money env source user_id fee s ≡ done (Cmd.ok, record s { db = db' })
  unfolding count_money
  count_money-pays source user_id fee s row db' found pays added =
      let payable = can_pay_iff fee row pays in ground (arith, found, payable, added)

  get_fee-first :
      (fee : ℤ) (fees : List ℤ) (s : Gw env)
      → env.select_fee s.db (pos 6) ≡ some (fee ∷ fees)
      → get_fee env (pos 6) s ≡ done (some fee, s)
  unfolding get_fee
  get_fee-first fee fees s found = rw (found, get_fee) refl

  write_to_storage-takes :
      (sms : SmsMessage) (s : Gw env) (disk' : env.Disk)
      → env.write_sms s.disk sms.sender_number sms.target_number sms ≡ (disk', Code.success)
      → write_to_storage env sms s ≡ done (Cmd.ok, record s { disk = disk' })
  unfolding write_to_storage
  write_to_storage-takes sms s disk' taken = rw (taken, write_to_storage) refl

  -- A message that its sender can pay and that the storage takes.
  send_sms-paid :
      (sms : SmsMessage) (source user_id : List ℕ) (fee : ℤ) (fees : List ℤ) (row : Row)
      (db' : env.Store) (disk' : env.Disk) (s : Gw env)
      → sms.fee_type ≡ pos 6
      → sms.fee_target_number ≡ source
      → env.select_fee s.db (pos 6) ≡ some (fee ∷ fees)
      → env.select s.db (key_of env s source user_id) ≡ some (row ∷ [])
      → row.today_money +ℤ fee ≤ℤ row.money_limit
      → env.exec s.db (add_money (key_of env s source user_id) fee) ≡ some db'
      → env.write_sms s.disk sms.sender_number sms.target_number sms ≡ (disk', Code.success)
      → send_sms env sms (some user_id) true s ≡ done (Cmd.ok, record s { db = db'; disk = disk' })
  unfolding send_sms charge
  send_sms-paid sms source user_id fee fees row db' disk' s kind payer price found pays added
        taken =
      let got : get_fee env sms.fee_type s ≡ done (some fee, s) =
        rw kind (get_fee-first fee fees s price) in
      let paid : count_money env sms.fee_target_number user_id fee s
          ≡ done (Cmd.ok, record s { db = db' }) =
        rw payer (count_money-pays source user_id fee s row db' found pays added) in
      let stored = write_to_storage-takes sms (record s { db = db' }) disk' taken in
      ground (arith, got, paid, stored)

  -- A packet of the library, from a confirmed user who can pay.
  pub do_send-paid :
      (serial pid user : ℕ) (user_id source target text rest : List ℕ) (fee : ℤ) (fees : List ℤ)
      (row : Row) (db' : env.Store) (disk' : env.Disk) (s : Gw env)
      → user < 2 ^ 31
      → sms_message_size + length text < 2 ^ 32
      → IsText user_id
      → length user_id ≤ 13
      → IsText source
      → length source ≤ 16
      → IsText target
      → length target ≤ 16
      → length s.child_code ≤ max_child_code_len
      → s.checker_code ≡ s.child_code
      → ((n : ℕ) → env.malloc n ≡ true)
      → env.select s.db (key_of env s source user_id) ≡ some (row ∷ [])
      → row.validatation_number ≡ []
      → env.select_fee s.db (pos 6) ≡ some (fee ∷ fees)
      → row.today_money +ℤ fee ≤ℤ row.money_limit
      → env.exec s.db (add_money (key_of env s source user_id) fee) ≡ some db'
      → env.write_sms s.disk
          (sender_of s.child_code user)
          target
          (made s.child_code s.clock user source target text)
        ≡ (disk', Code.success)
      → do_send env (packet serial pid user user_id source target (length text) (text ++ rest)) s
        ≡ done (Cmd.ok, record s { db = db'; disk = disk' })
  unfolding send_made
  do_send-paid serial pid user user_id source target text rest fee fees row db' disk' s small
        text_small id_text id_short source_text source_short target_text target_short code same
        memory found confirmed price pays added taken =
      let sms : SmsMessage = made s.child_code s.clock user source target text in
      let act : Bool → M env ℕ = λ allowed.
        if allowed
        then (do sms ← generate_sms env user target source text (pos 6); send_made env user_id sms)
        else pure {env = env} Cmd.sms_validate_failed in
      let allowed = can_send_sms-confirmed source user_id s row same found confirmed in
      let generated =
        generate_sms-made user source target text s code source_short target_short text_small
          memory in
      let call =
        do_send-send_packet env s serial pid user user_id source target text rest (omega arith)
          (omega arith) id_text source_text target_text in
      (rw
        (
          take_all 16 source source_short,
          take_all 13 user_id id_short,
          take_all 16 target target_short,
        )
        at call)
      ∙ bind_done {env = env} (can_send_sms env source user_id) act s s true allowed
      ∙ bind_done {env = env} (generate_sms env user target source text (pos 6))
          (send_made env user_id) s s (some sms) generated
      ∙ send_sms-paid sms source user_id fee fees row db' disk' s refl refl price found pays added
          taken
