-- ===== src/Tests/Runs.antt =====
-- The gateway at work on the sample services.
use aka_smsd.Common.{ℕ, ◌≡◌, ◌≢◌, refl, arith, true, List, [], ◌∷◌, map, some, ◌⊎◌}
use aka_smsd.Wire.{sms_long_to_byte, sms_long_to_byte_by_shifts, long_to_byte-by_shifts}
use aka_smsd.Wire.Cmd
use aka_smsd.Common.Code
use aka_smsd.Common.Text.{codes}
use aka_smsd.Common.Int.{negsuc, ◌+ℤ◌}
use aka_smsd.Gateway.World.{Row, Gw, Outcome, done, exited, fault}
use aka_smsd.Gateway.Database.{without_code}
use aka_smsd.Gateway.Billing.{key_of, count_money, get_fee, write_to_storage, charge, send_sms}
use aka_smsd.Gateway.Billing.Charge.{SendResult, send_sms_outcome}
use aka_smsd.Gateway.Link.{do_send_msg}
use aka_smsd.Gateway.Link.Errors.{do_send_msg-masks_errors}
use aka_smsd.Gateway.Register.{
  get_validate_num, do_send_register_sms, do_register_validation, pending_code,
}
use aka_smsd.Gateway.Register.Validation.{do_register_validation_outcome}
use aka_smsd.Gateway.Register.Life.{do_register_validation-do_send_register_sms}
use aka_smsd.Gateway.Message.{generate_sms}
use aka_smsd.Gateway.Texts.{code_text}
use aka_smsd.Sms.{SmsMessage}
use aka_smsd.Gateway.Dispatch.{can_send_sms}
use aka_smsd.Tests.Sample.{
  sample, sample_laws, phone, zixia, zixia_key, confirmed, secret, waiting, one_row, gateway, hello,
  broken,
}

long_to_byte-by_shifts_example : sms_long_to_byte_by_shifts 305419896 ≡ sms_long_to_byte 305419896
long_to_byte-by_shifts_example = long_to_byte-by_shifts 305419896 (omega arith)

send_sms_outcome_example :
    (ret : ℕ) × (s' : Gw sample) × (send_sms sample hello
        (some zixia)
        true
        (gateway (one_row confirmed))
      ≡ done (ret, s'))
    × SendResult sample hello zixia (gateway (one_row confirmed)) ret s'
send_sms_outcome_example = send_sms_outcome sample hello zixia (gateway (one_row confirmed))

-- The state that a call leaves behind.
abbrev pub after : {A : Type 0} → Gw sample → Outcome (A × Gw sample) → Gw sample
after s (done (_, t)) = t
after s exited = s
after s fault = s

abbrev pub ready : Gw sample
ready = gateway (one_row confirmed)

abbrev pub sent_code : Gw sample
sent_code = gateway (one_row waiting)

do_register_validation_outcome_example :
    (ret : ℕ) × (s' : Gw sample) × (do_register_validation sample phone zixia secret sent_code
      ≡ done (ret, s'))
    × (((ret ≡ Cmd.ok)
          × ((rows : List Row) × (sent_code.db zixia_key ≡ some rows)
              × (pending_code rows ≡ secret)
              × (secret ≢ [])
              × (s'.db (key_of sample s' phone zixia) ≡ some (map without_code rows))))
        ⊎ ((ret ≢ Cmd.ok) × (s' ≡ sent_code)))
do_register_validation_outcome_example =
    do_register_validation_outcome sample sample_laws sent_code phone zixia secret

abbrev told : Gw sample
unfolding do_send_register_sms get_validate_num generate_sms send_sms charge count_money get_fee
    write_to_storage
told = after sent_code (do_send_register_sms sample phone zixia sent_code)

told_run : do_send_register_sms sample phone zixia sent_code ≡ done (Cmd.ok, told)
unfolding do_send_register_sms get_validate_num generate_sms send_sms charge count_money get_fee
    write_to_storage ◌+ℤ◌ code_text
told_run = refl

do_register_validation-do_send_register_sms_example :
    (code : List ℕ) × (sms : SmsMessage) × (code ≢ [])
    × (sms.target_number ≡ phone)
    × (sms.body ≡ code_text code)
    × (sample.write_sms sent_code.disk sms.sender_number sms.target_number sms
        ≡ (told.disk, Code.success))
    × ((do_register_validation sample phone zixia code told ≡ done (Cmd.db_error, told))
        ⊎ ((s2 : Gw sample) × (do_register_validation sample phone zixia code told
              ≡ done (Cmd.ok, s2))
            × (can_send_sms sample phone zixia s2 ≡ done (true, s2))))
    × ((codes "654321" ≡ code)
        ⊎ (do_register_validation sample phone zixia (codes "654321") told ≡ done (Cmd.err, told)))
do_register_validation-do_send_register_sms_example =
    do_register_validation-do_send_register_sms sample sample_laws phone zixia sent_code told
      (waiting ∷ []) (codes "654321") (omega arith) refl (omega arith) refl (λ n. refl) told_run

do_send_msg-masks_errors_example :
    (s' : Gw sample) × (do_send_msg sample (codes "hello") (broken (negsuc 0))
      ≡ done (Code.success, s'))
do_send_msg-masks_errors_example =
    do_send_msg-masks_errors sample (broken (negsuc 0)) (codes "hello") 0 refl refl (omega arith)
