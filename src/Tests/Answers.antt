-- ===== src/Tests/Answers.antt =====
-- Answers of the BBS, messages of a phone and packets at the sample gateway.
use aka_smsd.Common.{ℕ, ◌≡◌, refl, arith, true, false, List, [], ◌∷◌, ◌++◌, some, ◌⊎◌, inl, inr}
use aka_smsd.Common.Code
use aka_smsd.Common.Text.{codes, c_str, strncpy}
use aka_smsd.Client.{send_packet}
use aka_smsd.Wire.{send_src_mobile_no, send_src_user_id}
use aka_smsd.Gateway.Link.{get_serial}
use aka_smsd.Gateway.Command.{words, words_from}
use aka_smsd.Gateway.Message.{generate_sms}
use aka_smsd.Gateway.Dispatch.Permission.{SomeConfirmed}
use aka_smsd.Wire.{sms_long_to_byte}
use aka_smsd.Wire.Cmd
use aka_smsd.Common.{none}
use aka_smsd.Gateway.World.{BindRequest}
use aka_smsd.Gateway.Bind.Answers.{do_reply_register_request_outcome}
use aka_smsd.Sms.{SmsMessage}
use aka_smsd.Gateway.World.{Row, Gw, done}
use aka_smsd.Gateway.Message.{sender_of}
use aka_smsd.Gateway.Billing.{count_money, get_fee, write_to_storage, charge, send_sms}
use aka_smsd.Gateway.Link.{do_send_msg}
use aka_smsd.Gateway.Bind.{take_request, do_send_register_msg, do_reply_register_request}
use aka_smsd.Gateway.Command.{scan_command}
use aka_smsd.Gateway.Deliver.{
  common, get_target_id, get_sms_type, route, deliver_sms, report_bad_command,
}
use aka_smsd.Gateway.Deliver.Addressing.{get_target_id-sender_of}
use aka_smsd.Gateway.Deliver.Routing.{route-bad_command}
use aka_smsd.Gateway.Dispatch.{do_send}
use aka_smsd.Gateway.Dispatch.Permission.{do_send-unconfirmed}
use aka_smsd.Tests.Sample.{
  sample, bbs, phone, zixia, zixia_key, waiting, one_row, no_table, gateway, to_gateway, bind_zixia,
}
use aka_smsd.Tests.Runs.{after, ready, sent_code}
use aka_smsd.Gateway.Texts.{bad_command_text}

abbrev memory : (n : ℕ) → sample.malloc n ≡ true
memory n = refl

-- The request of zixia waits, and the database cannot be asked.
abbrev waits : Gw sample
waits = record (gateway no_table) { request_list = bind_zixia ∷ [] }

do_reply_register_request_outcome_example :
    (s' : Gw sample) × (do_reply_register_request sample 0 9 waits ≡ done (Code.success, s'))
    × (((take_request 9 (bind_zixia ∷ []) ≡ none) × (s' ≡ record waits { blocked = true }))
        ⊎ ((p : BindRequest) × (take_request 9 (bind_zixia ∷ []) ≡ some (p, s'.request_list))
            × (s'.blocked ≡ false)))
do_reply_register_request_outcome_example =
    do_reply_register_request_outcome sample waits 0 9 memory

abbrev requested : Gw sample
unfolding do_send_register_msg get_serial do_send_msg
requested = after ready (do_send_register_msg sample phone zixia 0 ready)

requested_run : do_send_register_msg sample phone zixia 0 ready ≡ done (Code.success, requested)
unfolding do_send_register_msg get_serial do_send_msg strncpy sms_long_to_byte requested
requested_run = refl

get_target_id-sender_of_example :
    (get_target_id bbs (sender_of bbs 42) ≡ 42) × (get_sms_type bbs (sender_of bbs 42) ≡ common)
get_target_id-sender_of_example =
    get_target_id-sender_of bbs 42 (omega arith) (omega arith) (omega arith)

-- What was not understood.
abbrev unclear : SmsMessage
unclear = to_gateway (codes "hello")

unclear_line : (scan_command unclear.body).usr_id ≡ []
unfolding scan_command words words_from c_str
unclear_line = refl

abbrev answered : Gw sample
unfolding report_bad_command generate_sms send_sms charge count_money get_fee write_to_storage
answered = after ready (report_bad_command sample unclear ready)

answered_run : report_bad_command sample unclear ready ≡ done (Cmd.ok, answered)
unfolding report_bad_command generate_sms send_sms charge count_money get_fee write_to_storage
    answered bad_command_text
answered_run = refl

route-bad_command_example :
    route sample (get_sms_type bbs bbs) unclear ready ≡ deliver_sms sample unclear answered
route-bad_command_example =
    route-bad_command sample ready answered unclear Cmd.ok refl (omega arith) unclear_line
      answered_run

-- A packet to send from a phone that still waits for its code.
abbrev packet : List ℕ
packet = send_packet 1 2 42 zixia phone (codes "13900139000") 5 ++ codes "hello"

not_confirmed : ¬ SomeConfirmed (waiting ∷ [])
not_confirmed (inl e) = cc
not_confirmed (inr b) = b

waiting_only : (rows : List Row) → one_row waiting zixia_key ≡ some rows → ¬ SomeConfirmed rows
waiting_only rows e = let same : waiting ∷ [] ≡ rows = cc in rw (← same) not_confirmed

do_send-unconfirmed_example :
    do_send sample packet sent_code ≡ done (Cmd.sms_validate_failed, sent_code)
unfolding send_src_mobile_no send_src_user_id send_packet strncpy c_str sms_long_to_byte
do_send-unconfirmed_example = do_send-unconfirmed sample sent_code packet waiting_only
