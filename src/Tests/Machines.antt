-- ===== src/Tests/Machines.antt =====
-- A process from its start: the login of a BBS, and the command of a phone to bind a user.
use aka_smsd.Common.{◌+◌, ◌*◌, ◌^◌, ◌≤◌, ◌≡◌, refl, arith, true, [], some}
use aka_smsd.Common.Int.{pos}
use aka_smsd.Common.Text.{codes}
use aka_smsd.Common.Code
use aka_smsd.Common.Decimal.{atoi}
use aka_smsd.Common.Text.{c_str, strncpy}
use aka_smsd.Wire.{sms_long_to_byte}
use aka_smsd.Gateway.Command.{process_command_sms, run_command, scan_command, do_register_command}
use aka_smsd.Gateway.Login.{login_user}
use aka_smsd.Gateway.Deliver.{send}
use aka_smsd.Gateway.Bind.{take_request, do_send_register_msg}
use aka_smsd.Gateway.Session.{new_protocol}
use aka_smsd.Gateway.Machine.{connect, Reach, start, next, login, message}
use aka_smsd.Gateway.Machine.Requests.{AreOrdered}
use aka_smsd.Gateway.Machine.Invariant.{Reach-AreOrdered, Reach-take_request}
use aka_smsd.Gateway.World.{Gw, done}
use aka_smsd.Tests.Sample.{sample, bbs, phone, zixia, confirmed, one_row, to_gateway}
use aka_smsd.Tests.Runs.{after}

abbrev first : Gw sample
first = new_protocol sample (pos 0) 1000 (one_row confirmed) ([], pos 0) ([], some (pos 45))

abbrev logged_in : Gw sample
unfolding login_user
logged_in =
    after first (login_user sample (10 * 2 ^ 24 + 5) bbs (codes "secret") (connect sample first))

login_run :
    login_user sample (10 * 2 ^ 24 + 5) bbs (codes "secret") (connect sample first)
    ≡ done (true, logged_in)
unfolding login_user logged_in atoi
login_run = refl

abbrev logged_in_Reach : Reach sample 1 logged_in
logged_in_Reach =
    next (start (pos 0) 1000 (one_row confirmed) ([], pos 0) ([], some (pos 45)) refl)
      (login (10 * 2 ^ 24 + 5) bbs (codes "secret") true login_run)

-- The phone asks to be bound to zixia.
abbrev asked : Gw sample
unfolding send
asked = after logged_in (send sample (to_gateway (codes "ZCYH zixia")) logged_in)

asked_run : send sample (to_gateway (codes "ZCYH zixia")) logged_in ≡ done (Code.success, asked)
unfolding send asked logged_in login_user atoi process_command_sms run_command scan_command c_str
    do_register_command do_send_register_msg sms_long_to_byte strncpy
asked_run = refl

asked_Reach : Reach sample 2 asked
asked_Reach =
    next logged_in_Reach (message (to_gateway (codes "ZCYH zixia")) Code.success asked_run)

Reach-AreOrdered_example : (asked.serial ≤ 4) × AreOrdered 0 asked.serial asked.request_list
Reach-AreOrdered_example = Reach-AreOrdered sample asked_Reach (omega arith)

-- One request waits, under the first number.
asked_waits :
    take_request 0 asked.request_list
    ≡ some (record { sn = 0; user_id = zixia; mobile_number = phone; is_bind = 0 }, [])
unfolding asked logged_in login_user take_request send atoi process_command_sms run_command
    scan_command c_str do_register_command do_send_register_msg sms_long_to_byte strncpy
asked_waits = refl

abbrev asked_again : Gw sample
unfolding do_send_register_msg
asked_again = after asked (do_send_register_msg sample phone zixia 1 asked)

asked_again_run : do_send_register_msg sample phone zixia 1 asked ≡ done (Code.success, asked_again)
unfolding asked_again asked send logged_in login_user atoi process_command_sms run_command
    scan_command c_str do_register_command do_send_register_msg sms_long_to_byte strncpy
asked_again_run = refl

Reach-take_request_example :
    take_request asked.serial asked_again.request_list
    ≡ some (
      record { sn = asked.serial; user_id = zixia; mobile_number = phone; is_bind = 1 },
      asked.request_list,
    )
Reach-take_request_example =
    Reach-take_request sample asked_again phone zixia 1 Code.success asked_Reach (omega arith)
      asked_again_run
