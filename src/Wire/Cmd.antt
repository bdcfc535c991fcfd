-- ===== src/Wire/Cmd.antt =====
-- The message types and reply codes of smsbbsprotocoldefine.h, and its other constants.
use aka_smsd.Common.{ℕ}

abbrev pub login : ℕ
login = 1

abbrev pub ok : ℕ
ok = 101

abbrev pub err : ℕ
err = 102

abbrev pub head_length_err : ℕ
head_length_err = 103

abbrev pub db_error : ℕ
db_error = 104

abbrev pub sms_validate_failed : ℕ
sms_validate_failed = 105

abbrev pub length_err : ℕ
length_err = 106

abbrev pub no_validcode : ℕ
no_validcode = 107

abbrev pub no_suchmobile : ℕ
no_suchmobile = 108

abbrev pub registered : ℕ
registered = 109

abbrev pub exceedmoney_limit : ℕ
exceedmoney_limit = 110

abbrev pub logout : ℕ
logout = 2

abbrev pub reg : ℕ
reg = 3

abbrev pub check : ℕ
check = 4

abbrev pub unreg : ℕ
unreg = 5

abbrev pub request : ℕ
request = 6

abbrev pub request_reply : ℕ
request_reply = 7

abbrev pub bbs_send : ℕ
bbs_send = 8

abbrev pub gw_send : ℕ
gw_send = 9

abbrev pub link : ℕ
link = 20

abbrev pub user_len : ℕ
user_len = 19

abbrev pub pass_len : ℕ
pass_len = 49

abbrev pub valid_len : ℕ
valid_len = 6

abbrev pub max_command_sms_len : ℕ
max_command_sms_len = 200

abbrev pub require_bind : ℕ
require_bind = 0

abbrev pub require_unbind : ℕ
require_unbind = 1

abbrev pub id_len : ℕ
id_len = 13

abbrev pub mobile_number_length : ℕ
mobile_number_length = 16

abbrev pub header_size : ℕ
header_size = 13
