-- ===== src/Common/Code.antt =====
-- The return values of sms.h. `PARSE_ERROR` and `CONNECTIONLOST` are both -102.
use aka_smsd.Common.Int.{ℤ, pos, negsuc}

abbrev pub success : ℤ
success = pos 0

abbrev pub nosevereerror : ℤ
nosevereerror = pos 1

abbrev pub timeout : ℤ
timeout = negsuc 99

abbrev pub failed : ℤ
failed = negsuc 0

abbrev pub error : ℤ
error = negsuc 100

abbrev pub parse_error : ℤ
parse_error = negsuc 101

abbrev pub noenoughmemory : ℤ
noenoughmemory = negsuc 400

abbrev pub quit : ℤ
quit = negsuc 500
