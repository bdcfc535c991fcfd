-- ===== src/Wire/Packets.antt =====
-- The packet structs of smsbbsprotocoldefine.h: where each field stands behind the header.
-- All members are bytes, so the structs have no padding. A `char` array is read as a C string,
-- which ends at the first zero byte of the memory, wherever that is.
use aka_smsd.Common.{ℕ, List, take, drop}
use aka_smsd.Common.Text.{c_str}
use aka_smsd.Wire.Codec.{byte_at, sms_byte_to_long}

-- `SMS_BBS_REGISTERMOBILEPACKET`, `SMS_BBS_REGISTERVALIDATIONPACKET` and
-- `SMS_BBS_UNREGISTERMOBILEPACKET` begin alike.
unfoldable pub packet_mobile_no : List ℕ → List ℕ
packet_mobile_no m = c_str (drop 13 m)

unfoldable pub packet_user_id : List ℕ → List ℕ
packet_user_id m = c_str (drop 30 m)

unfoldable pub packet_validate_no : List ℕ → List ℕ
packet_validate_no m = c_str (drop 44 m)

-- `SMS_BBS_LOGINPACKET`
unfoldable pub packet_login_user : List ℕ → List ℕ
packet_login_user m = c_str (drop 13 m)

unfoldable pub packet_login_password : List ℕ → List ℕ
packet_login_password m = c_str (drop 33 m)

-- `SMS_BBS_BINDREQUESTREPLYPACKET`
unfoldable pub reply_is_succeed : List ℕ → ℕ
reply_is_succeed m = byte_at m 30

-- `SMS_BBS_BBSSENDSMS`
unfoldable pub send_user_id : List ℕ → ℕ
send_user_id m = sms_byte_to_long (take 4 (drop 13 m))

unfoldable pub send_src_mobile_no : List ℕ → List ℕ
send_src_mobile_no m = c_str (drop 17 m)

unfoldable pub send_src_user_id : List ℕ → List ℕ
send_src_user_id m = c_str (drop 34 m)

unfoldable pub send_dst_mobile_no : List ℕ → List ℕ
send_dst_mobile_no m = c_str (drop 48 m)

unfoldable pub send_msg_txt_len : List ℕ → ℕ
send_msg_txt_len m = sms_byte_to_long (take 4 (drop 65 m))

-- Where `MsgTxt` begins.
abbrev pub send_txt_offset : ℕ
send_txt_offset = 69

unfoldable pub send_msg_txt : List ℕ → List ℕ
send_msg_txt m = drop 69 m
