-- ===== src/Client.antt =====
-- libbbssms/libbbssms.c: the library by which a BBS talks to the gateway. Its static `sockfd` and
-- the connection are the state of every operation; the calls of the system are parameters, and so
-- is the value that `sms_read` leaves in the return register where it has no `return`.
pub mod Receive
pub mod Replies
pub mod Messages
pub mod Frames
pub mod Calls
use aka_smsd.Common.{
  ℕ, zero, suc, ◌+◌, ◌-◌, ◌%◌, ◌^◌, Bool, true, false, List, [], ◌∷◌, ◌++◌, Option, none, some, ltb,
  leb, ◌==◌, if◌then◌else◌, length, take, drop,
}
use aka_smsd.Common.Int.{ℤ, pos, negsuc, leb_ℤ, ◌==ℤ◌}
use aka_smsd.Common.Text.{c_str, field}
use aka_smsd.Wire.{
  byte_at, make_header, header_bytes, header_at, sms_byte_to_long, sms_long_to_byte,
}
use aka_smsd.Wire.Cmd

-- What a call of the system's `read` comes to: its negative value, or the bytes that came in.
pub data Received : Type 0 where
  read_failed : ℤ → Received
  received : List ℕ → Received

-- How far the calls up to `connect` get; the socket's number from `socket`.
pub data Connecting : Type 0 where
  no_address no_tcp no_socket : Connecting
  refused connected_as : ℕ → Connecting

pub record System : Type 1 where
  pub Net : Type 0
  pub connect : Net → List ℕ → ℕ → Net × Connecting
  pub write : Net → List ℕ → Net × ℤ
  pub read : Net → ℕ → Net × Received
  pub close : Net → ℤ → Net
  pub malloc : ℕ → Bool
  -- What a caller gets of `sms_read` where it ends without a `return`.
  pub no_return : ℤ
  -- What is left of these bytes in front when `memcpy` moves the ones behind the first so many to
  -- the front. The two areas overlap, so that the result is not fixed.
  pub copy_down : ℕ → List ℕ → List ℕ

pub record Client (sys : System) : Type 0 where
  pub sockfd : ℤ
  pub net : sys.Net

abbrev pub err_not_connected : ℤ
err_not_connected = negsuc 500

abbrev pub err_msgtype : ℤ
err_msgtype = negsuc 9

abbrev pub err_gwclosed : ℤ
err_gwclosed = negsuc 99

abbrev pub msg_type_txt : ℤ
msg_type_txt = pos 0

-- The bytes of each packet, header included.
unfoldable pub login_packet : ℕ → List ℕ → List ℕ → List ℕ
login_packet serial_no user pass =
    header_bytes (make_header Cmd.login serial_no 0 70)
    ++ (field Cmd.user_len user ++ field Cmd.pass_len pass)

unfoldable pub register_packet : ℕ → ℕ → List ℕ → List ℕ → List ℕ
register_packet serial_no pid mobile user_id =
    header_bytes (make_header Cmd.reg serial_no pid 31)
    ++ (field Cmd.mobile_number_length mobile ++ field Cmd.id_len user_id)

unfoldable pub check_packet : ℕ → ℕ → List ℕ → List ℕ → List ℕ → List ℕ
check_packet serial_no pid mobile user_id code =
    header_bytes (make_header Cmd.check serial_no pid 38)
    ++ (field Cmd.mobile_number_length mobile
        ++ (field Cmd.id_len user_id ++ field Cmd.valid_len code))

unfoldable pub unregister_packet : ℕ → ℕ → List ℕ → List ℕ → List ℕ
unregister_packet serial_no pid mobile user_id =
    header_bytes (make_header Cmd.unreg serial_no pid 31)
    ++ (field Cmd.mobile_number_length mobile ++ field Cmd.id_len user_id)

-- The part of the packet in front of the text.
unfoldable pub send_packet : ℕ → ℕ → ℕ → List ℕ → List ℕ → List ℕ → ℕ → List ℕ
send_packet serial_no pid user_code user_id source target content_len =
    header_bytes (make_header Cmd.bbs_send serial_no pid (56 + content_len))
    ++ (sms_long_to_byte user_code
        ++ (field Cmd.mobile_number_length source
            ++ (field Cmd.id_len user_id
                ++ (field Cmd.mobile_number_length target ++ sms_long_to_byte content_len))))

-- `stale` is what the stack held in the 16 bytes of `MobileNo` that are not set.
unfoldable pub reply_packet : ℕ → ℕ → ℤ → List ℕ → List ℕ
reply_packet serial_no pid is_succeed stale =
    header_bytes (make_header Cmd.request_reply serial_no pid 18)
    ++ (0 ∷ (stale ++ (if is_succeed ==ℤ pos 0 then 0 else 1) ∷ []))

module _ (sys : System) where
  abbrev pub connected : Client sys → Bool
  connected c = leb_ℤ (pos 0) c.sockfd

  unfoldable pub write_packet : List ℕ → Client sys → Client sys × ℤ
  write_packet packet c = let (net', rc) = sys.write c.net packet in (record c { net = net' }, rc)

  -- The test that begins every operation.
  unfoldable pub send_if_connected : List ℕ → Client sys → Client sys × ℤ
  unfolding write_packet
  send_if_connected packet c = if connected c then write_packet packet c else (c, err_not_connected)

  unfoldable pub sms_send_register_number : ℕ → ℕ → List ℕ → List ℕ → Client sys → Client sys × ℤ
  sms_send_register_number serial_no pid mobile user_id =
      send_if_connected (register_packet serial_no pid mobile user_id)

  unfoldable pub sms_check_register_number :
      ℕ → ℕ → List ℕ → List ℕ → List ℕ → Client sys → Client sys × ℤ
  sms_check_register_number serial_no pid mobile user_id code =
      send_if_connected (check_packet serial_no pid mobile user_id code)

  unfoldable pub sms_un_register : ℕ → ℕ → List ℕ → List ℕ → Client sys → Client sys × ℤ
  sms_un_register serial_no pid mobile user_id =
      send_if_connected (unregister_packet serial_no pid mobile user_id)

  -- The header and fields go out in one write, the text in a second one.
  unfoldable pub sms_send_sms :
      ℕ → ℕ → ℕ → List ℕ → List ℕ → List ℕ → List ℕ → ℤ → Client sys → Client sys × ℤ
  unfolding write_packet
  sms_send_sms serial_no pid user_code user_id source target content content_type c =
      if connected c
      then if content_type ==ℤ msg_type_txt
        then (let (c', rc) =
              write_packet
                (send_packet serial_no pid user_code user_id source target (length content)) c in
            if leb_ℤ (pos 0) rc then write_packet content c' else (c', rc))
        else (c, err_msgtype)
      else (c, err_not_connected)

  unfoldable pub sms_reply_gw_register : ℕ → ℕ → ℤ → List ℕ → Client sys → Client sys × ℤ
  sms_reply_gw_register serial_no pid is_succeed stale =
      send_if_connected (reply_packet serial_no pid is_succeed stale)
