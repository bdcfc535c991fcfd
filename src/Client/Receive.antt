-- ===== src/Client/Receive.antt =====
-- libbbssms/libbbssms.c: connecting to the gateway and reading what it sends.
use aka_smsd.Common.{
  ℕ, ◌+◌, ◌%◌, ◌^◌, List, [], ◌∷◌, ◌++◌, ltb, leb, ◌||◌, ◌==◌, if◌then◌else◌, length, take, drop,
}
use aka_smsd.Common.Int.{ℤ, pos, negsuc, leb_ℤ}
use aka_smsd.Common.Text.{c_str}
use aka_smsd.Wire.{byte_at, Header, header_at, sms_byte_to_long}
use aka_smsd.Wire.Cmd
use aka_smsd.Client.{
  System, Client, Received, read_failed, received, no_address, no_tcp, no_socket, refused,
  connected_as, err_not_connected, err_gwclosed, connected, login_packet, write_packet,
}

abbrev pub err_memory : ℤ
err_memory = negsuc 199

abbrev pub err_dns : ℤ
err_dns = negsuc 300

abbrev pub err_tcpprotocol : ℤ
err_tcpprotocol = negsuc 301

abbrev pub err_socket : ℤ
err_socket = negsuc 302

abbrev pub err_connect : ℤ
err_connect = negsuc 303

abbrev pub err_login : ℤ
err_login = negsuc 304

abbrev pub cmd_gwsms : ℕ
cmd_gwsms = 1

abbrev pub cmd_register : ℕ
cmd_register = 2

abbrev pub cmd_unregister : ℕ
cmd_unregister = 3

-- What `sms_getReply` gives its caller: a negative value; or 0 with the serial number, the pid, the
-- kind of reply and what the new buffer holds. `overrun` is an access outside a buffer.
pub data Reply : Type 0 where
  failed_reply : ℤ → Reply
  plain_reply : ℕ → ℕ → ℕ → Reply
  bind_reply : ℕ → ℕ → ℕ → List ℕ → List ℕ → Reply
  sms_reply : ℕ → ℕ → ℕ → List ℕ → List ℕ → Reply
  overrun : Reply

-- Memory that held `stale` before these bytes came in.
abbrev pub fill : List ℕ → List ℕ → List ℕ
fill bytes stale = bytes ++ drop (length bytes) stale

-- `SMS_BINDREQUEST` out of the 32 bytes of the library's own packet struct, which has no header.
unfoldable pub bind_reply_of : Header → List ℕ → Reply
bind_reply_of head pack =
    bind_reply (sms_byte_to_long head.serial_no) (sms_byte_to_long head.pid)
      (if byte_at pack 31 == 1 then cmd_register else cmd_unregister) (take 13 (c_str pack))
      (take 16 (c_str (drop 14 pack)))

-- `SMS_GWSMS` out of the 25 bytes of fields and the text behind them; `pack` is all the memory that
-- was allocated for them; 29 more bytes than the text has are allocated for the result.
unfoldable pub sms_reply_of : Header → List ℕ → Reply
sms_reply_of head pack =
    let text_len = sms_byte_to_long (take 4 (drop 21 pack)) in
    if ltb (length pack) (25 + text_len) || leb (2 ^ 32) (29 + text_len)
    then overrun
    else sms_reply (sms_byte_to_long head.serial_no) (sms_byte_to_long head.pid)
        (sms_byte_to_long (take 4 pack)) (take 16 (c_str (drop 4 pack)))
        (take text_len (drop 25 pack))

module _ (sys : System) where
  -- The descriptor that `sms_read` closes and marks is its own parameter, not the static one.
  abbrev pub read_result : Client sys → sys.Net × Received → Client sys × ℤ × List ℕ
  read_result c (net', read_failed rc) = (record c { net = net' }, rc, [])
  read_result c (net', received []) = (record c { net = sys.close net' c.sockfd }, err_gwclosed, [])
  read_result c (net', received (b ∷ bs)) = (record c { net = net' }, sys.no_return, b ∷ bs)

  unfoldable pub sms_read : ℕ → Client sys → Client sys × ℤ × List ℕ
  sms_read size c = read_result c (sys.read c.net size)

  -- The `read` of a body does not look whether fewer bytes came than were asked for. `stale` is
  -- what the stack or the heap held in the buffer.
  unfoldable pub bind_request_body :
      Header → List ℕ → Client sys → sys.Net × Received → Client sys × Reply
  bind_request_body head stale c (net', read_failed rc) = (record c { net = net' }, failed_reply rc)
  bind_request_body head stale c (net', received bytes) = (
    record c { net = net' },
    if ltb 32 (length bytes) then overrun else bind_reply_of head (fill bytes stale),
  )

  unfoldable pub read_bind_request : Header → List ℕ → Client sys → Client sys × Reply
  unfolding bind_request_body
  read_bind_request head stale c =
      if sys.malloc 31
      then bind_request_body head stale c (sys.read c.net (sms_byte_to_long head.msg_length))
      else (c, failed_reply err_memory)

  -- The second allocation is for the result.
  unfoldable pub sms_of_pack : Header → List ℕ → Reply
  sms_of_pack head pack =
      if ltb (length pack) 25
      then overrun
      else if sys.malloc ((29 + sms_byte_to_long (take 4 (drop 21 pack))) % 2 ^ 32)
      then sms_reply_of head pack
      else failed_reply err_memory

  unfoldable pub gw_sms_body :
      Header → List ℕ → Client sys → sys.Net × Received → Client sys × Reply
  unfolding sms_of_pack
  gw_sms_body head stale c (net', read_failed rc) = (record c { net = net' }, failed_reply rc)
  gw_sms_body head stale c (net', received bytes) = (
    record c { net = net' },
    sms_of_pack head (take (sms_byte_to_long head.msg_length) (fill bytes stale)),
  )

  unfoldable pub read_gw_sms : Header → List ℕ → Client sys → Client sys × Reply
  unfolding gw_sms_body
  read_gw_sms head stale c =
      if sys.malloc (sms_byte_to_long head.msg_length)
      then gw_sms_body head stale c (sys.read c.net (sms_byte_to_long head.msg_length))
      else (c, failed_reply err_memory)

  -- switch(head.Type)
  unfoldable pub reply_by_type : Header → List ℕ → Client sys → Client sys × Reply
  unfolding read_bind_request read_gw_sms
  reply_by_type head stale c =
      if head.type == Cmd.request
      then read_bind_request head stale c
      else if head.type == Cmd.gw_send
      then read_gw_sms head stale c
      else (c, plain_reply (sms_byte_to_long head.serial_no) (sms_byte_to_long head.pid) head.type)

  abbrev after_header : List ℕ → List ℕ → Client sys × ℤ × List ℕ → Client sys × Reply
  unfolding reply_by_type
  after_header head_stale stale (c, rc, bytes) =
      if leb_ℤ (pos 0) rc
      then reply_by_type (header_at (fill bytes head_stale)) stale c
      else (c, failed_reply rc)

  -- `head_stale` and `stale` are what the buffers held before.
  unfoldable pub sms_get_reply : List ℕ → List ℕ → Client sys → Client sys × Reply
  unfolding sms_read after_header
  sms_get_reply head_stale stale c =
      if connected sys c
      then after_header head_stale stale (sms_read Cmd.header_size c)
      else (c, failed_reply err_not_connected)

  -- The packet, and the answer to it.
  unfoldable pub log_in : List ℕ → ℕ → List ℕ → List ℕ → Client sys → Client sys × ℤ
  unfolding sms_read
  log_in head_stale serial_no user pass c =
      let (c', rc) = write_packet sys (login_packet serial_no user pass) c in
      let (c'', rc', bytes) = sms_read Cmd.header_size c' in
      if leb_ℤ (pos 0) rc
      then if leb_ℤ (pos 0) rc'
        then (c'', if (header_at (fill bytes head_stale)).type == Cmd.ok then pos 0 else err_login)
        else (c'', rc')
      else (c', rc)

  unfoldable pub sms_login : List ℕ → ℕ → List ℕ → ℕ → List ℕ → List ℕ → Client sys → Client sys × ℤ
  unfolding log_in
  sms_login head_stale serial_no address port user pass c =
      let (net', how) = sys.connect c.net address port in
      elim how [
        | no_address ↦ (record c { net = net' }, err_dns)
        | no_tcp ↦ (record c { net = net' }, err_tcpprotocol)
        | no_socket ↦ (record c { net = net'; sockfd = negsuc 0 }, err_socket)
        | refused fd ↦ (record c { net = net'; sockfd = pos fd }, err_connect)
        | connected_as fd ↦
            log_in head_stale serial_no user pass (record c { net = net'; sockfd = pos fd })
      ]

  unfoldable pub sms_init : Client sys → Client sys
  sms_init c = record c { sockfd = negsuc 0 }

  unfoldable pub sms_exit : Client sys → Client sys × ℤ
  sms_exit c = (
    record c {
      sockfd = negsuc 0;
      net = if leb_ℤ (pos 1) c.sockfd then sys.close c.net c.sockfd else c.net;
    },
    pos 0,
  )

  abbrev pub sms_getsocket : Client sys → ℤ
  sms_getsocket c = c.sockfd
