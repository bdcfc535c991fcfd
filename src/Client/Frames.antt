-- ===== src/Client/Frames.antt =====
-- The gateway reads out of a packet what the library put in, whatever stands behind the packet in
-- the gateway's buffer.
use aka_smsd.Common.{
  ℕ, ◌+◌, ◌^◌, ◌<◌, ◌≡◌, refl, ap, ◌∙◌, arith, List, [], ◌∷◌, ◌++◌, append_assoc, length,
  length-append, take, drop, drop-append, drop-drop, get_or, get_or-append, if◌then◌else◌,
}
use aka_smsd.Common.Int.{ℤ, pos, ◌==ℤ◌}
use aka_smsd.Common.Text.{c_str, field, IsText, c_str-field, length-field}
use aka_smsd.Wire.{
  header_at, make_header, sms_long_to_byte, sms_byte_to_long, packet_mobile_no, packet_user_id,
  packet_validate_no, send_user_id, send_src_mobile_no, send_src_user_id, send_dst_mobile_no,
  send_msg_txt_len, send_msg_txt, reply_is_succeed, byte_to_long-long_to_byte,
}
use aka_smsd.Wire.Cmd
use aka_smsd.Client.{register_packet, check_packet, unregister_packet, send_packet, reply_packet}

-- A field at the head of the memory, and what stands behind it.
drop-field : (n : ℕ) (s rest : List ℕ) → drop (n + 1) (field n s ++ rest) ≡ rest
drop-field n s rest = drop-append (n + 1) (field n s) rest (length-field n s)

pub read_field :
    (n : ℕ) (s a rest : List ℕ) → IsText s → c_str ((field n s ++ a) ++ rest) ≡ take n s
read_field n s a rest h = ap c_str (append_assoc (field n s) a rest) ∙ c_str-field n s (a ++ rest) h

pub skip_field : (n : ℕ) (s a rest : List ℕ) → drop (n + 1) ((field n s ++ a) ++ rest) ≡ a ++ rest
skip_field n s a rest =
    ap (drop (n + 1)) (append_assoc (field n s) a rest) ∙ drop-field n s (a ++ rest)

module _ (serial pid : ℕ) (mobile user_id rest : List ℕ) where
  pub header_at-register_packet :
      header_at (register_packet serial pid mobile user_id ++ rest)
      ≡ make_header Cmd.reg serial pid 31
  unfolding header_at register_packet sms_long_to_byte
  header_at-register_packet = refl

  pub header_at-unregister_packet :
      header_at (unregister_packet serial pid mobile user_id ++ rest)
      ≡ make_header Cmd.unreg serial pid 31
  unfolding header_at unregister_packet sms_long_to_byte
  header_at-unregister_packet = refl

  pub packet_mobile_no-unregister_packet :
      IsText mobile
      → packet_mobile_no (unregister_packet serial pid mobile user_id ++ rest) ≡ take 16 mobile
  unfolding packet_mobile_no unregister_packet sms_long_to_byte
  packet_mobile_no-unregister_packet h = read_field 16 mobile (field 13 user_id) rest h

  pub packet_user_id-unregister_packet :
      IsText user_id
      → packet_user_id (unregister_packet serial pid mobile user_id ++ rest) ≡ take 13 user_id
  unfolding packet_user_id unregister_packet sms_long_to_byte
  packet_user_id-unregister_packet h =
      ap c_str (skip_field 16 mobile (field 13 user_id) rest) ∙ c_str-field 13 user_id rest h

  pub packet_mobile_no-register_packet :
      IsText mobile
      → packet_mobile_no (register_packet serial pid mobile user_id ++ rest) ≡ take 16 mobile
  unfolding packet_mobile_no register_packet sms_long_to_byte
  packet_mobile_no-register_packet h = read_field 16 mobile (field 13 user_id) rest h

  pub packet_user_id-register_packet :
      IsText user_id
      → packet_user_id (register_packet serial pid mobile user_id ++ rest) ≡ take 13 user_id
  unfolding packet_user_id register_packet sms_long_to_byte
  packet_user_id-register_packet h =
      ap c_str (skip_field 16 mobile (field 13 user_id) rest) ∙ c_str-field 13 user_id rest h

module _ (serial pid : ℕ) (mobile user_id code rest : List ℕ) where
  pub header_at-check_packet :
      header_at (check_packet serial pid mobile user_id code ++ rest)
      ≡ make_header Cmd.check serial pid 38
  unfolding header_at check_packet sms_long_to_byte
  header_at-check_packet = refl

  pub packet_mobile_no-check_packet :
      IsText mobile
      → packet_mobile_no (check_packet serial pid mobile user_id code ++ rest) ≡ take 16 mobile
  unfolding packet_mobile_no check_packet sms_long_to_byte
  packet_mobile_no-check_packet h = read_field 16 mobile (field 13 user_id ++ field 6 code) rest h

  pub packet_user_id-check_packet :
      IsText user_id
      → packet_user_id (check_packet serial pid mobile user_id code ++ rest) ≡ take 13 user_id
  unfolding packet_user_id check_packet sms_long_to_byte
  packet_user_id-check_packet h =
      ap c_str (skip_field 16 mobile (field 13 user_id ++ field 6 code) rest)
      ∙ read_field 13 user_id (field 6 code) rest h

  pub packet_validate_no-check_packet :
      IsText code
      → packet_validate_no (check_packet serial pid mobile user_id code ++ rest) ≡ take 6 code
  unfolding packet_validate_no check_packet sms_long_to_byte
  packet_validate_no-check_packet h =
      ap c_str (
        drop-drop 17 14 ((field 16 mobile ++ (field 13 user_id ++ field 6 code)) ++ rest)
        ∙ ap (drop 14) (skip_field 16 mobile (field 13 user_id ++ field 6 code) rest)
        ∙ skip_field 13 user_id (field 6 code) rest)
      ∙ c_str-field 6 code rest h

-- What stands behind the fields of a packet to send a message.
abbrev behind_id : List ℕ → ℕ → List ℕ
behind_id target len = field 16 target ++ sms_long_to_byte len

abbrev behind_source : List ℕ → List ℕ → ℕ → List ℕ
behind_source user_id target len = field 13 user_id ++ behind_id target len

module _ (serial pid user_code : ℕ) (user_id source target : List ℕ) (len : ℕ) (rest : List ℕ) where
  abbrev pub packet : List ℕ
  packet = send_packet serial pid user_code user_id source target len ++ rest

  pub header_at-send_packet : header_at packet ≡ make_header Cmd.bbs_send serial pid (56 + len)
  unfolding header_at send_packet sms_long_to_byte
  header_at-send_packet = refl

  pub length-packet : length packet ≡ 69 + length rest
  unfolding send_packet sms_long_to_byte
  length-packet = omega (
    arith,
    length-append (field 16 source ++ behind_source user_id target len) rest,
    length-append (field 16 source) (behind_source user_id target len),
    length-append (field 13 user_id) (behind_id target len),
    length-append (field 16 target) (sms_long_to_byte len),
    length-field 16 source,
    length-field 13 user_id,
    length-field 16 target,
  )

  drop-source : drop 34 packet ≡ behind_source user_id target len ++ rest
  unfolding send_packet sms_long_to_byte
  drop-source = skip_field 16 source (behind_source user_id target len) rest

  drop-id : drop 48 packet ≡ behind_id target len ++ rest
  drop-id =
      drop-drop 34 14 packet
      ∙ ap (drop 14) drop-source
      ∙ skip_field 13 user_id (behind_id target len) rest

  drop-target : drop 65 packet ≡ sms_long_to_byte len ++ rest
  drop-target =
      drop-drop 48 17 packet
      ∙ ap (drop 17) drop-id
      ∙ skip_field 16 target (sms_long_to_byte len) rest

  pub send_user_id-send_packet : user_code < 2 ^ 32 → send_user_id packet ≡ user_code
  unfolding send_user_id send_packet sms_long_to_byte
  send_user_id-send_packet h = byte_to_long-long_to_byte user_code h

  pub send_src_mobile_no-send_packet : IsText source → send_src_mobile_no packet ≡ take 16 source
  unfolding send_src_mobile_no send_packet sms_long_to_byte
  send_src_mobile_no-send_packet h = read_field 16 source (behind_source user_id target len) rest h

  pub send_src_user_id-send_packet : IsText user_id → send_src_user_id packet ≡ take 13 user_id
  unfolding send_src_user_id
  send_src_user_id-send_packet h =
      ap c_str drop-source ∙ read_field 13 user_id (behind_id target len) rest h

  pub send_dst_mobile_no-send_packet : IsText target → send_dst_mobile_no packet ≡ take 16 target
  unfolding send_dst_mobile_no
  send_dst_mobile_no-send_packet h =
      ap c_str drop-id ∙ read_field 16 target (sms_long_to_byte len) rest h

  pub send_msg_txt_len-send_packet : len < 2 ^ 32 → send_msg_txt_len packet ≡ len
  unfolding send_msg_txt_len sms_long_to_byte
  send_msg_txt_len-send_packet h =
      ap (λ (m : List ℕ). sms_byte_to_long (take 4 m)) drop-target ∙ byte_to_long-long_to_byte len h

  pub send_msg_txt-send_packet : send_msg_txt packet ≡ rest
  unfolding send_msg_txt sms_long_to_byte
  send_msg_txt-send_packet = drop-drop 65 4 packet ∙ ap (drop 4) drop-target

module _ (serial pid : ℕ) (is_succeed : ℤ) (stale rest : List ℕ) where
  pub header_at-reply_packet :
      header_at (reply_packet serial pid is_succeed stale ++ rest)
      ≡ make_header Cmd.request_reply serial pid 18
  unfolding header_at reply_packet sms_long_to_byte
  header_at-reply_packet = refl

  pub reply_is_succeed-reply_packet :
      length stale ≡ 16
      → reply_is_succeed (reply_packet serial pid is_succeed stale ++ rest)
        ≡ (if is_succeed ==ℤ pos 0 then 0 else 1)
  unfolding reply_is_succeed reply_packet sms_long_to_byte
  reply_is_succeed-reply_packet h =
      let flag : ℕ = if is_succeed ==ℤ pos 0 then 0 else 1 in
      ap (λ (m : List ℕ). get_or m 16 0) (append_assoc stale (flag ∷ []) rest)
      ∙ get_or-append 16 stale (flag ∷ rest) 0 h
