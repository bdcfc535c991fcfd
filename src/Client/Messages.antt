-- ===== src/Client/Messages.antt =====
-- What the library makes of a message that the gateway delivers.
use aka_smsd.Common.{
  ℕ, ◌+◌, ◌^◌, ◌<◌, ◌≡◌, refl, ap, ◌∙◌, arith, true, false, List, ◌++◌, ltb, leb, length,
  length-append, take, drop, take-append, drop-append, drop-drop, take_all,
}
use aka_smsd.Common.Int.{pos, leb_ℤ}
use aka_smsd.Common.Text.{field, IsText, c_str-field, length-field}
use aka_smsd.Wire.{
  make_header, header_at, sms_byte_to_long, sms_long_to_byte, byte_to_long-long_to_byte,
}
use aka_smsd.Wire.Cmd
use aka_smsd.Sms.{SmsMessage}
use aka_smsd.Client.{System, Client, received, connected}
use aka_smsd.Client.Receive.{
  sms_reply, fill, sms_reply_of, sms_of_pack, gw_sms_body, reply_by_type, read_gw_sms,
  sms_get_reply,
}
use aka_smsd.Client.Replies.{sms_read_some, sms_get_reply-header, take_twice}
use aka_smsd.Gateway.Deliver.{gw_send_bytes}

abbrev behind_user : List ℕ → List ℕ → List ℕ
behind_user sender text = field 16 sender ++ (sms_long_to_byte (length text) ++ text)

-- The body of a delivered message.
abbrev sms_body : ℕ → List ℕ → List ℕ → List ℕ
sms_body user sender text = sms_long_to_byte user ++ behind_user sender text

length-sms_body :
    (user : ℕ) (sender text : List ℕ) → length (sms_body user sender text) ≡ 25 + length text
unfolding sms_long_to_byte
length-sms_body user sender text = omega (
  arith,
  length-append (field 16 sender) (sms_long_to_byte (length text) ++ text),
  length-field 16 sender,
)

module _ (user : ℕ) (sender text : List ℕ) where
  user_at : take 4 (sms_body user sender text) ≡ sms_long_to_byte user
  unfolding sms_long_to_byte
  user_at = refl

  sender_at : drop 4 (sms_body user sender text) ≡ behind_user sender text
  unfolding sms_long_to_byte
  sender_at = refl

  len_at : drop 21 (sms_body user sender text) ≡ sms_long_to_byte (length text) ++ text
  len_at =
      drop-drop 4 17 (sms_body user sender text)
      ∙ ap (drop 17) sender_at
      ∙ drop-append 17 (field 16 sender) (sms_long_to_byte (length text) ++ text)
          (length-field 16 sender)

  len_bytes : take 4 (drop 21 (sms_body user sender text)) ≡ sms_long_to_byte (length text)
  unfolding sms_long_to_byte
  len_bytes = ap (take 4) len_at

  text_at : drop 25 (sms_body user sender text) ≡ text
  unfolding sms_long_to_byte
  text_at = drop-drop 21 4 (sms_body user sender text) ∙ ap (drop 4) len_at

  sms_reply_of-body :
      (serial : ℕ) (len : ℕ)
      → serial < 2 ^ 32
      → user < 2 ^ 32
      → 29 + length text < 2 ^ 32
      → IsText sender
      → sms_reply_of (make_header Cmd.gw_send serial 0 len) (sms_body user sender text)
        ≡ sms_reply serial 0 user (take 16 sender) text
  unfolding sms_reply_of
  sms_reply_of-body serial len h k short is_text =
      let size = byte_to_long-long_to_byte (length text) (omega arith) in
      let inside : ltb (length (sms_body user sender text)) (25 + length text) ≡ false =
        ground (arith, length-sms_body user sender text) in
      let no_wrap : leb (2 ^ 32) (29 + length text) ≡ false = ground arith in
      let from = c_str-field 16 sender (sms_long_to_byte (length text) ++ text) is_text in
      rw
        (
          len_bytes,
          size,
          inside,
          no_wrap,
          user_at,
          sender_at,
          from,
          text_at,
          byte_to_long-long_to_byte serial h,
          byte_to_long-long_to_byte user k,
          byte_to_long-long_to_byte 0 (omega arith),
          take_twice 16 sender,
          take_all (length text) text (omega arith),
        )
        refl

gw_send_bytes_header :
    (serial user : ℕ) (msg : SmsMessage) (stale : List ℕ)
    → header_at (fill (take 13 (gw_send_bytes serial user msg)) stale)
      ≡ make_header Cmd.gw_send serial 0 (25 + msg.body_length)
unfolding header_at sms_long_to_byte
gw_send_bytes_header serial user msg stale = refl

gw_send_bytes_body :
    (serial user : ℕ) (msg : SmsMessage)
    → msg.body_length ≡ length msg.body
    → drop 13 (gw_send_bytes serial user msg) ≡ sms_body user msg.sender_number msg.body
unfolding sms_long_to_byte
gw_send_bytes_body serial user msg size = rw size refl

module _ (sys : System) (c : Client sys) (n1 n2 : sys.Net) (head_stale stale : List ℕ) where
  -- When a connected library's two reads bring the header and the body of a packet that
  -- `deliverSMS` wrote for a message, and there is memory for it, `sms_getReply` returns the
  -- serial number of the packet, the user number that was put in, the sender's phone, cut to 16
  -- characters, and the text. This is so for numbers below 2 ^ 32 and a message whose sender has
  -- no zero byte and whose length field is that of its text, at most 2 ^ 32 - 30, if what
  -- `sms_read` leaves for its caller is not negative.
  pub sms_get_reply-gw_send_bytes :
      (serial user : ℕ) (msg : SmsMessage)
      → serial < 2 ^ 32
      → user < 2 ^ 32
      → msg.body_length ≡ length msg.body
      → 29 + length msg.body < 2 ^ 32
      → IsText msg.sender_number
      → connected sys c ≡ true
      → leb_ℤ (pos 0) sys.no_return ≡ true
      → ((n : ℕ) → sys.malloc n ≡ true)
      → sys.read c.net 13 ≡ (n1, received (take 13 (gw_send_bytes serial user msg)))
      → sys.read n1 (25 + length msg.body)
        ≡ (n2, received (drop 13 (gw_send_bytes serial user msg)))
      → sms_get_reply sys head_stale stale c
        ≡ (record c { net = n2 }, sms_reply serial 0 user (take 16 msg.sender_number) msg.body)
  unfolding reply_by_type read_gw_sms gw_sms_body sms_of_pack
  sms_get_reply-gw_send_bytes serial user msg h k size short is_text up fine memory e1 e2 =
      let text : List ℕ = msg.body in
      let got = sms_read_some sys c n1 n2 head_stale stale 13 _ _ e1 in
      let header = gw_send_bytes_header serial user msg head_stale in
      let len = byte_to_long-long_to_byte (25 + length msg.body) (omega arith) in
      let full = length-sms_body user msg.sender_number msg.body in
      let pack =
        take-append (25 + length msg.body) (sms_body user msg.sender_number msg.body)
          (drop (length (sms_body user msg.sender_number msg.body)) stale) full in
      let fits : ltb (length (sms_body user msg.sender_number msg.body)) 25 ≡ false =
        ground (arith, full) in
      rw
        (
          sms_get_reply-header sys c n1 n2 head_stale stale (record c { net = n1 }) _ _ up fine got
              header,
          size,
          memory (sms_byte_to_long (sms_long_to_byte (25 + length msg.body))),
          len,
          e2,
          gw_send_bytes_body serial user msg size,
          len,
          pack,
          fits,
          memory _,
          sms_reply_of-body user msg.sender_number msg.body serial (25 + length msg.body) h k short
              is_text,
        )
        refl
