-- ===== src/ChildProtocol/Messages.antt =====
-- A message of the partner, from its packet to the storage and the two answers.
use aka_smsd.Common.{
  ℕ, ◌+◌, ◌^◌, ◌%◌, ◌≤◌, ◌<◌, ◌≡◌, refl, ap, ◌∙◌, arith, true, false, List, [], ◌∷◌, ◌++◌, ltb,
  length, take, drop, length-append, length-take, take_all, get_or, ◌==◌, take-append, drop-append,
  drop-drop,
}
use aka_smsd.Common.Text.{IsText, c_str, field, c_str-field, length-field}
use aka_smsd.Wire.{sms_byte_to_long, sms_long_to_byte, byte_to_long-long_to_byte}
use aka_smsd.Sms.{SmsMessage}
use aka_smsd.ChildProtocol.{
  Services, Cp, done, sm_sender_no, sm_target_no, sm_fee_target_no, sm_body_length, formated_msg,
  serial_no, reply_bytes, do_message, do_send_error_msg, then_send,
}

length-long : (n : ℕ) → length (sms_long_to_byte n) ≡ 4
unfolding sms_long_to_byte
length-long n = refl

module _ (s0 s1 s2 s3 fee_type sms_type : ℕ) (sender target fee body rest : List ℕ) where
  -- The buffer that starts with the packet of a message.
  abbrev pub send_message_bytes : List ℕ
  send_message_bytes =
      0
      ∷ s0
      ∷ s1
      ∷ s2
      ∷ s3
      ∷ 0
      ∷ 0
      ∷ 0
      ∷ 57
      ∷ 0
      ∷ 0
      ∷ 0
      ∷ 0
      ∷ (field 16 sender
          ++ (field 16 target
              ++ (field 16 fee
                  ++ (fee_type ∷ sms_type ∷ (sms_long_to_byte (length body) ++ (body ++ rest))))))

  drop_30 :
      drop 30 send_message_bytes
      ≡ field 16 target
        ++ (field 16 fee
            ++ (fee_type ∷ sms_type ∷ (sms_long_to_byte (length body) ++ (body ++ rest))))
  drop_30 = drop-append 17 (field 16 sender) _ (length-field 16 sender)

  drop_47 :
      drop 47 send_message_bytes
      ≡ field 16 fee ++ (fee_type ∷ sms_type ∷ (sms_long_to_byte (length body) ++ (body ++ rest)))
  drop_47 =
      drop-drop 30 17 send_message_bytes
      ∙ ap (drop 17) drop_30
      ∙ drop-append 17 (field 16 target) _ (length-field 16 target)

  drop_64 :
      drop 64 send_message_bytes
      ≡ fee_type ∷ sms_type ∷ (sms_long_to_byte (length body) ++ (body ++ rest))
  drop_64 =
      drop-drop 47 17 send_message_bytes
      ∙ ap (drop 17) drop_47
      ∙ drop-append 17 (field 16 fee) _ (length-field 16 fee)

  drop_66 : drop 66 send_message_bytes ≡ sms_long_to_byte (length body) ++ (body ++ rest)
  drop_66 = drop-drop 64 2 send_message_bytes ∙ ap (drop 2) drop_64

  sm_sender_no-bytes : IsText sender → sm_sender_no send_message_bytes ≡ take 16 sender
  unfolding sm_sender_no
  sm_sender_no-bytes text =
      ap (take 16) (c_str-field 16 sender _ text)
      ∙ take_all 16 (take 16 sender) (omega (arith, length-take 16 sender))

  sm_target_no-bytes : IsText target → sm_target_no send_message_bytes ≡ take 16 target
  unfolding sm_target_no
  sm_target_no-bytes text =
      ap (λ (l : List ℕ). take 16 (c_str l)) drop_30
      ∙ ap (take 16) (c_str-field 16 target _ text)
      ∙ take_all 16 (take 16 target) (omega (arith, length-take 16 target))

  sm_fee_target_no-bytes : IsText fee → sm_fee_target_no send_message_bytes ≡ take 16 fee
  unfolding sm_fee_target_no
  sm_fee_target_no-bytes text =
      ap (λ (l : List ℕ). take 16 (c_str l)) drop_47
      ∙ ap (take 16) (c_str-field 16 fee _ text)
      ∙ take_all 16 (take 16 fee) (omega (arith, length-take 16 fee))

  sm_body_length-bytes : length body < 2 ^ 32 → sm_body_length send_message_bytes ≡ length body
  unfolding sm_body_length
  sm_body_length-bytes small =
      ap (λ (l : List ℕ). sms_byte_to_long (take 4 l)) drop_66
      ∙ ap sms_byte_to_long (
          take-append 4 (sms_long_to_byte (length body)) (body ++ rest) (length-long (length body)))
      ∙ byte_to_long-long_to_byte (length body) small

  drop_70 : drop 70 send_message_bytes ≡ body ++ rest
  drop_70 =
      drop-drop 66 4 send_message_bytes
      ∙ ap (drop 4) drop_66
      ∙ drop-append 4 (sms_long_to_byte (length body)) (body ++ rest) (length-long (length body))

  body-bytes : take (length body) (drop 70 send_message_bytes) ≡ body
  body-bytes = ap (take (length body)) drop_70 ∙ take-append (length body) body rest refl

  length-bytes : length send_message_bytes ≡ 70 + length body + length rest
  length-bytes = omega (
    arith,
    length-append (field 16 sender) (
        field 16 target
        ++ (field 16 fee
            ++ (fee_type ∷ sms_type ∷ (sms_long_to_byte (length body) ++ (body ++ rest))))),
    length-append (field 16 target) (
        field 16 fee ++ (fee_type ∷ sms_type ∷ (sms_long_to_byte (length body) ++ (body ++ rest)))),
    length-append (field 16 fee)
        (fee_type ∷ sms_type ∷ (sms_long_to_byte (length body) ++ (body ++ rest))),
    length-append (sms_long_to_byte (length body)) (body ++ rest),
    length-append body rest,
    length-field 16 sender,
    length-field 16 target,
    length-field 16 fee,
    length-long (length body),
  )

module _ (sv : Services) where
  two_answers :
      (s : Cp sv) (buf : List ℕ) (phone number : List ℕ)
      → get_or buf 0 0 ≡ 0
      → 70 + sm_body_length buf ≤ length buf
      → sv.malloc 18 ≡ true
      → sm_sender_no buf ≡ phone
      → sm_target_no buf ≡ number
      → do_message sv buf s
        ≡ done (record s {
          serial = ((s.serial + 1) % 2 ^ 32 + 1) % 2 ^ 32;
          net =
              sv.write
                (sv.write s.net (reply_bytes 1 (serial_no buf) s.serial 0))
                (reply_bytes 2 (serial_no buf) ((s.serial + 1) % 2 ^ 32) 0);
          disk = sv.write_sms s.disk phone number (formated_msg s.clock buf);
        })
  unfolding do_message do_send_error_msg then_send formated_msg
  two_answers s buf phone number sm fits memory sender target =
      let inside : ltb (length buf) (70 + sm_body_length buf) ≡ false = ground arith in
      let is_sm : (get_or buf 0 0 == 0) ≡ true = ground (arith, sm) in
      rw (is_sm, inside, memory, memory, sender, target) refl

  pub do_message-send_message_bytes :
      (s : Cp sv) (s0 s1 s2 s3 fee_type sms_type : ℕ) (sender target fee body rest : List ℕ)
      → IsText sender
      → IsText target
      → IsText fee
      → length body < 2 ^ 32
      → sv.malloc 18 ≡ true
      → (msg : SmsMessage) × (do_message sv
            (send_message_bytes s0 s1 s2 s3 fee_type sms_type sender target fee body rest)
            s
          ≡ done (record s {
            serial = ((s.serial + 1) % 2 ^ 32 + 1) % 2 ^ 32;
            net =
                sv.write
                  (sv.write s.net (reply_bytes 1 (s0 ∷ s1 ∷ s2 ∷ s3 ∷ []) s.serial 0))
                  (reply_bytes 2 (s0 ∷ s1 ∷ s2 ∷ s3 ∷ []) ((s.serial + 1) % 2 ^ 32) 0);
            disk = sv.write_sms s.disk (take 16 sender) (take 16 target) msg;
          }))
        × (msg.sender_number ≡ take 16 sender)
        × (msg.target_number ≡ take 16 target)
        × (msg.fee_target_number ≡ take 16 fee)
        × (msg.body ≡ body)
        × (msg.body_length ≡ length body)
  unfolding formated_msg
  do_message-send_message_bytes s s0 s1 s2 s3 fee_type sms_type sender target fee body rest
        sender_text target_text fee_text small memory =
      let buf : List ℕ =
        send_message_bytes s0 s1 s2 s3 fee_type sms_type sender target fee body rest in
      let size =
        sm_body_length-bytes s0 s1 s2 s3 fee_type sms_type sender target fee body rest small in
      let whole = length-bytes s0 s1 s2 s3 fee_type sms_type sender target fee body rest in
      let from =
        sm_sender_no-bytes s0 s1 s2 s3 fee_type sms_type sender target fee body rest sender_text in
      let to =
        sm_target_no-bytes s0 s1 s2 s3 fee_type sms_type sender target fee body rest target_text in
      let fits : 70 + sm_body_length buf ≤ length buf = omega arith in
      (
        formated_msg s.clock buf,
        two_answers s buf (take 16 sender) (take 16 target) refl fits memory from to,
        from,
        to,
        sm_fee_target_no-bytes s0 s1 s2 s3 fee_type sms_type sender target fee body rest fee_text,
        ap (λ (n : ℕ). take n (drop 70 buf)) size
            ∙ body-bytes s0 s1 s2 s3 fee_type sms_type sender target fee body rest,
        size,
      )
