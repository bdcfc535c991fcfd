-- ===== src/Client/Calls.antt =====
-- A packet of the library, dispatched by the gateway, is the call that it stands for.
use aka_smsd.Common.{
  ℕ, ◌+◌, ◌^◌, ◌<◌, ◌≡◌, refl, arith, List, ◌++◌, length, length-append, take, take-append, false,
  ltb, if◌then◌else◌,
}
use aka_smsd.Common.Int.{ℤ, pos, ◌==ℤ◌}
use aka_smsd.Common.Text.{IsText}
use mathlib.Core.Path.{fun_ext}
use aka_smsd.Wire.{make_header, byte_to_long-long_to_byte}
use aka_smsd.Wire.Cmd
use aka_smsd.Client.{register_packet, check_packet, unregister_packet, reply_packet}
use aka_smsd.Client.Frames.{
  packet, header_at-register_packet, header_at-unregister_packet, header_at-check_packet,
  header_at-reply_packet, packet_mobile_no-register_packet, packet_user_id-register_packet,
  packet_mobile_no-unregister_packet, packet_user_id-unregister_packet,
  packet_mobile_no-check_packet, packet_user_id-check_packet, packet_validate_no-check_packet,
  reply_is_succeed-reply_packet, send_user_id-send_packet, send_src_mobile_no-send_packet,
  send_src_user_id-send_packet, send_dst_mobile_no-send_packet, send_msg_txt_len-send_packet,
  send_msg_txt-send_packet, length-packet,
}
use aka_smsd.Gateway.Message.{generate_sms, convert_sms}
use aka_smsd.Gateway.Register.{do_send_register_sms, do_register_validation, do_unregister}
use aka_smsd.Gateway.Bind.{do_reply_register_request}
use aka_smsd.Gateway.Dispatch.{
  reply_with, dispatch_type, dispatch_message, can_send_sms, send_made, do_send,
}
use aka_smsd.Gateway.Dispatch.Guard.{dispatch_message-make_header}
use aka_smsd.Gateway.World.{Env, Gw, ◌>>=◌, pure}

module _ (env : Env) (s : Gw env) (serial pid : ℕ) (mobile user_id rest : List ℕ) where
  -- For texts without a zero byte: what `sms_sendRegisterNumber` writes makes the gateway call
  -- `doSendRegisterSMS` with the phone and the id that were given, cut to 16 and 13 characters,
  -- and reply to the packet's serial number and pid.
  pub dispatch_message-register_packet :
      IsText mobile
      → IsText user_id
      → dispatch_message env (register_packet serial pid mobile user_id ++ rest) 44 s
        ≡ reply_with env
            (make_header Cmd.reg serial pid 31)
            (do_send_register_sms env (take 16 mobile) (take 13 user_id))
            s
  unfolding dispatch_type
  dispatch_message-register_packet h k =
      rw
        (
          dispatch_message-make_header env s _ Cmd.reg serial pid 31 44
              (header_at-register_packet serial pid mobile user_id rest) refl (omega arith),
          dispatch_type,
          header_at-register_packet serial pid mobile user_id rest,
          packet_mobile_no-register_packet serial pid mobile user_id rest h,
          packet_user_id-register_packet serial pid mobile user_id rest k,
        )
        refl

  -- For texts without a zero byte: what `sms_unRegister` writes makes the gateway call
  -- `doUnregister` with the phone and the id that were given, cut to 16 and 13 characters, and
  -- reply to the packet's serial number and pid.
  pub dispatch_message-unregister_packet :
      IsText mobile
      → IsText user_id
      → dispatch_message env (unregister_packet serial pid mobile user_id ++ rest) 44 s
        ≡ reply_with env
            (make_header Cmd.unreg serial pid 31)
            (do_unregister env (take 16 mobile) (take 13 user_id))
            s
  unfolding dispatch_type
  dispatch_message-unregister_packet h k =
      rw
        (
          dispatch_message-make_header env s _ Cmd.unreg serial pid 31 44
              (header_at-unregister_packet serial pid mobile user_id rest) refl (omega arith),
          dispatch_type,
          header_at-unregister_packet serial pid mobile user_id rest,
          packet_mobile_no-unregister_packet serial pid mobile user_id rest h,
          packet_user_id-unregister_packet serial pid mobile user_id rest k,
        )
        refl

  -- For texts without a zero byte: what `sms_checkRegisterNumber` writes makes the gateway call
  -- `doRegisterValidation` with the phone, the id and the code that were given, cut to 16, 13 and
  -- 6 characters, and reply to the packet's serial number and pid.
  pub dispatch_message-check_packet :
      (code : List ℕ)
      → IsText mobile
      → IsText user_id
      → IsText code
      → dispatch_message env (check_packet serial pid mobile user_id code ++ rest) 51 s
        ≡ reply_with env
            (make_header Cmd.check serial pid 38)
            (do_register_validation env (take 16 mobile) (take 13 user_id) (take 6 code))
            s
  unfolding dispatch_type
  dispatch_message-check_packet code h k l =
      rw
        (
          dispatch_message-make_header env s _ Cmd.check serial pid 38 51
              (header_at-check_packet serial pid mobile user_id code rest) refl (omega arith),
          dispatch_type,
          header_at-check_packet serial pid mobile user_id code rest,
          packet_mobile_no-check_packet serial pid mobile user_id code rest h,
          packet_user_id-check_packet serial pid mobile user_id code rest k,
          packet_validate_no-check_packet serial pid mobile user_id code rest l,
        )
        refl

module _ (env : Env) (s : Gw env) (serial pid : ℕ) where
  -- For a serial number below 2 ^ 32 and 16 bytes that are left as they were: what
  -- `sms_replyGWRegister` writes reaches the gateway as the answer 1 for any value but 0, and as
  -- the answer 0 for 0.
  pub dispatch_message-reply_packet :
      (is_succeed : ℤ) (stale rest : List ℕ)
      → serial < 2 ^ 32
      → length stale ≡ 16
      → dispatch_message env (reply_packet serial pid is_succeed stale ++ rest) 31 s
        ≡ (do_reply_register_request env (if is_succeed ==ℤ pos 0 then 0 else 1) serial >>= λ ret.
              pure (pos 0))
            s
  unfolding dispatch_type
  dispatch_message-reply_packet is_succeed stale rest small h =
      rw
        (
          dispatch_message-make_header env s _ Cmd.request_reply serial pid 18 31
              (header_at-reply_packet serial pid is_succeed stale rest) refl (omega arith),
          dispatch_type,
          header_at-reply_packet serial pid is_succeed stale rest,
          byte_to_long-long_to_byte serial small,
          reply_is_succeed-reply_packet serial pid is_succeed stale rest h,
        )
        refl

  convert_sms-send_packet :
      (user_code : ℕ) (user_id source target content rest : List ℕ)
      → user_code < 2 ^ 32
      → length content < 2 ^ 32
      → IsText source
      → IsText target
      → convert_sms env
          (packet serial pid user_code user_id source target (length content) (content ++ rest))
        ≡ generate_sms env user_code (take 16 target) (take 16 source) content (pos 6)
  unfolding convert_sms
  convert_sms-send_packet user_code user_id source target content rest small short k l =
      let len : ℕ = length content in
      let m = packet serial pid user_code user_id source target len (content ++ rest) in
      let fits : ltb (length m) (69 + len) ≡ false = ground (
        arith,
        length-packet serial pid user_code user_id source target len (content ++ rest),
        length-append content rest,
      ) in
      fun_ext λ t.
        rw
          (
            send_msg_txt_len-send_packet serial pid user_code user_id source target len
                (content ++ rest) short,
            fits,
            send_user_id-send_packet serial pid user_code user_id source target len
                (content ++ rest) small,
            send_dst_mobile_no-send_packet serial pid user_code user_id source target len
                (content ++ rest) l,
            send_src_mobile_no-send_packet serial pid user_code user_id source target len
                (content ++ rest) k,
            send_msg_txt-send_packet serial pid user_code user_id source target len
                (content ++ rest),
            take-append len content rest refl,
          )
          refl

  -- For a user number and a text length below 2 ^ 32 and texts without a zero byte: what
  -- `sms_sendSMS` writes in its two writes is, at the gateway, the call of `sendSMS` for the
  -- message that `generateSMS` makes of the user's number, which with the code of the BBS is its
  -- sender, of the target, of the source phone, which pays, and of the text that was given, if the
  -- source phone and the id, cut to 16 and 13 characters, are confirmed. Otherwise the call is
  -- refused. For a text that comes with the struct to 2 ^ 32 bytes `generateSMS` is a fault.
  pub do_send-send_packet :
      (user_code : ℕ) (user_id source target content rest : List ℕ)
      → user_code < 2 ^ 32
      → length content < 2 ^ 32
      → IsText user_id
      → IsText source
      → IsText target
      → do_send env
          (packet serial pid user_code user_id source target (length content) (content ++ rest))
          s
        ≡ (do
          allowed ← can_send_sms env (take 16 source) (take 13 user_id)
          if allowed
              then (do
                made ← generate_sms env user_code (take 16 target) (take 16 source) content (pos 6)
                send_made env (take 13 user_id) made)
              else pure Cmd.sms_validate_failed)
            s
  unfolding do_send
  do_send-send_packet user_code user_id source target content rest small short h k l =
      rw
        (
          send_src_mobile_no-send_packet serial pid user_code user_id source target _
              (content ++ rest) k,
          send_src_user_id-send_packet serial pid user_code user_id source target _
              (content ++ rest) h,
          convert_sms-send_packet user_code user_id source target content rest small short k l,
        )
        refl
