-- ===== src/Gateway/Bind.antt =====
-- Binding on request of a phone: the gateway asks the BBS (`doSendRegisterMsg`), remembers the
-- request under its serial number, and acts on the answer (`doReplyRegisterRequest`).
pub mod Replies
pub mod Answers
use aka_smsd.Common.{
  ℕ, Bool, true, false, List, [], ◌∷◌, ◌++◌, Option, none, some, ◌==◌, if◌then◌else◌,
}
use aka_smsd.Common.Int.{ℤ, pos, ◌==ℤ◌}
use aka_smsd.Common.Text.{field}
use aka_smsd.Common.Code
use aka_smsd.Wire.{make_header, header_bytes}
use aka_smsd.Wire.Cmd
use aka_smsd.Gateway.Texts.{
  bound_text, already_bound_text, unbound_text, not_bound_text, no_id_text, other_mobile_text,
}
use aka_smsd.Gateway.Message.{generate_sms}
use aka_smsd.Gateway.Billing.{send_sms}
use aka_smsd.Gateway.Link.{get_serial, do_send_msg}
use aka_smsd.Gateway.Register.{do_register_sms, do_unregister_sms}
use aka_smsd.Gateway.World.{
  BindRequest, Env, Gw, Outcome, done, exited, fault, M, ◌>>=◌, ◌>>◌, pure, get, put, exit,
}

-- `SMS_BBS_BINDREQUESTPACKET`: 13 bytes of header and 32 of body.
abbrev pub bind_request_bytes : BindRequest → List ℕ
bind_request_bytes r =
    header_bytes (make_header Cmd.request r.sn 0 32)
    ++ (field Cmd.id_len r.user_id
        ++ (field Cmd.mobile_number_length r.mobile_number ++ r.is_bind ∷ []))

-- The first request with this serial number, and the list without it.
unfoldable pub take_request : ℕ → List BindRequest → Option (BindRequest × List BindRequest)
take_request sn [] = none
take_request sn (p ∷ ps) =
    let rest = take_request sn ps in
    if p.sn == sn then some (p, ps) else elim rest [ none ↦ none | some (q, qs) ↦ some (q, p ∷ qs) ]

-- What a list of options of the switch gives: the text to send, or `none` to return at once.
abbrev pub text_for : ℤ → List ℕ → List ℕ → Option (List ℕ)
text_for ret changed unchanged =
    if ret ==ℤ Code.error
    then none
    else if ret ==ℤ Code.success
    then some changed
    else some unchanged

module _ (env : Env) where
  unfoldable pub do_send_register_msg : List ℕ → List ℕ → ℕ → M env ℤ
  unfolding get_serial do_send_msg
  do_send_register_msg mobile_number usr_id is_bind = do
    sn ← get_serial env
    let request : BindRequest = record {
      sn = sn;
      user_id = usr_id;
      mobile_number = mobile_number;
      is_bind = is_bind;
    }
    s ← get
    put (record s { request_list = s.request_list ++ request ∷ [] })
    do_send_msg env (bind_request_bytes request)

  -- switch(isSucceed)
  unfoldable pub act_on_reply : BindRequest → ℕ → M env (Option (List ℕ))
  act_on_reply p is_succeed =
      if is_succeed == 0
      then if p.is_bind == Cmd.require_bind
        then (do
          ret ← do_register_sms env p.mobile_number p.user_id
          pure (text_for ret (bound_text p.user_id) (already_bound_text p.user_id)))
        else (do
          ret ← do_unregister_sms env p.mobile_number p.user_id
          pure (text_for ret (unbound_text p.user_id) (not_bound_text p.user_id)))
      else if is_succeed == 1
      then pure (some (no_id_text p.user_id))
      else if is_succeed == 2
      then pure (some other_mobile_text)
      else pure none

  -- generateSMS, and sendSMS with SEND_NO_CHECK; what it returns is not looked at.
  unfoldable pub notify : BindRequest → List ℕ → M env ℤ
  notify p msg = do
    made ← generate_sms env 0 p.mobile_number p.mobile_number msg (pos 6)
    elim made [
      | none ↦ exit
      | some sms ↦ do sent ← send_sms env sms (some p.user_id) false; pure Code.success
    ]

  -- An answer to no request returns with SIGUSR1 and SIGUSR2 blocked.
  unfoldable pub do_reply_register_request : ℕ → ℕ → M env ℤ
  unfolding take_request act_on_reply notify
  do_reply_register_request is_succeed sms_serial_no s =
      elim (take_request sms_serial_no s.request_list) [
        | none ↦ done (Code.success, record s { blocked = true })
        | some (p, rest) ↦
            (do
              text ← act_on_reply p is_succeed
              elim text [ none ↦ pure Code.success | some msg ↦ notify p msg ])
              (record s { request_list = rest })
      ]
