-- ===== src/Gateway/Bind/Answers.antt =====
-- What `doReplyRegisterRequest` does in each case.
use aka_smsd.Common.Int.{◌==ℤ◌}
use aka_smsd.Gateway.Bind.{text_for}
use aka_smsd.Common.{
  ℕ, ◌≡◌, refl, ap, sym, ◌∙◌, arith, true, List, [], ◌∷◌, Option, none, some, ◌⊎◌, inl, inr,
  Bool-cases, Option-cases, ◌==◌, length, ◌+◌, ◌%◌, ◌^◌,
}
use aka_smsd.Common.Int.{ℤ, pos}
use aka_smsd.Common.Code
use aka_smsd.Wire.Cmd
use aka_smsd.Sms.{SmsMessage}
use aka_smsd.Gateway.Billing.{key_of, write_to_storage, send_sms}
use aka_smsd.Gateway.Message.{generate_sms}
use aka_smsd.Gateway.Texts.{
  already_bound_text, bound_text, unbound_text, not_bound_text, no_id_text, other_mobile_text,
}
use aka_smsd.Gateway.Register.{do_register_sms, do_unregister_sms}
use aka_smsd.Gateway.Bind.{take_request, act_on_reply, notify, text_for, do_reply_register_request}
use aka_smsd.Gateway.Texts.Lengths.{
  IsShort, IsShortIfAny, bound_text-IsShort, already_bound_text-IsShort, unbound_text-IsShort,
  not_bound_text-IsShort, no_id_text-IsShort, other_mobile_text-IsShort,
}
use aka_smsd.Common.{subst, leb, false}
use aka_smsd.Gateway.World.{BindRequest, insert_row, delete_row, Env, Gw, done}

text_for-IsShortIfAny :
    (ret : ℤ) (a b : List ℕ) → IsShort a → IsShort b → IsShortIfAny (text_for ret a b)
text_for-IsShortIfAny ret a b h k = elim (Bool-cases (ret ==ℤ Code.error)) [
  | inl failed ↦ rw failed tt
  | inr ok ↦ elim (Bool-cases (ret ==ℤ Code.success)) [
    | inl changed ↦ rw (ok, changed) h
    | inr unchanged ↦ rw (ok, unchanged) k
  ]
]

module _ (env : Env) where
  -- An operation that only touches the database and the storage.
  abbrev IsSameProcess : Gw env → Gw env → Type 0
  IsSameProcess s s' = (s'.blocked ≡ s.blocked) × (s'.request_list ≡ s.request_list)

  do_register_sms_frame :
      (s : Gw env) (mobile id : List ℕ)
      → (ret : ℤ) × (s' : Gw env) × (do_register_sms env mobile id s ≡ done (ret, s'))
        × IsSameProcess s s'
  unfolding do_register_sms
  do_register_sms_frame s mobile id =
      elim (Option-cases (env.select s.db (key_of env s mobile id))) [
        | inl e ↦ (Code.failed, s, ground arith, (refl, refl))
        | inr (_ ∷ _, e) ↦ (Code.nosevereerror, s, ground arith, (refl, refl))
        | inr ([], e) ↦
            elim (Option-cases
              (env.exec s.db (insert_row (key_of env s mobile id) s.default_money_limit))) [
                | inl x ↦ (Code.failed, s, ground arith, (refl, refl))
                | inr (db', x) ↦ (Code.success, record s { db = db' }, ground arith, (refl, refl))
              ]
      ]

  do_unregister_sms_frame :
      (s : Gw env) (mobile id : List ℕ)
      → (ret : ℤ) × (s' : Gw env) × (do_unregister_sms env mobile id s ≡ done (ret, s'))
        × IsSameProcess s s'
  unfolding do_unregister_sms
  do_unregister_sms_frame s mobile id =
      elim (Option-cases (env.select s.db (key_of env s mobile id))) [
        | inl e ↦ (Code.failed, s, ground arith, (refl, refl))
        | inr ([], e) ↦ (Code.nosevereerror, s, ground arith, (refl, refl))
        | inr (_ ∷ _, e) ↦
            elim (Option-cases (env.exec s.db (delete_row (key_of env s mobile id)))) [
              | inl x ↦ (Code.failed, s, ground arith, (refl, refl))
              | inr (db', x) ↦ (Code.success, record s { db = db' }, ground arith, (refl, refl))
            ]
      ]

  act_on_reply_frame :
      (s : Gw env) (p : BindRequest) (n : ℕ)
      → (text : Option (List ℕ)) × (s' : Gw env) × (act_on_reply env p n s ≡ done (text, s'))
        × IsShortIfAny text
        × IsSameProcess s s'
  unfolding act_on_reply
  act_on_reply_frame s p n = elim (Bool-cases (n == 0)) [
    | inl agreed ↦ elim (Bool-cases (p.is_bind == Cmd.require_bind)) [
      | inl bind ↦
          let (ret, t, e, frame) = do_register_sms_frame s p.mobile_number p.user_id in
          (
            text_for ret (bound_text p.user_id) (already_bound_text p.user_id),
            t,
            ground (arith, agreed, bind, e),
            text_for-IsShortIfAny ret (bound_text p.user_id) (already_bound_text p.user_id)
                (bound_text-IsShort p.user_id) (already_bound_text-IsShort p.user_id),
            frame,
          )
      | inr unbind ↦
          let (ret, t, e, frame) = do_unregister_sms_frame s p.mobile_number p.user_id in
          (
            text_for ret (unbound_text p.user_id) (not_bound_text p.user_id),
            t,
            ground (arith, agreed, unbind, e),
            text_for-IsShortIfAny ret (unbound_text p.user_id) (not_bound_text p.user_id)
                (unbound_text-IsShort p.user_id) (not_bound_text-IsShort p.user_id),
            frame,
          )
    ]
    | inr refused ↦ elim (Bool-cases (n == 1)) [
      | inl unknown ↦ (
        some (no_id_text p.user_id),
        s,
        ground (arith, refused, unknown),
        no_id_text-IsShort p.user_id,
        (refl, refl),
      )
      | inr known ↦ elim (Bool-cases (n == 2)) [
        | inl other ↦ (
          some other_mobile_text,
          s,
          ground (arith, refused, known, other),
          other_mobile_text-IsShort,
          (refl, refl),
        )
        | inr failed ↦ (none, s, ground (arith, refused, known, failed), tt, (refl, refl))
      ]
    ]
  ]

  generate_sms_done :
      (s : Gw env) (mobile text : List ℕ)
      → IsShort text
      → ((n : ℕ) → env.malloc n ≡ true)
      → (sms : SmsMessage) × (generate_sms env 0 mobile mobile text (pos 6) s ≡ done (some sms, s))
  unfolding generate_sms
  generate_sms_done s mobile text short memory =
      let fits : leb (2 ^ 32) (180 + length text) ≡ false = ground (arith, short) in
      rw (memory ((180 + length text) % 2 ^ 32), fits) (_, refl)

  write_to_storage_frame :
      (s : Gw env) (sms : SmsMessage)
      → (ret : ℕ) × (s' : Gw env) × (write_to_storage env sms s ≡ done (ret, s'))
        × IsSameProcess s s'
  unfolding write_to_storage
  write_to_storage_frame s sms = (_, _, refl, (refl, refl))

  notify_frame :
      (s : Gw env) (p : BindRequest) (text : List ℕ)
      → IsShort text
      → ((n : ℕ) → env.malloc n ≡ true)
      → (s' : Gw env) × (notify env p text s ≡ done (Code.success, s')) × IsSameProcess s s'
  unfolding notify send_sms
  notify_frame s p text short memory =
      let (sms, made) = generate_sms_done s p.mobile_number text short memory in
      let (ret, t, e, frame) = write_to_storage_frame s sms in (t, ground (arith, made, e), frame)

  -- With memory for the message, `doReplyRegisterRequest` returns SUCCESS whatever the answer is
  -- and whatever fails. It either found no waiting request with this serial number, and then
  -- nothing has changed but that the signals stay blocked; or it took the first such request out of
  -- the list and left the signal mask as it was.
  pub do_reply_register_request_outcome :
      (s : Gw env) (is_succeed sn : ℕ)
      → ((n : ℕ) → env.malloc n ≡ true)
      → (s' : Gw env) × (do_reply_register_request env is_succeed sn s ≡ done (Code.success, s'))
        × (((take_request sn s.request_list ≡ none) × (s' ≡ record s { blocked = true }))
            ⊎ ((p : BindRequest) × (take_request sn s.request_list ≡ some (p, s'.request_list))
                × (s'.blocked ≡ s.blocked)))
  unfolding do_reply_register_request
  do_reply_register_request_outcome s is_succeed sn memory =
      elim (Option-cases (take_request sn s.request_list)) [
        | inl e ↦ (record s { blocked = true }, ground arith, inl (e, refl))
        | inr ((p, rest), e) ↦
            let (text, t, act, short, frame) =
              act_on_reply_frame (record s { request_list = rest }) p is_succeed in
            elim (Option-cases text) [
              | inl quiet ↦ (
                t,
                ground (arith, e, act, quiet),
                inr (p, e ∙ ap (λ (l : List BindRequest). some (p, l)) (sym frame.1), frame.0),
              )
              | inr (msg, loud) ↦
                  let (t', told, frame') =
                    notify_frame t p msg (subst IsShortIfAny loud short) memory in
                  (
                    t',
                    ground (arith, e, act, loud, told),
                    inr (
                      p,
                      e ∙ ap (λ (l : List BindRequest). some (p, l)) (sym (frame'.1 ∙ frame.1)),
                      frame'.0 ∙ frame.0,
                    ),
                  )
            ]
      ]

  -- While the database cannot be asked, the answer "this id agrees to be bound" to a waiting
  -- request to bind takes the request out of the list, and the phone is told that it is already
  -- bound; that is all. A failed registration returns FAILED, and the switch looks for ERROR.
  pub do_reply_register_request-database_error :
      (s : Gw env) (p : BindRequest) (rest : List BindRequest) (sn : ℕ)
      → take_request sn s.request_list ≡ some (p, rest)
      → p.is_bind ≡ Cmd.require_bind
      → env.select s.db (key_of env s p.mobile_number p.user_id) ≡ none
      → do_reply_register_request env 0 sn s
        ≡ notify env p (already_bound_text p.user_id) (record s { request_list = rest })
  unfolding do_reply_register_request act_on_reply do_register_sms
  do_reply_register_request-database_error s p rest sn e bind down = ground (arith, e, bind, down)
