-- ===== src/Operator/Api5168/Submission.antt =====
-- What `Send` submits and reports.
use aka_smsd.Common.{
  ℕ, ◌+◌, ◌%◌, ◌^◌, ◌<◌, ◌≤◌, ◌≡◌, refl, sym, ap, ◌∙◌, arith, List, true, false, ltb, ◌==◌, length,
  take, take_all, length-take, ◌⊎◌, inl, inr, Bool-cases,
}
use aka_smsd.Common.Int.{ℤ, pos, leb_ℤ}
use aka_smsd.Common.Code
use aka_smsd.Sms.{SmsMessage}
use aka_smsd.Gateway.World.{done}
use aka_smsd.Gateway.Message.{signed32}
use aka_smsd.Operator.Api5168.{Api, Gw5168, Submit, cut_len, submit_of, after_send, send_cut, send}

short_lem : (n : ℕ) → leb_ℤ (pos n) (pos 159) ≡ true → n ≤ 159
short_lem n h = ground (arith, h)

long_lem : (n : ℕ) → leb_ℤ (pos n) (pos 159) ≡ false → 159 < n
long_lem n h = ground (arith, h)

cut_lem :
    (l : List ℕ) (n : ℕ)
    → length l ≡ n
    → n < 2 ^ 31
    → (len : ℕ) × (cut_len (signed32 n) ≡ pos len)
      × (take len l ≡ take 159 l)
      × (len ≡ length (take 159 l))
cut_lem l n size small =
    let positive : ltb n (2 ^ 31) ≡ true = ground arith in
    elim (Bool-cases (leb_ℤ (pos n) (pos 159))) [
      | inl short ↦
          let all : take 159 l ≡ l = take_all 159 l (omega (arith, size, short_lem n short)) in
          let self : take n l ≡ l = take_all n l (omega (arith, size)) in
          (n, rw (positive, short) refl, self ∙ sym all, sym size ∙ ap length (sym all))
      | inr long ↦ (
        159,
        rw (positive, long) refl,
        refl,
        omega (arith, length-take 159 l, long_lem n long, size),
      )
    ]

module _ (api : Api) where
  -- Before the login `Send` returns FAILED and changes nothing. After it, for a message whose body
  -- has its length and less than 2^31 bytes, `Send` calls `apiSend` once: under the next serial
  -- number, from and to the message's numbers, with the first 159 bytes of the body and their
  -- number. It returns SUCCESS and logs the message exactly when the library returns 0, and FAILED
  -- otherwise; either way the serial number goes on by one, and the storage is as before.
  pub send_lem :
      (msg : SmsMessage) (s : Gw5168 api)
      → length msg.body ≡ msg.body_length
      → msg.body_length < 2 ^ 31
      → ((s.connected ≡ false) × (send api msg s ≡ done (s, Code.failed)))
        ⊎ ((s.connected ≡ true)
            × (sub : Submit) × (sub.msg_id ≡ s.serial)
            × (sub.src_term ≡ msg.sender_number)
            × (sub.mobile ≡ msg.target_number)
            × (sub.msg ≡ take 159 msg.body)
            × (sub.msg_len ≡ length (take 159 msg.body))
            × (ret : ℤ) × (s' : Gw5168 api) × (send api msg s ≡ done (s', ret))
            × (s'.world ≡ (api.send s.world sub).0)
            × (s'.serial ≡ (s.serial + 1) % 2 ^ 32)
            × (s'.disk ≡ s.disk)
            × (((ret ≡ Code.success)
                  × ((api.send s.world sub).1 ≡ 0)
                  × (s'.log ≡ api.log_it s.log msg (api.time s'.world)))
                ⊎ ((ret ≡ Code.failed) × (0 < (api.send s.world sub).1) × (s'.log ≡ s.log))))
  unfolding send send_cut after_send submit_of
  send_lem msg s whole small = elim (Bool-cases s.connected) [
    | inr down ↦ inl (down, rw down refl)
    | inl up ↦
        let (len, cut, text, size) = cut_lem msg.body msg.body_length whole small in
        let sub : Submit = submit_of api s msg len in
        let world : api.World = (api.send s.world sub).0 in
        let s1 : Gw5168 api = record s { serial = (s.serial + 1) % 2 ^ 32; world = world } in
        elim (Bool-cases ((api.send s.world (submit_of api s msg len)).1 == 0)) [
          | inl sent ↦ inr (
            up,
            submit_of api s msg len,
            refl,
            refl,
            refl,
            text,
            size,
            Code.success,
            record s1 { log = api.log_it s.log msg (api.time world) },
            rw (up, cut, sent) refl,
            refl,
            refl,
            refl,
            inl (refl, ground (arith, sent), refl),
          )
          | inr refused ↦ inr (
            up,
            submit_of api s msg len,
            refl,
            refl,
            refl,
            text,
            size,
            Code.failed,
            s1,
            rw (up, cut, refused) refl,
            refl,
            refl,
            refl,
            inr (refl, ground (arith, refused), refl),
          )
        ]
  ]
