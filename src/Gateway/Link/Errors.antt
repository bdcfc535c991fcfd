-- ===== src/Gateway/Link/Errors.antt =====
-- What `doSendMsg` reports of a write.
use aka_smsd.Common.{
  Bool-cases, inl, inr, ℕ, ◌+◌, ◌-◌, ◌%◌, ◌^◌, ◌<◌, ◌≡◌, refl, arith, true, false, ltb,
  if◌then◌else◌, List, length,
}
use aka_smsd.Common.Int.{to_unsigned, ℤ, pos, negsuc, ◌==ℤ◌}
use aka_smsd.Common.Code
use aka_smsd.Gateway.Link.{do_send_msg}
use aka_smsd.Gateway.World.{Env, Gw, done}

module _ (env : Env) where
  abbrev pub sent : Gw env → List ℕ → Gw env
  sent s msg = record s {
    net = (env.write s.net msg).0;
    blocked = if (env.write s.net msg).1 ==ℤ Code.timeout then true else s.blocked;
  }

  -- `doSendMsg` always returns, and touches no table, no stored message and no waiting request.
  pub do_send_msg_frame :
      (s : Gw env) (msg : List ℕ)
      → (ret : ℤ) × (s' : Gw env) × (do_send_msg env msg s ≡ done (ret, s'))
        × (s'.db ≡ s.db)
        × (s'.disk ≡ s.disk)
        × (s'.request_list ≡ s.request_list)
  unfolding do_send_msg
  do_send_msg_frame s msg = elim (Bool-cases s.connected) [
    | inl up ↦ (
      if ltb (to_unsigned 32 (env.write s.net msg).1) (length msg)
          then Code.error
          else Code.success,
      sent s msg,
      ground (arith, up),
      refl,
      refl,
      refl,
    )
    | inr down ↦ (Code.error, s, ground (arith, down), refl, refl, refl)
  ]

  -- Every write that fails with a negative value, such as ERROR or TIMEOUT, is reported as SUCCESS
  -- by a connected process: the value is compared with the length as an unsigned number. This is so
  -- for every packet whose length plus the size of the negative value fits 32 bits.
  pub do_send_msg-masks_errors :
      (s : Gw env) (msg : List ℕ) (n : ℕ)
      → s.connected ≡ true
      → (env.write s.net msg).1 ≡ negsuc n
      → length msg + n < 2 ^ 32
      → (s' : Gw env) × (do_send_msg env msg s ≡ done (Code.success, s'))
  unfolding do_send_msg
  do_send_msg-masks_errors s msg n up failed small =
      let same : n % 2 ^ 32 ≡ n = omega arith in
      let not_less : ltb (2 ^ 32 - 1 - n % 2 ^ 32) (length msg) ≡ false = ground arith in
      (sent s msg, ground (arith, up, failed, not_less))

  -- When the write of a connected process returns a number below 2 ^ 32 that is not negative,
  -- `doSendMsg` reports ERROR if it is less than the packet's length and SUCCESS otherwise, and
  -- the signal mask is as before.
  pub do_send_msg-short_write :
      (s : Gw env) (msg : List ℕ) (n : ℕ)
      → s.connected ≡ true
      → (env.write s.net msg).1 ≡ pos n
      → n < 2 ^ 32
      → (s' : Gw env) × (do_send_msg env msg s
          ≡ done (if ltb n (length msg) then Code.error else Code.success, s'))
        × (s'.net ≡ (env.write s.net msg).0)
        × (s'.blocked ≡ s.blocked)
  unfolding do_send_msg
  do_send_msg-short_write s msg n up wrote small =
      let same : n % 2 ^ 32 ≡ n = omega arith in
      (sent s msg, ground (arith, up, wrote, same), refl, ground (arith, wrote))

  -- A packet that is written whole.
  pub do_send_msg-whole :
      (packet : List ℕ) (s : Gw env) (net : env.Net)
      → s.connected ≡ true
      → env.write s.net packet ≡ (net, pos (length packet))
      → length packet < 2 ^ 32
      → do_send_msg env packet s ≡ done (Code.success, record s { net = net })
  unfolding do_send_msg
  do_send_msg-whole packet s net up written small =
      let whole : ltb (length packet % 2 ^ 32) (length packet) ≡ false = ground arith in
      rw (up, written, whole) refl
