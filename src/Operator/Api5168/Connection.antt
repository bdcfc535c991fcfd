-- ===== src/Operator/Api5168/Connection.antt =====
-- What a lost connection means for the messages.
use aka_smsd.Common.{
  ℕ, zero, suc, ◌+◌, ◌≤◌, ◌≡◌, refl, ap, ◌∙◌, arith, true, false, ◌||◌, ltb, ◌==◌, ◌⊎◌,
}
use aka_smsd.Common.Code
use aka_smsd.Sms.{SmsMessage}
use aka_smsd.Gateway.World.{done}
use aka_smsd.Operator.Api5168.{
  Api, Gw5168, Resp, RoundEnd, again, lost, send, process, check_silence, after_active, keep_alive,
  after_recv, receive_once, receive,
}

module _ (api : Api) where
  check_silence-disconnected :
      (s : Gw5168 api) (now : ℕ)
      → s.connected ≡ false
      → (check_silence api s now).0.connected ≡ false
  unfolding check_silence
  check_silence-disconnected s now down = ground (arith, down)

  keep_alive-disconnected :
      (s : Gw5168 api) (now : ℕ) → s.connected ≡ false → (keep_alive api s now).0.connected ≡ false
  unfolding keep_alive after_active check_silence
  keep_alive-disconnected s now down = ground (arith, down)

  receive_once-disconnected :
      (s : Gw5168 api) → s.connected ≡ false → (receive_once api s).0.connected ≡ false
  unfolding receive_once after_recv process keep_alive after_active check_silence
  receive_once-disconnected s down = ground (arith, down)

  receive-disconnected :
      (n : ℕ) (s : Gw5168 api) → s.connected ≡ false → (receive api n s).0.connected ≡ false
  unfolding receive
  receive-disconnected zero s down = down
  receive-disconnected (suc n) s down =
      by_end (receive_once api s).1 refl
        (receive-disconnected n (receive_once api s).0 (receive_once-disconnected s down))
    where
      by_end :
          (end : RoundEnd)
          → (receive_once api s).1 ≡ end
          → (receive api n (receive_once api s).0).0.connected ≡ false
          → (receive api (suc n) s).0.connected ≡ false
      by_end lost e rest = rw (e, receive) (receive_once-disconnected s down)
      by_end again e rest = rw (e, receive) rest

  send-disconnected :
      (msg : SmsMessage) (s : Gw5168 api)
      → s.connected ≡ false
      → send api msg s ≡ done (s, Code.failed)
  unfolding send
  send-disconnected msg s down = rw down refl

  -- When `apiRecv` reports that a packet could not be received or that the network is gone (1 or
  -- 4), not more than 100,000 seconds after the last round without a packet and not more than
  -- 300,000 seconds after the last packet, the loop is not left: there is no new login. In this
  -- state and after any number of further rounds, whatever they receive, `Send` returns FAILED and
  -- changes nothing, for every message.
  pub receive_once-network_gone :
      (s : Gw5168 api) (world : api.World) (code : ℕ) (resp : Resp)
      → api.recv s.world ≡ (world, code, resp)
      → (code ≡ 1) ⊎ (code ≡ 4)
      → api.time world ≤ s.last_send_time + 100000
      → api.time world ≤ s.last_rcv_time + 300000
      → (s' : Gw5168 api) × (receive_once api s ≡ (s', again))
        × ((n : ℕ) (msg : SmsMessage)
            → send api msg (receive api n s').0 ≡ done ((receive api n s').0, Code.failed))
  unfolding receive_once after_recv keep_alive check_silence
  receive_once-network_gone s world code resp got gone recent silent =
      let not_zero : (code == 0) ≡ false = ground (arith, gone) in
      let is_gone : (code == 1 || code == 4) ≡ true = ground (arith, gone) in
      let quiet : ltb (s.last_send_time + 100000) (api.time world) ≡ false = ground arith in
      let short : ltb (s.last_rcv_time + 300000) (api.time world) ≡ false = ground arith in
      let s' : Gw5168 api = record s {
        connected = false;
        world = world;
        last_send_time = api.time world;
      } in
      (
        s',
        ap (after_recv api s) got ∙ rw (not_zero, is_gone, quiet, short) refl,
        λ n msg. send-disconnected msg (receive api n s').0 (receive-disconnected n s' refl),
      )
