-- ===== src/Tests/Sessions.antt =====
-- Logins and sessions at the sample gateway.
use aka_smsd.Common.{
  ℕ, ◌+◌, ◌*◌, ◌^◌, ◌/◌, ◌≤◌, ◌≡◌, ◌≢◌, refl, arith, true, false, List, [], ◌++◌, none, some, ◌⊎◌,
  ◌==◌, if◌then◌else◌, length, replicate,
}
use aka_smsd.Common.Int.{pos, ◌==ℤ◌}
use aka_smsd.Common.Code
use aka_smsd.Common.Text.{codes}
use aka_smsd.Common.Decimal.{atoi, skip_space, read_signed, read_digits}
use aka_smsd.Wire.{header_at, make_header, header_bytes, sms_long_to_byte}
use aka_smsd.Wire.Cmd
use aka_smsd.Gateway.World.{Env, Gw, done, fault, ◌>>=◌, pure}
use aka_smsd.Gateway.Login.{login_user}
use aka_smsd.Gateway.Login.Nets.{login_user_outcome}
use aka_smsd.Gateway.Dispatch.{dispatch_message}
use aka_smsd.Gateway.Session.{serve, serve_one, after_head, read_into}
use aka_smsd.Gateway.Session.Packet.{serve_one-packet, serve_one-overrun}
use aka_smsd.Tests.Sample.{sample, newsmth, bbs, confirmed, one_row, gateway}

-- 10.1.2.3 is in 10.0.0.0/8.
abbrev inside : ℕ
inside = 10 * 2 ^ 24 + 66051

mask_run : atoi (codes "8") ≡ pos 8
unfolding atoi skip_space read_signed read_digits
mask_run = refl

abbrev idle : Gw sample
idle = gateway (one_row confirmed)

login_user_outcome_example :
    ((inside / 2 ^ 24 ≡ 10 * 2 ^ 24 / 2 ^ 24)
      × (s' : Gw sample) × (login_user sample inside bbs (codes "secret") idle ≡ done (true, s'))
      × (s'.checker_code ≡ bbs)
      × (s'.child_code ≡ bbs)
      × (length bbs ≤ 4 → s'.checker_code ≡ s'.child_code)
      × (s'.default_money_limit ≡ newsmth.default_money_limit)
      × (s'.db ≡ idle.db))
    ⊎ ((inside / 2 ^ 24 ≢ 10 * 2 ^ 24 / 2 ^ 24)
        × (login_user sample inside bbs (codes "secret") idle ≡ done (false, idle)))
login_user_outcome_example =
    login_user_outcome sample idle inside bbs (codes "secret") newsmth [] (codes "10.0.0.0")
      (codes "8") (10 * 2 ^ 24) 8 refl refl (ground arith) (omega arith) refl mask_run (omega arith)
      (omega arith)

-- A stream that brings this header and this body.
abbrev talking : List ℕ → List ℕ → Env
talking head body = record sample {
  read = λ net size.
      if size == 13 then (net, pos (length head), head) else (net, pos (length body), body);
}

abbrev session : (head body : List ℕ) → Gw (talking head body)
session head body = record {
  connected = true;
  serial = 7;
  child_code = bbs;
  child_name = codes "newsmth";
  checker_code = bbs;
  default_money_limit = pos 100;
  request_list = [];
  blocked = false;
  clock = 1000;
  db = one_row confirmed;
  disk = ([], pos 0);
  net = ([], none);
}

abbrev unregister_head : List ℕ
unfolding sms_long_to_byte
unregister_head = header_bytes (make_header Cmd.unreg 5 6 31)

abbrev unregister_body : List ℕ
unregister_body = replicate 31 b'z'

serve_one-packet_example :
    serve_one (talking unregister_head unregister_body) [] (session unregister_head unregister_body)
    ≡ (dispatch_message
            (talking unregister_head unregister_body)
            (unregister_head ++ (unregister_body ++ []))
            44
          >>= λ ret. pure (
            if ret ==ℤ Code.quit then some (pos 0) else none,
            unregister_head ++ (unregister_body ++ []),
          ))
        (session unregister_head unregister_body)
unfolding header_at sms_long_to_byte unregister_head
serve_one-packet_example =
    serve_one-packet (talking unregister_head unregister_body)
      (session unregister_head unregister_body) ([], none) ([], none) unregister_head
      unregister_body [] Cmd.unreg 5 6 31 refl refl refl refl (omega arith) refl

abbrev huge_head : List ℕ
unfolding sms_long_to_byte
huge_head = header_bytes (make_header Cmd.bbs_send 5 6 1000)

abbrev huge_body : List ℕ
huge_body = replicate 1000 b'z'

serve_one-overrun_example :
    serve_one (talking huge_head huge_body) [] (session huge_head huge_body) ≡ fault
unfolding header_at sms_long_to_byte huge_head
serve_one-overrun_example =
    serve_one-overrun (talking huge_head huge_body) (session huge_head huge_body) ([], none)
      ([], none) huge_head huge_body [] Cmd.bbs_send 5 6 1000 (pos 1000) refl refl refl
      (omega arith) (omega arith) refl

-- The BBS closes the connection.
closed_run : serve (talking [] []) 1 [] (session [] []) ≡ done (some (pos 0), session [] [])
unfolding serve serve_one after_head read_into
closed_run = refl
