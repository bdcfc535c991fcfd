-- ===== src/Tests/Operators.antt =====
-- The protocols of the operators and the log, at concrete packets.
use aka_smsd.Common.{
  ℕ, ◌+◌, ◌%◌, ◌^◌, ◌<◌, ◌≡◌, refl, arith, true, false, List, [], ◌∷◌, ◌++◌, replicate, map, ◌⊎◌,
  inr, length, take, some,
}
use aka_smsd.Common.Int.{ℤ, pos}
use aka_smsd.Common.Text.{codes, strncpy}
use aka_smsd.Common.Code
use aka_smsd.Sms.{SmsMessage}
use aka_smsd.Gateway.World.{done}
use aka_smsd.Logger.{LocalTime, LogEntry, convert_date, replace_quote, direction, log_sql}
use aka_smsd.Logger.Literals.{outside, literals, literals-log_sql}
use aka_smsd.Operator.Dx18
use aka_smsd.Operator.Dx18.{Services, Dx}
use aka_smsd.Operator.Dx18.Sending.{answered, IsReported, send-IsReported}
use aka_smsd.Operator.Dx18.Receiving.{mo_info_bytes, on_accept-mo_info_bytes}
use aka_smsd.Operator.Api5168
use aka_smsd.Operator.Api5168.{Api, Gw5168, Resp, Submit, again}
use aka_smsd.Operator.Api5168.Submission.{send_lem}
use aka_smsd.Operator.Api5168.Connection.{receive_once-network_gone}
use aka_smsd.ChildProtocol
use aka_smsd.Operator.Simulator
use aka_smsd.Operator.Simulator.Messages.{on_accept-Arrives}
use aka_smsd.Tests.Sample.{phone, hello}

abbrev noon : ℕ → LocalTime
noon t = record { year = 2004; month = 7; day = 1; hour = 12; minute = 0; second = 5 }

abbrev entry : LogEntry
entry = record {
  source_no = codes "8842";
  target_no = phone;
  fee_target_no = phone;
  fee_type_id = pos 6;
  child_id = codes "88";
  parent_id = codes "58181888";
  send_time = 1000;
  deliver_time = 1001;
  content = codes "it's me";
  fee_money = pos 10;
  is_up = false;
}

literals-log_sql_example :
    literals outside (log_sql noon entry)
    ≡ codes "8842"
      ∷ phone
      ∷ phone
      ∷ codes "88"
      ∷ codes "58181888"
      ∷ convert_date (noon 1000)
      ∷ convert_date (noon 1001)
      ∷ map replace_quote (codes "it's me")
      ∷ direction false
      ∷ []
literals-log_sql_example =
    literals-log_sql noon entry (ground arith) (ground arith) (ground arith) (ground arith)
      (ground arith) (ground arith)

-- A stream that takes every packet, and then gives these bytes, call by call; a storage and a log
-- that keep what they get.
abbrev give : List (List ℕ) → List (List ℕ) × ℤ × List ℕ
give [] = ([], pos 0, [])
give (bytes ∷ net) = (net, pos (length bytes), bytes)

abbrev pub dx : Services
dx = record {
  Net = List (List ℕ);
  Disk = List SmsMessage;
  Log = List SmsMessage;
  is_open = λ net. true;
  open_stream = λ net. net;
  close = λ net. [];
  write = λ net packet. (net, pos (length packet));
  read = λ net size. give net;
  write_sms = λ disk from to msg. (disk ++ msg ∷ [], pos 0);
  can_new = λ size. true;
  log_it = λ log msg now. log ++ msg ∷ [];
}

abbrev pub dx_start : List (List ℕ) → Dx dx
dx_start net = record { net = net; disk = []; log = []; blocked = false; clock = 1000 }

-- The answer 411: the number is not valid.
abbrev refusal : List ℕ
refusal = 0 ∷ 2 ∷ 0 ∷ 128 ∷ 4 ∷ 0 ∷ 0 ∷ 0 ∷ 155 ∷ 1 ∷ 0 ∷ 0 ∷ 58 ∷ 131 ∷ 18 ∷ 0 ∷ []

send-IsReported_example :
    (ret : ℤ) × (s' : Dx dx) × (Dx18.send dx [] hello (dx_start (refusal ∷ [])) ≡ done (ret, s'))
    × (s'.net ≡ [])
    × (s'.disk ≡ [])
    × IsReported dx hello (dx_start (refusal ∷ [])) (some 411) ret s'
unfolding strncpy
send-IsReported_example =
    send-IsReported dx [] hello (dx_start (refusal ∷ [])) (some 411) [] refl (omega arith)
      (omega arith) (omega arith) (λ size. refl)
      (answered (refusal ∷ []) [] (84) 2147484160 4 411 1213242 refl refl (omega arith))

abbrev coming : List (List ℕ)
coming = mo_info_bytes phone (codes "5818") (codes "8842") 5 ∷ codes "hello" ∷ []

-- The head has 56 bytes.
head_run :
    dx.read coming (pos 56)
    ≡ (codes "hello" ∷ [], pos 56, mo_info_bytes phone (codes "5818") (codes "8842") 5)
unfolding strncpy
head_run = refl

on_accept-mo_info_bytes_example :
    (msg : SmsMessage) × (Dx18.on_accept dx (dx_start coming)
      ≡ done (pos 0, record (dx_start coming) { net = []; disk = msg ∷ [] }))
    × (msg.sender_number ≡ phone)
    × (msg.target_number ≡ codes "8842")
    × (msg.body_length ≡ 5)
    × (msg.body ≡ codes "hello")
on_accept-mo_info_bytes_example =
    on_accept-mo_info_bytes dx (dx_start coming) phone (codes "5818") (codes "8842") (codes "hello")
      (codes "hello" ∷ []) [] refl (omega arith) (omega arith) (omega arith) (omega arith)
      (omega arith) head_run refl

abbrev pieces_coming : List (List ℕ)
pieces_coming = mo_info_bytes phone (codes "5818") (codes "8842") 5 ∷ codes "he" ∷ codes "llo" ∷ []

pieces_run :
    dx.read pieces_coming (pos 56)
    ≡ (codes "he" ∷ codes "llo" ∷ [], pos 56, mo_info_bytes phone (codes "5818") (codes "8842") 5)
unfolding strncpy
pieces_run = refl

on_accept-Arrives_example :
    (msg : SmsMessage) × (Simulator.on_accept dx 2 (replicate 10000 0) (dx_start pieces_coming)
      ≡ ChildProtocol.done (record (dx_start pieces_coming) { net = []; disk = msg ∷ [] }))
    × (msg.sender_number ≡ phone)
    × (msg.target_number ≡ codes "8842")
    × (msg.body_length ≡ 5)
    × (msg.body ≡ codes "hello")
on_accept-Arrives_example =
    on_accept-Arrives dx (dx_start pieces_coming) phone (codes "5818") (codes "8842")
      (replicate 10000 0) (codes "he") (codes "llo" ∷ []) (codes "he" ∷ codes "llo" ∷ []) [] refl
      (omega arith) (omega arith) (omega arith) (omega arith) (omega arith) pieces_run
      (codes "llo" ∷ [], refl, omega arith, ([], refl, omega arith, refl))

-- A library whose clock is its state, which takes every message, and whose connection is gone.
abbrev no_resp : Resp
no_resp = record { cmd_id = 0; login_result = 0; mobile = []; dst_num = []; msg = [] }

abbrev gone : Api
gone = record {
  World = ℕ;
  Disk = List SmsMessage;
  Log = List SmsMessage;
  time = λ now. now;
  sleep = λ seconds now. now + seconds;
  login = λ now. (now, 0);
  recv = λ now. (now + 100, 4, no_resp);
  send = λ now sub. (now + 1, 0);
  active = λ now. (now, 0);
  stop = λ now. now;
  write_sms = λ disk from to msg. (disk ++ msg ∷ [], pos 0);
  log_it = λ log msg now. log ++ msg ∷ [];
}

abbrev online : Gw5168 gone
online = record {
  connected = true;
  last_rcv_time = 1000;
  last_send_time = 1000;
  serial = 7;
  world = 1000;
  disk = [];
  log = [];
}

send_lem_example :
    ((online.connected ≡ false) × (Api5168.send gone hello online ≡ done (online, Code.failed)))
    ⊎ ((online.connected ≡ true)
        × (sub : Submit) × (sub.msg_id ≡ 7)
        × (sub.src_term ≡ codes "8842")
        × (sub.mobile ≡ phone)
        × (sub.msg ≡ take 159 (codes "hello"))
        × (sub.msg_len ≡ length (take 159 (codes "hello")))
        × (ret : ℤ) × (s' : Gw5168 gone) × (Api5168.send gone hello online ≡ done (s', ret))
        × (s'.world ≡ 1001)
        × (s'.serial ≡ 8 % 2 ^ 32)
        × (s'.disk ≡ [])
        × (((ret ≡ Code.success) × (◌≡◌ {A = ℕ} 0 0) × (s'.log ≡ hello ∷ []))
            ⊎ ((ret ≡ Code.failed) × (0 < 0) × (s'.log ≡ []))))
send_lem_example = send_lem gone hello online refl (omega arith)

receive_once-network_gone_example :
    (s' : Gw5168 gone) × (Api5168.receive_once gone online ≡ (s', again))
    × ((n : ℕ) (msg : SmsMessage)
        → Api5168.send gone msg (Api5168.receive gone n s').0
          ≡ done ((Api5168.receive gone n s').0, Code.failed))
receive_once-network_gone_example =
    receive_once-network_gone gone online 1100 4 no_resp refl (inr refl) (omega arith) (omega arith)
