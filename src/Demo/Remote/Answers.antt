-- ===== src/Demo/Remote/Answers.antt =====
-- How a process of the BBS learns the gateway's answer to its request.
use aka_smsd.Common.{
  ℕ, zero, suc, Bool-cases, inl, inr, ◌+◌, ◌%◌, ◌^◌, ◌≤◌, ◌<◌, ◌≡◌, refl, ap, ◌∙◌, arith, Bool,
  true, false, List, [], ◌∷◌, ◌++◌, ◌==◌, if◌then◌else◌, length,
}
use aka_smsd.Common.Int.{ℤ, pos, negsuc, leb_ℤ}
use aka_smsd.Common.Code
use aka_smsd.Wire.{Header, make_header, header_at, sms_long_to_byte, byte_to_long-long_to_byte}
use aka_smsd.Wire.Cmd
use aka_smsd.Client.{System, Client, received, connected}
use aka_smsd.Client.Receive.{fill, reply_by_type, plain_reply}
use aka_smsd.Client.Replies.{sms_read_some, sms_get_reply-header}
use aka_smsd.Gateway.World.{Env, Gw, done, bind_done, pure}
use aka_smsd.Gateway.Link.{do_reply, reply_bytes}
use aka_smsd.Gateway.Link.Errors.{do_send_msg-whole}
use aka_smsd.Gateway.Dispatch.{dispatch_type, dispatch_message, do_send}
use aka_smsd.Gateway.Dispatch.Guard.{dispatch_message-make_header}
use aka_smsd.Client.Frames.{packet, header_at-send_packet}
use aka_smsd.Demo.{wait_for_result}
use aka_smsd.Demo.Remote.{Signal, sigusr1, sigusr2, smsresult, Remote, process_remote, by_reply}

-- The signal for the result of an operation.
abbrev pub signal_for : ℕ → Signal
signal_for ret = if ret == Cmd.ok then sigusr1 else sigusr2

smsresult-signal_for :
    (ret : ℕ) → smsresult (signal_for ret) ≡ (if ret == Cmd.ok then pos 1 else negsuc 0)
smsresult-signal_for ret = elim (Bool-cases (ret == Cmd.ok)) [
  | inl fine ↦ rw fine refl
  | inr bad ↦ rw bad refl
]

-- One signal, in the second `at`.
abbrev pub signalled : ℕ → Signal → ℕ → ℤ
signalled at sig i = if i == at then smsresult sig else pos 0

-- Before the last second of the wait the signal is not missed.
wait_for_result-signalled :
    (seconds i at : ℕ) (sig : Signal)
    → i ≤ at
    → at < i + seconds
    → wait_for_result seconds i (signalled at sig) ≡ smsresult sig
unfolding wait_for_result
wait_for_result-signalled zero i at sig h k = absurd (omega arith)
wait_for_result-signalled (suc seconds) i at sigusr1 h k = elim (Bool-cases (i == at)) [
  | inl now ↦ rw now refl
  | inr later ↦
      rw later
        (wait_for_result-signalled seconds (suc i) at sigusr1 (ground (arith, later)) (omega arith))
]
wait_for_result-signalled (suc seconds) i at sigusr2 h k = elim (Bool-cases (i == at)) [
  | inl now ↦ rw now refl
  | inr later ↦
      rw later
        (wait_for_result-signalled seconds (suc i) at sigusr2 (ground (arith, later)) (omega arith))
]

-- The head of a reply, as the library reads it.
abbrev reply_head : ℕ → ℕ → ℕ → Header
reply_head ret serial pid = record {
  type = ret;
  serial_no = sms_long_to_byte serial;
  pid = sms_long_to_byte pid;
  msg_length = sms_long_to_byte 0;
}

module _ (sys : System) (r : Remote sys) (net : sys.Net) (head_stale stale : List ℕ)
    (can_open : Bool) (env : Env) (ret serial pid : ℕ) where
  reply_type :
      (h : Header)
      → h ≡ reply_head ret serial pid
      → 100 < ret
      → serial < 2 ^ 32
      → pid < 2 ^ 32
      → (c : Client sys) → reply_by_type sys h stale c ≡ (c, plain_reply serial pid ret)
  unfolding reply_by_type
  reply_type h same code serial_small pid_small c =
      let no_request : (ret == Cmd.request) ≡ false = ground arith in
      let no_message : (ret == Cmd.gw_send) ≡ false = ground arith in
      rw
        (
          same,
          no_request,
          no_message,
          byte_to_long-long_to_byte serial serial_small,
          byte_to_long-long_to_byte pid pid_small,
        )
        refl

  head_read :
      ret < 2 ^ 8
      → header_at
          (fill (reply_bytes env ret (sms_long_to_byte serial) (sms_long_to_byte pid)) head_stale)
        ≡ reply_head ret serial pid
  unfolding header_at sms_long_to_byte
  head_read byte = let whole : ret % 256 ≡ ret = omega arith in rw whole refl

  by_reply-plain :
      (r' : Remote sys)
      → 100 < ret
      → by_reply sys can_open r' (plain_reply serial pid ret)
        ≡ done (record r' { kills = r'.kills ++ (pid, signal_for ret) ∷ [] })
  unfolding by_reply
  by_reply-plain r' code = elim (Bool-cases (ret == Cmd.ok)) [
    | inl fine ↦ rw fine refl
    | inr bad ↦ ground (arith, bad)
  ]

  process_remote-reply_bytes :
      100 < ret
      → ret < 2 ^ 8
      → serial < 2 ^ 32
      → pid < 2 ^ 32
      → connected sys r.client ≡ true
      → leb_ℤ (pos 0) sys.no_return ≡ true
      → sys.read r.client.net 13
        ≡ (net, received (reply_bytes env ret (sms_long_to_byte serial) (sms_long_to_byte pid)))
      → process_remote sys head_stale stale can_open r
        ≡ done (record r {
          client = record r.client { net = net };
          kills = r.kills ++ (pid, signal_for ret) ∷ [];
        })
  unfolding process_remote
  process_remote-reply_bytes code byte serial_small pid_small up fine came =
      let bytes : List ℕ = reply_bytes env ret (sms_long_to_byte serial) (sms_long_to_byte pid) in
      let c : Client sys = record r.client { net = net } in
      let got =
        sms_get_reply-header sys r.client net net head_stale stale c bytes _ up fine
          (sms_read_some sys r.client net net head_stale stale 13 _ _ came) (head_read byte)
        ∙ reply_type (reply_head ret serial pid) refl code serial_small pid_small c in
      rw (got, process_remote) (by_reply-plain (record r { client = c }) code)

do_reply-whole :
    (env : Env) (to : Header) (ret : ℕ) (s : Gw env) (net : env.Net)
    → s.connected ≡ true
    → env.malloc 13 ≡ true
    → length (reply_bytes env ret to.serial_no to.pid) < 2 ^ 32
    → env.write s.net (reply_bytes env ret to.serial_no to.pid)
      ≡ (net, pos (length (reply_bytes env ret to.serial_no to.pid)))
    → do_reply env ret to s ≡ done (Code.success, record s { net = net })
unfolding do_reply
do_reply-whole env to ret s net up memory small written =
    rw memory
      (do_send_msg-whole env (reply_bytes env ret to.serial_no to.pid) s net up written small)

-- A request to send is answered with the result of `doSend`.
dispatch_type-do_send :
    (env : Env) (msg : List ℕ) (ret : ℕ) (s s1 s2 : Gw env)
    → do_send env msg s ≡ done (ret, s1)
    → do_reply env ret (header_at msg) s1 ≡ done (Code.success, s2)
    → dispatch_type env Cmd.bbs_send msg s ≡ done (pos 0, s2)
unfolding dispatch_type
dispatch_type-do_send env msg ret s s1 s2 sent replied =
    bind_done {env = env} (do_send env msg) _ s s1 ret sent
    ∙ bind_done {env = env} (do_reply env ret (header_at msg)) (λ sent. pure {env = env} (pos 0)) s1
        s2 Code.success replied

-- The answer to a request of a BBS. The gateway takes a packet of `sms_sendSMS` and comes in
-- `doSend` to a result: it answers with one packet, and when the daemon of the BBS reads that
-- packet it sends exactly one signal, to the process whose number stood in the request: SIGUSR1 for
-- the result OK, SIGUSR2 for any other. When the signal comes in one of the first 30 seconds of the
-- wait, `wait_for_result` of that process gives 1 for OK and -1 for any other result. This is so
-- for results above 100 that fit a byte, numbers below 2 ^ 32, a text whose packet is shorter than
-- 2 ^ 32 bytes, a connection that takes the answer whole, memory for it, and a value of `sms_read`
-- that is not negative.
pub wait_for_result-do_send :
    (env : Env) (sys : System) (serial pid user : ℕ) (user_id source target text : List ℕ)
    (s s1 : Gw env) (r : Remote sys) (head_stale stale : List ℕ) (can_open : Bool) (ret at : ℕ)
    (net : env.Net) (net' : sys.Net)
    → serial < 2 ^ 32
    → pid < 2 ^ 32
    → 69 + length text < 2 ^ 32
    → do_send env (packet serial pid user user_id source target (length text) text) s
      ≡ done (ret, s1)
    → 100 < ret
    → ret < 2 ^ 8
    → s1.connected ≡ true
    → env.malloc 13 ≡ true
    → env.write s1.net (reply_bytes env ret (sms_long_to_byte serial) (sms_long_to_byte pid))
      ≡ (net, pos 13)
    → connected sys r.client ≡ true
    → leb_ℤ (pos 0) sys.no_return ≡ true
    → sys.read r.client.net 13
      ≡ (net', received (reply_bytes env ret (sms_long_to_byte serial) (sms_long_to_byte pid)))
    → at < 30
    → (dispatch_message env
          (packet serial pid user user_id source target (length text) text)
          (69 + length text)
          s
        ≡ done (pos 0, record s1 { net = net }))
      × (process_remote sys head_stale stale can_open r
          ≡ done (record r {
            client = record r.client { net = net' };
            kills = r.kills ++ (pid, signal_for ret) ∷ [];
          }))
      × (wait_for_result 30 0 (signalled at (signal_for ret))
          ≡ (if ret == Cmd.ok then pos 1 else negsuc 0))
unfolding sms_long_to_byte
wait_for_result-do_send env sys serial pid user user_id source target text s s1 r head_stale stale
      can_open ret at net net' serial_small pid_small text_small sent code byte up memory written
      reading fine came soon =
    let msg : List ℕ = packet serial pid user user_id source target (length text) text in
    let head = header_at-send_packet serial pid user user_id source target (length text) text in
    let to : Header = make_header Cmd.bbs_send serial pid (56 + length text) in
    let replied = do_reply-whole env to ret s1 net up memory (omega arith) written in
    let answered =
      dispatch_message-make_header env s msg Cmd.bbs_send serial pid (56 + length text)
        (69 + length text) head (omega arith) (omega arith)
      ∙ dispatch_type-do_send env msg ret s s1 (record s1 { net = net }) sent
          (ap (λ (h : Header). do_reply env ret h s1) head ∙ replied) in
    (
      answered,
      process_remote-reply_bytes sys r net' head_stale stale can_open env ret serial pid code byte
          serial_small pid_small reading fine came,
      wait_for_result-signalled 30 0 at (signal_for ret) (omega arith) (omega arith)
          ∙ smsresult-signal_for ret,
    )
