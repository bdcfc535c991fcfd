-- ===== src/Operator/Api5168.antt =====
-- sms5168protocol.h: CSMS5168Protocol, over the operator's library of gw5168.h. `Run` logs in and
-- receives; `Send`, which the storage calls from a signal handler, submits a message.
pub mod Submission
pub mod Connection
use aka_smsd.Common.{
  ℕ, zero, suc, ◌+◌, ◌*◌, ◌%◌, ◌^◌, Bool, true, false, ◌||◌, List, [], ◌∷◌, ltb, ◌==◌,
  if◌then◌else◌, length, take,
}
use aka_smsd.Common.Int.{ℤ, pos, negsuc, leb_ℤ}
use aka_smsd.Common.Text.{codes, c_str}
use aka_smsd.Common.Code
use aka_smsd.Sms.{SmsMessage, sms_message_size}
use aka_smsd.Gateway.World.{Outcome, done, exited, fault}
use aka_smsd.Gateway.Message.{signed32}

-- `struct CResp`: the id of the command, and the members of the union that are read.
pub record Resp : Type 0 where
  pub cmd_id : ℕ
  pub login_result : ℕ
  pub mobile : List ℕ
  pub dst_num : List ℕ
  pub msg : List ℕ

-- The arguments of `apiSend` that vary.
pub record Submit : Type 0 where
  pub msg_id : ℕ
  pub mobile : List ℕ
  pub service_id : List ℕ
  pub src_term : List ℕ
  pub fee_term : List ℕ
  pub msg : List ℕ
  pub msg_len : ℕ

-- The library and the clock, which go on from call to call, the storage and the log.
pub record Api : Type 1 where
  pub World : Type 0
  pub Disk : Type 0
  pub Log : Type 0
  pub time : World → ℕ
  pub sleep : ℕ → World → World
  pub login : World → World × ℕ
  pub recv : World → World × ℕ × Resp
  pub send : World → Submit → World × ℕ
  pub active : World → World × ℕ
  pub stop : World → World
  pub write_sms : Disk → List ℕ → List ℕ → SmsMessage → Disk × ℤ
  pub log_it : Log → SmsMessage → ℕ → Log

pub record Gw5168 (api : Api) : Type 0 where
  pub connected : Bool
  pub last_rcv_time : ℕ
  pub last_send_time : ℕ
  pub serial : ℕ
  pub world : api.World
  pub disk : api.Disk
  pub log : api.Log

-- The last characters of a message are cut off. `len` is an `int`, made from a DWORD.
abbrev pub max_msg_len : ℕ
max_msg_len = 159

abbrev pub cut_len : ℤ → ℤ
cut_len len = if leb_ℤ len (pos max_msg_len) then len else pos max_msg_len

abbrev pub waittime : ℕ
waittime = 100000

-- `DELIVERY` of gw5168.h.
abbrev pub delivery : ℕ
delivery = 5

-- `convertMsgFormat`, which takes every message.
unfoldable pub convert_msg_format : ℕ → Resp → SmsMessage
convert_msg_format now resp = record {
  length = sms_message_size + length (c_str resp.msg);
  sender_number = take 16 (c_str resp.mobile);
  target_number = take 16 (c_str resp.dst_num);
  fee_type = pos 0;
  fee_target_number = [];
  child_code = [];
  parent_id = codes "5168";
  sms_type = pos 0;
  send_time = 0;
  arrive_time = now;
  service_code = [];
  fee_money = pos 0;
  body_length = length (c_str resp.msg);
  body = c_str resp.msg;
}

-- How a round of the loop over `apiRecv` ends.
pub data RoundEnd : Type 0 where
  again lost : RoundEnd

module _ (api : Api) where
  -- The constructor; the two times are not set before the first login.
  abbrev pub new_protocol : ℕ → ℕ → api.World → api.Disk → api.Log → Gw5168 api
  new_protocol rcv_garbage send_garbage world disk log = record {
    connected = false;
    last_rcv_time = rcv_garbage;
    last_send_time = send_garbage;
    serial = 0;
    world = world;
    disk = disk;
    log = log;
  }

  unfoldable pub submit_of : Gw5168 api → SmsMessage → ℕ → Submit
  submit_of s msg len = record {
    msg_id = s.serial;
    mobile = msg.target_number;
    service_id = msg.service_code;
    src_term = msg.sender_number;
    fee_term = msg.fee_target_number;
    msg = take len msg.body;
    msg_len = len;
  }

  unfoldable pub after_send : Gw5168 api → SmsMessage → api.World × ℕ → Gw5168 api × ℤ
  after_send s msg (world', ret_code) =
      let s' : Gw5168 api = record s { serial = (s.serial + 1) % 2 ^ 32; world = world' } in
      if ret_code == 0
      then (record s' { log = api.log_it s.log msg (api.time world') }, Code.success)
      else (s', Code.failed)

  -- A negative length is the size of a `memcpy`.
  unfoldable pub send_cut : SmsMessage → Gw5168 api → ℤ → Outcome (Gw5168 api × ℤ)
  unfolding submit_of after_send
  send_cut msg s (negsuc n) = fault
  send_cut msg s (pos len) = done (after_send s msg (api.send s.world (submit_of s msg len)))

  unfoldable pub send : SmsMessage → Gw5168 api → Outcome (Gw5168 api × ℤ)
  unfolding send_cut
  send msg s =
      if s.connected
      then send_cut msg s (cut_len (signed32 msg.body_length))
      else done (s, Code.failed)

  -- `process`; what the storage answers is not looked at.
  unfoldable pub process : Resp → Gw5168 api → Gw5168 api
  unfolding convert_msg_format
  process resp s =
      if resp.cmd_id == delivery
      then (let msg = convert_msg_format (api.time s.world) resp in
          record s { disk = (api.write_sms s.disk msg.sender_number msg.target_number msg).0 })
      else s

  -- One round of the loop of the login.
  unfoldable pub login_answer : Gw5168 api → api.World × ℕ × Resp → Gw5168 api × Bool
  login_answer s (world', ret_code, resp) =
      if ret_code == 0
      then if resp.login_result == 0
        then (record s { connected = true; world = world' }, true)
        else (record s { world = api.sleep 10 (api.stop world') }, false)
      else (record s { world = api.sleep 10 (api.stop world') }, false)

  unfoldable pub after_login : Gw5168 api → api.World × ℕ → Gw5168 api × Bool
  after_login s (world', ret_code) =
      if ret_code == 0
      then login_answer s (api.recv world')
      else (record s { world = api.sleep 10 (api.stop world') }, false)

  unfoldable pub login_once : Gw5168 api → Gw5168 api × Bool
  unfolding login_answer after_login
  login_once s = after_login s (api.login s.world)

  -- `OnNotify`, which passes the messages that wait to `Send`, one after the other.
  unfoldable pub send_all : List SmsMessage → Gw5168 api → Outcome (Gw5168 api)
  send_all [] s = done s
  send_all (msg ∷ msgs) s = elim (send msg s) [
    | done (s', _) ↦ send_all msgs s'
    | exited ↦ exited
    | fault ↦ fault
  ]

  unfoldable pub on_login : List SmsMessage → Gw5168 api → Outcome (Gw5168 api)
  unfolding send_all
  on_login waiting s =
      send_all waiting
        (record s { last_rcv_time = api.time s.world; last_send_time = api.time s.world })

  -- The end of a round in which nothing was received, after the keep-alive.
  unfoldable pub check_silence : Gw5168 api → ℕ → Gw5168 api × RoundEnd
  check_silence s now =
      if ltb (s.last_rcv_time + 3 * waittime) now
      then (record s { connected = false; last_send_time = api.time s.world }, lost)
      else (record s { last_send_time = api.time s.world }, again)

  unfoldable pub after_active : Gw5168 api → ℕ → api.World × ℕ → Gw5168 api × RoundEnd
  after_active s now (world', ret_code) =
      if ret_code == 0
      then check_silence (record s { world = world' }) now
      else (record s { connected = false; world = world' }, lost)

  unfoldable pub keep_alive : Gw5168 api → ℕ → Gw5168 api × RoundEnd
  unfolding check_silence after_active
  keep_alive s now =
      if ltb (s.last_send_time + waittime) now
      then after_active s now (api.active s.world)
      else check_silence s now

  -- The `break` of the cases 1 and 4 leaves the `switch` only.
  unfoldable pub after_recv : Gw5168 api → api.World × ℕ × Resp → Gw5168 api × RoundEnd
  unfolding process keep_alive
  after_recv s (world', ret_code, resp) =
      if ret_code == 0
      then (process resp (record s { world = world'; last_rcv_time = api.time world' }), again)
      else if ret_code == 1 || ret_code == 4
      then keep_alive (record s { world = world'; connected = false }) (api.time world')
      else keep_alive (record s { world = world' }) (api.time world')

  unfoldable pub receive_once : Gw5168 api → Gw5168 api × RoundEnd
  unfolding after_recv
  receive_once s = after_recv s (api.recv s.world)

  abbrev close_lost : Gw5168 api → Gw5168 api
  close_lost s = record s { world = api.stop s.world }

  -- At most this many rounds; the loop is left when the connection is given up.
  unfoldable pub receive : ℕ → Gw5168 api → Gw5168 api × RoundEnd
  unfolding receive_once
  receive zero s = (s, again)
  receive (suc rounds) s =
      let (s', end) = receive_once s in
      elim end [ lost ↦ (close_lost s', lost) | again ↦ receive rounds s' ]
