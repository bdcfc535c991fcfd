-- ===== src/Operator/Dx18.antt =====
-- sms18dxprotocol.h and 18dx.h: CSMS18DXProtocol. `Send` sends a message to the operator and waits
-- for the answer; `OnAccept` takes a message of a phone from the operator.
pub mod Sending
pub mod Receiving
use aka_smsd.Common.{
  ℕ, ◌+◌, ◌%◌, ◌^◌, Bool, true, false, ◌||◌, List, [], ◌∷◌, ◌++◌, Option, none, some, ltb, leb,
  ◌==◌, if◌then◌else◌, length, take, drop,
}
use aka_smsd.Common.Int.{ℤ, pos, negsuc, leb_ℤ, to_unsigned, ◌==ℤ◌}
use aka_smsd.Common.Text.{codes, c_str, field}
use aka_smsd.Common.Code
use aka_smsd.Sms.{SmsMessage, sms_message_size}
use aka_smsd.Gateway.World.{Outcome, done, exited, fault}
use aka_smsd.Gateway.Message.{signed32}
use aka_smsd.Operator.Words.{word_bytes, read_word}

-- The stream, the storage and the log.
pub record Services : Type 1 where
  pub Net : Type 0
  pub Disk : Type 0
  pub Log : Type 0
  -- `!m_tcp` is the negation of `is_open`.
  pub is_open : Net → Bool
  pub open_stream : Net → Net
  pub close : Net → Net
  pub write : Net → List ℕ → Net × ℤ
  -- `read`, with the number of bytes asked for, which a peer may choose negative.
  pub read : Net → ℤ → Net × ℤ × List ℕ
  pub write_sms : Disk → List ℕ → List ℕ → SmsMessage → Disk × ℤ
  -- Whether `new char[…]` of this size gives memory; if not it throws.
  pub can_new : ℕ → Bool
  -- `logIt` of the message, delivered at this time.
  pub log_it : Log → SmsMessage → ℕ → Log

-- `blocked`: SIGUSR1 is blocked.
pub record Dx (sv : Services) : Type 0 where
  pub net : sv.Net
  pub disk : sv.Disk
  pub log : sv.Log
  pub blocked : Bool
  pub clock : ℕ

-- `OAKSREQSMZIXIASENDTEXT` and the text.
abbrev pub send_text_bytes : SmsMessage → List ℕ
send_text_bytes msg =
    word_bytes 512
    ++ (word_bytes (68 + msg.body_length)
        ++ (word_bytes 0
            ++ (word_bytes 1213242
                ++ (field 15 msg.fee_target_number
                    ++ (field 15 msg.target_number
                        ++ (word_bytes (to_unsigned 32 msg.fee_type)
                            ++ (word_bytes 0
                                ++ (word_bytes msg.body_length
                                    ++ (field 19 msg.sender_number ++ msg.body)))))))))

-- `header.dwResult` of the buffer of 16 bytes for the answer, of which some may not have been read.
abbrev pub ack_result : List ℕ → List ℕ → ℕ
ack_result garbage bytes = read_word (drop 8 (bytes ++ drop (length bytes) garbage))

-- OAKSERR_SM_INVALIDID, INVALIDSENDNO, INVALIDRECVNO, MSGTOOLENGTH, INVALIDMOBILENO, INVALIDSEND
-- and INVALIDMSGID.
abbrev pub is_refusal : ℕ → Bool
is_refusal result =
    result == 411
    || result == 412
    || result == 413
    || result == 417
    || result == 508
    || result == 525
    || result == 526

abbrev pub oaksbit_success : ℕ
oaksbit_success = 1

-- `OAKSREQTRANSFERMOINFO`
abbrev pub mo_info_size : ℕ
mo_info_size = 56

unfoldable pub mo_mobile_no : List ℕ → List ℕ
mo_mobile_no head = c_str (take 16 (drop 16 head))

-- `szSPCode + 4`
unfoldable pub mo_sp_code : List ℕ → List ℕ
mo_sp_code head = c_str (take 16 (drop 36 head))

unfoldable pub mo_len_msg : List ℕ → ℤ
mo_len_msg head = signed32 (read_word (drop 52 head))

-- `isMsgValid`, which takes every message.
unfoldable pub formated_msg : ℕ → List ℕ → List ℕ → ℕ → SmsMessage
formated_msg clock head buf len = record {
  length = sms_message_size + len;
  sender_number = mo_mobile_no head;
  target_number = mo_sp_code head;
  fee_type = pos 0;
  fee_target_number = [];
  child_code = [];
  parent_id = codes "18dx";
  sms_type = pos 0;
  send_time = clock;
  arrive_time = clock;
  service_code = [];
  fee_money = pos 0;
  body_length = len;
  body = take len buf;
}

module _ (sv : Services) where
  -- What is read for an answer: nothing where the call failed, and the stream is closed.
  unfoldable pub answer : List ℕ → sv.Net × ℤ × List ℕ → sv.Net × Option ℕ
  answer garbage (net, ret, bytes) =
      if Code.timeout ==ℤ ret
      then (sv.close net, none)
      else if leb_ℤ ret (pos 0)
      then (sv.close net, none)
      else (net, some (ack_result garbage bytes))

  unfoldable pub after_write : List ℕ → sv.Net × ℤ → sv.Net × Option ℕ
  unfolding answer
  after_write garbage (net, ret) =
      if leb_ℤ ret (pos 0)
      then answer garbage (net, ret, [])
      else answer garbage (sv.read net (pos 16))

  -- The packet and the answer to it; `garbage` is what is in the buffer before.
  unfoldable pub exchange : List ℕ → sv.Net → SmsMessage → sv.Net × Option ℕ
  unfolding after_write
  exchange garbage net msg = after_write garbage (sv.write net (send_text_bytes msg))

  -- The signals are unblocked on success only.
  unfoldable pub settle : Dx sv → SmsMessage → sv.Net × Option ℕ → ℤ × Dx sv
  settle s msg (net, none) = (Code.failed, record s { net = net; blocked = true })
  settle s msg (net, some result) =
      if result == oaksbit_success
      then (Code.success, record s { net = net; log = sv.log_it s.log msg s.clock })
      else if is_refusal result
      then (Code.error, record s { net = net; blocked = true })
      else (Code.failed, record s { net = net; blocked = true })

  -- With the packet in memory: `strcpy` into two fields of 16 bytes, from texts of up to 16
  -- characters and their end; `memcpy` goes beyond the block where its size has wrapped around.
  -- `exited`: `new` for the answer throws `bad_alloc`, and `Send` is left.
  unfoldable pub transfer : List ℕ → SmsMessage → Dx sv → Outcome (ℤ × Dx sv)
  unfolding exchange settle
  transfer garbage msg s =
      if leb 16 (length msg.fee_target_number) || leb 16 (length msg.target_number)
      then fault
      else if leb (2 ^ 32) (80 + msg.body_length)
      then fault
      else if sv.can_new 16
      then done (settle s msg (exchange garbage s.net msg))
      else exited

  -- `lenPack` is an `int`; `new` of a negative size throws, and so does one without memory.
  unfoldable pub send_open : List ℕ → SmsMessage → Dx sv → Outcome (ℤ × Dx sv)
  unfolding transfer
  send_open garbage msg s =
      let len_pack : ℕ = (80 + msg.body_length) % 2 ^ 32 in
      if leb (2 ^ 31) len_pack
      then exited
      else if sv.can_new len_pack
      then transfer garbage msg s
      else exited

  unfoldable pub opened : sv.Net → sv.Net
  opened net = if sv.is_open net then net else sv.open_stream net

  unfoldable pub send : List ℕ → SmsMessage → Dx sv → Outcome (ℤ × Dx sv)
  unfolding send_open
  send garbage msg s =
      if sv.is_open (opened s.net)
      then send_open garbage msg (record s { net = opened s.net })
      else done (Code.failed, record s { net = opened s.net })

  -- `isMsgValid` and the storage, whose answer is not looked at. A negative length is the size of a
  -- `memcpy`.
  unfoldable pub store : List ℕ → List ℕ → ℤ → Dx sv → Outcome (ℤ × Dx sv)
  store head buf (negsuc n) s = fault
  store head buf (pos len) s =
      let msg = formated_msg s.clock head buf len in
      done
        (pos 0, record s { disk = (sv.write_sms s.disk msg.sender_number msg.target_number msg).0 })

  unfoldable pub after_body : List ℕ → Dx sv → sv.Net × ℤ × List ℕ → Outcome (ℤ × Dx sv)
  unfolding store
  after_body head s (net, ret, buf) =
      if ltb 1000 (length buf)
      then fault
      else if leb_ℤ (mo_len_msg head) ret
      then store head buf (mo_len_msg head) (record s { net = net })
      else done (negsuc 0, record s { net = net })

  unfoldable pub after_head : Dx sv → sv.Net × ℤ × List ℕ → Outcome (ℤ × Dx sv)
  unfolding after_body
  after_head s (net, ret, head) =
      if leb_ℤ (pos mo_info_size) ret
      then after_body head (record s { net = net }) (sv.read net (mo_len_msg head))
      else done (negsuc 0, record s { net = net })

  unfoldable pub on_accept : Dx sv → Outcome (ℤ × Dx sv)
  unfolding after_head
  on_accept s = after_head s (sv.read s.net (pos mo_info_size))
