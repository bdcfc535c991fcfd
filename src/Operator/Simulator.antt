-- ===== src/Operator/Simulator.antt =====
-- smstestchildprotocol.h: CSMSTestProtocol, which takes messages of phones as CSMS18DXProtocol
-- does, from a driver in place of the operator. The text may come in pieces.
pub mod Pieces
pub mod Messages
use aka_smsd.Common.{
  ℕ, zero, suc, ◌+◌, ◌-◌, ◌%◌, ◌^◌, Bool, true, false, not, ◌||◌, List, [], ◌∷◌, ◌++◌, ltb, ◌==◌,
  if◌then◌else◌, length, take, drop,
}
use aka_smsd.Common.Int.{ℤ, pos, to_unsigned}
use aka_smsd.Common.Text.{codes}
use aka_smsd.Sms.{SmsMessage, sms_message_size}
use aka_smsd.Gateway.Message.{signed32}
use aka_smsd.ChildProtocol.{Run, done, waiting, fault}
use aka_smsd.Operator.Words.{read_word}
use aka_smsd.Operator.Dx18.{Services, Dx, mo_info_size, mo_mobile_no, mo_sp_code}

-- The bytes of a `read` that are written into a buffer.
abbrev pub overwrite : ℕ → List ℕ → List ℕ → List ℕ
overwrite zero [] buf = buf
overwrite zero (x ∷ bytes) [] = x ∷ overwrite zero bytes []
overwrite zero (x ∷ bytes) (b ∷ buf) = x ∷ overwrite zero bytes buf
overwrite (suc n) bytes [] = []
overwrite (suc n) bytes (b ∷ buf) = b ∷ overwrite n bytes buf

-- Whether bytes at this offset go over the end of the 10000 bytes of `msg`.
abbrev pub is_outside : ℕ → List ℕ → Bool
is_outside offset [] = false
is_outside offset (b ∷ bytes) = ltb 10000 (offset + length (b ∷ bytes))

-- `nLenMsg`, as the unsigned number that it is assigned to.
unfoldable pub text_length : List ℕ → ℕ
text_length buf = read_word (drop 52 buf)

-- `isMsgValid`, which takes every message.
unfoldable pub test_msg : ℕ → List ℕ → SmsMessage
unfolding text_length
test_msg clock buf = record {
  length = (sms_message_size + text_length buf) % 2 ^ 32;
  sender_number = mo_mobile_no buf;
  target_number = mo_sp_code buf;
  fee_type = pos 0;
  fee_target_number = [];
  child_code = [];
  parent_id = codes "58181888";
  sms_type = pos 0;
  send_time = clock;
  arrive_time = 0;
  service_code = [];
  fee_money = pos 0;
  body_length = text_length buf;
  body = take (text_length buf) (drop mo_info_size buf);
}

module _ (sv : Services) where
  -- `i`, `len` and `l` are unsigned, so no test for a negative number holds; `l` is made an `int`
  -- again where it is the size of a `read`.
  unfoldable pub read_text : ℕ → ℕ → ℕ → List ℕ → sv.Net → Run (List ℕ × sv.Net)
  read_text zero len l buf net = waiting
  read_text (suc rounds) len l buf net =
      let (net', ret, bytes) = sv.read net (signed32 l) in
      let i = to_unsigned 32 ret in
      let rest =
        read_text rounds ((len + i) % 2 ^ 32) ((l + (2 ^ 32 - i)) % 2 ^ 32)
          (overwrite len bytes buf) net' in
      if is_outside len bytes
      then fault
      else if i == 0 || (l + (2 ^ 32 - i)) % 2 ^ 32 == 0
      then done (overwrite len bytes buf, net')
      else rest

  -- A text that is longer than what is left of `msg` is copied from behind it.
  unfoldable pub store : Dx sv → Run (List ℕ × sv.Net) → Run (Dx sv)
  unfolding text_length
  store s waiting = waiting
  store s fault = fault
  store s (done (buf, net)) =
      let msg = test_msg s.clock buf in
      if ltb 10000 (mo_info_size + text_length buf)
      then fault
      else done (record s {
        net = net;
        disk = (sv.write_sms s.disk msg.sender_number msg.target_number msg).0;
      })

  unfoldable pub after_head : ℕ → List ℕ → Dx sv → sv.Net × ℤ × List ℕ → Run (Dx sv)
  unfolding store
  after_head rounds garbage s (net, ret, head) =
      let buf = overwrite 0 head garbage in
      if is_outside 0 head
      then fault
      else store s (read_text rounds (to_unsigned 32 ret) (text_length buf) buf net)

  -- `garbage` is what is in `msg` before. A head that is not whole is only noted in the log.
  unfoldable pub on_accept : ℕ → List ℕ → Dx sv → Run (Dx sv)
  unfolding after_head
  on_accept rounds garbage s = after_head rounds garbage s (sv.read s.net (pos mo_info_size))
