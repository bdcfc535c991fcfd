-- ===== src/Gateway/Link.antt =====
-- `getSerial`, `doSendMsg` and `doReply`: packets to the BBS.
pub mod Errors
use aka_smsd.Common.{
  ℕ, ◌+◌, ◌%◌, ◌^◌, Bool, true, false, List, [], ◌∷◌, ◌++◌, ltb, if◌then◌else◌, length,
}
use aka_smsd.Common.Int.{ℤ, to_unsigned, ◌==ℤ◌}
use aka_smsd.Common.Code
use aka_smsd.Wire.{Header, header_bytes, sms_long_to_byte}
use aka_smsd.Wire.Cmd
use aka_smsd.Gateway.World.{Env, Gw, Outcome, done, exited, fault, M}

module _ (env : Env) where
  -- m_serial++
  unfoldable pub get_serial : M env ℕ
  get_serial s = done (s.serial, record s { serial = (s.serial + 1) % 2 ^ 32 })

  -- The comparison `rc<len` is unsigned: `rc` is an `int` and `len` a DWORD. A write that times
  -- out returns with the signals still blocked.
  unfoldable pub do_send_msg : List ℕ → M env ℤ
  do_send_msg msg s =
      if s.connected
      then (let (net', rc) = env.write s.net msg in
          done (
            if ltb (to_unsigned 32 rc) (length msg) then Code.error else Code.success,
            record s { net = net'; blocked = if rc ==ℤ Code.timeout then true else s.blocked },
          ))
      else done (Code.error, s)

  abbrev pub reply_bytes : ℕ → List ℕ → List ℕ → List ℕ
  reply_bytes msg_type serial_no pid = header_bytes (record {
    type = msg_type % 2 ^ 8;
    serial_no = serial_no;
    pid = pid;
    msg_length = sms_long_to_byte 0;
  })

  -- The packet is filled in with no test of what `malloc` returned.
  unfoldable pub do_reply : ℕ → Header → M env ℤ
  unfolding do_send_msg
  do_reply msg_type to s =
      if env.malloc Cmd.header_size
      then do_send_msg (reply_bytes msg_type to.serial_no to.pid) s
      else fault
