-- ===== src/Gateway/Dispatch/Guard.antt =====
-- The length test in front of `dispatchMessage`.
use aka_smsd.Common.{List, true, ℕ, ◌+◌, ◌%◌, ◌^◌, ◌<◌, ◌≡◌, ◌≢◌, ap, ◌∙◌, arith, List}
use aka_smsd.Common.Code
use aka_smsd.Wire.{Header, header_at, make_header, sms_byte_to_long, byte_to_long-long_to_byte}
use aka_smsd.Wire.Cmd
use aka_smsd.Gateway.Link.Errors.{do_send_msg_frame}
use aka_smsd.Gateway.World.{done}
use aka_smsd.Gateway.Link.{reply_bytes, do_reply}
use aka_smsd.Gateway.Dispatch.{dispatch_type, dispatch_message}
use aka_smsd.Gateway.World.{Env, Gw}

module _ (env : Env) where
  -- With memory for the answer, a packet whose length field disagrees with the number of bytes read
  -- ends the session, whatever type it has; no table, no stored message and no waiting request
  -- changes.
  pub dispatch_message-wrong_length :
      (s : Gw env) (msg : List ℕ) (len : ℕ)
      → (sms_byte_to_long (header_at msg).msg_length + Cmd.header_size) % 2 ^ 32 ≢ len
      → env.malloc Cmd.header_size ≡ true
      → (s' : Gw env) × (dispatch_message env msg len s ≡ done (Code.quit, s'))
        × (s'.db ≡ s.db)
        × (s'.disk ≡ s.disk)
        × (s'.request_list ≡ s.request_list)
  unfolding dispatch_message do_reply
  dispatch_message-wrong_length s msg len h memory =
      let (ret, t, e, db, disk, list) =
        do_send_msg_frame env s
          (reply_bytes env Cmd.length_err (header_at msg).serial_no (header_at msg).pid) in
      (t, ground (arith, memory, e), db, disk, list)

  dispatch_message-typed :
      (s : Gw env) (msg : List ℕ) (type len : ℕ)
      → (header_at msg).type ≡ type
      → (sms_byte_to_long (header_at msg).msg_length + Cmd.header_size) % 2 ^ 32 ≡ len
      → dispatch_message env msg len s ≡ dispatch_type env type msg s
  unfolding dispatch_message
  dispatch_message-typed s msg type len e h = ground arith

  -- A packet that announces as many bytes as were read behind its header is dispatched by its type.
  pub dispatch_message-make_header :
      (s : Gw env) (msg : List ℕ) (type serial pid n len : ℕ)
      → header_at msg ≡ make_header type serial pid n
      → n + 13 ≡ len
      → len < 2 ^ 32
      → dispatch_message env msg len s ≡ dispatch_type env type msg s
  dispatch_message-make_header s msg type serial pid n len shown e h =
      let announced = byte_to_long-long_to_byte n (omega arith) in
      dispatch_message-typed s msg type len (ap (λ (x : Header). x.type) shown) (
        ap (λ (x : Header). (sms_byte_to_long x.msg_length + Cmd.header_size) % 2 ^ 32) shown
        ∙ omega (arith, announced))
