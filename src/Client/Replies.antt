-- ===== src/Client/Replies.antt =====
-- What the library makes of the gateway's packets.
use aka_smsd.Common.{
  ℕ, zero, suc, ◌^◌, ◌<◌, ◌≡◌, refl, ap, ◌∙◌, sym, arith, true, false, List, [], ◌∷◌, ◌++◌, ltb,
  ◌==◌, if◌then◌else◌, length, length-append, take, drop, take_all, append_assoc, length-take,
  get_or, get_or-append,
}
use aka_smsd.Common.Int.{pos, leb_ℤ}
use aka_smsd.Common.Text.{field, IsText, length-field}
use aka_smsd.Wire.{Header, make_header, header_at, sms_long_to_byte, byte_to_long-long_to_byte}
use aka_smsd.Wire.Cmd
use aka_smsd.Client.{System, Client, received, connected}
use aka_smsd.Client.Receive.{
  bind_reply, bind_reply_of, read_bind_request, sms_read, sms_get_reply, cmd_register,
  cmd_unregister,
}
use aka_smsd.Client.Frames.{read_field, skip_field}
use aka_smsd.Client.Receive.{fill, reply_by_type, bind_request_body}
use aka_smsd.Gateway.World.{BindRequest}
use aka_smsd.Gateway.Bind.{bind_request_bytes}

-- The body of a request to bind.
abbrev request_body : BindRequest → List ℕ
request_body r = field 13 r.user_id ++ (field 16 r.mobile_number ++ r.is_bind ∷ [])

pub take_twice : (n : ℕ) (s : List ℕ) → take n (take n s) ≡ take n s
take_twice n s = take_all n (take n s) (omega (arith, length-take n s))

request_flag : (r : BindRequest) → get_or (request_body r) 31 0 ≡ r.is_bind
request_flag r =
    let id : List ℕ = field 13 r.user_id in
    let mobile : List ℕ = field 16 r.mobile_number in
    let size : length (field 13 r.user_id ++ field 16 r.mobile_number) ≡ 31 = omega (
      arith,
      length-append (field 13 r.user_id) (field 16 r.mobile_number),
      length-field 13 r.user_id,
      length-field 16 r.mobile_number,
    ) in
    ap (λ (m : List ℕ). get_or m 31 0)
      (sym (append_assoc (field 13 r.user_id) (field 16 r.mobile_number) (r.is_bind ∷ [])))
    ∙ get_or-append 31 (field 13 r.user_id ++ field 16 r.mobile_number) (r.is_bind ∷ []) 0 size

get_or-append_left :
    (n : ℕ) (xs ys : List ℕ) → n < length xs → get_or (xs ++ ys) n 0 ≡ get_or xs n 0
get_or-append_left n [] ys h = absurd (omega arith)
get_or-append_left zero (x ∷ xs) ys h = refl
get_or-append_left (suc n) (x ∷ xs) ys h = get_or-append_left n xs ys (omega arith)

length-request_body : (r : BindRequest) → length (request_body r) ≡ 32
length-request_body r = omega (
  arith,
  length-append (field 13 r.user_id) (field 16 r.mobile_number ++ r.is_bind ∷ []),
  length-append (field 16 r.mobile_number) (r.is_bind ∷ []),
  length-field 13 r.user_id,
  length-field 16 r.mobile_number,
)

bind_reply_of-request :
    (r : BindRequest) (stale : List ℕ)
    → r.sn < 2 ^ 32
    → IsText r.user_id
    → IsText r.mobile_number
    → bind_reply_of (make_header Cmd.request r.sn 0 32) (request_body r ++ stale)
      ≡ bind_reply r.sn 0
          (if r.is_bind == 1 then cmd_register else cmd_unregister)
          (take 13 r.user_id)
          (take 16 r.mobile_number)
unfolding bind_reply_of
bind_reply_of-request r stale small h k =
    let id : List ℕ = field 13 r.user_id in
    let user = read_field 13 r.user_id (field 16 r.mobile_number ++ r.is_bind ∷ []) stale h in
    let rest = skip_field 13 r.user_id (field 16 r.mobile_number ++ r.is_bind ∷ []) stale in
    let mobile = read_field 16 r.mobile_number (r.is_bind ∷ []) stale k in
    let flag =
      get_or-append_left 31 (request_body r) stale (omega (arith, length-request_body r))
      ∙ request_flag r in
    rw
      (
        byte_to_long-long_to_byte r.sn small,
        byte_to_long-long_to_byte 0 (omega arith),
        user,
        flag,
        rest,
        mobile,
        take_twice 13 r.user_id,
        take_twice 16 r.mobile_number,
      )
      refl

request_bytes_header :
    (r : BindRequest) (stale : List ℕ)
    → header_at (fill (take 13 (bind_request_bytes r)) stale) ≡ make_header Cmd.request r.sn 0 32
unfolding header_at sms_long_to_byte
request_bytes_header r stale = refl

request_bytes_body : (r : BindRequest) → drop 13 (bind_request_bytes r) ≡ request_body r
unfolding sms_long_to_byte
request_bytes_body r = refl

module _ (sys : System) (c : Client sys) (n1 n2 : sys.Net) (head_stale stale : List ℕ) where
  pub sms_read_some :
      (size b : ℕ) (bs : List ℕ)
      → sys.read c.net size ≡ (n1, received (b ∷ bs))
      → sms_read sys size c ≡ (record c { net = n1 }, sys.no_return, b ∷ bs)
  unfolding sms_read
  sms_read_some size b bs e = rw (sms_read, e) refl

  -- The header decides how the rest of the packet is read.
  pub sms_get_reply-header :
      (c' : Client sys) (bytes : List ℕ) (head : Header)
      → connected sys c ≡ true
      → leb_ℤ (pos 0) sys.no_return ≡ true
      → sms_read sys 13 c ≡ (c', sys.no_return, bytes)
      → header_at (fill bytes head_stale) ≡ head
      → sms_get_reply sys head_stale stale c ≡ reply_by_type sys head stale c'
  unfolding sms_get_reply
  sms_get_reply-header c' bytes head up fine e h = rw (up, e, fine, h) refl

  request_bytes_read :
      (r : BindRequest)
      → sys.read c.net 13 ≡ (n1, received (take 13 (bind_request_bytes r)))
      → sms_read sys 13 c ≡ (record c { net = n1 }, sys.no_return, take 13 (bind_request_bytes r))
  request_bytes_read r e = sms_read_some 13 _ _ e

  -- When a connected library's two reads bring the header and the body of a packet that
  -- `doSendRegisterMsg` wrote, for texts without a zero byte and a serial number below 2 ^ 32,
  -- and there is memory for the result, `sms_getReply` returns the serial number of the request,
  -- its user and phone, cut to 13 and 16 characters, and as its kind "register" for the flag 1
  -- and "unregister" for any other. This is so if what `sms_read` leaves for its caller is not
  -- negative.
  pub sms_get_reply-bind_request_bytes :
      (r : BindRequest)
      → r.sn < 2 ^ 32
      → IsText r.user_id
      → IsText r.mobile_number
      → connected sys c ≡ true
      → leb_ℤ (pos 0) sys.no_return ≡ true
      → sys.malloc 31 ≡ true
      → sys.read c.net 13 ≡ (n1, received (take 13 (bind_request_bytes r)))
      → sys.read n1 32 ≡ (n2, received (drop 13 (bind_request_bytes r)))
      → sms_get_reply sys head_stale stale c ≡ (
        record c { net = n2 },
        bind_reply r.sn 0
            (if r.is_bind == 1 then cmd_register else cmd_unregister)
            (take 13 r.user_id)
            (take 16 r.mobile_number),
      )
  unfolding reply_by_type read_bind_request bind_request_body
  sms_get_reply-bind_request_bytes r small h k up fine memory e1 e2 =
      let len = byte_to_long-long_to_byte 32 (omega arith) in
      let body = request_bytes_body r in
      let fits : ltb 32 (length (request_body r)) ≡ false = ground (arith, length-request_body r) in
      rw
        (
          sms_get_reply-header (record c { net = n1 }) (take 13 (bind_request_bytes r))
              (make_header Cmd.request r.sn 0 32) up fine (request_bytes_read r e1)
              (request_bytes_header r head_stale),
          memory,
          len,
          e2,
          body,
          fits,
          bind_reply_of-request r (drop (length (request_body r)) stale) small h k,
        )
        refl
