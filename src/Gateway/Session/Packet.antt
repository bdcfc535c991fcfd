-- ===== src/Gateway/Session/Packet.antt =====
-- What the session's loop does with one packet.
use aka_smsd.Common.{
  ℕ, ◌+◌, ◌%◌, ◌^◌, ◌≤◌, ◌<◌, ◌≡◌, refl, ap, ◌∙◌, sym, arith, true, false, List, ◌++◌, none, some,
  ltb, if◌then◌else◌, length, drop, take-append, drop-append, drop-drop,
}
use aka_smsd.Common.Int.{ℤ, pos, ◌+ℤ◌, to_unsigned, ◌==ℤ◌}
use aka_smsd.Common.Code
use aka_smsd.Wire.{header_at, make_header, byte_to_long-long_to_byte}
use aka_smsd.Wire.Cmd
use aka_smsd.Gateway.Dispatch.{dispatch_message}
use aka_smsd.Gateway.Session.{place, read_into, after_body, after_head, serve_one}
use aka_smsd.Gateway.World.{Env, Gw, done, fault, M, ◌>>=◌, pure}

place_body :
    (head body buf : List ℕ) (n : ℕ)
    → length head ≡ 13
    → length body ≡ n
    → place 13 body (place 0 head buf) ≡ head ++ (body ++ drop (13 + n) buf)
place_body head body buf n h k =
    let size : 0 + length head ≡ 13 = omega (arith, h) in
    ap (λ (m : ℕ). place 13 body (head ++ drop m buf)) size
    ∙ ap (λ (l : List ℕ). l ++ (body ++ drop (13 + length body) (head ++ drop 13 buf)))
        (take-append 13 head (drop 13 buf) h)
    ∙ ap (λ (m : ℕ). head ++ (body ++ drop (13 + m) (head ++ drop 13 buf))) k
    ∙ ap (λ (l : List ℕ). head ++ (body ++ l))
        (drop-drop 13 n (head ++ drop 13 buf)
          ∙ ap (drop n) (drop-append 13 head (drop 13 buf) h)
          ∙ sym (drop-drop 13 n buf))

read_into_fits :
    (env : Env) (s : Gw env) (net' : env.Net) (ret : ℤ) (offset size : ℕ) (bytes buf : List ℕ)
    → env.read s.net size ≡ (net', ret, bytes)
    → offset + length bytes ≤ 1000
    → read_into env offset size buf s
      ≡ done ((ret, place offset bytes buf), record s { net = net' })
unfolding read_into
read_into_fits env s net' ret offset size bytes buf e h =
    let fits : ltb 1000 (offset + length bytes) ≡ false = ground arith in
    rw (read_into, e, fits) refl

read_into_past :
    (env : Env) (s : Gw env) (net' : env.Net) (ret : ℤ) (offset size : ℕ) (bytes buf : List ℕ)
    → env.read s.net size ≡ (net', ret, bytes)
    → 1000 < offset + length bytes
    → read_into env offset size buf s ≡ fault
unfolding read_into
read_into_past env s net' ret offset size bytes buf e h =
    let past : ltb 1000 (offset + length bytes) ≡ true = ground arith in
    rw (read_into, e, past) refl

bind_done :
    {env : Env} {A B : Type 0} (m : M env A) (f : A → M env B) (s s' : Gw env) (a : A)
    → m s ≡ done (a, s')
    → (m >>= f) s ≡ f a s'
bind_done m f s s' a e = rw (◌>>=◌, e) refl

bind_fault :
    {env : Env} {A B : Type 0} (m : M env A) (f : A → M env B) (s : Gw env)
    → m s ≡ fault
    → (m >>= f) s ≡ fault
bind_fault m f s e = rw (◌>>=◌, e) refl

module _ (env : Env) (s : Gw env) (n1 n2 : env.Net) (head body buf : List ℕ)
    (type serial pid n : ℕ) where
  -- When the stream brings the 13 bytes of a header and the `n` bytes that it announces, at most
  -- 987, one round of the loop is `dispatchMessage` of the packet, with its true length, in front
  -- of what the buffer held behind it; the session ends exactly if `dispatchMessage` returns QUIT.
  pub serve_one-packet :
      env.read s.net 13 ≡ (n1, pos 13, head)
      → env.read n1 n ≡ (n2, pos n, body)
      → length head ≡ 13
      → length body ≡ n
      → n ≤ 987
      → header_at (place 0 head buf) ≡ make_header type serial pid n
      → serve_one env buf s
        ≡ (dispatch_message env (head ++ (body ++ drop (13 + n) buf)) (13 + n) >>= λ ret. pure (
          if ret ==ℤ Code.quit then some (pos 0) else none,
          head ++ (body ++ drop (13 + n) buf),
        ))
            (record s { net = n2 })
  unfolding serve_one after_head after_body ◌+ℤ◌
  serve_one-packet e1 e2 h k small shown =
      let len = byte_to_long-long_to_byte n (omega arith) in
      let read1 = read_into_fits env s n1 (pos 13) 0 13 head buf e1 (omega arith) in
      let read2 =
        read_into_fits env (record s { net = n1 }) n2 (pos n) 13 n body (place 0 head buf) e2
          (omega arith) in
      let whole : ltb (n % 2 ^ 32) n ≡ false = ground arith in
      let total : to_unsigned 32 (pos Cmd.header_size +ℤ pos n) ≡ 13 + n = ground arith in
      let body_step : after_head env (pos 13, place 0 head buf) (record s { net = n1 })
          ≡ after_body env n (pos n, place 13 body (place 0 head buf)) (record s { net = n2 }) =
        rw (after_head, shown, len)
          (bind_done (read_into env 13 n (place 0 head buf)) (after_body env n)
            (record s { net = n1 }) (record s { net = n2 })
            (pos n, place 13 body (place 0 head buf)) read2) in
      bind_done (read_into env 0 13 buf) (after_head env) s (record s { net = n1 })
        (pos 13, place 0 head buf) read1
      ∙ body_step
      ∙ rw (after_body, whole, total, place_body head body buf n h k) refl

  -- When the stream brings the 13 bytes of a header that announces a body, and then more than 987
  -- bytes for it, they are written past the end of the buffer.
  pub serve_one-overrun :
      (ret : ℤ)
      → env.read s.net 13 ≡ (n1, pos 13, head)
      → env.read n1 n ≡ (n2, ret, body)
      → length head ≡ 13
      → 987 < length body
      → n < 2 ^ 32
      → header_at (place 0 head buf) ≡ make_header type serial pid n
      → serve_one env buf s ≡ fault
  unfolding serve_one after_head
  serve_one-overrun ret e1 e2 h large small shown =
      let len = byte_to_long-long_to_byte n small in
      let read1 = read_into_fits env s n1 (pos 13) 0 13 head buf e1 (omega arith) in
      let read2 =
        read_into_past env (record s { net = n1 }) n2 ret 13 n body (place 0 head buf) e2
          (omega arith) in
      bind_done (read_into env 0 13 buf) (after_head env) s (record s { net = n1 })
        (pos 13, place 0 head buf) read1
      ∙ rw (after_head, shown, len)
          (bind_fault (read_into env 13 n (place 0 head buf)) (after_body env n)
            (record s { net = n1 }) read2)
