-- ===== src/Php/Login.antt =====
-- The login of `sendsms` at the gateway's child protocol.
use aka_smsd.Common.{
  ℕ, suc, ◌+◌, ◌≤◌, ◌≡◌, refl, ap, ◌∙◌, arith, true, false, List, [], ◌++◌, ltb, length, take, drop,
}
use aka_smsd.Common.Int.{ℤ, pos}
use aka_smsd.Common.Text.{c_str, strncpy}
use aka_smsd.Wire.{sms_long_to_byte_by_shifts, sms_byte_to_long}
use aka_smsd.ChildProtocol.{Services, Cp, done, read_again, read_into, M}
use aka_smsd.ChildProtocol.Session.{◌>>=◌, login_body, login_head, send_all, serve, on_accept}
use aka_smsd.Php.{password_packet}

module _ (sv : Services) where
  read_again_lem :
      (net net' : sv.Net) (tries i : ℕ) (size : ℤ) (bytes : List ℕ)
      → sv.read net size ≡ (net', pos i, bytes)
      → read_again sv (suc tries) size net ≡ done (net', i, bytes)
  unfolding read_again
  read_again_lem net net' tries i size bytes e =
      rw (e, read_again) (ap (λ (r : sv.Net × ℤ × List ℕ). done (r.0, i, r.2)) e)

  pub read_into_fits :
      (s : Cp sv) (net : sv.Net) (tries offset i : ℕ) (size : ℤ) (bytes buf : List ℕ)
      → sv.read s.net size ≡ (net, pos i, bytes)
      → offset + length bytes ≤ 1000
      → read_into sv (suc tries) offset size buf s
        ≡ done (
          (i, take offset buf ++ (bytes ++ drop (offset + length bytes) buf)),
          record s { net = net },
        )
  unfolding read_into
  read_into_fits s net tries offset i size bytes buf e h =
      let fits : ltb 1000 (offset + length bytes) ≡ false = ground arith in
      rw (read_again_lem s.net net tries i size bytes e, read_into, fits) refl

  pub bind_done :
      {A B : Type 0} (m : M sv A) (f : A → M sv B) (s s' : Cp sv) (a : A)
      → m s ≡ done (a, s')
      → (◌>>=◌ sv m f) s ≡ f a s'
  bind_done m f s s' a e = rw (◌>>=◌, e) refl

  on_accept_head :
      (s : Cp sv) (net : sv.Net) (tries rounds : ℕ) (buf : List ℕ)
      → sv.read s.net (pos 13) ≡ (net, pos 13, take 13 password_packet)
      → on_accept sv (suc tries) rounds [] buf s
        ≡ login_head sv
            (suc tries)
            rounds
            []
            (13, take 13 password_packet ++ drop 13 buf)
            (record s { net = net })
  unfolding on_accept password_packet sms_long_to_byte_by_shifts
  on_accept_head s net tries rounds buf e =
      let step =
        read_into_fits s net tries 0 13 (pos 13) (take 13 password_packet) buf e (omega arith) in
      bind_done (read_into sv (suc tries) 0 (pos 13) buf) (login_head sv (suc tries) rounds []) s
        (record s { net = net }) (13, take 13 password_packet ++ drop 13 buf) step

  login_head_lem :
      (s : Cp sv) (net : sv.Net) (tries rounds : ℕ) (buf : List ℕ)
      → sv.read s.net (pos 70) ≡ (net, pos 70, drop 13 password_packet)
      → login_head sv (suc tries) rounds [] (13, take 13 password_packet ++ drop 13 buf) s
        ≡ login_body sv
            (suc tries)
            rounds
            []
            70
            (70, password_packet ++ drop 70 (drop 13 buf))
            (record s { net = net })
  unfolding login_head password_packet sms_long_to_byte_by_shifts strncpy sms_byte_to_long
  login_head_lem s net tries rounds buf e =
      let step =
        read_into_fits s net tries 13 70 (pos 70) (drop 13 password_packet)
          (take 13 password_packet ++ drop 13 buf) e (omega arith) in
      bind_done (read_into sv (suc tries) 13 (pos 70) (take 13 password_packet ++ drop 13 buf))
        (login_body sv (suc tries) rounds [] 70) s (record s { net = net })
        (70, password_packet ++ drop 70 (drop 13 buf)) step

  login_body_lem :
      (s : Cp sv) (tries rounds : ℕ) (rest : List ℕ)
      → login_body sv tries rounds [] 70 (70, password_packet ++ rest) s
        ≡ serve sv tries rounds (password_packet ++ rest) (record s { attached = true })
  unfolding login_body send_all password_packet sms_long_to_byte_by_shifts strncpy c_str
  login_body_lem s tries rounds rest = refl

  -- The loop over the packets is reached with the login in the buffer.
  pub on_accept-password_packet :
      (s : Cp sv) (n1 n2 : sv.Net) (tries rounds : ℕ) (buf : List ℕ)
      → sv.read s.net (pos 13) ≡ (n1, pos 13, take 13 password_packet)
      → sv.read n1 (pos 70) ≡ (n2, pos 70, drop 13 password_packet)
      → on_accept sv (suc tries) rounds [] buf s
        ≡ serve sv
            (suc tries)
            rounds
            (password_packet ++ drop 70 (drop 13 buf))
            (record s { attached = true; net = n2 })
  on_accept-password_packet s n1 n2 tries rounds buf e e' =
      on_accept_head s n1 tries rounds buf e
      ∙ login_head_lem (record s { net = n1 }) n2 tries rounds buf e'
      ∙ login_body_lem (record s { net = n2 }) (suc tries) rounds (drop 70 (drop 13 buf))
