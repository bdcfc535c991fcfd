-- ===== src/ChildProtocol/Session.antt =====
-- `OnAccept` of smschildprotocol.h: the login of the partner and the loop over its packets.
use aka_smsd.Common.{
  ℕ, zero, suc, ◌+◌, true, false, not, ◌&&◌, List, [], ◌∷◌, ltb, ◌==◌, if◌then◌else◌,
}
use aka_smsd.Common.Int.{ℤ, pos, negsuc, leb_ℤ}
use aka_smsd.Sms.{SmsMessage}
use aka_smsd.Gateway.Message.{signed32}
use aka_smsd.ChildProtocol.{
  Services, Cp, Run, done, waiting, fault, head_size, msgtype_sm, msgtype_smr, msgtype_cdr,
  msgtype_pwd, msgerr_msgtype, msg_type, serial_no, msg_length, login_user, login_password,
  sm_body_length, can_user_connect, do_send_error_msg, do_message, send, read_into, M,
}

-- Whether the loop over the packets goes on.
pub data Round : Type 0 where
  next_packet : List ℕ → Round
  leave : Round

module _ (sv : Services) where
  infixl 5 ◌>>=◌
  abbrev pub ◌>>=◌ : {A B : Type 0} → M sv A → (A → M sv B) → M sv B
  ◌>>=◌ m f s = elim (m s) [ done (a, s') ↦ f a s' | waiting ↦ waiting | fault ↦ fault ]

  abbrev pure : {A : Type 0} → A → M sv A
  pure a s = done (a, s)

  abbrev run : (Cp sv → Run (Cp sv)) → M sv (Unit {0})
  run op s = elim (op s) [ done s' ↦ done (tt, s') | waiting ↦ waiting | fault ↦ fault ]

  -- The text behind a message; its length is an `int`, and so is the value of `read`.
  unfoldable pub after_text : ℤ → ℕ × List ℕ → M sv Round
  after_text l (i, buf) =
      if leb_ℤ l (pos i)
      then (run (do_message sv buf) >>= λ u. pure (next_packet buf))
      else pure leave

  unfoldable pub after_body : ℕ → ℕ → ℕ × List ℕ → M sv Round
  unfolding after_text
  after_body tries len (i, buf) =
      if ltb i len
      then pure leave
      else if msg_type buf == msgtype_sm
      then (read_into sv tries (head_size + i) (signed32 (sm_body_length buf)) buf
          >>= after_text (signed32 (sm_body_length buf)))
      else (run (do_message sv buf) >>= λ u. pure (next_packet buf))

  unfoldable pub after_head : ℕ → ℕ × List ℕ → M sv Round
  unfolding after_body
  after_head tries (i, buf) =
      if ltb i head_size
      then pure leave
      else if not (msg_type buf == msgtype_sm) && not (msg_type buf == msgtype_cdr)
      then (run (do_send_error_msg sv msgtype_smr (serial_no buf) msgerr_msgtype) >>= λ u.
          pure leave)
      else (read_into sv tries head_size (signed32 (msg_length buf)) buf
          >>= after_body tries (msg_length buf))

  unfoldable pub serve_one : ℕ → List ℕ → M sv Round
  unfolding after_head
  serve_one tries buf = read_into sv tries 0 (pos head_size) buf >>= after_head tries

  -- At most this many packets; `m_pStream` is null again behind the loop.
  unfoldable pub serve : ℕ → ℕ → List ℕ → M sv ℤ
  unfolding serve_one
  serve tries zero buf s = waiting
  serve tries (suc rounds) buf s = elim (serve_one tries buf s) [
    | waiting ↦ waiting
    | fault ↦ fault
    | done (leave, s') ↦ done (pos 0, record s' { attached = false })
    | done (next_packet buf', s') ↦ serve tries rounds buf' s'
  ]

  -- `OnNotify`, which passes the messages that wait to `Send`.
  unfoldable pub send_all : List SmsMessage → M sv (Unit {0})
  send_all [] s = done (tt, s)
  send_all (msg ∷ msgs) s = elim (send sv msg s) [
    | waiting ↦ waiting
    | fault ↦ fault
    | done (s', ret) ↦ send_all msgs s'
  ]

  unfoldable pub login_body : ℕ → ℕ → List SmsMessage → ℕ → ℕ × List ℕ → M sv ℤ
  unfolding serve send_all
  login_body tries rounds to_send len (i, buf) =
      if ltb i len
      then pure (negsuc 0)
      else if can_user_connect (login_user buf) (login_password buf)
      then (λ s. (send_all to_send >>= λ u. serve tries rounds buf) (record s { attached = true }))
      else pure (negsuc 0)

  unfoldable pub login_head : ℕ → ℕ → List SmsMessage → ℕ × List ℕ → M sv ℤ
  unfolding login_body
  login_head tries rounds to_send (i, buf) =
      if ltb i head_size
      then pure (negsuc 0)
      else if msg_type buf == msgtype_pwd
      then (read_into sv tries head_size (signed32 (msg_length buf)) buf
          >>= login_body tries rounds to_send (msg_length buf))
      else pure (negsuc 0)

  -- `buf` is what the stack held in the buffer.
  unfoldable pub on_accept : ℕ → ℕ → List SmsMessage → List ℕ → M sv ℤ
  unfolding login_head
  on_accept tries rounds to_send buf =
      read_into sv tries 0 (pos head_size) buf >>= login_head tries rounds to_send
