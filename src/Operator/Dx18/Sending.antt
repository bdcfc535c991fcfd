-- ===== src/Operator/Dx18/Sending.antt =====
-- What `Send` reports, and in which state it leaves the process.
use aka_smsd.Common.{
  ℕ, suc, ◌+◌, ◌%◌, ◌^◌, ◌<◌, ◌≡◌, ◌≢◌, refl, ap, ◌∙◌, arith, true, false, ◌||◌, List, ◌++◌, Option,
  none, some, ◌⊎◌, inl, inr, leb, ◌==◌, length, drop, Bool-cases,
}
use aka_smsd.Common.Int.{ℤ, pos, ◌≤ℤ◌, leb_ℤ}
use aka_smsd.Common.Code
use aka_smsd.Sms.{SmsMessage}
use aka_smsd.Gateway.World.{done}
use aka_smsd.Operator.Words.{word_bytes, read_word-word_bytes}
use aka_smsd.Operator.Dx18.{
  Services, Dx, send_text_bytes, ack_result, is_refusal, answer, after_write, exchange, settle,
  transfer, send_open, opened, send,
}

-- The codes of 18dx.h for an id, a sender, a receiver, a length, a phone, a pair of phones and a
-- service that are not valid.
abbrev pub IsInvalid : ℕ → Type 0
IsInvalid code =
    (code ≡ 411)
    ⊎ (code ≡ 412)
    ⊎ (code ≡ 413)
    ⊎ (code ≡ 417)
    ⊎ (code ≡ 508)
    ⊎ (code ≡ 525)
    ⊎ (code ≡ 526)

is_other : (code : ℕ) → (code == 1) ≡ false → code ≢ 1
is_other code h = ground (arith, h)

refused : (code : ℕ) → is_refusal code ≡ true → IsInvalid code
refused code h = ground (arith, h)

not_refused : (code : ℕ) → is_refusal code ≡ false → ¬ IsInvalid code
not_refused code h = ground (arith, h)

-- `OAKSACKSMZIXIASENDTEXT`: the type, the length, the result and the serial number.
abbrev pub ack_bytes : ℕ → ℕ → ℕ → ℕ → List ℕ
ack_bytes type len code serial =
    word_bytes type ++ (word_bytes len ++ (word_bytes code ++ word_bytes serial))

ack_result-ack_bytes :
    (garbage : List ℕ) (type len code serial : ℕ)
    → code < 2 ^ 32
    → ack_result garbage (ack_bytes type len code serial) ≡ code
ack_result-ack_bytes garbage type len code serial small =
    read_word-word_bytes code (word_bytes serial ++ drop 16 garbage) small

module _ (sv : Services) where
  -- What the operator does with a packet, and the state of the stream behind it: the packet cannot
  -- be written, there is nothing to be read, or the answer has this result. Without an answer the
  -- stream is closed.
  pub data Dialog (net : sv.Net) (packet : List ℕ) : Option ℕ → sv.Net → Type 0 where
    no_write :
        (net1 : sv.Net) (r : ℤ)
        → sv.write net packet ≡ (net1, r)
        → r ≤ℤ pos 0
        → Dialog net packet none (sv.close net1)
    no_read :
        (net1 net2 : sv.Net) (n : ℕ) (r : ℤ) (bytes : List ℕ)
        → sv.write net packet ≡ (net1, pos (suc n))
        → sv.read net1 (pos 16) ≡ (net2, r, bytes)
        → r ≤ℤ pos 0
        → Dialog net packet none (sv.close net2)
    answered :
        (net1 net2 : sv.Net) (n type len code serial : ℕ)
        → sv.write net packet ≡ (net1, pos (suc n))
        → sv.read net1 (pos 16) ≡ (net2, pos 16, ack_bytes type len code serial)
        → code < 2 ^ 32
        → Dialog net packet (some code) net2

  -- The result, the log and the signal mask.
  abbrev pub IsReported : SmsMessage → Dx sv → Option ℕ → ℤ → Dx sv → Type 0
  IsReported msg s result ret s' =
      ((ret ≡ Code.success)
        × (result ≡ some 1)
        × (s'.log ≡ sv.log_it s.log msg s.clock)
        × (s'.blocked ≡ s.blocked))
      ⊎ ((ret ≡ Code.error)
          × ((code : ℕ) × (result ≡ some code) × IsInvalid code)
          × (s'.log ≡ s.log)
          × (s'.blocked ≡ true))
      ⊎ ((ret ≡ Code.failed)
          × ((result ≡ none) ⊎ ((code : ℕ) × (result ≡ some code) × (code ≢ 1) × ¬ IsInvalid code))
          × (s'.log ≡ s.log)
          × (s'.blocked ≡ true))

  settle_lem :
      (s : Dx sv) (msg : SmsMessage) (net : sv.Net) (result : Option ℕ)
      → (ret : ℤ) × (s' : Dx sv) × (settle sv s msg (net, result) ≡ (ret, s'))
        × (s'.net ≡ net)
        × (s'.disk ≡ s.disk)
        × IsReported msg s result ret s'
  unfolding settle
  settle_lem s msg net none = (
    Code.failed,
    record s { net = net; blocked = true },
    refl,
    refl,
    refl,
    inr (inr (refl, inl refl, refl, refl)),
  )
  settle_lem s msg net (some result) = elim (Bool-cases (result == 1)) [
    | inl success ↦ (
      Code.success,
      record s { net = net; log = sv.log_it s.log msg s.clock },
      rw success refl,
      refl,
      refl,
      inl (refl, ground (arith, success), refl, refl),
    )
    | inr other ↦ elim (Bool-cases (is_refusal result)) [
      | inl turned_down ↦ (
        Code.error,
        record s { net = net; blocked = true },
        rw (other, turned_down) refl,
        refl,
        refl,
        inr (inl (refl, (result, refl, refused result turned_down), refl, refl)),
      )
      | inr passed ↦ (
        Code.failed,
        record s { net = net; blocked = true },
        rw (other, passed) refl,
        refl,
        refl,
        inr (
            inr (
              refl,
              inr (result, refl, is_other result other, not_refused result passed),
              refl,
              refl,
            )),
      )
    ]
  ]

  opened-open : (net : sv.Net) → sv.is_open net ≡ true → opened sv net ≡ net
  unfolding opened
  opened-open net up = rw up refl

  -- A packet that has memory and numbers that fit is sent.
  pub send_open-exchange :
      (garbage : List ℕ) (msg : SmsMessage) (s : Dx sv)
      → length msg.fee_target_number < 16
      → length msg.target_number < 16
      → 80 + msg.body_length < 2 ^ 31
      → ((n : ℕ) → sv.can_new n ≡ true)
      → send_open sv garbage msg s ≡ done (settle sv s msg (exchange sv garbage s.net msg))
  unfolding send_open transfer
  send_open-exchange garbage msg s fee target small memory =
      let short : leb 16 (length msg.fee_target_number) || leb 16 (length msg.target_number)
          ≡ false =
        ground arith in
      let positive : leb (2 ^ 31) ((80 + msg.body_length) % 2 ^ 32) ≡ false =
        ground (arith, small) in
      let whole : leb (2 ^ 32) (80 + msg.body_length) ≡ false = ground (arith, small) in
      rw (positive, memory ((80 + msg.body_length) % 2 ^ 32), short, whole, memory 16) refl

  closed_lem :
      (garbage bytes : List ℕ) (net : sv.Net) (r : ℤ)
      → r ≤ℤ pos 0
      → answer sv garbage (net, r, bytes) ≡ (sv.close net, none)
  unfolding answer
  closed_lem garbage bytes net r low = ground (arith, low)

  unwritten_lem :
      (garbage : List ℕ) (net : sv.Net) (r : ℤ)
      → r ≤ℤ pos 0
      → after_write sv garbage (net, r) ≡ (sv.close net, none)
  unfolding after_write answer
  unwritten_lem garbage net r low = ground (arith, low)

  written_lem :
      (garbage : List ℕ) (net : sv.Net) (n : ℕ)
      → after_write sv garbage (net, pos (suc n)) ≡ answer sv garbage (sv.read net (pos 16))
  unfolding after_write
  written_lem garbage net n =
      let over : leb_ℤ (pos (suc n)) (pos 0) ≡ false = ground arith in rw over refl

  exchange-Dialog :
      (garbage : List ℕ) (msg : SmsMessage) (net net' : sv.Net) (result : Option ℕ)
      → Dialog net (send_text_bytes msg) result net'
      → exchange sv garbage net msg ≡ (net', result)
  unfolding exchange after_write answer
  exchange-Dialog garbage msg net _ _ (no_write net1 r e low) =
      ap (after_write sv garbage) e ∙ unwritten_lem garbage net1 r low
  exchange-Dialog garbage msg net _ _ (no_read net1 net2 n r bytes e e' low) =
      ap (after_write sv garbage) e
      ∙ written_lem garbage net1 n
      ∙ ap (answer sv garbage) e'
      ∙ closed_lem garbage bytes net2 r low
  exchange-Dialog garbage msg net _ _ (answered net1 net2 n type len code serial e e' small) =
      let taken : answer sv garbage (net2, pos 16, ack_bytes type len code serial)
          ≡ (net2, some (ack_result garbage (ack_bytes type len code serial))) =
        refl in
      ap (after_write sv garbage) e
      ∙ written_lem garbage net1 n
      ∙ ap (answer sv garbage) e'
      ∙ taken
      ∙ ap (λ (result : ℕ). (net2, some result))
          (ack_result-ack_bytes garbage type len code serial small)

  -- With an open stream, numbers of less than 16 characters, a body below 2 ^ 31 - 80 bytes and
  -- memory, `Send` returns, leaves the stream as the dialog with the operator does, and keeps the
  -- storage as it was. It returns SUCCESS exactly when the answer's result is 1, logs the message
  -- then and only then, and leaves the signal mask as it was; it returns ERROR exactly for the
  -- results 411, 412, 413, 417, 508, 525 and 526, which refuse a message for good, and FAILED for
  -- any other result and where the packet cannot be written or no answer be read. In both of these
  -- cases SIGUSR1 stays blocked. An answer is one that the read brings whole, with its 16 bytes.
  pub send-IsReported :
      (garbage : List ℕ) (msg : SmsMessage) (s : Dx sv) (result : Option ℕ) (net' : sv.Net)
      → sv.is_open s.net ≡ true
      → length msg.fee_target_number < 16
      → length msg.target_number < 16
      → 80 + msg.body_length < 2 ^ 31
      → ((n : ℕ) → sv.can_new n ≡ true)
      → Dialog s.net (send_text_bytes msg) result net'
      → (ret : ℤ) × (s' : Dx sv) × (send sv garbage msg s ≡ done (ret, s'))
        × (s'.net ≡ net')
        × (s'.disk ≡ s.disk)
        × IsReported msg s result ret s'
  unfolding send send_open transfer
  send-IsReported garbage msg s result net' up fee target small memory dialog =
      let (ret, s', e, net, disk, reported) = settle_lem s msg net' result in
      let called = exchange-Dialog garbage msg s.net net' result dialog in
      (
        ret,
        s',
        rw (send, opened-open s.net up, up)
            (send_open-exchange garbage msg s fee target small memory
              ∙ ap (λ (r : sv.Net × Option ℕ). done (settle sv s msg r)) called
              ∙ ap done e),
        net,
        disk,
        reported,
      )
