-- ===== src/Journey/Arrival.antt =====
-- From the operator's packet to a file.
use aka_smsd.Common.{
  ℕ, zero, suc, ◌+◌, ◌%◌, ◌/◌, ◌^◌, ◌≤◌, ◌<◌, ◌≡◌, sym, ap, ◌∙◌, arith, List, [], ◌∷◌, ◌++◌, length,
  ltb, take_all, subst, length-append, Bool-cases, inl, inr,
}
use aka_smsd.Common.Int.{ℤ, pos}
use aka_smsd.Common.Text.{IsText}
use aka_smsd.Common.Decimal.{print_digits, print_int, length-print_int}
use aka_smsd.Common.Code
use aka_smsd.Sms.{SmsMessage, max_child_code_len}
use aka_smsd.Sms.Layout.{sms_bytes, IsStorable}
use aka_smsd.Sms.Layout.Reading.{length-sms_bytes}
use aka_smsd.Gateway.Message.{sender_of}
use aka_smsd.Gateway.Deliver.Addressing.{sender_of_lem}
use aka_smsd.Gateway.World.{done}
use aka_smsd.Storage
use aka_smsd.Storage.{
  Disk, create, outgoing, file_name, init_filter, WriteResult, written_whole, not_opened,
  broken_off, write_sms_to_storage,
}
use aka_smsd.Storage.Outgoing.{write_sms_to_storage_outcome}
use aka_smsd.Operator.Dx18
use aka_smsd.Operator.Dx18.{Dx, formated_msg, mo_mobile_no, mo_sp_code, on_accept}
use aka_smsd.Operator.Dx18.Receiving.{
  mo_info_bytes, mo_mobile_no-mo_info_bytes, mo_sp_code-mo_info_bytes, on_accept-formated_msg,
}
use aka_smsd.Journey.{with_storage, stored_bytes}

IsText-append : (s t : List ℕ) → IsText s → IsText t → IsText (s ++ t)
IsText-append [] t h k = k
IsText-append (c ∷ s) t h k = (h.0, IsText-append s t h.1 k)

print_digits-IsText : (fuel n : ℕ) → IsText (print_digits fuel n)
unfolding print_digits
print_digits-IsText zero n = tt
print_digits-IsText (suc fuel) n = elim (Bool-cases (ltb n 10)) [
  | inl small ↦ rw small (ground arith)
  | inr large ↦ rw large (
      IsText-append (print_digits fuel (n / 10)) _ (print_digits-IsText fuel (n / 10))
        (ground arith))
]

-- The number of a BBS user is a text of at most 15 characters.
pub sender_of-IsText :
    (code : List ℕ) (user : ℕ)
    → IsText code
    → length code ≤ max_child_code_len
    → 0 < user
    → user < 2 ^ 31
    → IsText (sender_of code user) × (length (sender_of code user) ≤ 15)
unfolding print_int
sender_of-IsText code user text short some_user small =
    let (_, few) = length-print_int user (omega arith) in
    rw (sender_of_lem code user short some_user small) (
      IsText-append code (print_int (pos user)) text (print_digits-IsText 10 user),
      omega (arith, length-append code (print_int (pos user))),
    )

not_shut : ¬ (written_whole ≡ not_opened)
not_shut e = cc

not_broken : (n : ℕ) → ¬ (written_whole ≡ broken_off n)
not_broken n e = cc

formated_msg-IsStorable :
    (clock : ℕ) (head body : List ℕ)
    → clock < 2 ^ 32
    → IsText (mo_mobile_no head)
    → length (mo_mobile_no head) ≤ 16
    → IsText (mo_sp_code head)
    → length (mo_sp_code head) ≤ 16
    → length body ≤ 1000
    → IsStorable (formated_msg clock head body (length body))
unfolding formated_msg
formated_msg-IsStorable clock head body now phone phone_short number number_short short = record {
  length_fits = omega arith;
  sender_fits = (phone, phone_short);
  target_fits = (number, number_short);
  fee_type_fits = omega arith;
  fee_target_fits = (tt, omega arith);
  child_fits = (tt, omega arith);
  parent_fits = (ground arith, omega arith);
  sms_type_fits = omega arith;
  send_time_fits = now;
  arrive_time_fits = now;
  service_fits = (tt, omega arith);
  fee_money_fits = omega arith;
  body_length_fits = omega arith;
  body_whole = sym (ap length (take_all (length body) body (omega arith)));
}

module _ (sv : Storage.Services) where
  -- The filter finds nothing in these bytes, and files can be written.
  abbrev pub Accepts : Disk sv → List ℕ → Type 0
  Accepts d buf =
      (sv.mgrep_str buf (init_filter sv d).filter_buf ≡ pos 0)
      × ((name : List ℕ) → sv.write_result name ≡ written_whole)

  pub write_sms_to_storage-Accepts :
      (source target buf : List ℕ) (d : Disk sv)
      → Accepts d buf
      → (d' : Disk sv) × (write_sms_to_storage sv source target buf d ≡ (d', Code.success))
        × (d'.ops
            ≡ d.ops
              ++ create outgoing (file_name source target d.clock ((d.count + 1) % 2 ^ 32)) buf
                ∷ [])
  write_sms_to_storage-Accepts source target buf d (clean, can_write) =
      let (ret, d', e, cases) = write_sms_to_storage_outcome sv source target buf d in
      elim cases [
        | inl (fine, _, written) ↦ (d', e ∙ ap (λ (r : ℤ). (d', r)) fine, written)
        | inr (inl (_, _, inl dirty)) ↦ absurd (dirty clean)
        | inr (inl (_, _, inr shut)) ↦ absurd (not_shut (sym (can_write _) ∙ shut))
        | inr (inr (_, _, (n, broken, _))) ↦ absurd (not_broken n (sym (can_write _) ∙ broken))
      ]

-- The message that the operator's process makes of the packet.
abbrev pub arrived : ℕ → List ℕ → List ℕ → List ℕ → List ℕ → SmsMessage
arrived clock phone operator number body =
    formated_msg clock (mo_info_bytes phone operator number (length body)) body (length body)

pub record IsArrival (clock : ℕ) (phone operator number body : List ℕ) : Type 0 where
  pub now : clock < 2 ^ 32
  pub four : length operator ≡ 4
  pub phone_text : IsText phone
  pub phone_short : length phone ≤ 16
  pub number_text : IsText number
  pub number_short : length number ≤ 16
  pub body_short : length body ≤ 1000

-- What the members of the message are.
pub arrived_lem :
    (clock : ℕ) (phone operator number body : List ℕ)
    → IsArrival clock phone operator number body
    → ((arrived clock phone operator number body).sender_number ≡ phone)
      × ((arrived clock phone operator number body).target_number ≡ number)
      × ((arrived clock phone operator number body).body ≡ body)
      × IsStorable (arrived clock phone operator number body)
unfolding formated_msg
arrived_lem clock phone operator number body a =
    let head : List ℕ = mo_info_bytes phone operator number (length body) in
    let sender : mo_mobile_no head ≡ phone =
      mo_mobile_no-mo_info_bytes phone operator number (length body) a.four a.phone_text
        a.phone_short in
    let target : mo_sp_code head ≡ number =
      mo_sp_code-mo_info_bytes phone operator number (length body) a.four a.number_text
        a.number_short in
    (
      sender,
      target,
      take_all (length body) body (omega arith),
      formated_msg-IsStorable clock head body a.now (subst IsText (sym sender) a.phone_text)
          (subst (λ (l : List ℕ). length l ≤ 16) (sym sender) a.phone_short)
          (subst IsText (sym target) a.number_text)
          (subst (λ (l : List ℕ). length l ≤ 16) (sym target) a.number_short) a.body_short,
    )

-- A message with the length of all its bytes is stored whole.
pub stored_bytes-whole :
    (m : SmsMessage) → m.length ≡ 180 + length m.body → stored_bytes m ≡ sms_bytes m
unfolding stored_bytes
stored_bytes-whole m size =
    take_all m.length (sms_bytes m) (omega (arith, size, length-sms_bytes m))

arrived_length :
    (clock : ℕ) (phone operator number body : List ℕ)
    → (arrived clock phone operator number body).length
      ≡ 180 + length (arrived clock phone operator number body).body
unfolding formated_msg
arrived_length clock phone operator number body =
    ap (λ (l : List ℕ). 180 + length l) (sym (take_all (length body) body (omega arith)))

-- A packet of the operator becomes one file.
pub on_accept-file :
    (st : Dx18.Services) (sv : Storage.Services) (s : Dx (with_storage sv st))
    (phone operator number body : List ℕ) (net net' : st.Net)
    → IsArrival s.clock phone operator number body
    → st.read s.net (pos 56) ≡ (net, pos 56, mo_info_bytes phone operator number (length body))
    → st.read net (pos (length body)) ≡ (net', pos (length body), body)
    → Accepts sv s.disk (sms_bytes (arrived s.clock phone operator number body))
    → (d' : Disk sv) × (on_accept (with_storage sv st) s
        ≡ done (pos 0, record s { net = net'; disk = d' }))
      × (d'.ops
          ≡ s.disk.ops
            ++ create outgoing
                (file_name phone number s.disk.clock ((s.disk.count + 1) % 2 ^ 32))
                (sms_bytes (arrived s.clock phone operator number body))
              ∷ [])
on_accept-file st sv s phone operator number body net net' a first second accepts =
    let msg : SmsMessage = arrived s.clock phone operator number body in
    let content : List ℕ = sms_bytes msg in
    let whole : stored_bytes msg ≡ content =
      stored_bytes-whole msg (arrived_length s.clock phone operator number body) in
    let (d', written, ops) = write_sms_to_storage-Accepts sv phone number content s.disk accepts in
    (
      d',
      on_accept-formated_msg (with_storage sv st) s phone operator number body net net' a.four
            a.phone_text a.phone_short a.number_text a.number_short a.body_short first second
          ∙ ap (λ (r : Disk sv × ℤ). done (pos 0, record s { net = net'; disk = r.0 }))
              (ap (λ (bytes : List ℕ). write_sms_to_storage sv phone number bytes s.disk) whole
                ∙ written),
      ops,
    )
