-- ===== src/Journey/Handover.antt =====
-- From a file to the BBS.
use aka_smsd.Common.{
  ℕ, ◌+◌, ◌%◌, ◌^◌, ◌<◌, ◌≡◌, refl, ap, ◌∙◌, arith, true, List, [], ◌∷◌, ◌++◌, length,
  if◌then◌else◌, Option-cases, inl, inr, append-nil, length-append,
}
use aka_smsd.Common.Int.{ℤ, pos, ◌==ℤ◌}
use aka_smsd.Common.Text.{field, length-field}
use aka_smsd.Common.Code
use aka_smsd.Wire.{sms_long_to_byte}
use aka_smsd.Sms.{SmsMessage}
use aka_smsd.Sms.Layout.{sms_bytes, IsStorable}
use aka_smsd.Sms.Layout.Reading.{sms_of_bytes-sms_bytes}
use aka_smsd.Gateway.World.{log_sms, Env, Gw, Outcome, done, M, bind_done, ◌>>=◌, ◌>>◌, pure}
use aka_smsd.Gateway.Link.{get_serial, do_send_msg}
use aka_smsd.Gateway.Link.Errors.{do_send_msg-whole}
use aka_smsd.Gateway.Deliver.{
  common, SmsType, get_sms_type, get_target_id, gw_send_bytes, deliver_sms, route, log_it, send,
}
use aka_smsd.Storage
use aka_smsd.Storage.{Disk, regular, link, unlink, incoming, incoming_backup, on_notify}
use aka_smsd.Storage.Incoming.{handed, on_notify_lem}
use aka_smsd.Journey.{send_bytes, with_protocol, up_packet}

gw_send_bytes-up_packet :
    (serial user : ℕ) (msg : SmsMessage)
    → msg.body_length ≡ length msg.body
    → gw_send_bytes serial user msg ≡ up_packet serial user msg.sender_number msg.body
gw_send_bytes-up_packet serial user msg size = rw size refl

length-up_packet :
    (serial user : ℕ) (phone text : List ℕ)
    → length (up_packet serial user phone text) ≡ 38 + length text
unfolding sms_long_to_byte
length-up_packet serial user phone text = omega (
  arith,
  length-append (field 16 phone) (sms_long_to_byte (length text) ++ text),
  length-field 16 phone,
)

module _ (env : Env) where
  deliver_sms-whole :
      (msg : SmsMessage) (user : ℕ) (s : Gw env) (net : env.Net)
      → get_target_id s.child_code msg.target_number ≡ user
      → msg.body_length ≡ length msg.body
      → length msg.body < 2 ^ 31
      → s.connected ≡ true
      → ((n : ℕ) → env.malloc n ≡ true)
      → env.write s.net (up_packet s.serial user msg.sender_number msg.body)
        ≡ (net, pos (length (up_packet s.serial user msg.sender_number msg.body)))
      → deliver_sms env msg s
        ≡ done (Code.success, record s { serial = (s.serial + 1) % 2 ^ 32; net = net })
  unfolding deliver_sms get_serial
  deliver_sms-whole msg user s net target size small up memory written =
      let packet : List ℕ = up_packet s.serial user msg.sender_number msg.body in
      let bytes : gw_send_bytes s.serial (get_target_id s.child_code msg.target_number) msg
          ≡ packet =
        ap (λ (u : ℕ). gw_send_bytes s.serial u msg) target
        ∙ gw_send_bytes-up_packet s.serial user msg size in
      rw (memory _) (
        ap (λ (p : List ℕ). do_send_msg env p (record s { serial = (s.serial + 1) % 2 ^ 32 })) bytes
        ∙ do_send_msg-whole env packet (record s { serial = (s.serial + 1) % 2 ^ 32 }) net up
            written (omega (arith, length-up_packet s.serial user msg.sender_number msg.body)))

  log_it-net :
      (msg : SmsMessage) (s : Gw env)
      → (s' : Gw env) × (log_it env msg s ≡ done (tt, s')) × (s'.net ≡ s.net)
  unfolding log_it
  log_it-net msg s = elim (Option-cases (env.exec s.db (log_sms msg s.clock s.child_code))) [
    | inl e ↦ (s, rw (e, log_it) refl, refl)
    | inr (db', e) ↦ (record s { db = db' }, rw (e, log_it) refl, refl)
  ]

  -- A message that is addressed to a user of the BBS and can be written whole.
  pub send-common :
      (msg : SmsMessage) (user : ℕ) (s : Gw env) (net : env.Net)
      → get_sms_type s.child_code msg.target_number ≡ common
      → get_target_id s.child_code msg.target_number ≡ user
      → msg.body_length ≡ length msg.body
      → length msg.body < 2 ^ 31
      → s.connected ≡ true
      → ((n : ℕ) → env.malloc n ≡ true)
      → env.write s.net (up_packet s.serial user msg.sender_number msg.body)
        ≡ (net, pos (length (up_packet s.serial user msg.sender_number msg.body)))
      → (s' : Gw env) × (send env msg s ≡ done (Code.success, s')) × (s'.net ≡ net)
  unfolding send route
  send-common msg user s net kind target size small up memory written =
      let s1 : Gw env = record s { serial = (s.serial + 1) % 2 ^ 32; net = net } in
      let delivered : deliver_sms env msg s ≡ done (Code.success, s1) =
        deliver_sms-whole msg user s net target size small up memory written in
      let (s2, logged, same_net) = log_it-net msg s1 in
      let settle : ℤ → M env ℤ = λ ret.
        if ret ==ℤ Code.success
        then (do log_it env msg; pure {env = env} ret)
        else pure {env = env} ret in
      (
        s2,
        ap (λ (k : SmsType). (route env k msg >>= settle) s) kind
            ∙ bind_done (deliver_sms env msg) settle s s1 Code.success delivered
            ∙ bind_done (log_it env msg) (λ u. pure {env = env} Code.success) s1 s2 tt logged,
        same_net,
      )

module _ {S : Type 0} (protocol : SmsMessage → S → Outcome (ℤ × S)) where
  send_bytes-sms_bytes :
      (msg : SmsMessage) (s s' : S)
      → IsStorable msg
      → protocol msg s ≡ done (Code.success, s')
      → send_bytes protocol (sms_bytes msg) (done s) ≡ (done s', Code.success)
  unfolding send_bytes
  send_bytes-sms_bytes msg s s' ok sent = rw (sms_of_bytes-sms_bytes msg ok, sent, send_bytes) refl

  handed-sms_bytes :
      (sv : Storage.Services) (msg : SmsMessage) (s s' : S)
      → IsStorable msg
      → protocol msg s ≡ done (Code.success, s')
      → handed (with_protocol protocol sv) (sms_bytes msg) (done s) ≡ (done s', Code.success)
  unfolding sms_bytes
  handed-sms_bytes sv msg s s' ok sent = send_bytes-sms_bytes msg s s' ok sent

  -- One file in the directory of a process, with a message that the process sends on.
  pub on_notify-file :
      (sv : Storage.Services) (d : Disk (with_protocol protocol sv)) (name : List ℕ)
      (msg : SmsMessage) (s s' : S)
      → IsStorable msg
      → ((n : ℕ) → sv.realloc n ≡ true)
      → d.protocol ≡ done s
      → d.readed_file_list ≡ []
      → protocol msg s ≡ done (Code.success, s')
      → on_notify (with_protocol protocol sv) (regular name (sms_bytes msg) ∷ []) d ≡ (
        record d {
          ops = d.ops ++ link incoming incoming_backup name ∷ unlink incoming name ∷ [];
          protocol = done s';
        },
        pos 0,
      )
  on_notify-file sv d name msg s s' ok memory ready fresh sent =
      let given : handed (with_protocol protocol sv) (sms_bytes msg) d.protocol
          ≡ (done s', Code.success) =
        ap (handed (with_protocol protocol sv) (sms_bytes msg)) ready
        ∙ handed-sms_bytes sv msg s s' ok sent in
      on_notify_lem (with_protocol protocol sv) (regular name (sms_bytes msg) ∷ []) d memory
      ∙ rw (given, fresh, append-nil d.ops) refl
