-- ===== src/Php/Session.antt =====
-- What the two packets of `sendsms` are to the gateway's child protocol.
use aka_smsd.Common.{
  some, drop, ◌≤◌, ℕ, ◌+◌, ◌%◌, ◌^◌, ◌<◌, ◌≡◌, refl, ap, ◌∙◌, arith, true, List, [], ◌∷◌, ◌++◌,
  length, take, take_all, length-take, append_assoc, zero, suc,
}
use aka_smsd.Common.Int.{pos}
use aka_smsd.Common.Text.{IsText, codes, field}
use aka_smsd.Wire.{sms_long_to_byte_by_shifts, long_to_byte-by_shifts}
use aka_smsd.Sms.{SmsMessage}
use aka_smsd.ChildProtocol.{Services, Cp, done, reply_bytes, do_message}
use aka_smsd.ChildProtocol.Messages.{send_message_bytes, do_message-send_message_bytes}
use aka_smsd.ChildProtocol.Session.{serve, on_accept}
use aka_smsd.Php.{Network, password_packet, message_packet, transmit}
use aka_smsd.Php.Login.{on_accept-password_packet}
use aka_smsd.Php.Message.{serve-message_packet}

IsText-append : (s t : List ℕ) → IsText s → IsText t → IsText (s ++ t)
IsText-append [] t h k = k
IsText-append (c ∷ s) t h k = (h.0, IsText-append s t h.1 k)

IsText-take : (n : ℕ) (s : List ℕ) → IsText s → IsText (take n s)
IsText-take zero s h = tt
IsText-take (suc n) [] h = tt
IsText-take (suc n) (c ∷ s) h = (h.0, IsText-take n s h.1)

regroup :
    (a b c l body rest : List ℕ)
    → (a ++ (b ++ (c ++ (0 ∷ 0 ∷ (l ++ body))))) ++ rest
      ≡ a ++ (b ++ (c ++ (0 ∷ 0 ∷ (l ++ (body ++ rest)))))
regroup a b c l body rest = simp append_assoc

message_packet_lem :
    (id target content rest : List ℕ)
    → length content < 2 ^ 32
    → message_packet id target content ++ rest
      ≡ send_message_bytes 0 0 0 2 0 0 (take 15 (codes "11" ++ id)) target target content rest
unfolding message_packet sms_long_to_byte_by_shifts
message_packet_lem id target content rest small =
    ap (λ (l : List ℕ). 0 ∷ 0 ∷ 0 ∷ 0 ∷ 2 ∷ 0 ∷ 0 ∷ 0 ∷ 57 ∷ 0 ∷ 0 ∷ 0 ∷ 0 ∷ l)
      (regroup (field 16 (take 15 (codes "11" ++ id))) (field 16 target) (field 16 target)
          (sms_long_to_byte_by_shifts (length content)) content rest
        ∙ ap
            (λ (l : List ℕ).
              field 16 (take 15 (codes "11" ++ id))
              ++ (field 16 target ++ (field 16 target ++ (0 ∷ 0 ∷ (l ++ (content ++ rest))))))
            (long_to_byte-by_shifts (length content) small))

do_message-message_packet :
    (sv : Services) (s : Cp sv) (id target content rest : List ℕ)
    → IsText id
    → IsText target
    → length content < 2 ^ 32
    → sv.malloc 18 ≡ true
    → (msg : SmsMessage) × (do_message sv (message_packet id target content ++ rest) s
        ≡ done (record s {
          serial = ((s.serial + 1) % 2 ^ 32 + 1) % 2 ^ 32;
          net =
              sv.write
                (sv.write s.net (reply_bytes 1 (0 ∷ 0 ∷ 0 ∷ 2 ∷ []) s.serial 0))
                (reply_bytes 2 (0 ∷ 0 ∷ 0 ∷ 2 ∷ []) ((s.serial + 1) % 2 ^ 32) 0);
          disk = sv.write_sms s.disk (take 15 (codes "11" ++ id)) (take 16 target) msg;
        }))
      × (msg.sender_number ≡ take 15 (codes "11" ++ id))
      × (msg.target_number ≡ take 16 target)
      × (msg.fee_target_number ≡ take 16 target)
      × (msg.body ≡ content)
do_message-message_packet sv s id target content rest id_text target_text small memory =
    let sender : List ℕ = take 15 (codes "11" ++ id) in
    let sender_text : IsText (take 15 (codes "11" ++ id)) =
      IsText-take 15 (codes "11" ++ id)
        (IsText-append (codes "11") id (omega arith, (omega arith, tt)) id_text) in
    let (msg, run, from, to, fee, body, size) =
      do_message-send_message_bytes sv s 0 0 0 2 0 0 sender target target content rest sender_text
        target_text target_text small memory in
    let short : take 16 (take 15 (codes "11" ++ id)) ≡ take 15 (codes "11" ++ id) =
      take_all 16 (take 15 (codes "11" ++ id)) (omega (arith, length-take 15 (codes "11" ++ id))) in
    (
      msg,
      ap (λ (buf : List ℕ). do_message sv buf s) (message_packet_lem id target content rest small)
          ∙ run
          ∙ ap
              (λ (number : List ℕ). done (record s {
                serial = ((s.serial + 1) % 2 ^ 32 + 1) % 2 ^ 32;
                net =
                    sv.write (sv.write s.net (reply_bytes 1 (0 ∷ 0 ∷ 0 ∷ 2 ∷ []) s.serial 0))
                      (reply_bytes 2 (0 ∷ 0 ∷ 0 ∷ 2 ∷ []) ((s.serial + 1) % 2 ^ 32) 0);
                disk = sv.write_sms s.disk number (take 16 target) msg;
              }))
              short,
      from ∙ short,
      to,
      fee,
      body,
    )

-- `sendsms` at the child protocol: the two packets that it writes come in from a new connection as
-- the reads ask for them, 13 and 70 bytes of the first, 13 and 57 and the text of the second. Then
-- `OnAccept` takes the first as a login and goes on to its loop, whose first round hands the text
-- to the storage exactly once, as a message from the number 11 followed by the id, cut to 15
-- characters, to the first 16 characters of the target, which also pays; writes the answers SMR and
-- SMS, both with the code 0, under the packet's serial number 2; and goes on to the next packet,
-- attached to the connection and with everything else as it was. This is for texts as id and
-- target, a text of at most 930 bytes, which the buffer has room for, memory for the packets, a
-- storage without messages for the partner, and any content of the buffer before.
pub on_accept-message_packet :
    (net : Network) (sv : Services) (s : Cp sv) (n1 n2 n3 n4 n5 : sv.Net) (tries rounds : ℕ)
    (id target content buf : List ℕ)
    → ((n : ℕ) → net.malloc n ≡ true)
    → IsText id
    → IsText target
    → length content ≤ 930
    → sv.malloc 18 ≡ true
    → sv.read s.net (pos 13) ≡ (n1, pos 13, take 13 password_packet)
    → sv.read n1 (pos 70) ≡ (n2, pos 70, drop 13 password_packet)
    → sv.read n2 (pos 13) ≡ (n3, pos 13, take 13 (message_packet id target content))
    → sv.read n3 (pos 57) ≡ (n4, pos 57, take 57 (drop 13 (message_packet id target content)))
    → sv.read n4 (pos (length content))
      ≡ (n5, pos (length content), drop 70 (message_packet id target content))
    → (transmit net id target content
        ≡ some (password_packet ∷ message_packet id target content ∷ [], pos 0))
      × (behind : List ℕ) × (msg : SmsMessage) × (on_accept sv (suc tries) (suc rounds) [] buf s
          ≡ serve sv (suc tries) rounds (message_packet id target content ++ behind) (record s {
            attached = true;
            serial = ((s.serial + 1) % 2 ^ 32 + 1) % 2 ^ 32;
            net =
                sv.write
                  (sv.write n5 (reply_bytes 1 (0 ∷ 0 ∷ 0 ∷ 2 ∷ []) s.serial 0))
                  (reply_bytes 2 (0 ∷ 0 ∷ 0 ∷ 2 ∷ []) ((s.serial + 1) % 2 ^ 32) 0);
            disk = sv.write_sms s.disk (take 15 (codes "11" ++ id)) (take 16 target) msg;
          }))
      × (msg.sender_number ≡ take 15 (codes "11" ++ id))
      × (msg.target_number ≡ take 16 target)
      × (msg.fee_target_number ≡ take 16 target)
      × (msg.body ≡ content)
unfolding transmit
on_accept-message_packet net sv s n1 n2 n3 n4 n5 tries rounds id target content buf memory id_text
      target_text small room e1 e2 e3 e4 e5 =
    let login = on_accept-password_packet sv s n1 n2 tries (suc rounds) buf e1 e2 in
    let logged_in : Cp sv = record s { attached = true; net = n2 } in
    let (behind, round) =
      serve-message_packet sv logged_in n3 n4 n5 tries rounds id target content
        (password_packet ++ drop 70 (drop 13 buf)) (omega arith) e3 e4 e5 in
    let (msg, run, from, to, fee, body) =
      do_message-message_packet sv (record logged_in { net = n5 }) id target content behind id_text
        target_text (omega arith) room in
    (
      rw (memory (length password_packet), memory (length (message_packet id target content))) refl,
      behind,
      msg,
      login ∙ round _ run,
      from,
      to,
      fee,
      body,
    )
