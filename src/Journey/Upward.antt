-- ===== src/Journey/Upward.antt =====
-- The whole way of a message from a phone to the library of a BBS.
use mathlib.Core.List.{Memᴰ}
use aka_smsd.Common.{
  ℕ, ◌+◌, ◌%◌, ◌^◌, ◌≤◌, ◌<◌, ◌≡◌, refl, ap, ◌∙◌, arith, true, some, List, [], ◌∷◌, ◌++◌, length,
  take, drop, take_all,
}
use aka_smsd.Common.Int.{pos, leb_ℤ}
use aka_smsd.Common.Text.{IsText}
use aka_smsd.Common.Code
use aka_smsd.Sms.{SmsMessage, max_child_code_len}
use aka_smsd.Sms.Layout.{sms_bytes}
use aka_smsd.Gateway.Message.{sender_of}
use aka_smsd.Gateway.World.{Env, Gw, done}
use aka_smsd.Gateway.Deliver.{common, get_sms_type, get_target_id, send}
use aka_smsd.Storage
use aka_smsd.Storage.{
  Disk, create, outgoing, regular, link, unlink, incoming, incoming_backup, file_name, on_notify,
}
use aka_smsd.Operator.Dx18
use aka_smsd.Operator.Dx18.{Dx, on_accept}
use aka_smsd.Operator.Dx18.Receiving.{mo_info_bytes}
use aka_smsd.Deliver.{Child, Database, object, get_dest_p2c, bbs_inbox}
use aka_smsd.Deliver.Routes.{Holds, ArePrefixFree, HasNoDot, get_dest-file_name}
use aka_smsd.Client.{System, Client, received, connected}
use aka_smsd.Client.Receive.{sms_reply, sms_get_reply}
use aka_smsd.Client.Messages.{sms_get_reply-gw_send_bytes}
use aka_smsd.Journey.{with_storage, with_protocol, up_packet}
use aka_smsd.Journey.Arrival.{
  sender_of-IsText, Accepts, arrived, IsArrival, arrived_lem, on_accept-file,
}
use aka_smsd.Journey.Handover.{send-common, on_notify-file}

-- The gateway of the BBS that the number belongs to sends the packet.
sent_up :
    (env : Env) (g : Gw env) (gnet : env.Net) (clock user : ℕ) (code phone operator body : List ℕ)
    → length code ≤ max_child_code_len
    → get_sms_type code (sender_of code user) ≡ common
    → get_target_id code (sender_of code user) ≡ user
    → IsArrival clock phone operator (sender_of code user) body
    → g.child_code ≡ code
    → g.connected ≡ true
    → ((n : ℕ) → env.malloc n ≡ true)
    → env.write g.net (up_packet g.serial user phone body)
      ≡ (gnet, pos (length (up_packet g.serial user phone body)))
    → (g' : Gw env) × (send env (arrived clock phone operator (sender_of code user) body) g
        ≡ done (Code.success, g'))
      × (g'.net ≡ gnet)
sent_up env g gnet clock user code phone operator body short kind target a own up memory written =
    let msg : SmsMessage = arrived clock phone operator (sender_of code user) body in
    let (from, to, text, ok) = arrived_lem clock phone operator (sender_of code user) body a in
    send-common env msg user g gnet
      (ap (λ (t : List ℕ). get_sms_type g.child_code t) to
        ∙ ap (λ (k : List ℕ). get_sms_type k (sender_of code user)) own
        ∙ kind)
      (ap (λ (t : List ℕ). get_target_id g.child_code t) to
        ∙ ap (λ (k : List ℕ). get_target_id k (sender_of code user)) own
        ∙ target)
      ok.body_whole (omega (arith, a.body_short, ap length text)) up memory
      (rw (from, text) written)

-- A phone answers, with a text of up to 1000 bytes, to the number in whose name a user of a BBS has
-- sent. Then the whole way works: the operator's process takes the packet and its storage makes one
-- file of it, when the filter finds nothing in it; the process that distributes the files gives a
-- file of this name to exactly this BBS; the BBS's process, when the file comes up in its
-- directory, sends one packet, which it writes whole, and moves the file to the backup; and when
-- these bytes reach the library of the BBS, its caller gets this user's number, the phone and the
-- text as they were. This is so for a table of codes that do not begin one another, a code of at
-- most four characters, a user from 1 below 2 ^ 31, a phone number of at most 16 characters without
-- a dot, a clock and a serial number of 32 bits, and where memory is not lacking, the process has
-- no file left over from before, and what `sms_read` leaves for its caller is not negative.
pub sms_get_reply-on_accept :
    (st : Dx18.Services) (osv gsv : Storage.Services) (env : Env) (db : Database) (sys : System)
    (store : db.Store) (table : List Child) (child : Child) (user : ℕ)
    (s : Dx (with_storage osv st)) (d : Disk (with_protocol (send env) gsv)) (g : Gw env)
    (c : Client sys) (phone operator body head_stale stale : List ℕ) (net net' : st.Net)
    (gnet : env.Net) (n1 n2 : sys.Net)
    → Holds db store table
    → ArePrefixFree table
    → Memᴰ child table
    → IsText child.child_id
    → length child.child_id ≤ max_child_code_len
    → 0 < user
    → user < 2 ^ 31
    → length operator ≡ 4
    → IsText phone
    → HasNoDot phone
    → length phone ≤ 16
    → length body ≤ 1000
    → s.clock < 2 ^ 32
    → st.read s.net (pos 56)
      ≡ (net, pos 56, mo_info_bytes phone operator (sender_of child.child_id user) (length body))
    → st.read net (pos (length body)) ≡ (net', pos (length body), body)
    → Accepts osv s.disk
        (sms_bytes (arrived s.clock phone operator (sender_of child.child_id user) body))
    → ((n : ℕ) → gsv.realloc n ≡ true)
    → d.protocol ≡ done g
    → d.readed_file_list ≡ []
    → g.child_code ≡ child.child_id
    → g.connected ≡ true
    → g.serial < 2 ^ 32
    → ((n : ℕ) → env.malloc n ≡ true)
    → env.write g.net (up_packet g.serial user phone body)
      ≡ (gnet, pos (length (up_packet g.serial user phone body)))
    → connected sys c ≡ true
    → leb_ℤ (pos 0) sys.no_return ≡ true
    → ((n : ℕ) → sys.malloc n ≡ true)
    → sys.read c.net 13 ≡ (n1, received (take 13 (up_packet g.serial user phone body)))
    → sys.read n1 (25 + length body) ≡ (n2, received (drop 13 (up_packet g.serial user phone body)))
    → (name content : List ℕ) × (d' : Disk osv) × (g' : Gw env) × (on_accept (with_storage osv st) s
        ≡ done (pos 0, record s { net = net'; disk = d' }))
      × (d'.ops ≡ s.disk.ops ++ create outgoing name content ∷ [])
      × (get_dest_p2c db store name (object true) ≡ some (object true, bbs_inbox child.child_name))
      × (on_notify (with_protocol (send env) gsv) (regular name content ∷ []) d ≡ (
        record d {
          ops = d.ops ++ link incoming incoming_backup name ∷ unlink incoming name ∷ [];
          protocol = done g';
        },
        pos 0,
      ))
      × (g'.net ≡ gnet)
      × (sms_get_reply sys head_stale stale c
          ≡ (record c { net = n2 }, sms_reply g.serial 0 user phone body))
sms_get_reply-on_accept st osv gsv env db sys store table child user s d g c phone operator body
      head_stale stale net net' gnet n1 n2 holds free inside code_text code_short some_user small
      four phone_text dotless phone_short body_short now first second accepts buffers ready fresh
      own up serial memory written linked fine memory' third fourth =
    let number : List ℕ = sender_of child.child_id user in
    let (number_text, number_short) =
      sender_of-IsText child.child_id user code_text code_short some_user small in
    let a : IsArrival s.clock phone operator (sender_of child.child_id user) body = record {
      now = now;
      four = four;
      phone_text = phone_text;
      phone_short = phone_short;
      number_text = number_text;
      number_short = omega (arith, number_short);
      body_short = body_short;
    } in
    let msg : SmsMessage = arrived s.clock phone operator number body in
    let name : List ℕ = file_name phone number s.disk.clock ((s.disk.count + 1) % 2 ^ 32) in
    let (from, to, text, ok) = arrived_lem s.clock phone operator number body a in
    let (d', taken, stored) =
      on_accept-file st osv s phone operator number body net net' a first second accepts in
    let (dest, kind, target) =
      get_dest-file_name db store table child user s.disk.clock ((s.disk.count + 1) % 2 ^ 32) phone
        holds free inside code_short some_user small dotless in
    let (g', sent, same_net) =
      sent_up env g gnet s.clock user child.child_id phone operator body code_short kind target a
        own up memory written in
    let shown : SmsMessage = record msg {
      sender_number = phone;
      body_length = length body;
      body = body;
    } in
    (
      name,
      sms_bytes msg,
      d',
      g',
      taken,
      stored,
      dest,
      on_notify-file (send env) gsv d name msg g g' ok buffers ready fresh sent,
      same_net,
      sms_get_reply-gw_send_bytes sys c n1 n2 head_stale stale g.serial user shown serial
            (omega arith) refl (omega arith) phone_text linked fine memory' third fourth
          ∙ ap (λ (p : List ℕ). (record c { net = n2 }, sms_reply g.serial 0 user p body))
              (take_all 16 phone phone_short),
    )
