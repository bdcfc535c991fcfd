-- ===== src/Tests/Partners.antt =====
-- The partner of the older protocol, the client for PHP, and the start of a process.
use aka_smsd.Common.{
  ℕ, ◌+◌, ◌*◌, ◌≤◌, ◌<◌, some, length, ◌%◌, ◌^◌, ◌≡◌, refl, arith, true, false, none, drop, List,
  [], ◌∷◌, ◌++◌, take, replicate,
}
use aka_smsd.Common.Int.{ℤ, pos, negsuc}
use aka_smsd.Common.Text.{codes}
use aka_smsd.Sms.{SmsMessage}
use aka_smsd.ChildProtocol.{Services, Cp, waiting, reply_bytes}
use aka_smsd.ChildProtocol.Reads.{serve-IsBroken}
use aka_smsd.ChildProtocol.Session.{on_accept, serve}
use aka_smsd.Common.Decimal.{print_int}
use aka_smsd.Gateway.StartChild.{do_start_child}
use aka_smsd.Gateway.StartChild.Numbers.{do_start_child-do_start_child}
use aka_smsd.Php.{Network, password_packet, message_packet, transmit}
use aka_smsd.Php.Session.{on_accept-message_packet}
use aka_smsd.Tests.Sample.{zixia, zixia-IsText, phone, phone-IsText}

-- Every read fails; what is written is kept.
abbrev broken : Services
broken = record {
  Net = List (List ℕ);
  Disk = List SmsMessage;
  Log = List SmsMessage;
  read = λ net size. (net, negsuc 0, []);
  write = λ net packet. net ++ packet ∷ [];
  write_sms = λ disk from to msg. disk ++ msg ∷ [];
  log_it = λ log msg now. log ++ msg ∷ [];
  malloc = λ size. true;
}

abbrev served : Cp broken
served = record { attached = true; serial = 7; clock = 1000; net = []; disk = []; log = [] }

serve-IsBroken_example : serve broken 1000 3 (replicate 1000 0) served ≡ waiting
serve-IsBroken_example =
    serve-IsBroken broken (λ net. Unit {0}) 1000 3 (replicate 1000 0) served
      (λ net b. ((0, refl), tt)) tt

-- A connection that gives these pieces, each as long as it is asked for, and keeps what is written.
abbrev give : List (List ℕ) × List (List ℕ) → ℤ → (List (List ℕ) × List (List ℕ)) × ℤ × List ℕ
give ([], written) size = (([], written), pos 0, [])
give (piece ∷ pieces, written) size = ((pieces, written), size, piece)

abbrev talking : Services
talking = record {
  Net = List (List ℕ) × List (List ℕ);
  Disk = List SmsMessage;
  Log = List SmsMessage;
  read = give;
  write = λ net packet. (net.0, net.1 ++ packet ∷ []);
  write_sms = λ disk from to msg. disk ++ msg ∷ [];
  log_it = λ log msg now. log ++ msg ∷ [];
  malloc = λ size. true;
}

abbrev packet_of : List ℕ
packet_of = message_packet zixia phone (codes "hello")

abbrev text_piece : List (List ℕ)
text_piece = drop 70 packet_of ∷ []

abbrev message_pieces : List (List ℕ)
message_pieces = take 13 packet_of ∷ take 57 (drop 13 packet_of) ∷ text_piece

abbrev accepted : Cp talking
accepted = record {
  attached = false;
  serial = 7;
  clock = 1000;
  net = (take 13 password_packet ∷ drop 13 password_packet ∷ message_pieces, []);
  disk = [];
  log = [];
}

abbrev network : Network
network = record {
  service = λ port. none;
  host = λ name. none;
  inet_addr = λ name. none;
  protocol = none;
  has_socket = true;
  connects = λ addr port. true;
  malloc = λ size. true;
}

on_accept-message_packet_example :
    (transmit network zixia phone (codes "hello") ≡ some (password_packet ∷ packet_of ∷ [], pos 0))
    × (behind : List ℕ) × (msg : SmsMessage) × (on_accept talking 1 2 [] (replicate 1000 0) accepted
        ≡ serve talking 1 1 (packet_of ++ behind) (record accepted {
          attached = true;
          serial = ((7 + 1) % 2 ^ 32 + 1) % 2 ^ 32;
          net = (
            [],
            reply_bytes 1 (0 ∷ 0 ∷ 0 ∷ 2 ∷ []) 7 0
                ∷ reply_bytes 2 (0 ∷ 0 ∷ 0 ∷ 2 ∷ []) ((7 + 1) % 2 ^ 32) 0
                ∷ [],
          );
          disk = msg ∷ [];
        }))
    × (msg.sender_number ≡ take 15 (codes "11" ++ zixia))
    × (msg.target_number ≡ take 16 phone)
    × (msg.fee_target_number ≡ take 16 phone)
    × (msg.body ≡ codes "hello")
on_accept-message_packet_example =
    on_accept-message_packet network talking accepted (drop 13 password_packet ∷ message_pieces, [])
      (message_pieces, []) (take 57 (drop 13 packet_of) ∷ text_piece, []) (text_piece, []) ([], [])
      0 1 zixia phone (codes "hello") (replicate 1000 0) (λ size. refl) zixia-IsText phone-IsText
      (omega arith) refl refl refl refl refl refl

do_start_child-do_start_child_example :
    ((do_start_child true true true 123 (do_start_child true true true 4567 []).0).1
      ≡ some (pos 4567))
    × (length (print_int (pos 4567)) ≤ length (print_int (pos 123))
        → (do_start_child true true true 9
            (do_start_child true true true 123 (do_start_child true true true 4567 []).0).0).1
          ≡ some (pos 123))
    × (length (print_int (pos 123)) < length (print_int (pos 4567))
        → (k : ℕ) × ((do_start_child true true true 9
              (do_start_child true true true 123 (do_start_child true true true 4567 []).0).0).1
            ≡ some (pos k))
          × (10 * 123 ≤ k))
do_start_child-do_start_child_example =
    do_start_child-do_start_child 4567 123 9 (omega arith) (omega arith) (omega arith)
