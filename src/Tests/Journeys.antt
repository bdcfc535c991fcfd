-- ===== src/Tests/Journeys.antt =====
-- The phone answers "hello" to the number of user 42 of the BBS, and the user writes to a friend.
use mathlib.Core.List.{Memᴰ}
use aka_smsd.Common.{
  ℕ, ◌≡◌, refl, arith, true, false, none, some, List, [], ◌∷◌, ◌++◌, drop, replicate,
}
use aka_smsd.Common.Int.{pos}
use aka_smsd.Common.Text.{codes, strncpy}
use aka_smsd.Common.Decimal.{print_int, print_digits}
use aka_smsd.Gateway.Message.{sender_of}
use aka_smsd.Gateway.World.{add_money, Gw, done}
use aka_smsd.Gateway.Deliver.{send}
use aka_smsd.Storage.{
  Disk, create, outgoing, regular, link, unlink, incoming, incoming_backup, on_notify, no_filter,
}
use aka_smsd.Operator.Dx18
use aka_smsd.Operator.Dx18.{Dx, on_accept}
use aka_smsd.Operator.Dx18.Receiving.{mo_info_bytes}
use aka_smsd.Deliver.{object, get_dest_p2c, bbs_inbox}
use aka_smsd.Client.{received}
use aka_smsd.Client.Receive.{sms_reply, sms_get_reply}
use aka_smsd.Journey.{with_storage, with_files, with_protocol, up_packet}
use aka_smsd.Journey.Paid.{made}
use aka_smsd.Wire.Cmd
use aka_smsd.Sms.{SmsMessage}
use aka_smsd.Journey.Upward.{sms_get_reply-on_accept}
use aka_smsd.Tests.Sample.{
  sample, gateway, one_row, confirmed, bbs, phone, phone-IsText, Tables, update, zixia_key, friend,
}
use aka_smsd.Tests.Deliveries.{table, tables, tables_hold, table-ArePrefixFree, newsmth}
use aka_smsd.Tests.Services.{services, disk, system, hearing}
use aka_smsd.Tests.Operators.{dx, dx_start}

abbrev from_operator : List (List ℕ)
from_operator = mo_info_bytes phone (codes "5818") (sender_of bbs 42) 5 ∷ codes "hello" ∷ []

abbrev receiving : Dx (with_storage services dx)
receiving = record { net = from_operator; disk = disk; log = []; blocked = true; clock = 1000 }

abbrev gateway_disk : Disk (with_protocol (send sample) services)
gateway_disk = record {
  readed_file_list = [];
  count = 0;
  filter_time = 0;
  filter_buf = no_filter;
  clock = 1000;
  ops = [];
  protocol = done (gateway (one_row confirmed));
}

head_run :
    dx.read from_operator (pos 56)
    ≡ (codes "hello" ∷ [], pos 56, mo_info_bytes phone (codes "5818") (sender_of bbs 42) 5)
unfolding strncpy sender_of print_int print_digits
head_run = refl

sms_get_reply-on_accept_example :
    (name content : List ℕ) × (d' : Disk services) × (g' : Gw sample) × (on_accept
        (with_storage services dx)
        receiving
      ≡ done (pos 0, record receiving { net = []; disk = d' }))
    × (d'.ops ≡ create outgoing name content ∷ [])
    × (get_dest_p2c tables table name (object true)
        ≡ some (object true, bbs_inbox (codes "newsmth")))
    × (on_notify (with_protocol (send sample) services) (regular name content ∷ []) gateway_disk ≡ (
      record gateway_disk {
        ops = link incoming incoming_backup name ∷ unlink incoming name ∷ [];
        protocol = done g';
      },
      pos 0,
    ))
    × (g'.net ≡ (up_packet 7 42 phone (codes "hello") ∷ [], none))
    × (sms_get_reply system [] [] (hearing (up_packet 7 42 phone (codes "hello")))
        ≡ (record { sockfd = pos 3; net = [] }, sms_reply 7 0 42 phone (codes "hello")))
sms_get_reply-on_accept_example =
    sms_get_reply-on_accept dx services services sample tables system table table newsmth 42
      receiving gateway_disk (gateway (one_row confirmed))
      (hearing (up_packet 7 42 phone (codes "hello"))) phone (codes "5818") (codes "hello") [] []
      (codes "hello" ∷ []) [] (up_packet 7 42 phone (codes "hello") ∷ [], none)
      (received (drop 13 (up_packet 7 42 phone (codes "hello"))) ∷ []) [] tables_hold
      table-ArePrefixFree (Memᴰ.tail (Memᴰ.head refl)) (ground arith) (omega arith) (omega arith)
      (omega arith) refl phone-IsText (omega arith) (omega arith) (omega arith) (omega arith)
      head_run refl (refl, λ name. refl) (λ n. refl) refl refl refl refl (omega arith) (λ n. refl)
      refl refl refl (λ n. refl) refl refl

-- The operator's process, and the answer of the operator: success.
abbrev accepted : List ℕ
accepted = replicate 8 0 ++ 1 ∷ replicate 7 0

abbrev sending : Dx dx
sending = dx_start (accepted ∷ [])

abbrev sending_disk : Disk (with_protocol (Dx18.send dx []) services)
sending_disk = record {
  readed_file_list = [];
  count = 0;
  filter_time = 0;
  filter_buf = no_filter;
  clock = 1000;
  ops = [];
  protocol = done sending;
}

abbrev at_work : Gw (with_files services sample)
at_work = record {
  connected = true;
  serial = 7;
  child_code = bbs;
  child_name = codes "newsmth";
  checker_code = bbs;
  default_money_limit = pos 100;
  request_list = [];
  blocked = false;
  clock = 1000;
  db = one_row confirmed;
  disk = disk;
  net = ([], none);
}

abbrev charged : Tables
charged = update (some zixia_key) (add_money zixia_key (pos 10)) (one_row confirmed)

abbrev greeting : SmsMessage
greeting = made bbs 1000 42 phone friend (codes "hello")
