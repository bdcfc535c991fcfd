-- ===== src/Tests/Services.antt =====
-- The stream, the storage and the library of the BBS at work.
use aka_smsd.Common.{
  ℕ, ◌+◌, ◌≡◌, refl, arith, true, false, List, [], ◌∷◌, some, ◌==◌, if◌then◌else◌, length, take,
  drop,
}
use aka_smsd.Common.Int.{ℤ, pos}
use aka_smsd.Common.Code
use aka_smsd.Common.Text.{codes}
use aka_smsd.Stream.{WriteData, moved, write_timed_out, write_interrupted, write_from, write}
use aka_smsd.Stream.Writing.{IsReported, write-IsReported, write-IsComplete}
use aka_smsd.Storage.{
  link, unlink, incoming, incoming_backup, errors, Entry, regular, not_regular, prepared,
  written_whole, Services, Disk, file_name, on_notify,
}
use aka_smsd.Storage.Incoming.{on_notify_lem}
use aka_smsd.Storage.Outgoing.{init_filter_at, init_filter-AreClose}
use aka_smsd.Client.{System, Client, Received, received, connected_as}
use aka_smsd.Client.Receive.{bind_reply, sms_reply, sms_get_reply, cmd_unregister}
use aka_smsd.Client.Replies.{sms_get_reply-bind_request_bytes}
use aka_smsd.Client.Messages.{sms_get_reply-gw_send_bytes}
use aka_smsd.Gateway.Bind.{bind_request_bytes}
use aka_smsd.Gateway.Deliver.{gw_send_bytes}
use aka_smsd.Tests.Sample.{phone, zixia, bind_zixia, to_gateway, phone-IsText, zixia-IsText}

-- "hello" in two pieces, with a signal between them.
abbrev pieces : List WriteData
pieces = moved 2 ∷ write_interrupted ∷ moved 3 ∷ []

write-IsComplete_example :
    write (codes "hello") pieces
    ≡ some (record { value = pos 5; is_restored = true; bytes = codes "hello" })
write-IsComplete_example =
    write-IsComplete (codes "hello") pieces (omega arith)
      (omega arith, omega arith, (omega arith, omega arith, omega arith))

timed_out_run :
    write (codes "hello") (moved 2 ∷ write_timed_out ∷ [])
    ≡ some (record { value = Code.timeout; is_restored = false; bytes = codes "he" })
unfolding write write_from
timed_out_run = refl

write-IsReported_example :
    IsReported
      (codes "hello")
      (record { value = Code.timeout; is_restored = false; bytes = codes "he" })
write-IsReported_example =
    write-IsReported (codes "hello") (moved 2 ∷ write_timed_out ∷ [])
      (record { value = Code.timeout; is_restored = false; bytes = codes "he" }) (omega arith, tt)
      timed_out_run

-- A protocol that counts its messages and refuses the ones that begin with "x".
abbrev judge : List ℕ → ℕ → ℕ × ℤ
judge [] n = (n + 1, Code.success)
judge (c ∷ s) n = (n + 1, if c == b'x' then Code.error else Code.success)

abbrev pub services : Services
services = record {
  Protocol = ℕ;
  Patterns = Unit {0};
  send = judge;
  mgrep_str = λ buf patterns. pos 0;
  badword = λ time. some tt;
  write_result = λ name. written_whole;
  realloc = λ size. true;
}

abbrev pub disk : Disk services
disk = record {
  readed_file_list = [];
  count = 4;
  filter_time = 900;
  filter_buf = prepared tt;
  clock = 1000;
  ops = [];
  protocol = 0;
}

abbrev files : List Entry
files = not_regular ∷ regular (codes "a") (codes "hello") ∷ regular (codes "b") (codes "xyz") ∷ []

on_notify_lem_example : on_notify services files disk ≡ (
  record disk {
    ops =
        link incoming errors (codes "b")
        ∷ unlink incoming (codes "b")
        ∷ link incoming incoming_backup (codes "a")
        ∷ unlink incoming (codes "a")
        ∷ [];
    protocol = 2;
  },
  pos 0,
)
on_notify_lem_example = on_notify_lem services files disk (λ n. refl)

abbrev outgoing_name : List ℕ
outgoing_name = file_name (codes "88") phone 1000 5

init_filter-AreClose_example :
    (init_filter_at services (1400 ∷ 1900 ∷ 2500 ∷ []) disk).filter_buf ≡ prepared tt
init_filter-AreClose_example =
    init_filter-AreClose services (1400 ∷ 1900 ∷ 2500 ∷ []) disk
      (omega arith, (omega arith, (omega arith, tt)))

-- What the library reads, one result after the other.
abbrev take_next : List Received → ℕ → List Received × Received
take_next [] size = ([], received [])
take_next (r ∷ rs) size = (rs, r)

abbrev pub system : System
system = record {
  Net = List Received;
  connect = λ net address port. (net, connected_as 3);
  write = λ net bytes. (net, pos (length bytes));
  read = take_next;
  close = λ net fd. net;
  malloc = λ size. true;
  no_return = pos 13;
  copy_down = λ n bytes. drop n bytes;
}

abbrev pub hearing : List ℕ → Client system
hearing packet = record {
  sockfd = pos 3;
  net = received (take 13 packet) ∷ received (drop 13 packet) ∷ [];
}

sms_get_reply-bind_request_bytes_example :
    sms_get_reply system [] [] (hearing (bind_request_bytes bind_zixia))
    ≡ (record { sockfd = pos 3; net = [] }, bind_reply 7 0 cmd_unregister zixia phone)
sms_get_reply-bind_request_bytes_example =
    sms_get_reply-bind_request_bytes system (hearing (bind_request_bytes bind_zixia))
      (received (drop 13 (bind_request_bytes bind_zixia)) ∷ []) [] [] [] bind_zixia (omega arith)
      zixia-IsText phone-IsText refl refl refl refl refl

sms_get_reply-gw_send_bytes_example :
    sms_get_reply system [] [] (hearing (gw_send_bytes 7 42 (to_gateway (codes "hello"))))
    ≡ (record { sockfd = pos 3; net = [] }, sms_reply 7 0 42 phone (codes "hello"))
sms_get_reply-gw_send_bytes_example =
    sms_get_reply-gw_send_bytes system (hearing (gw_send_bytes 7 42 (to_gateway (codes "hello"))))
      (received (drop 13 (gw_send_bytes 7 42 (to_gateway (codes "hello")))) ∷ []) [] [] [] 7 42
      (to_gateway (codes "hello")) (omega arith) (omega arith) refl (omega arith) phone-IsText refl
      refl (λ n. refl) refl refl
