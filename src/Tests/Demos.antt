-- ===== src/Tests/Demos.antt =====
-- Two processes of a BBS and its daemon: one asks for a code for a phone, the other sends a
-- message.
use aka_smsd.Common.{ℕ, ◌≡◌, refl, arith, true, false, List, [], ◌∷◌, ◌++◌, length, ◌==◌}
use aka_smsd.Common.Int.{pos, negsuc}
use aka_smsd.Common.Text.{IsText, codes}
use aka_smsd.Client.{System, connected_as, received}
use aka_smsd.Demo.{Shm, reg, bbs_send, has_room, put_request, do_request, Daemon, processbbs}
use aka_smsd.Demo.Requests.{Post, ArePosted, pass_all, processbbs-do_request}
use aka_smsd.Common.{ℕ, some, none, drop}
use aka_smsd.Common.Int.{◌+ℤ◌, ◌≤ℤ◌}
use aka_smsd.Wire.{sms_long_to_byte}
use aka_smsd.Wire.Cmd
use aka_smsd.Gateway.World.{add_money, Gw, done}
use aka_smsd.Gateway.Link.{reply_bytes}
use aka_smsd.Gateway.Dispatch.{do_send, dispatch_message}
use aka_smsd.Client.Frames.{packet}
use aka_smsd.Journey.Paid.{made, do_send-paid}
use aka_smsd.Demo.{wait_for_result}
use aka_smsd.Demo.Remote.{sigusr1, Remote, process_remote}
use aka_smsd.Demo.Remote.Answers.{signalled, wait_for_result-do_send}
use aka_smsd.Tests.Services.{system, hearing}
use aka_smsd.Tests.Sample.{
  sample, gateway, one_row, confirmed, update, bbs, zixia_key, phone, phone-IsText, friend,
  friend-IsText, zixia, zixia-IsText,
}

-- A connection that takes every packet.
abbrev taking : System
taking = record {
  Net = List (List ℕ);
  connect = λ net address port. (net, connected_as 3);
  write = λ net bytes. (net ++ bytes ∷ [], pos (length bytes));
  read = λ net size. (net, received []);
  close = λ net fd. net;
  malloc = λ size. true;
  no_return = pos 13;
  copy_down = λ n bytes. drop n bytes;
}

-- The semaphore is held at the first look.
abbrev asking : Post
asking = record {
  left = λ i. i;
  busy = λ i. i == 0;
  signals = λ i. pos 1;
  request = reg 77 phone zixia;
}

abbrev sending : Post
sending = record {
  left = λ i. 0;
  busy = λ i. false;
  signals = λ i. pos 0;
  request = bbs_send 78 1234 phone zixia friend (codes "hello");
}

abbrev empty_shm : Shm
empty_shm = record { sem = false; total = 0; queue = [] }

abbrev shm_asking : Shm
shm_asking = record (put_request asking.left asking.request empty_shm) { sem = false }

abbrev shm_sending : Shm
shm_sending = record (put_request sending.left sending.request shm_asking) { sem = false }

posted : ArePosted (asking ∷ sending ∷ []) empty_shm shm_sending
unfolding do_request has_room
posted = (shm_asking, pos 1, refl, refl, (shm_sending, negsuc 0, refl, refl, refl))

abbrev daemon : Daemon taking
daemon = record {
  shm = shm_sending;
  sn = 0;
  h = [];
  h1 = [];
  h2 = [];
  h3 = [];
  h4 = [];
  client = record { sockfd = pos 3; net = [] };
}

hello-IsText : IsText (codes "hello")
hello-IsText = (omega arith, (omega arith, (omega arith, (omega arith, (omega arith, tt)))))

processbbs-do_request_example :
    ((processbbs taking daemon).client
      ≡ pass_all taking 0 (asking ∷ sending ∷ []) (record { sockfd = pos 3; net = [] }))
    × ((processbbs taking daemon).shm ≡ record { sem = false; total = 0; queue = [] })
processbbs-do_request_example =
    processbbs-do_request taking daemon (asking ∷ sending ∷ []) (λ n bytes. refl)
      (
        (omega arith, phone-IsText, zixia-IsText),
        ((omega arith, omega arith, phone-IsText, zixia-IsText, friend-IsText, hello-IsText), tt),
      )
      (omega arith) posted

-- The gateway's answer to the second one, who may send and can pay.
abbrev request : List ℕ
request = packet 2 78 42 zixia phone friend 5 (codes "hello")

abbrev taken : Gw sample
taken = record (gateway (one_row confirmed)) {
  db = update (some zixia_key) (add_money zixia_key (pos 10)) (one_row confirmed);
  disk = (made bbs 1000 42 phone friend (codes "hello") ∷ [], pos 0);
}

enough_money : confirmed.today_money +ℤ pos 10 ≤ℤ confirmed.money_limit
unfolding ◌+ℤ◌
enough_money = omega arith

request_run : do_send sample request (gateway (one_row confirmed)) ≡ done (Cmd.ok, taken)
request_run =
    do_send-paid sample 2 78 42 zixia phone friend (codes "hello") [] (pos 10) [] confirmed taken.db
      taken.disk (gateway (one_row confirmed)) (omega arith) (omega arith) zixia-IsText
      (omega arith) phone-IsText (omega arith) friend-IsText (omega arith) (omega arith) refl
      (λ n. refl) refl refl refl enough_money refl refl

abbrev answer : List ℕ
answer = reply_bytes sample Cmd.ok (sms_long_to_byte 2) (sms_long_to_byte 78)

abbrev waiting_daemon : Remote system
waiting_daemon = record { client = hearing answer; kills = []; saved = [] }

answer_whole : sample.write taken.net answer ≡ ((answer ∷ [], none), pos 13)
unfolding sms_long_to_byte
answer_whole = refl

answer_read : system.read waiting_daemon.client.net 13 ≡ (received [] ∷ [], received answer)
unfolding sms_long_to_byte
answer_read = refl

wait_for_result-do_send_example :
    (dispatch_message sample request 74 (gateway (one_row confirmed))
      ≡ done (pos 0, record taken { net = (answer ∷ [], none) }))
    × (process_remote system [] [] true waiting_daemon
        ≡ done (record waiting_daemon {
          client = record { sockfd = pos 3; net = received [] ∷ [] };
          kills = (78, sigusr1) ∷ [];
        }))
    × (wait_for_result 30 0 (signalled 4 sigusr1) ≡ pos 1)
wait_for_result-do_send_example =
    wait_for_result-do_send sample system 2 78 42 zixia phone friend (codes "hello")
      (gateway (one_row confirmed)) taken waiting_daemon [] [] true Cmd.ok 4 (answer ∷ [], none)
      (received [] ∷ []) (omega arith) (omega arith) (omega arith) request_run (omega arith)
      (omega arith) refl refl answer_whole refl refl answer_read (omega arith)
