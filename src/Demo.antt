-- ===== src/Demo.antt =====
-- libbbssms/demo: sendsms.c puts the requests of a BBS into a shared memory, and akasmsd.c takes
-- them out and passes them on to the gateway through libbbssms.
pub mod Queue
pub mod Rounds
pub mod Requests
pub mod Remote
use aka_smsd.Common.{
  ℕ, zero, suc, ◌+◌, ◌-◌, ◌%◌, ◌^◌, Bool, true, false, ◌&&◌, ◌||◌, List, [], ◌∷◌, ◌++◌, Option,
  none, some, ltb, leb, ◌==◌, if◌then◌else◌, length, take, drop, get_or,
}
use aka_smsd.Common.Int.{ℤ, pos, negsuc, ◌==ℤ◌}
use aka_smsd.Common.Text.{c_str}
use aka_smsd.Operator.Words.{word_bytes, read_word}
use aka_smsd.Client.{
  System, Client, sms_send_register_number, sms_check_register_number, sms_un_register,
  sms_send_sms,
}

-- BBS_sms_shm_head and the bytes behind it, up to `length`: no other byte of them is read.
pub record Shm : Type 0 where
  pub sem : Bool
  pub total : ℕ
  pub queue : List ℕ

abbrev pub shm_size : ℕ
shm_size = 51200

-- The bytes that the stack holds at this place.
abbrev pub left_bytes : (ℕ → ℕ) → ℕ → ℕ → List ℕ
left_bytes left i zero = []
left_bytes left i (suc n) = left i ∷ left_bytes left (suc i) n

-- A member of `n` bytes at the offset `i`, after `strcpy` of a string with room in it.
abbrev pub copied : (ℕ → ℕ) → ℕ → ℕ → List ℕ → List ℕ
copied left i n s = s ++ (0 ∷ left_bytes left (i + length s + 1) (n - length s - 1))

-- BBS_header; three bytes of padding and SerialNo are not set.
abbrev pub bbs_header : (ℕ → ℕ) → ℕ → ℕ → ℕ → List ℕ
bbs_header left type pid size = type ∷ (left_bytes left 1 7 ++ (word_bytes pid ++ word_bytes size))

-- `sendtosms`
unfoldable pub sendtosms : List ℕ → Shm → Shm
sendtosms bytes m =
    if leb shm_size (length m.queue + length bytes)
    then m
    else record m { queue = m.queue ++ bytes }

-- A request that a process of the BBS makes, under its number.
pub data Request : Type 0 where
  reg : ℕ → List ℕ → List ℕ → Request
  unreg : ℕ → List ℕ → List ℕ → Request
  check : ℕ → List ℕ → List ℕ → List ℕ → Request
  bbs_send : ℕ → ℕ → List ℕ → List ℕ → List ℕ → List ℕ → Request

-- Whether `strcpy` stays inside of each member.
unfoldable pub has_room : Request → Bool
has_room (reg pid phone id) = ltb (length phone) 17 && ltb (length id) 14
has_room (unreg pid phone id) = ltb (length phone) 17 && ltb (length id) 14
has_room (check pid phone id code) =
    ltb (length phone) 17 && (ltb (length id) 14 && ltb (length code) 17)
has_room (bbs_send pid uid phone id target content) =
    (ltb (length phone) 17 && ltb (length id) 14)
    && (ltb (length target) 17 && ltb (length content) 200)

-- The header and the body of DoReg, DoUnReg, DoCheck and DoSendSMS. `left` is what the stack holds.
unfoldable pub head_of : (ℕ → ℕ) → Request → List ℕ
head_of left (reg pid phone id) = bbs_header left 1 pid 31
head_of left (unreg pid phone id) = bbs_header left 3 pid 31
head_of left (check pid phone id code) = bbs_header left 2 pid 48
head_of left (bbs_send pid uid phone id target content) = bbs_header left 4 pid 252

unfoldable pub body_of : (ℕ → ℕ) → Request → List ℕ
body_of left (reg pid phone id) = copied left 16 17 phone ++ copied left 33 14 id
body_of left (unreg pid phone id) = copied left 16 17 phone ++ copied left 33 14 id
body_of left (check pid phone id code) =
    copied left 16 17 phone ++ (copied left 33 14 id ++ copied left 47 17 code)
body_of left (bbs_send pid uid phone id target content) =
    word_bytes uid
    ++ (copied left 20 17 phone
        ++ (copied left 37 14 id ++ (copied left 51 17 target ++ copied left 68 200 content)))

-- What is done while the semaphore is held.
unfoldable pub put_request : (ℕ → ℕ) → Request → Shm → Shm
unfolding sendtosms head_of body_of
put_request left r m =
    sendtosms (body_of left r)
      (sendtosms (head_of left r) (record m { sem = true; total = m.total + 1 }))

-- The five looks at the semaphore; `busy i` says whether it is held at the look `i`.
unfoldable pub wait_for_sem : ℕ → ℕ → (ℕ → Bool) → Bool
wait_for_sem zero i busy = false
wait_for_sem (suc looks) i busy =
    let rest = wait_for_sem looks (suc i) busy in if busy i then rest else true

-- `wait_for_result` behind `sem=0`: the value that the signals of the second `i` leave, 0 for none.
-- What comes in the last second is not looked at.
unfoldable pub wait_for_result : ℕ → ℕ → (ℕ → ℤ) → ℤ
wait_for_result zero i signals = negsuc 0
wait_for_result (suc seconds) i signals =
    let rest = wait_for_result seconds (suc i) signals in
    if signals i ==ℤ pos 0 then rest else signals i

-- DoReg, DoUnReg, DoCheck and DoSendSMS, with the memory as it is when the semaphore is found free;
-- `none` is a write behind a member.
unfoldable pub do_request : (ℕ → ℕ) → (ℕ → Bool) → (ℕ → ℤ) → Request → Shm → Option (Shm × ℤ)
unfolding wait_for_sem put_request wait_for_result
do_request left busy signals r m =
    if has_room r
    then if wait_for_sem 5 0 busy
      then some (record (put_request left r m) { sem = false }, wait_for_result 30 0 signals)
      else some (m, negsuc 0)
    else none

-- The variables of `processbbs`, and the library with its connection.
pub record Daemon (sys : System) : Type 0 where
  pub shm : Shm
  pub sn : ℕ
  pub h : List ℕ
  pub h1 : List ℕ
  pub h2 : List ℕ
  pub h3 : List ℕ
  pub h4 : List ℕ
  pub client : Client sys

-- `++sn`
abbrev pub next_sn : ℕ → ℕ
next_sn sn = (sn + 1) % 2 ^ 32

abbrev pub pid_of : List ℕ → ℕ
pid_of h = read_word (drop 8 h)

module _ (sys : System) where
  -- `getbuf`: what was in the variable stays where the memory holds too little.
  unfoldable pub getbuf : ℕ → List ℕ → Shm → List ℕ × Shm
  getbuf n old m =
      if ltb (length m.queue) n
      then (old, m)
      else (take n m.queue, record m { queue = sys.copy_down n m.queue })

  unfoldable pub serve_reg : Daemon sys → Daemon sys
  unfolding getbuf
  serve_reg d =
      let (h1, m) = getbuf 31 d.h1 d.shm in
      record d {
        shm = m;
        h1 = h1;
        sn = next_sn d.sn;
        client =
            (sms_send_register_number sys (next_sn d.sn) (pid_of d.h) (c_str h1)
              (c_str (drop 17 h1)) d.client).0;
      }

  unfoldable pub serve_unreg : Daemon sys → Daemon sys
  unfolding getbuf
  serve_unreg d =
      let (h4, m) = getbuf 31 d.h4 d.shm in
      record d {
        shm = m;
        h4 = h4;
        sn = next_sn d.sn;
        client =
            (sms_un_register sys (next_sn d.sn) (pid_of d.h) (c_str h4) (c_str (drop 17 h4))
              d.client).0;
      }

  unfoldable pub serve_check : Daemon sys → Daemon sys
  unfolding getbuf
  serve_check d =
      let (h2, m) = getbuf 48 d.h2 d.shm in
      record d {
        shm = m;
        h2 = h2;
        sn = next_sn d.sn;
        client =
            (sms_check_register_number sys (next_sn d.sn) (pid_of d.h) (c_str h2)
              (c_str (drop 17 h2)) (c_str (drop 31 h2)) d.client).0;
      }

  unfoldable pub serve_send : Daemon sys → Daemon sys
  unfolding getbuf
  serve_send d =
      let (h3, m) = getbuf 252 d.h3 d.shm in
      record d {
        shm = m;
        h3 = h3;
        sn = next_sn d.sn;
        client =
            (sms_send_sms sys (next_sn d.sn) (pid_of d.h) (read_word h3) (c_str (drop 21 h3))
              (c_str (drop 4 h3)) (c_str (drop 35 h3)) (c_str (drop 52 h3)) (pos 0) d.client).0;
      }

  unfoldable pub by_type : ℕ → Daemon sys → Daemon sys
  unfolding serve_reg serve_unreg serve_check serve_send
  by_type type d =
      if type == 1
      then serve_reg d
      else if type == 2
      then serve_check d
      else if type == 4
      then serve_send d
      else if type == 3
      then serve_unreg d
      else d

  -- One round of the loop, behind `total--`.
  unfoldable pub serve_request : Daemon sys → Daemon sys
  unfolding by_type getbuf
  serve_request d =
      let (h, m) = getbuf 16 d.h d.shm in by_type (get_or h 0 0) (record d { shm = m; h = h })

  -- The loop, from this `total`.
  unfoldable pub serve_all : ℕ → Daemon sys → Daemon sys
  serve_all zero d = d
  serve_all (suc total) d =
      serve_all total (serve_request (record d { shm = record d.shm { total = total } }))

  -- The loop under the semaphore.
  unfoldable pub serve_holding : ℕ → Daemon sys → Daemon sys
  unfolding serve_all
  serve_holding total d =
      let served = serve_all total (record d { shm = record d.shm { sem = true } }) in
      record served { shm = record served.shm { sem = false } }

  unfoldable pub processbbs : Daemon sys → Daemon sys
  unfolding serve_holding
  processbbs d = if d.shm.sem || d.shm.total == 0 then d else serve_holding d.shm.total d
