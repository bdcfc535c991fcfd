-- ===== src/Demo/Rounds.antt =====
-- One round of the daemon, for each kind of request.
use aka_smsd.Common.{
  ℕ, ◌<◌, ◌≡◌, refl, sym, ap, ◌∙◌, arith, true, List, ◌++◌, length, drop, drop-append, subst,
  get_or,
}
use aka_smsd.Common.Text.{c_str}
use aka_smsd.Operator.Words.{word_bytes, read_word, read_word-word_bytes}
use aka_smsd.Client.{System}
use aka_smsd.Demo.{
  by_type, serve_request, Shm, Request, reg, unreg, check, bbs_send, copied, bbs_header, has_room,
  head_of, body_of, getbuf, Daemon, next_sn, pid_of, serve_reg, serve_unreg, serve_check,
  serve_send,
}
use aka_smsd.Demo.Queue.{
  IsRequest, pass_on, length-copied, c_str-copied, c_str-copied_last, two_fields, rooms_of_check,
  rooms_of_send, pid_of-bbs_header, drop_two, drop_three, length-head_of, length-body_of,
  CopiesForwards, getbuf_lem,
}

module _ (sys : System) where
  -- What one round leaves of a request in front of the queue.
  abbrev pub IsServed : Daemon sys → Request → List ℕ → Daemon sys → Type 0
  IsServed d r rest d' =
      (d'.shm ≡ record d.shm { queue = rest })
      × (d'.sn ≡ next_sn d.sn)
      × (d'.client ≡ pass_on sys (next_sn d.sn) r d.client)

  serve_reg_lem :
      (d : Daemon sys) (left : ℕ → ℕ) (pid : ℕ) (phone id rest : List ℕ)
      → CopiesForwards sys
      → d.h ≡ bbs_header left 1 pid 31
      → d.shm.queue ≡ body_of left (reg pid phone id) ++ rest
      → has_room (reg pid phone id) ≡ true
      → IsRequest (reg pid phone id)
      → IsServed d (reg pid phone id) rest (serve_reg sys d)
  unfolding serve_reg body_of has_room
  serve_reg_lem d left pid phone id rest forwards header queue room (small, text, text') =
      let a : length phone < 17 = ground arith in
      let body : List ℕ = copied left 16 17 phone ++ copied left 33 14 id in
      let got : getbuf sys 31 d.h1 d.shm ≡ (body, record d.shm { queue = rest }) =
        getbuf_lem sys 31 d.h1 body rest d.shm forwards (two_fields left phone id room) queue in
      let number : pid_of d.h ≡ pid = ap pid_of header ∙ pid_of-bbs_header left 1 pid 31 small in
      let first : c_str body ≡ phone = c_str-copied left 16 17 phone (copied left 33 14 id) text in
      let second : c_str (drop 17 body) ≡ id =
        ap c_str (
          drop-append 17 (copied left 16 17 phone) (copied left 33 14 id)
            (length-copied left 16 17 phone a))
        ∙ c_str-copied_last left 33 14 id text' in
      (rw got refl, refl, rw (got, number, first, second) refl)

  serve_unreg_lem :
      (d : Daemon sys) (left : ℕ → ℕ) (pid : ℕ) (phone id rest : List ℕ)
      → CopiesForwards sys
      → d.h ≡ bbs_header left 3 pid 31
      → d.shm.queue ≡ body_of left (unreg pid phone id) ++ rest
      → has_room (unreg pid phone id) ≡ true
      → IsRequest (unreg pid phone id)
      → IsServed d (unreg pid phone id) rest (serve_unreg sys d)
  unfolding serve_unreg body_of has_room
  serve_unreg_lem d left pid phone id rest forwards header queue room (small, text, text') =
      let a : length phone < 17 = ground arith in
      let body : List ℕ = copied left 16 17 phone ++ copied left 33 14 id in
      let got : getbuf sys 31 d.h4 d.shm ≡ (body, record d.shm { queue = rest }) =
        getbuf_lem sys 31 d.h4 body rest d.shm forwards (two_fields left phone id room) queue in
      let number : pid_of d.h ≡ pid = ap pid_of header ∙ pid_of-bbs_header left 3 pid 31 small in
      let first : c_str body ≡ phone = c_str-copied left 16 17 phone (copied left 33 14 id) text in
      let second : c_str (drop 17 body) ≡ id =
        ap c_str (
          drop-append 17 (copied left 16 17 phone) (copied left 33 14 id)
            (length-copied left 16 17 phone a))
        ∙ c_str-copied_last left 33 14 id text' in
      (rw got refl, refl, rw (got, number, first, second) refl)

  serve_check_lem :
      (d : Daemon sys) (left : ℕ → ℕ) (pid : ℕ) (phone id code rest : List ℕ)
      → CopiesForwards sys
      → d.h ≡ bbs_header left 2 pid 48
      → d.shm.queue ≡ body_of left (check pid phone id code) ++ rest
      → has_room (check pid phone id code) ≡ true
      → IsRequest (check pid phone id code)
      → IsServed d (check pid phone id code) rest (serve_check sys d)
  unfolding serve_check body_of
  serve_check_lem d left pid phone id code rest forwards header queue room
        (small, text, text', text'') =
      let (a, b, _) = rooms_of_check phone id code (unfold has_room in room) in
      let a' = length-copied left 16 17 phone a in
      let b' = length-copied left 33 14 id b in
      let body : List ℕ =
        copied left 16 17 phone ++ (copied left 33 14 id ++ copied left 47 17 code) in
      let got : getbuf sys 48 d.h2 d.shm ≡ (body, record d.shm { queue = rest }) =
        getbuf_lem sys 48 d.h2 body rest d.shm forwards
          (length-body_of left (check pid phone id code) room) queue in
      let number : pid_of d.h ≡ pid = ap pid_of header ∙ pid_of-bbs_header left 2 pid 48 small in
      let first : c_str body ≡ phone =
        c_str-copied left 16 17 phone (copied left 33 14 id ++ copied left 47 17 code) text in
      let second : c_str (drop 17 body) ≡ id =
        ap c_str (
          drop-append 17 (copied left 16 17 phone) (copied left 33 14 id ++ copied left 47 17 code)
            a')
        ∙ c_str-copied left 33 14 id (copied left 47 17 code) text' in
      let third : c_str (drop 31 body) ≡ code =
        ap c_str (
          drop_two 17 14 (copied left 16 17 phone) (copied left 33 14 id) (copied left 47 17 code)
            a' b')
        ∙ c_str-copied_last left 47 17 code text'' in
      (rw got refl, refl, rw (got, number, first, second, third) refl)

  serve_send_lem :
      (d : Daemon sys) (left : ℕ → ℕ) (pid uid : ℕ) (phone id target content rest : List ℕ)
      → CopiesForwards sys
      → d.h ≡ bbs_header left 4 pid 252
      → d.shm.queue ≡ body_of left (bbs_send pid uid phone id target content) ++ rest
      → has_room (bbs_send pid uid phone id target content) ≡ true
      → IsRequest (bbs_send pid uid phone id target content)
      → IsServed d (bbs_send pid uid phone id target content) rest (serve_send sys d)
  unfolding serve_send body_of
  serve_send_lem d left pid uid phone id target content rest forwards header queue room
        (small, small', text, text', text'', text_4) =
      let (a, b, c, _) = rooms_of_send phone id target content (unfold has_room in room) in
      let a' = length-copied left 20 17 phone a in
      let b' = length-copied left 37 14 id b in
      let c' = length-copied left 51 17 target c in
      let f1 : List ℕ = copied left 20 17 phone in
      let f2 : List ℕ = copied left 37 14 id in
      let f3 : List ℕ = copied left 51 17 target in
      let f4 : List ℕ = copied left 68 200 content in
      let body : List ℕ = word_bytes uid ++ (f1 ++ (f2 ++ (f3 ++ f4))) in
      let got : getbuf sys 252 d.h3 d.shm ≡ (body, record d.shm { queue = rest }) =
        getbuf_lem sys 252 d.h3 body rest d.shm forwards
          (length-body_of left (bbs_send pid uid phone id target content) room) queue in
      let number : pid_of d.h ≡ pid = ap pid_of header ∙ pid_of-bbs_header left 4 pid 252 small in
      let user : read_word body ≡ uid =
        read_word-word_bytes uid (f1 ++ (f2 ++ (f3 ++ f4))) small' in
      let first : c_str (drop 4 body) ≡ phone =
        c_str-copied left 20 17 phone (f2 ++ (f3 ++ f4)) text in
      let second : c_str (drop 21 body) ≡ id =
        ap c_str (drop-append 17 f1 (f2 ++ (f3 ++ f4)) a')
        ∙ c_str-copied left 37 14 id (f3 ++ f4) text' in
      let third : c_str (drop 35 body) ≡ target =
        ap c_str (drop_two 17 14 f1 f2 (f3 ++ f4) a' b')
        ∙ c_str-copied left 51 17 target f4 text'' in
      let fourth : c_str (drop 52 body) ≡ content =
        ap c_str (drop_three 17 14 17 f1 f2 f3 f4 a' b' c')
        ∙ c_str-copied_last left 68 200 content text_4 in
      (rw got refl, refl, rw (got, number, user, first, second, third, fourth) refl)

module _ (sys : System) where
  by_type_lem :
      (d : Daemon sys) (left : ℕ → ℕ) (r : Request) (rest : List ℕ)
      → CopiesForwards sys
      → d.h ≡ head_of left r
      → d.shm.queue ≡ body_of left r ++ rest
      → has_room r ≡ true
      → IsRequest r
      → IsServed sys d r rest (by_type sys (get_or (head_of left r) 0 0) d)
  unfolding by_type head_of
  by_type_lem d left (reg pid phone id) rest forwards header queue room fine =
      serve_reg_lem sys d left pid phone id rest forwards header queue room fine
  by_type_lem d left (unreg pid phone id) rest forwards header queue room fine =
      serve_unreg_lem sys d left pid phone id rest forwards header queue room fine
  by_type_lem d left (check pid phone id code) rest forwards header queue room fine =
      serve_check_lem sys d left pid phone id code rest forwards header queue room fine
  by_type_lem d left (bbs_send pid uid phone id target content) rest forwards header queue room
        fine =
      serve_send_lem sys d left pid uid phone id target content rest forwards header queue room fine

  pub serve_request_lem :
      (d : Daemon sys) (left : ℕ → ℕ) (r : Request) (rest : List ℕ)
      → CopiesForwards sys
      → d.shm.queue ≡ head_of left r ++ (body_of left r ++ rest)
      → has_room r ≡ true
      → IsRequest r
      → IsServed sys d r rest (serve_request sys d)
  unfolding serve_request
  serve_request_lem d left r rest forwards queue room fine =
      let got =
        getbuf_lem sys 16 d.h (head_of left r) (body_of left r ++ rest) d.shm forwards
          (length-head_of left r) queue in
      let step : serve_request sys d
          ≡ by_type sys (get_or (head_of left r) 0 0) (record d {
            shm = record d.shm { queue = body_of left r ++ rest };
            h = head_of left r;
          }) =
        ap
          (λ (got : List ℕ × Shm).
            by_type sys (get_or got.0 0 0) (record d { shm = got.1; h = got.0 }))
          got in
      subst (λ (x : Daemon sys). IsServed sys d r rest x) (sym step)
        (by_type_lem
          (record d { shm = record d.shm { queue = body_of left r ++ rest }; h = head_of left r })
          left r rest forwards refl refl room fine)
