-- ===== src/Demo/Requests.antt =====
-- The requests of the processes of a BBS, from the shared memory to the library.
use aka_smsd.Common.{
  ℕ, suc, ◌+◌, ◌<◌, ◌≡◌, refl, sym, ap, ◌∙◌, arith, Bool, true, false, List, [], ◌∷◌, ◌++◌, Option,
  none, some, leb, ◌==◌, ◌||◌, length, length-append, append_assoc, append-nil, Bool-cases, inl,
  inr,
}
use aka_smsd.Common.Int.{ℤ}
use aka_smsd.Client.{System, Client}
use aka_smsd.Demo.{
  Shm, Request, has_room, head_of, body_of, sendtosms, put_request, wait_for_sem, wait_for_result,
  do_request, Daemon, next_sn, serve_request, serve_all, serve_holding, processbbs,
}
use aka_smsd.Demo.Rounds.{serve_request_lem}
use aka_smsd.Demo.Queue.{
  CopiesForwards, IsRequest, pass_on, body_size, length-head_of, length-body_of,
}

-- A process of the BBS: what its stack holds, what it sees of the semaphore and of the signals, and
-- its request.
pub record Post : Type 0 where
  pub left : ℕ → ℕ
  pub busy : ℕ → Bool
  pub signals : ℕ → ℤ
  pub request : Request

abbrev queue_of : List Post → List ℕ
queue_of [] = []
queue_of (p ∷ ps) = head_of p.left p.request ++ (body_of p.left p.request ++ queue_of ps)

abbrev pub size_of : List Post → ℕ
size_of [] = 0
size_of (p ∷ ps) = 16 + body_size p.request + size_of ps

abbrev pub AreRequests : List Post → Type 0
AreRequests [] = Unit {0}
AreRequests (p ∷ ps) = IsRequest p.request × AreRequests ps

abbrev HaveRoom : List Post → Type 0
HaveRoom [] = Unit {0}
HaveRoom (p ∷ ps) = (has_room p.request ≡ true) × HaveRoom ps

-- Each of them in turn finds the semaphore free within its five looks, and puts its request in.
abbrev pub ArePosted : List Post → Shm → Shm → Type 0
ArePosted [] m m' = m ≡ m'
ArePosted (p ∷ ps) m m' =
    (next : Shm) × (ret : ℤ) × (wait_for_sem 5 0 p.busy ≡ true)
    × (do_request p.left p.busy p.signals p.request m ≡ some (next, ret))
    × ArePosted ps next m'

-- The calls of the library for them, under one serial number after the other.
abbrev pub pass_all : (sys : System) → ℕ → List Post → Client sys → Client sys
pass_all sys sn [] c = c
pass_all sys sn (p ∷ ps) c = pass_all sys (next_sn sn) ps (pass_on sys (next_sn sn) p.request c)

put_request_lem :
    (left : ℕ → ℕ) (r : Request) (m : Shm)
    → has_room r ≡ true
    → length m.queue + (16 + body_size r) < 51200
    → put_request left r m ≡ record {
      sem = true;
      total = m.total + 1;
      queue = m.queue ++ (head_of left r ++ body_of left r);
    }
unfolding put_request sendtosms
put_request_lem left r m room small =
    let size = length-head_of left r in
    let size' = length-body_of left r room in
    let first : leb 51200 (length m.queue + length (head_of left r)) ≡ false =
      ground (arith, size) in
    let second : leb 51200 (length (m.queue ++ head_of left r) + length (body_of left r)) ≡ false =
      ground (arith, size, size', length-append m.queue (head_of left r)) in
    rw (first, second, append_assoc m.queue (head_of left r) (body_of left r)) refl

abbrev memory_of : Shm → Option (Shm × ℤ) → Shm
memory_of m none = m
memory_of m (some r) = r.0

do_request_lem :
    (p : Post) (m next : Shm) (ret : ℤ)
    → wait_for_sem 5 0 p.busy ≡ true
    → do_request p.left p.busy p.signals p.request m ≡ some (next, ret)
    → (has_room p.request ≡ true) × (next ≡ record (put_request p.left p.request m) { sem = false })
unfolding do_request
do_request_lem p m next ret free e = elim (Bool-cases (has_room p.request)) [
  | inl room ↦
      (let put : do_request p.left p.busy p.signals p.request m
            ≡ some (
              record (put_request p.left p.request m) { sem = false },
              wait_for_result 30 0 p.signals,
            ) =
          rw (room, free) refl in
        (room, ap (memory_of m) (sym e) ∙ ap (memory_of m) put))
  | inr no_room ↦
      (let gone : do_request p.left p.busy p.signals p.request m ≡ none = rw no_room refl in cc)
]

module _ (sys : System) where
  -- What the loop leaves.
  serve_all_lem :
      (ps : List Post) (d : Daemon sys)
      → CopiesForwards sys
      → HaveRoom ps
      → AreRequests ps
      → d.shm.queue ≡ queue_of ps
      → d.shm.total ≡ length ps
      → ((serve_all sys (length ps) d).client ≡ pass_all sys d.sn ps d.client)
        × ((serve_all sys (length ps) d).shm.queue ≡ [])
        × ((serve_all sys (length ps) d).shm.total ≡ 0)
  unfolding serve_all
  serve_all_lem [] d forwards rooms fine queue total = (refl, queue, total)
  serve_all_lem (p ∷ ps) d forwards (room, rooms) (is_request, fine) queue total =
      let d1 : Daemon sys = record d { shm = record d.shm { total = length ps } } in
      let (shm, sn, client) =
        serve_request_lem sys d1 p.left p.request (queue_of ps) forwards queue room is_request in
      let (calls, empty, none_left) =
        serve_all_lem ps (serve_request sys d1) forwards rooms fine (ap (λ (m : Shm). m.queue) shm)
          (ap (λ (m : Shm). m.total) shm) in
      (
        calls
            ∙ ap (λ (n : ℕ). pass_all sys n ps (serve_request sys d1).client) sn
            ∙ ap (pass_all sys (next_sn d.sn) ps) client,
        empty,
        none_left,
      )

-- What the requests leave in the memory.
posts_lem :
    (ps : List Post) (m m' : Shm)
    → m.sem ≡ false
    → length m.queue + size_of ps < 51200
    → ArePosted ps m m'
    → HaveRoom ps
      × (m'.sem ≡ false)
      × (m'.total ≡ m.total + length ps)
      × (m'.queue ≡ m.queue ++ queue_of ps)
posts_lem [] m m' free small same = (
  tt,
  ap (λ (k : Shm). k.sem) (sym same) ∙ free,
  ap (λ (k : Shm). k.total) (sym same) ∙ omega arith,
  ap (λ (k : Shm). k.queue) (sym same) ∙ sym (append-nil m.queue),
)
posts_lem (p ∷ ps) m m' free small (next, ret, look, e, rest) =
    let (room, after) = do_request_lem p m next ret look e in
    let size = length-head_of p.left p.request in
    let size' = length-body_of p.left p.request room in
    let bytes : List ℕ = head_of p.left p.request ++ body_of p.left p.request in
    let put : next ≡ record { sem = false; total = m.total + 1; queue = m.queue ++ bytes } =
      after
      ∙ ap (λ (k : Shm). record k { sem = false })
          (put_request_lem p.left p.request m room (omega arith)) in
    let queue : next.queue ≡ m.queue ++ bytes = ap (λ (k : Shm). k.queue) put in
    let total : next.total ≡ m.total + 1 = ap (λ (k : Shm). k.total) put in
    let fits : length next.queue + size_of ps < 51200 = rw queue (
      omega (
        arith,
        length-append m.queue bytes,
        length-append (head_of p.left p.request) (body_of p.left p.request),
        size,
        size',
      )) in
    let (rooms, sem', total', queue') =
      posts_lem ps next m' (ap (λ (k : Shm). k.sem) put) fits rest in
    (
      (room, rooms),
      sem',
      total' ∙ omega (arith, total),
      queue'
          ∙ ap (λ (l : List ℕ). l ++ queue_of ps) queue
          ∙ append_assoc m.queue bytes (queue_of ps)
          ∙ ap (λ (l : List ℕ). m.queue ++ l)
              (append_assoc (head_of p.left p.request) (body_of p.left p.request) (queue_of ps)),
    )

emptied :
    (m : Shm)
    → m.total ≡ 0
    → m.queue ≡ []
    → record m { sem = false } ≡ record { sem = false; total = 0; queue = [] }
emptied m none_left empty = rw (none_left, empty) refl

module _ (sys : System) where
  processbbs_none : (d : Daemon sys) → d.shm.total ≡ 0 → processbbs sys d ≡ d
  unfolding processbbs
  processbbs_none d total = elim (Bool-cases d.shm.sem) [
    | inl held ↦ ground (arith, held)
    | inr free ↦ ground (arith, free, total)
  ]

  processbbs_some :
      (d : Daemon sys) (n : ℕ)
      → d.shm.sem ≡ false
      → d.shm.total ≡ suc n
      → processbbs sys d ≡ serve_holding sys (suc n) d
  unfolding processbbs
  processbbs_some d n free total =
      let goes_on : (d.shm.sem || d.shm.total == 0) ≡ false = ground (arith, free, total) in
      rw goes_on (ap (λ (k : ℕ). serve_holding sys k d) total)

-- Processes of the BBS put their requests into an empty shared memory, each finding the semaphore
-- free, with less than 51200 bytes in all, DWORDs as numbers and strings without a zero that have
-- room in their members. Where `memcpy`, which the daemon calls for areas that overlap, copies from
-- the front on, the daemon's next `processbbs` makes the library's call for each request, in their
-- order and under one serial number after the other, with the numbers and strings that were put in;
-- and the memory is empty and free again.
pub processbbs-do_request :
    (sys : System) (d : Daemon sys) (ps : List Post)
    → CopiesForwards sys
    → AreRequests ps
    → size_of ps < 51200
    → ArePosted ps (record { sem = false; total = 0; queue = [] }) d.shm
    → (processbbs sys d).client ≡ pass_all sys d.sn ps d.client
      × ((processbbs sys d).shm ≡ record { sem = false; total = 0; queue = [] })
unfolding serve_holding
processbbs-do_request sys d [] forwards fine small posted =
    let still = processbbs_none sys d (ap (λ (m : Shm). m.total) (sym posted)) in
    (ap (λ (x : Daemon sys). x.client) still, ap (λ (x : Daemon sys). x.shm) still ∙ sym posted)
processbbs-do_request sys d (p ∷ ps) forwards fine small posted =
    let (rooms, free, total, queue) =
      posts_lem (p ∷ ps) (record { sem = false; total = 0; queue = [] }) d.shm refl (omega arith)
        posted in
    let (calls, empty, none_left) =
      serve_all_lem sys (p ∷ ps) (record d { shm = record d.shm { sem = true } }) forwards rooms
        fine queue (total ∙ omega arith) in
    let run = processbbs_some sys d (length ps) free (total ∙ omega arith) in
    (
      ap (λ (x : Daemon sys). x.client) run ∙ calls,
      ap (λ (x : Daemon sys). x.shm) run
          ∙ emptied
              (serve_all sys (suc (length ps)) (record d { shm = record d.shm { sem = true } })).shm
              none_left empty,
    )
