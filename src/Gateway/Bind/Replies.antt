-- ===== src/Gateway/Bind/Replies.antt =====
-- Requests and the answers to them.
use aka_smsd.Common.{ℕ, ◌≡◌, ◌≢◌, refl, arith, List, [], ◌∷◌, ◌++◌, none, some}
use aka_smsd.Common.Int.{ℤ}
use aka_smsd.Gateway.Bind.{take_request, do_send_register_msg}
use aka_smsd.Gateway.World.{BindRequest, Env, Gw, done}

-- No waiting request has this serial number.
abbrev pub IsFresh : ℕ → List BindRequest → Type 0
IsFresh sn [] = Unit {0}
IsFresh sn (p ∷ ps) = (p.sn ≢ sn) × IsFresh sn ps

-- A request that was appended under a fresh number is the one found under it, and taking it leaves
-- the others as they were.
pub take_request-append :
    (sn : ℕ) (ps : List BindRequest) (p : BindRequest)
    → IsFresh sn ps
    → p.sn ≡ sn
    → take_request sn (ps ++ p ∷ []) ≡ some (p, ps)
unfolding take_request
take_request-append sn [] p fresh e = ground arith
take_request-append sn (q ∷ ps) p fresh e = ground (arith, take_request-append sn ps p fresh.1 e)

pub take_request-fresh :
    (sn : ℕ) (ps : List BindRequest) → IsFresh sn ps → take_request sn ps ≡ none
unfolding take_request
take_request-fresh sn [] fresh = refl
take_request-fresh sn (q ∷ ps) fresh = ground (arith, take_request-fresh sn ps fresh.1)

module _ (env : Env) where
  -- When no waiting request has the serial number that comes next, a request that
  -- `doSendRegisterMsg` sends waits under this number, and the answer under it takes exactly this
  -- request and leaves the list as it was before.
  pub take_request-do_send_register_msg :
      (s s' : Gw env) (mobile usr : List ℕ) (is_bind : ℕ) (ret : ℤ)
      → IsFresh s.serial s.request_list
      → do_send_register_msg env mobile usr is_bind s ≡ done (ret, s')
      → take_request s.serial s'.request_list
        ≡ some (
          record { sn = s.serial; user_id = usr; mobile_number = mobile; is_bind = is_bind },
          s.request_list,
        )
  unfolding do_send_register_msg
  take_request-do_send_register_msg s s' mobile usr is_bind ret fresh h =
      let p : BindRequest = record {
        sn = s.serial;
        user_id = usr;
        mobile_number = mobile;
        is_bind = is_bind;
      } in
      let appended : s'.request_list ≡ s.request_list ++ p ∷ [] = ground arith in
      rw appended (take_request-append s.serial s.request_list p fresh refl)
