-- ===== src/Gateway/Machine/Invariant.antt =====
-- What holds of the waiting requests in every state that a process can reach.
use aka_smsd.Common.{Bool, ℕ, ◌*◌, ◌^◌, ◌≤◌, ◌<◌, ◌≡◌, arith, List, [], some}
use aka_smsd.Common.Int.{ℤ}
use aka_smsd.Gateway.Login.{login_user, login_as}
use aka_smsd.Gateway.Bind.{take_request, do_send_register_msg}
use aka_smsd.Gateway.Bind.Replies.{take_request-do_send_register_msg}
use aka_smsd.Gateway.Dispatch.{dispatch_message}
use aka_smsd.Gateway.World.{Env, Gw, done}
use aka_smsd.Gateway.Machine.{connect, Step, packet, message, login, elsewhere, Reach, start, next}
use aka_smsd.Gateway.Machine.Keeps.{IsSame}
use aka_smsd.Gateway.Machine.Requests.{
  AreOrdered, AreOrdered-IsFresh, Grows, Grows-more, same-Grows,
}
use aka_smsd.Gateway.Machine.Handlers.{send-Grows, dispatch_message-Grows}

module _ (env : Env) where
  login_user-IsSame :
      (s s' : Gw env) (address : ℕ) (user password : List ℕ) (permitted : Bool)
      → login_user env address user password (connect env s) ≡ done (permitted, s')
      → IsSame s s'
  unfolding login_user login_as
  login_user-IsSame s s' address user password permitted e = ground arith

  Step-Grows : {s s' : Gw env} → Step env s s' → Grows 2 s s'
  Step-Grows {s} {s'} (packet buf len ret e) =
      Grows-more 0 2 (dispatch_message env buf len) (omega arith)
        (dispatch_message-Grows env buf len) s s' ret e
  Step-Grows {s} {s'} (message msg ret e) = send-Grows env msg s s' ret e
  Step-Grows {s} {s'} (login address user password permitted e) =
      same-Grows 2 s s' (login_user-IsSame s s' address user password permitted e)
  Step-Grows {s} {s'} (elsewhere clock db disk net e) = same-Grows 2 s s' (cc, cc)

  -- In every state that a process reaches from its start in fewer than 2 ^ 31 steps - packets of
  -- the BBS, messages of phones, logins, changes elsewhere, in any order - the requests to bind
  -- that wait have pairwise different serial numbers, which ascend in the order of the list and are
  -- all below the next one, and at most two serial numbers have been used for each step.
  pub Reach-AreOrdered :
      {n : ℕ} {s : Gw env}
      → Reach env n s
      → 2 * n < 2 ^ 32
      → (s.serial ≤ 2 * n) × AreOrdered 0 s.serial s.request_list
  Reach-AreOrdered {n} {s} (start limit clock db disk net e) small =
      let serial : s.serial ≡ 0 = cc in
      let requests : s.request_list ≡ [] = cc in rw (serial, requests) (omega arith)
  Reach-AreOrdered {n} {s} (next {n = k} {s = before} reached step) small =
      let (low, ordered) = Reach-AreOrdered reached (omega arith) in
      let (_, high, ordered') = Step-Grows step (omega arith) ordered in (omega arith, ordered')

  -- In every state that a process reaches in fewer than 2 ^ 31 steps: a request that
  -- `doSendRegisterMsg` sends waits under the serial number of its packet, and the answer under
  -- that number takes exactly this request and leaves the requests that waited before.
  pub Reach-take_request :
      {n : ℕ} {s : Gw env} (s' : Gw env) (mobile usr : List ℕ) (is_bind : ℕ) (ret : ℤ)
      → Reach env n s
      → 2 * n < 2 ^ 32
      → do_send_register_msg env mobile usr is_bind s ≡ done (ret, s')
      → take_request s.serial s'.request_list
        ≡ some (
          record { sn = s.serial; user_id = usr; mobile_number = mobile; is_bind = is_bind },
          s.request_list,
        )
  Reach-take_request {n} {s} s' mobile usr is_bind ret reached small =
      take_request-do_send_register_msg env s s' mobile usr is_bind ret
        (AreOrdered-IsFresh 0 s.serial s.request_list (Reach-AreOrdered reached small).1)
