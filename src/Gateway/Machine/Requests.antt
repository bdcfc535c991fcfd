-- ===== src/Gateway/Machine/Requests.antt =====
-- The waiting requests to bind over the life of a process: their serial numbers are below the next
-- one and ascend, as long as the serial number has not come round.
use aka_smsd.Common.{
  subst, ℕ, ◌+◌, ◌^◌, ◌≤◌, ◌<◌, ◌≡◌, refl, arith, Bool, true, false, List, [], ◌∷◌, ◌++◌, some,
  if◌then◌else◌, Bool-cases, Option-cases, inl, inr, ◌==◌,
}
use aka_smsd.Gateway.Link.{get_serial}
use aka_smsd.Gateway.Bind.{take_request, do_send_register_msg}
use aka_smsd.Gateway.Bind.Replies.{IsFresh}
use aka_smsd.Gateway.World.{BindRequest, Env, Gw, M, ◌>>=◌}
use aka_smsd.Gateway.Machine.Keeps.{Keeps, IsSame, bind-eq-done}

-- The serial numbers ascend, the first one is at least `low`, and all are below `high`.
abbrev pub AreOrdered : ℕ → ℕ → List BindRequest → Type 0
AreOrdered low high [] = low ≤ high
AreOrdered low high (p ∷ ps) = (low ≤ p.sn) × AreOrdered (p.sn + 1) high ps

AreOrdered-append :
    (low high : ℕ) (ps : List BindRequest) (p : BindRequest)
    → AreOrdered low high ps
    → p.sn ≡ high
    → AreOrdered low (high + 1) (ps ++ p ∷ [])
AreOrdered-append low high [] p h e = omega arith
AreOrdered-append low high (q ∷ ps) p h e = (h.0, AreOrdered-append (q.sn + 1) high ps p h.1 e)

AreOrdered-lower :
    (low low' high : ℕ) (ps : List BindRequest)
    → low' ≤ low
    → AreOrdered low high ps
    → AreOrdered low' high ps
AreOrdered-lower low low' high [] l h = omega arith
AreOrdered-lower low low' high (q ∷ ps) l h = (omega arith, h.1)

AreOrdered-raise :
    (low high high' : ℕ) (ps : List BindRequest)
    → high ≤ high'
    → AreOrdered low high ps
    → AreOrdered low high' ps
AreOrdered-raise low high high' [] l h = omega arith
AreOrdered-raise low high high' (q ∷ ps) l h =
    (h.0, AreOrdered-raise (q.sn + 1) high high' ps l h.1)

pub AreOrdered-take_request :
    (sn low high : ℕ) (ps rest : List BindRequest) (p : BindRequest)
    → AreOrdered low high ps
    → take_request sn ps ≡ some (p, rest)
    → AreOrdered low high rest
unfolding take_request
AreOrdered-take_request sn low high [] rest p h e = absurd (cc)
AreOrdered-take_request sn low high (q ∷ ps) rest p h e = elim (Bool-cases (q.sn == sn)) [
  | inl hit ↦
      let rest_is : ps ≡ rest = ground arith in
      subst (AreOrdered low high) rest_is
        (AreOrdered-lower (q.sn + 1) low high ps (omega arith) h.1)
  | inr miss ↦ elim (Option-cases (take_request sn ps)) [
    | inl nothing ↦ absurd (ground arith)
    | inr ((p', qs), found) ↦
        let rest_is : q ∷ qs ≡ rest = ground arith in
        subst (AreOrdered low high) rest_is
          (h.0, AreOrdered-take_request sn (q.sn + 1) high ps qs p' h.1 found)
  ]
]

-- The next serial number is one that no request waits under.
above-IsFresh :
    (low high sn : ℕ) (ps : List BindRequest) → AreOrdered low high ps → high ≤ sn → IsFresh sn ps
above-IsFresh low high sn [] h k = tt
above-IsFresh low high sn (q ∷ ps) h k =
    let below = bounded (q.sn + 1) high ps h.1 in
    ((λ e. omega arith), above-IsFresh (q.sn + 1) high sn ps h.1 k)
  where
    bounded : (low high : ℕ) (ps : List BindRequest) → AreOrdered low high ps → low ≤ high
    bounded low high [] h = h
    bounded low high (q ∷ ps) h = let rest = bounded (q.sn + 1) high ps h.1 in omega arith

pub AreOrdered-IsFresh :
    (low high : ℕ) (ps : List BindRequest) → AreOrdered low high ps → IsFresh high ps
AreOrdered-IsFresh low high ps h = above-IsFresh low high high ps h (omega arith)

module _ {env : Env} where
  -- At most `k` serial numbers are used up, and while they last the order is kept.
  abbrev pub Grows : ℕ → Gw env → Gw env → Type 0
  Grows k s s' =
      s.serial + k < 2 ^ 32
      → AreOrdered 0 s.serial s.request_list
      → (s.serial ≤ s'.serial) × (s'.serial ≤ s.serial + k) × AreOrdered 0 s'.serial s'.request_list

  pub same-Grows : (k : ℕ) (s s' : Gw env) → IsSame s s' → Grows k s s'
  same-Grows k s s' (serial, requests) small ordered =
      (omega arith, omega arith, rw (serial, requests) ordered)

  pub Grows-trans :
      (j k : ℕ) (s s' s'' : Gw env) → Grows j s s' → Grows k s' s'' → Grows (j + k) s s''
  Grows-trans j k s s' s'' first second small ordered =
      let (a, b, c) = first (omega arith) ordered in
      let (a', b', c') = second (omega arith) c in (omega arith, omega arith, c')

  pub Grows-bind :
      {A B : Type 0} (j k : ℕ) (m : M env A) (f : A → M env B)
      → Keeps (Grows j) m
      → ((a : A) → Keeps (Grows k) (f a))
      → Keeps (Grows (j + k)) (m >>= f)
  Grows-bind j k m f h l s s'' b e =
      let (a, s', first, second) = bind-eq-done m f s s'' b e in
      Grows-trans j k s s' s'' (h s s' a first) (l a s' s'' b second)

  pub Keeps-Grows : {A : Type 0} (k : ℕ) (m : M env A) → Keeps IsSame m → Keeps (Grows k) m
  Keeps-Grows k m h s s' a e = same-Grows k s s' (h s s' a e)

  pub Grows-more :
      {A : Type 0} (j k : ℕ) (m : M env A) → j ≤ k → Keeps (Grows j) m → Keeps (Grows k) m
  Grows-more j k m l h s s' a e small ordered =
      let (low, high, ordered') = h s s' a e (omega arith) ordered in (low, omega arith, ordered')

  pub Grows-if :
      {A : Type 0} (k : ℕ) (b : Bool) (m n : M env A)
      → Keeps (Grows k) m
      → Keeps (Grows k) n
      → Keeps (Grows k) (if b then m else n)
  Grows-if k true m n h l = h
  Grows-if k false m n h l = l

module _ (env : Env) where
  pub get_serial-Grows : Keeps (Grows 1) (get_serial env)
  unfolding get_serial
  get_serial-Grows s s' a e small ordered =
      let serial : s'.serial ≡ s.serial + 1 = ground arith in
      let requests : s'.request_list ≡ s.request_list = ground arith in
      (
        omega arith,
        omega arith,
        rw (serial, requests)
            (AreOrdered-raise 0 s.serial (s.serial + 1) s.request_list (omega arith) ordered),
      )

  pub do_send_register_msg-Grows :
      (mobile id : List ℕ) (is_bind : ℕ)
      → Keeps (Grows 1) (do_send_register_msg env mobile id is_bind)
  unfolding do_send_register_msg
  do_send_register_msg-Grows mobile id is_bind s s' a e small ordered =
      let p : BindRequest = record {
        sn = s.serial;
        user_id = id;
        mobile_number = mobile;
        is_bind = is_bind;
      } in
      let serial : s'.serial ≡ s.serial + 1 = ground arith in
      let requests : s'.request_list ≡ s.request_list ++ p ∷ [] = ground arith in
      (
        omega arith,
        omega arith,
        rw (serial, requests) (AreOrdered-append 0 s.serial s.request_list p ordered refl),
      )
