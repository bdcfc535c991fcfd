-- ===== src/Gateway/Machine/Keeps.antt =====
-- Relations between the state before an operation and the state after it, and how they pass
-- through the operations' code.
use aka_smsd.Common.{◌≡◌, refl, ◌∙◌, Bool, true, false, Option, none, some, if◌then◌else◌}
use aka_smsd.Gateway.World.{Env, Gw, Outcome, done, exited, fault, M, ◌>>=◌, pure}

module _ {env : Env} where
  -- Whenever the operation returns, its states before and after are related.
  abbrev pub Keeps : {A : Type 0} → (Gw env → Gw env → Type 0) → M env A → Type 0
  Keeps {A} R m = (s s' : Gw env) (a : A) → m s ≡ done (a, s') → R s s'

  abbrev pub IsSame : Gw env → Gw env → Type 0
  IsSame s s' = (s'.serial ≡ s.serial) × (s'.request_list ≡ s.request_list)

  pub bind-eq-done :
      {A B : Type 0} (m : M env A) (f : A → M env B) (s s'' : Gw env) (b : B)
      → (m >>= f) s ≡ done (b, s'')
      → (a : A) × (s' : Gw env) × (m s ≡ done (a, s')) × (f a s' ≡ done (b, s''))
  bind-eq-done {A} {B} m f s s'' b e = split (m s) refl e
    where
      split :
          (o : Outcome (A × Gw env))
          → m s ≡ o
          → ◌≡◌ {A = Outcome (B × Gw env)}
              (elim o [ done (a, s') ↦ f a s' | exited ↦ exited | fault ↦ fault ])
              (done (b, s''))
          → (a : A) × (s' : Gw env) × (m s ≡ done (a, s')) × (f a s' ≡ done (b, s''))
      split (done (a, s')) k e = (a, s', k, e)
      split exited k e = absurd (cc)
      split fault k e = absurd (cc)

  pub IsSame-bind :
      {A B : Type 0} (m : M env A) (f : A → M env B)
      → Keeps IsSame m
      → ((a : A) → Keeps IsSame (f a))
      → Keeps IsSame (m >>= f)
  IsSame-bind m f h k s s'' b e =
      let (a, s', first, second) = bind-eq-done m f s s'' b e in
      let (u, v) = h s s' a first in let (u', v') = k a s' s'' b second in (u' ∙ u, v' ∙ v)

  pub IsSame-pure : {A : Type 0} (a : A) → Keeps IsSame (pure {env = env} a)
  IsSame-pure a s s' b e = (cc, cc)

  pub IsSame-if :
      {A : Type 0} (b : Bool) (m n : M env A)
      → Keeps IsSame m
      → Keeps IsSame n
      → Keeps IsSame (if b then m else n)
  IsSame-if true m n h k = h
  IsSame-if false m n h k = k

  pub IsSame-option :
      {A B : Type 0} (o : Option B) (m : M env A) (f : B → M env A)
      → Keeps IsSame m
      → ((b : B) → Keeps IsSame (f b))
      → Keeps {A = A} IsSame (elim o [ none ↦ m | some b ↦ f b ])
  IsSame-option none m f h k = h
  IsSame-option (some b) m f h k = k b
