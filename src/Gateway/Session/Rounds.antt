-- ===== src/Gateway/Session/Rounds.antt =====
-- The number of rounds that a session is given.
use aka_smsd.Common.{ℕ, zero, suc, ◌≤◌, ◌≡◌, refl, sym, ◌∙◌, arith, List, Option, none, some}
use aka_smsd.Common.Int.{ℤ}
use aka_smsd.Gateway.Session.{serve_one, serve}
use aka_smsd.Gateway.World.{Env, Gw, Outcome, done, exited, fault}

module _ (env : Env) where
  -- What a round leaves is passed to the rounds that follow it.
  abbrev go_on : ℕ → Outcome ((Option ℤ × List ℕ) × Gw env) → Outcome (Option ℤ × Gw env)
  unfolding serve
  go_on rounds (done ((some ret, buf'), s')) = done (some ret, s')
  go_on rounds (done ((none, buf'), s')) = serve env rounds buf' s'
  go_on rounds exited = exited
  go_on rounds fault = fault

  serve_round :
      (rounds : ℕ) (buf : List ℕ) (s : Gw env) (o : Outcome ((Option ℤ × List ℕ) × Gw env))
      → serve_one env buf s ≡ o
      → serve env (suc rounds) buf s ≡ go_on rounds o
  unfolding serve go_on
  serve_round rounds buf s (done ((some ret, buf'), s')) e = rw (serve, e) refl
  serve_round rounds buf s (done ((none, buf'), s')) e = rw (serve, e) refl
  serve_round rounds buf s exited e = rw (serve, e) refl
  serve_round rounds buf s fault e = rw (serve, e) refl

  go_on_more :
      (rounds more : ℕ) (s' : Gw env) (ret : ℤ) (o : Outcome ((Option ℤ × List ℕ) × Gw env))
      → ((buf : List ℕ) (t : Gw env)
          → serve env rounds buf t ≡ done (some ret, s')
          → serve env more buf t ≡ done (some ret, s'))
      → go_on rounds o ≡ done (some ret, s')
      → go_on more o ≡ done (some ret, s')
  unfolding go_on
  go_on_more rounds more s' ret (done ((some ret', buf'), t)) later g = g
  go_on_more rounds more s' ret (done ((none, buf'), t)) later g = later buf' t g
  go_on_more rounds more s' ret exited later g = cc
  go_on_more rounds more s' ret fault later g = cc

  -- A session that has ended after some number of rounds ends in the same way and in the same state
  -- for every larger number.
  pub serve_more :
      (rounds more : ℕ) (buf : List ℕ) (s s' : Gw env) (ret : ℤ)
      → rounds ≤ more
      → serve env rounds buf s ≡ done (some ret, s')
      → serve env more buf s ≡ done (some ret, s')
  unfolding serve
  serve_more zero more buf s s' ret h e = cc
  serve_more (suc rounds) zero buf s s' ret h e = absurd (omega arith)
  serve_more (suc rounds) (suc more) buf s s' ret h e =
      serve_round more buf s (serve_one env buf s) refl
      ∙ go_on_more rounds more s' ret (serve_one env buf s)
          (λ buf' t g. serve_more rounds more buf' t s' ret (omega arith) g)
          (sym (serve_round rounds buf s (serve_one env buf s) refl) ∙ e)
