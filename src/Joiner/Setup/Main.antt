-- ===== src/Joiner/Setup/Main.antt =====
-- `main` of components/joiner/main.go: the set-up, the start of the two loops, and the service.
use streaming_runtime_go.Prelude.{
  Text, codes, Dict, Outcome, ok, Error, Bool, wrap, ◌>>=◌, >>=-eq-ok, ◌≡◌, ◌↔◌, refl, ◌∙◌,
}
use streaming_runtime_go.Extern.{Extern}
use streaming_runtime_go.Service.{serve}
use streaming_runtime_go.Joiner.Setup.{Settings, boot}

-- startInputLoop and startOutputLoop, as main sees them: the goroutine is started.
abbrev pub start_input_loop : Outcome (Unit {0})
start_input_loop = ok tt

abbrev pub start_output_loop : Outcome (Unit {0})
start_output_loop = ok tt

module _ (x : Extern) (is_server_closed : Error → Bool) (start : Outcome (Unit {0})) where
  -- It ends with what it has set up, once the service is closed.
  unfoldable pub main : Dict Text → Outcome (Settings x)
  main env = do
    st ← boot x env
    _ ← wrap (codes "joiner: input loop: ") start_input_loop
    _ ← wrap (codes "joiner: target invoker: ") start_output_loop
    _ ← serve is_server_closed (codes "joiner: starting failed: ") start
    ok st

  -- main ends without an error exactly if its set-up does and its service ends, or is closed.
  pub main-eq-ok :
      (env : Dict Text) (st : Settings x)
      → (main env ≡ ok st) ↔ (
          (boot x env ≡ ok st)
          × (serve is_server_closed (codes "joiner: starting failed: ") start ≡ ok tt))
  unfolding main
  main-eq-ok env st = (
    λ h.
        let (st', p, q) = >>=-eq-ok (boot x env) _ h in
        let (u, r, e) =
          >>=-eq-ok (serve is_server_closed (codes "joiner: starting failed: ") start)
            (λ (u : Unit {0}). ok st') q in
        (p ∙ e, r),
    λ (p, r). rw p (rw r refl),
  )
