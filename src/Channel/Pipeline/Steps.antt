-- ===== src/Channel/Pipeline/Steps.antt =====
-- Runs of the two goroutines while no event comes: they end, within a bound.
use streaming_runtime_go.Prelude.{
  held, ℕ, suc, ◌+◌, ◌*◌, ◌≤◌, ◌<◌, Text, List, [], ◌∷◌, ◌++◌, Option, none, some, length,
  length-append, ◌≡◌, ap, arith,
}
use streaming_runtime_go.Extern.{Extern}
use streaming_runtime_go.Support.{InvocationEvent}
use streaming_runtime_go.Deliveries.{Delivery}
use streaming_runtime_go.Channel.{Channel}
use streaming_runtime_go.Channel.Loops.{
  State, take_up, Step, process, send, deliver, Reach, stepped,
}

-- Nothing waits and nothing is on its way.
pub record IsDrained (s : State) : Type 0 where
  pub no_input : s.input ≡ []
  pub no_item : s.holding ≡ none
  pub no_output : s.output ≡ []

module _ (x : Extern) (c : Channel x) where
  -- A run of the two goroutines.
  pub data Steps : State → State → Type 0 where
    stay : (s : State) → Steps s s
    more : {s t u : State} → Step x c s t → Steps t u → Steps s u

  pub Reach-Steps :
      {es : List InvocationEvent} {s t : State} → Reach x c es s → Steps s t → Reach x c es t
  Reach-Steps r (stay _) = r
  Reach-Steps r (more st run) = Reach-Steps (stepped r st) run

  -- The actions that are left: three for an event, two for an item in hand, one for an item sent.
  abbrev pub work : State → ℕ
  work s = 3 * length s.input + (2 * length (held s.holding) + length s.output)

  take_up-work :
      (item : Option Text) (e : InvocationEvent) (rest : List InvocationEvent) (s : State)
      → s.input ≡ e ∷ rest
      → s.holding ≡ none
      → work (take_up x c item (record s { input = rest })) < work s
  unfolding take_up
  take_up-work none e rest s i h = omega (arith, ap (λ (l : List InvocationEvent). length l) i)
  take_up-work (some d) e rest s i h = omega (
    arith,
    ap (λ (l : List InvocationEvent). length l) i,
    ap (λ (o : Option Text). length (held o)) h,
  )

  send-work :
      (d : Text) (s : State)
      → s.holding ≡ some d
      → work (record s { holding = none; output = s.output ++ d ∷ [] }) < work s
  send-work d s h =
      omega (arith, length-append s.output (d ∷ []), ap (λ (o : Option Text). length (held o)) h)

  deliver-work :
      (d : Text) (rest : List Text) (ds : List Delivery) (s : State)
      → s.output ≡ d ∷ rest
      → work (record s {
        output = rest;
        delivered = s.delivered ++ d ∷ [];
        deliveries = s.deliveries ++ ds;
      })
        < work s
  deliver-work d rest ds s o = omega (arith, ap (λ (l : List Text). length l) o)

  pub Step-work : {s t : State} → Step x c s t → work t < work s
  Step-work (process s e rest item i h p) = take_up-work item e rest s i h
  Step-work (send s d h b) = send-work d s h
  Step-work (deliver s d rest ds o p) = deliver-work d rest ds s o

  -- How many steps a run has.
  abbrev pub count_steps : {s t : State} → Steps s t → ℕ
  count_steps (stay _) = 0
  count_steps (more st run) = suc (count_steps run)

  -- A run of the two goroutines, while no event comes, has three steps at most for each event that
  -- waits, two for an item in hand and one for each item sent: the work that is left bounds it.
  pub count_steps-le-work : {s t : State} (run : Steps s t) → count_steps run + work t ≤ work s
  count_steps-le-work (stay s) = omega arith
  count_steps-le-work (more st run) = omega (arith, Step-work st, count_steps-le-work run)
