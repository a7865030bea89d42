-- ===== src/Joiner/Pipeline/Simulates.antt =====
-- The joiner's goroutines implement the sequential input loop of Joiner.Loops.
use streaming_runtime_go.Prelude.{
  ◌≤◌, Text, List, [], ◌∷◌, ◌++◌, append_assoc, append-nil, held, Option, none, some, true, ok,
  length, length-append, >>=-eq-ok, ok-injective, ◌≡◌, refl, sym, ap, ◌∙◌, arith,
}
use streaming_runtime_go.Extern.{Extern}
use streaming_runtime_go.Joiner.{EventStore, store_event, reset, Joiner}
use streaming_runtime_go.Joiner.Loops.{
  Signal, event, tick, InputLoop, window_rows, send_rows, input_case, input_step, input_run,
}
use streaming_runtime_go.Joiner.Pipeline.{
  capacity, State, Take, receive, rows, no_rows, Work, send, deliver, Reach, begin, took, worked,
}

-- The sequential loop before its first round.
abbrev pub fresh : {V : Type 0} → EventStore V → InputLoop V
fresh store = record { store = store; output = []; running = true }

module _ (x : Extern) (j : Joiner x) where
  open x use {Value}

  -- The store once the rows in hand are sent.
  abbrev pub settled : Option Text → EventStore Value → EventStore Value
  settled none store = store
  settled (some json_data) store = reset j.topics store

  -- The sequential loop takes the same signals to an end: what it has sent is delivered, queued or in
  -- hand, oldest first, and its store is the joiner's once nothing is in hand.
  pub record Simulates (initial : EventStore Value) (ss : List (Signal Value)) (s : State Value)
      : Type 0 where
    pub last : InputLoop Value
    pub ran : input_run x j (fresh initial) ss ≡ ok last
    pub same_output : s.delivered ++ (s.queue ++ held s.holding) ≡ last.output
    pub same_store : settled s.holding s.store ≡ last.store
    pub is_running : last.running ≡ true
    pub queue_bound : length s.queue ≤ capacity

  input_run_snoc :
      (ss : List (Signal Value)) (sig : Signal Value) (l l' l'' : InputLoop Value)
      → input_run x j l ss ≡ ok l'
      → input_step x j l' sig ≡ ok l''
      → input_run x j l (ss ++ sig ∷ []) ≡ ok l''
  unfolding input_run
  input_run_snoc [] sig l l' l'' h k = rw (ok-injective h) (rw k)
  input_run_snoc (s ∷ ss) sig l l' l'' h k =
      let (m, p, q) = >>=-eq-ok (input_step x j l s) (λ m. input_run x j m ss) h in
      rw p (input_run_snoc ss sig m l' l'' q k)

  -- One round of a loop that runs.
  running_step :
      (l l' : InputLoop Value) (sig : Signal Value)
      → l.running ≡ true
      → input_case x j l sig ≡ ok l'
      → input_step x j l sig ≡ ok l'
  unfolding input_step
  running_step l l' sig r h = simp r h

  Take-Simulates :
      {initial : EventStore Value} {ss : List (Signal Value)} {s t : State Value}
      {sig : Signal Value}
      → Take x j s sig t
      → Simulates initial ss s
      → Simulates initial (ss ++ sig ∷ []) t
  unfolding input_case
  Take-Simulates {ss = ss} (receive s e h) v =
      let l = v.last in
      let l' = record l { store = store_event l.store e } in
      let same : s.store ≡ l.store = simp h at v.same_store in
      record {
        last = l';
        ran =
            input_run_snoc ss (event e) _ l l' v.ran
              (running_step l l' (event e) v.is_running refl);
        same_output = v.same_output;
        same_store = simp h (ap (λ (m : EventStore Value). store_event m e) same);
        is_running = v.is_running;
        queue_bound = v.queue_bound;
      }
  Take-Simulates {ss = ss} (rows s json_data h w) v =
      let l = v.last in
      let l' = record l { store = reset j.topics l.store; output = l.output ++ json_data ∷ [] } in
      let same : s.store ≡ l.store = simp h at v.same_store in
      record {
        last = l';
        ran = input_run_snoc ss tick _ l l' v.ran (
            running_step l l' tick v.is_running (
              ap (send_rows x j l) (ap (window_rows x j) (sym same) ∙ w)
              ∙ unfold send_rows in refl));
        same_output =
            sym (append_assoc s.delivered s.queue (json_data ∷ []))
            ∙ ap (λ (o : List Text). o ++ json_data ∷ []) (simp (h, append-nil) at v.same_output);
        same_store = ap (reset j.topics) same;
        is_running = v.is_running;
        queue_bound = v.queue_bound;
      }
  Take-Simulates {ss = ss} (no_rows s err h w) v =
      let l = v.last in
      let same : s.store ≡ l.store = simp h at v.same_store in
      record {
        last = l;
        ran = input_run_snoc ss tick _ l l v.ran (
            running_step l l tick v.is_running (
              ap (send_rows x j l) (ap (window_rows x j) (sym same) ∙ w)
              ∙ unfold send_rows in refl));
        same_output = v.same_output;
        same_store = v.same_store;
        is_running = v.is_running;
        queue_bound = v.queue_bound;
      }

  Work-Simulates :
      {initial : EventStore Value} {ss : List (Signal Value)} {s t : State Value}
      → Work x j s t
      → Simulates initial ss s
      → Simulates initial ss t
  Work-Simulates (send s json_data h b) v = record {
    last = v.last;
    ran = v.ran;
    same_output = simp append_assoc (simp h at v.same_output);
    same_store = simp h at v.same_store;
    is_running = v.is_running;
    queue_bound = omega (arith, length-append s.queue (json_data ∷ []));
  }
  Work-Simulates (deliver s item rest ds goes_on q o) v = record {
    last = v.last;
    ran = v.ran;
    same_output = simp append_assoc (simp q at v.same_output);
    same_store = v.same_store;
    is_running = v.is_running;
    queue_bound = omega (arith, ap (λ (l : List Text). length l) q, v.queue_bound);
  }

  -- Under every interleaving of the handlers, the input loop and the output loop, the joiner does what
  -- the sequential input loop does with the signals taken: its items are delivered, queued or in hand,
  -- in their order, its store is the same once nothing is in hand, and the channel holds 1024 at most.
  pub Reach-Simulates :
      (initial : EventStore Value) (ss : List (Signal Value)) (s : State Value)
      → Reach x j initial ss s
      → Simulates initial ss s
  unfolding input_run
  Reach-Simulates initial ss s begin = record {
    last = fresh initial;
    ran = refl;
    same_output = refl;
    same_store = refl;
    is_running = refl;
    queue_bound = omega arith;
  }
  Reach-Simulates initial ss s (took {ss = rs} {s = r} sig reach st) =
      Take-Simulates st (Reach-Simulates initial rs r reach)
  Reach-Simulates initial ss s (worked {s = r} reach st) =
      Work-Simulates st (Reach-Simulates initial ss r reach)
