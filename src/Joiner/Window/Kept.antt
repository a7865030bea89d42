-- ===== src/Joiner/Window/Kept.antt =====
-- What happens to the events of a window that gives no rows, and after the context is done.
use streaming_runtime_go.Prelude.{
  ℕ, suc, ◌+◌, ◌≤◌, Text, List, [], ◌∷◌, ◌++◌, Outcome, ok, fail, panic, errorf, codes, ◌>>=◌,
  >>=-eq-ok, true, false, Bool-cases, ◌||◌, inl, inr, is_empty, length, length-append, ◌≡◌, refl,
  sym, ap, ◌∙◌, arith, append-nil, append_assoc, ok-injective,
}
use mathlib.Core.Path.{fun_ext}
use streaming_runtime_go.Extern.{Extern}
use streaming_runtime_go.Joiner.{TopicEvent, events_of, Joiner}
use streaming_runtime_go.Joiner.Rows.{join_streams}
use streaming_runtime_go.Joiner.Rows.Relation.{aggregate_events-join_streams}
use streaming_runtime_go.Joiner.Loops.{
  Signal, event, tick, done, InputLoop, send_rows, input_case, input_step, input_run,
}

module _ (x : Extern) (j : Joiner x) where
  open x use {Value, marshal_list}

  one_empty-fails :
      (xs bs : List (TopicEvent Value))
      → (is_empty xs || is_empty bs) ≡ true
      → join_streams x j xs bs ≡ fail (errorf (codes "empty stream(s): join will be empty") [])
  unfolding join_streams
  one_empty-fails xs bs h = rw h

  -- A tick at which one of the two topics has no event changes nothing: the run goes on as if the
  -- window had not closed, and the events of the other topic are joined in a later window.
  pub input_run_one_sided_tick :
      (ta tb : Text) (more : List Text) (l : InputLoop Value) (signals : List (Signal Value))
      → j.topics ≡ ta ∷ tb ∷ more
      → (is_empty (events_of l.store ta) || is_empty (events_of l.store tb)) ≡ true
      → input_run x j l (tick ∷ signals) ≡ input_run x j l signals
  unfolding input_run input_step input_case
  input_run_one_sided_tick ta tb more l signals topics h = elim (Bool-cases l.running) [
    | inl e ↦
        simp (e, aggregate_events-join_streams x j l.store topics, one_empty-fails _ _ h)
          (unfold send_rows in refl)
    | inr e ↦ simp e refl
  ]

  abbrev pub ticks : List (Signal Value) → ℕ
  ticks [] = 0
  ticks (event e ∷ ss) = ticks ss
  ticks (tick ∷ ss) = suc (ticks ss)
  ticks (done ∷ ss) = ticks ss

  -- What one step adds to the output.
  Adds : InputLoop Value → InputLoop Value → ℕ → Type 0
  Adds l l' n = (out : List Text) × (l'.output ≡ l.output ++ out) × (length out ≤ n)

  Adds-refl : (l : InputLoop Value) (n : ℕ) → Adds l l n
  unfolding Adds
  Adds-refl l n = ([], sym (append-nil l.output), omega arith)

  send_rows-Adds :
      (l l' : InputLoop Value) (m : Outcome Text) → send_rows x j l m ≡ ok l' → Adds l l' 1
  unfolding Adds send_rows
  send_rows-Adds l l' (ok json_data) h =
      (json_data ∷ [], sym (ap (λ (r : InputLoop Value). r.output) (ok-injective h)), omega arith)
  send_rows-Adds l l' (fail e) h = (
    [],
    sym (ap (λ (r : InputLoop Value). r.output) (ok-injective h)) ∙ sym (append-nil l.output),
    omega arith,
  )
  send_rows-Adds l l' (panic t) h = cc

  same_output-Adds : (l l' : InputLoop Value) (n : ℕ) → l'.output ≡ l.output → Adds l l' n
  unfolding Adds
  same_output-Adds l l' n h = ([], h ∙ sym (append-nil l.output), omega arith)

  input_case-Adds :
      (l l' : InputLoop Value) (s : Signal Value)
      → input_case x j l s ≡ ok l'
      → Adds l l' (ticks (s ∷ []))
  unfolding input_case
  input_case-Adds l l' (event e) h =
      same_output-Adds l l' 0 (sym (ap (λ (r : InputLoop Value). r.output) (ok-injective h)))
  input_case-Adds l l' tick h = send_rows-Adds l l' _ h
  input_case-Adds l l' done h =
      same_output-Adds l l' 0 (sym (ap (λ (r : InputLoop Value). r.output) (ok-injective h)))

  input_step-Adds :
      (l l' : InputLoop Value) (s : Signal Value)
      → input_step x j l s ≡ ok l'
      → Adds l l' (ticks (s ∷ []))
  unfolding input_step
  input_step-Adds l l' s h = elim (Bool-cases l.running) [
    | inl e ↦ input_case-Adds l l' s (simp e at h)
    | inr e ↦
        same_output-Adds l l' _
          (sym (ap (λ (r : InputLoop Value). r.output) (ok-injective (simp e at h))))
  ]

  ticks-cons :
      (s : Signal Value) (ss : List (Signal Value)) → ticks (s ∷ ss) ≡ ticks (s ∷ []) + ticks ss
  ticks-cons (event e) ss = omega arith
  ticks-cons tick ss = omega arith
  ticks-cons done ss = omega arith

  -- A run only appends to the output, at most one item for each tick.
  pub input_run-output :
      (l l' : InputLoop Value) (signals : List (Signal Value))
      → input_run x j l signals ≡ ok l'
      → (out : List Text) × (l'.output ≡ l.output ++ out) × (length out ≤ ticks signals)
  unfolding input_run Adds
  input_run-output l l' [] h =
      same_output-Adds l l' (ticks [])
        (sym (ap (λ (r : InputLoop Value). r.output) (ok-injective h)))
  input_run-output l l' (s ∷ ss) h =
      let (m, p, q) = >>=-eq-ok (input_step x j l s) _ h in
      let (out, e, n) = input_step-Adds l m s p in
      let (out', e', n') = input_run-output m l' ss q in
      (
        out ++ out',
        e' ∙ ap (λ o. o ++ out') e ∙ append_assoc l.output out out',
        omega (arith, ticks-cons s ss, length-append out out'),
      )

  stopped :
      (l : InputLoop Value) (ss : List (Signal Value))
      → l.running ≡ false
      → input_run x j l ss ≡ ok l
  unfolding input_run input_step
  stopped l [] h = refl
  stopped l (s ∷ ss) h = simp h (stopped l ss h)

  done_step :
      (l : InputLoop Value)
      → (l' : InputLoop Value) × (input_step x j l done ≡ ok l') × (l'.running ≡ false)
  unfolding input_step input_case
  done_step l = elim (Bool-cases l.running) [
    | inl e ↦ (record l { running = false }, simp e refl, refl)
    | inr e ↦ (l, simp e refl, e)
  ]

  -- Once the context is done the loop ignores every signal.
  pub input_run_done :
      (l : InputLoop Value) (before after : List (Signal Value))
      → input_run x j l (before ++ done ∷ after) ≡ input_run x j l (before ++ done ∷ [])
  unfolding input_run
  input_run_done l [] after =
      let (l', e, r) = done_step l in
      ap (λ m. m >>= λ k. input_run x j k after) e
      ∙ stopped l' after r
      ∙ sym (ap (λ m. m >>= λ k. input_run x j k []) e)
  input_run_done l (s ∷ before) after =
      ap (λ k. input_step x j l s >>= k) (fun_ext λ l'. input_run_done l' before after)
