-- ===== src/Joiner/Window/Runs.antt =====
-- The input loop implements its abstract view, over every sequence of signals.
use streaming_runtime_go.Prelude.{
  Text, List, [], ◌∷◌, ◌++◌, Outcome, ok, fail, panic, ◌>>=◌, Bool-cases, inl, inr, if◌then◌else◌,
  ◌≡◌, refl, ap, ◌∙◌,
}
use streaming_runtime_go.Extern.{Extern}
use streaming_runtime_go.Joiner.{TopicEvent, EventStore, events_of, Joiner}
use streaming_runtime_go.Joiner.Rows.{aggregate_events, join_streams}
use streaming_runtime_go.Joiner.Rows.Relation.{aggregate_events-join_streams}
use streaming_runtime_go.Joiner.Loops.{
  Signal, event, tick, done, InputLoop, send_rows, input_case, input_step, input_run,
}
use streaming_runtime_go.Joiner.Window.{
  by_topic, Holds, store_event-Holds, reset-Holds, WindowView, view_rows, view_case, view_run,
  Shows, Agree,
}

module _ (x : Extern) (j : Joiner x) (ta tb : Text) (more : List Text)
    (topics : j.topics ≡ ta ∷ tb ∷ more) where
  open x use {Value, marshal_list}

  send_rows-Agree :
      (l : InputLoop Value) (w : WindowView Value) (m : Outcome Text)
      → Shows x j ta tb l w
      → Agree x j ta tb (send_rows x j l m) (view_rows x j ta tb w m)
  unfolding send_rows view_rows
  send_rows-Agree l w (ok json_data) h = record {
    holds = reset-Holds j.topics l.store;
    same_output = ap (λ o. o ++ json_data ∷ []) h.same_output;
    same_running = h.same_running;
  }
  send_rows-Agree l w (fail e) h = h
  send_rows-Agree l w (panic m) h = refl

  rows_agree :
      (s : EventStore Value) (waiting : List (TopicEvent Value))
      → Holds s waiting
      → aggregate_events x j s ≡ join_streams x j (by_topic ta waiting) (by_topic tb waiting)
  rows_agree s waiting h =
      aggregate_events-join_streams x j s topics
      ∙ ap (λ a. join_streams x j a (events_of s tb)) (h ta)
      ∙ ap (λ b. join_streams x j (by_topic ta waiting) b) (h tb)

  input_case-Agree :
      (l : InputLoop Value) (w : WindowView Value) (s : Signal Value)
      → Shows x j ta tb l w
      → Agree x j ta tb (input_case x j l s) (view_case x j ta tb w s)
  unfolding input_case view_case
  input_case-Agree l w (event e) h = record {
    holds = store_event-Holds l.store w.waiting e h.holds;
    same_output = h.same_output;
    same_running = h.same_running;
  }
  input_case-Agree l w tick h = rw (rows_agree l.store w.waiting h.holds) (send_rows-Agree l w _ h)
  input_case-Agree l w done h = record {
    holds = h.holds;
    same_output = h.same_output;
    same_running = refl;
  }

  input_step-Agree :
      (l : InputLoop Value) (w : WindowView Value) (s : Signal Value)
      → Shows x j ta tb l w
      → Agree x j ta tb (input_step x j l s) (if w.is_open then view_case x j ta tb w s else ok w)
  unfolding input_step
  input_step-Agree l w s h = elim (Bool-cases w.is_open) [
    | inl e ↦ simp (h.same_running ∙ e, e) (input_case-Agree l w s h)
    | inr e ↦ simp (h.same_running ∙ e, e) h
  ]

  Agree-bind :
      (m : Outcome (InputLoop Value)) (n : Outcome (WindowView Value))
      (f : InputLoop Value → Outcome (InputLoop Value))
      (g : WindowView Value → Outcome (WindowView Value))
      → Agree x j ta tb m n
      → ((l : InputLoop Value) (w : WindowView Value)
          → Shows x j ta tb l w
          → Agree x j ta tb (f l) (g w))
      → Agree x j ta tb (m >>= f) (n >>= g)
  Agree-bind (ok l) (ok w) f g h k = k l w h
  Agree-bind (fail e) (fail e') f g h k = h
  Agree-bind (panic s) (panic t) f g h k = h
  Agree-bind _ _ f g h k = absurd h

  -- Over every sequence of signals the input loop sends what its abstract view sends, ends as the view
  -- does, and holds under each topic the events that wait.
  pub input_run-Agree :
      (l : InputLoop Value) (w : WindowView Value) (signals : List (Signal Value))
      → Shows x j ta tb l w
      → Agree x j ta tb (input_run x j l signals) (view_run x j ta tb w signals)
  unfolding input_run view_run
  input_run-Agree l w [] h = h
  input_run-Agree l w (s ∷ ss) h =
      Agree-bind (input_step x j l s) _ _ _ (input_step-Agree l w s h)
        (λ l' w' h'. input_run-Agree l' w' ss h')
