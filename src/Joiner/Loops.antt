-- ===== src/Joiner/Loops.antt =====
-- startInputLoop and startOutputLoop. A step is one round of the `for`: the case of the `select` that
-- was ready. The channels' contents are lists, the first element being the oldest.
use streaming_runtime_go.Prelude.{
  Text, List, [], ◌∷◌, ◌++◌, Outcome, ok, fail, panic, ◌>>=◌, Bool, true, false, is_empty,
  if◌then◌else◌,
}
use streaming_runtime_go.Extern.{Extern}
use streaming_runtime_go.Deliveries.{Delivery, to_stream, to_component}
use streaming_runtime_go.Joiner.{TopicEvent, EventStore, store_event, reset, Joiner}
use streaming_runtime_go.Joiner.Rows.{aggregate_events}

-- Which case of the input loop's `select` is taken.
pub data Signal (V : Type 0) : Type 0 where
  event : TopicEvent V → Signal V
  tick : Signal V
  done : Signal V

-- The state of the input loop: its store, what it has sent to `output`, and whether it still runs.
pub record InputLoop (V : Type 0) : Type 0 where
  pub store : EventStore V
  pub output : List Text
  pub running : Bool

module _ (x : Extern) (j : Joiner x) where
  open x use {Value, ListValue, marshal_list}

  -- what follows a successful aggregateEvents; an error is logged, and the round ends
  unfoldable pub send_rows : InputLoop Value → Outcome Text → Outcome (InputLoop Value)
  send_rows l (ok json_data) =
      ok (record l { output = l.output ++ json_data ∷ []; store = reset j.topics l.store })
  send_rows l (fail err) = ok l
  send_rows l (panic m) = panic m

  -- `events, err := aggregateEvents(store)` and `jsonData, err := events.MarshalJSON()`
  abbrev pub window_rows : EventStore Value → Outcome Text
  window_rows store = aggregate_events x j store >>= λ events. marshal_list events

  -- `case <-window.C`
  unfoldable pub close_window : InputLoop Value → Outcome (InputLoop Value)
  unfolding send_rows
  close_window l = send_rows l (window_rows l.store)

  unfoldable pub input_case : InputLoop Value → Signal Value → Outcome (InputLoop Value)
  unfolding close_window
  input_case l (event e) = ok (record l { store = store_event l.store e })
  input_case l tick = close_window l
  input_case l done = ok (record l { running = false })

  -- One round of startInputLoop; after `return` there are no rounds.
  unfoldable pub input_step : InputLoop Value → Signal Value → Outcome (InputLoop Value)
  unfolding input_case
  input_step l s = if l.running then input_case l s else ok l

  unfoldable pub input_run : InputLoop Value → List (Signal Value) → Outcome (InputLoop Value)
  input_run l [] = ok l
  input_run l (s ∷ ss) = do l' ← input_step l s; input_run l' ss

-- Which case of the output loop's `select` is taken.
pub data OutputSignal : Type 0 where
  content : Text → OutputSignal
  output_done : OutputSignal

-- One round of startOutputLoop: the deliveries, and whether the loop goes on. The `break` of the
-- last case leaves the `select`, not the `for`.
unfoldable pub output_step : List Text → List Text → OutputSignal → Outcome (List Delivery × Bool)
unfolding to_stream to_component
output_step component_parts stream_parts (content c) = if is_empty c then ok ([], true) else (do
  streamed ← to_stream stream_parts c
  invoked ← to_component component_parts c
  ok (streamed ++ invoked, true))
output_step component_parts stream_parts output_done = ok ([], true)
