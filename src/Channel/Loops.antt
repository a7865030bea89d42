-- ===== src/Channel/Loops.antt =====
-- invocationHandler, startProcessingLoop and startOutputLoop. The two Go channels are buffered, with
-- 1024 places each; a send waits for a place. A step is one action of one goroutine. The context is
-- context.Background(), which is never done, so the loops' last case has no step.
use streaming_runtime_go.Prelude.{
  ℕ, ◌+◌, ◌%◌, ◌^◌, ◌<◌, Text, List, [], ◌∷◌, ◌++◌, Option, none, some, Bool, true, false, Outcome,
  ok, fail, panic, ◌>>=◌, length, if◌then◌else◌, ◌≡◌,
}
use streaming_runtime_go.Extern.{Extern}
use streaming_runtime_go.Support.{InvocationEvent}
use streaming_runtime_go.Deliveries.{Delivery, to_stream, to_component}
use streaming_runtime_go.Channel.{Channel, should_collect, should_trigger, collect_data}

abbrev pub capacity : ℕ
capacity = 1024

-- common.Content
pub record Content : Type 0 where
  pub content : Text
  pub content_type : Text
  pub data_type_url : Text

-- The channels and what the goroutines hold. `counter` is a Go int, as the pattern of its 64 bits, which
-- wraps around. `holding` is the event that the processing loop has
-- collected and is about to send; `delivered` are the items that the output loop has taken, and
-- `deliveries` what it asked of dapr for them.
pub record State : Type 0 where
  pub input : List InvocationEvent
  pub holding : Option Text
  pub counter : ℕ
  pub output : List Text
  pub delivered : List Text
  pub deliveries : List Delivery

abbrev pub start : State
start = record {
  input = [];
  holding = none;
  counter = 0;
  output = [];
  delivered = [];
  deliveries = [];
}

-- invocationHandler: the event is queued, and its content is the reply
unfoldable pub invocation_handler : InvocationEvent → State → State × Content
invocation_handler e s = (
  record s { input = s.input ++ e ∷ [] },
  record { content = e.content; content_type = e.content_type; data_type_url = e.data_type_url },
)

module _ (x : Extern) (c : Channel x) where
  -- `event, err := collectData(…)`; on an error `event` is nil, and the error is only logged
  unfoldable pub collected_event : Outcome Text → Outcome Text
  collected_event (ok event) = ok event
  collected_event (fail err) = ok []
  collected_event (panic m) = panic m

  -- what follows a successful shouldCollect
  unfoldable pub collect_if : InvocationEvent → Bool → Outcome (Option Text)
  unfolding collected_event
  collect_if e false = ok none
  collect_if e true = do event ← collected_event (collect_data x c e c.data_prog); ok (some event)

  -- What the processing loop makes of one event: nothing, or an item to send.
  unfoldable pub process_event : InvocationEvent → Outcome (Option Text)
  unfolding collect_if
  process_event e = elim (should_collect x c e c.filter_prog) [
    | ok keep ↦ collect_if e keep
    | fail err ↦ ok none
    | panic m ↦ panic m
  ]

  -- `counter++` with an item in hand
  unfoldable pub take_up : Option Text → State → State
  take_up none s = s
  take_up (some event) s = record s { counter = (s.counter + 1) % 2 ^ 64; holding = some event }

  -- What the output loop does with one item.
  unfoldable pub output_item : Text → Outcome (List Delivery)
  unfolding should_trigger
  output_item d = do
    trigger ← should_trigger x c c.trigger_prog
    if trigger
        then (do
          streamed ← to_stream c.target_stream_parts d
          invoked ← to_component c.target_component_parts d
          ok (streamed ++ invoked))
        else ok []

  -- One action of one of the two goroutines. A send waits while the channel is full.
  pub data Step : State → State → Type 0 where
    process :
        (s : State) (e : InvocationEvent) (rest : List InvocationEvent) (item : Option Text)
        → s.input ≡ e ∷ rest
        → s.holding ≡ none
        → process_event e ≡ ok item
        → Step s (take_up item (record s { input = rest }))
    send :
        (s : State) (item : Text)
        → s.holding ≡ some item
        → length s.output < capacity
        → Step s (record s { holding = none; output = s.output ++ item ∷ [] })
    deliver :
        (s : State) (item : Text) (rest : List Text) (ds : List Delivery)
        → s.output ≡ item ∷ rest
        → output_item item ≡ ok ds
        → Step s (record s {
          output = rest;
          delivered = s.delivered ++ item ∷ [];
          deliveries = s.deliveries ++ ds;
        })

  -- The states that the service reaches, with the events that it has been given. The handler, too,
  -- waits while its channel is full.
  pub data Reach : List InvocationEvent → State → Type 0 where
    begin : Reach [] start
    received :
        {es : List InvocationEvent} {s : State} (e : InvocationEvent)
        → Reach es s
        → length s.input < capacity
        → Reach (es ++ e ∷ []) (invocation_handler e s).0
    stepped : {es : List InvocationEvent} {s t : State} → Reach es s → Step s t → Reach es t
