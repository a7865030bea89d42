-- ===== src/Joiner/Pipeline.antt =====
-- The joiner's goroutines together: the handlers of makeEventHandler, the input loop and the output
-- loop, over the Go channels that main makes. `inputChan` has no buffer, so a handler waits until the
-- input loop takes its event; `outputChan` has 1024 places, and the input loop waits while it is full.
-- The context is context.Background(), which is never done.
pub mod Simulates
pub mod Progress
use streaming_runtime_go.Prelude.{
  ℕ, ◌<◌, Text, List, [], ◌∷◌, ◌++◌, Option, none, some, Bool, Error, ok, fail, length, ◌≡◌,
}
use streaming_runtime_go.Extern.{Extern}
use streaming_runtime_go.Deliveries.{Delivery}
use streaming_runtime_go.Joiner.{EventStore, store_event, reset, TopicEvent, Joiner}
use streaming_runtime_go.Joiner.Loops.{Signal, event, tick, window_rows, content, output_step}

abbrev pub capacity : ℕ
capacity = 1024

-- The store, the rows that the input loop is about to send, the contents of `outputChan`, the items
-- that the output loop has taken, and what it asked of dapr for them.
pub record State (V : Type 0) : Type 0 where
  pub store : EventStore V
  pub holding : Option Text
  pub queue : List Text
  pub delivered : List Text
  pub deliveries : List Delivery

-- The state when `main` starts the loops.
abbrev pub start : {V : Type 0} → EventStore V → State V
start store = record { store = store; holding = none; queue = []; delivered = []; deliveries = [] }

module _ (x : Extern) (j : Joiner x) where
  open x use {Value}

  -- The input loop, at its `select`, takes an event from a handler or a tick of the window. A tick
  -- whose window gives rows leaves the loop at the send; any other is logged.
  pub data Take : State Value → Signal Value → State Value → Type 0 where
    receive :
        (s : State Value) (e : TopicEvent Value)
        → s.holding ≡ none
        → Take s (event e) (record s { store = store_event s.store e })
    rows :
        (s : State Value) (json_data : Text)
        → s.holding ≡ none
        → window_rows x j s.store ≡ ok json_data
        → Take s tick (record s { holding = some json_data })
    no_rows :
        (s : State Value) (err : Error)
        → s.holding ≡ none
        → window_rows x j s.store ≡ fail err
        → Take s tick s

  -- The other actions: the send of the rows, with the reset of the store that follows it and that
  -- the output loop does not see; and one round of the output loop.
  pub data Work : State Value → State Value → Type 0 where
    send :
        (s : State Value) (json_data : Text)
        → s.holding ≡ some json_data
        → length s.queue < capacity
        → Work s (record s {
          store = reset j.topics s.store;
          holding = none;
          queue = s.queue ++ json_data ∷ [];
        })
    deliver :
        (s : State Value) (item : Text) (rest : List Text) (ds : List Delivery) (goes_on : Bool)
        → s.queue ≡ item ∷ rest
        → output_step j.target_component_parts j.target_stream_parts (content item)
          ≡ ok (ds, goes_on)
        → Work s (record s {
          queue = rest;
          delivered = s.delivered ++ item ∷ [];
          deliveries = s.deliveries ++ ds;
        })

  -- The states that the joiner reaches from a store, with the signals that the input loop has taken.
  pub data Reach (initial : EventStore Value) : List (Signal Value) → State Value → Type 0 where
    begin : Reach initial [] (start initial)
    took :
        {ss : List (Signal Value)} {s t : State Value} (sig : Signal Value)
        → Reach initial ss s
        → Take s sig t
        → Reach initial (ss ++ sig ∷ []) t
    worked :
        {ss : List (Signal Value)} {s t : State Value}
        → Reach initial ss s
        → Work s t
        → Reach initial ss t

  -- A run of the other actions.
  pub data Works : State Value → State Value → Type 0 where
    stay : (s : State Value) → Works s s
    more : {s t u : State Value} → Work s t → Works t u → Works s u
