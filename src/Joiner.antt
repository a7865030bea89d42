-- ===== src/Joiner.antt =====
-- components/joiner/main.go: the state of the joiner. `Rows` joins the stored events, `Loops` has the
-- two goroutines and `Setup` the configuration that `main` makes of the environment.
pub mod Rows
pub mod Loops
pub mod Setup
pub mod Window
pub mod Safety
pub mod Deliveries
pub mod Pipeline
pub mod System
use streaming_runtime_go.Prelude.{
  Text, List, [], ◌∷◌, ◌++◌, Option, Dict, lookup, lookup_or, insert, is_empty, if◌then◌else◌,
}
use streaming_runtime_go.Extern.{Extern}

-- common.TopicEvent, with the fields that the joiner reads
pub record TopicEvent (V : Type 0) : Type 0 where
  pub topic : Text
  pub content : V

-- eventStore. A topic that is not in the map has the empty slice. The lock is left out: every access
-- is made by the goroutine of the input loop.
pub record EventStore (V : Type 0) : Type 0 where
  pub streams : Dict (List (TopicEvent V))

module _ {V : Type 0} where
  -- `s.streams[topic]`
  abbrev pub events_of : EventStore V → Text → List (TopicEvent V)
  events_of s topic = lookup_or topic s.streams []

  -- `store.streams[e.Topic] = append(store.streams[e.Topic], e)`
  unfoldable pub store_event : EventStore V → TopicEvent V → EventStore V
  store_event s e = record { streams = insert e.topic (events_of s e.topic ++ e ∷ []) s.streams }

  -- the loop of `reset`
  clear_topics : List Text → EventStore V → EventStore V
  clear_topics [] s = s
  clear_topics (topic ∷ topics) s =
      clear_topics topics
        (if is_empty (events_of s topic) then s else record { streams = insert topic [] s.streams })

  -- reset
  unfoldable pub reset : List Text → EventStore V → EventStore V
  unfolding clear_topics
  reset topics s = record (clear_topics topics s) { streams = [] }

-- The variables of the package that the loops read: `topics`, `filterProg`, `dataProg`, and what
-- `main` passes to the output loop.
pub record Joiner (x : Extern) : Type 0 where
  pub topics : List Text
  pub filter_prog : Option x.Program
  pub data_prog : Option x.Program
  pub target_component_parts : List Text
  pub target_stream_parts : List Text
