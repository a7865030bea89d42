-- ===== src/Joiner/Window.antt =====
-- The input loop against its abstract view: the list of the events that wait, in order of arrival.
pub mod Runs
pub mod Kept
use streaming_runtime_go.Prelude.{
  Text, text_eq, text_eq_iff, text_eq_self, List, [], ◌∷◌, ◌++◌, lookup, lookup_or, insert,
  lookup-insert, Outcome, ok, fail, panic, ◌>>=◌, Bool, true, false, if◌then◌else◌, ◌≡◌, refl, sym,
  ap, ◌∙◌, arith, Error, append-nil,
}
use streaming_runtime_go.Extern.{Extern}
use streaming_runtime_go.Joiner.{TopicEvent, EventStore, events_of, store_event, reset, Joiner}
use streaming_runtime_go.Joiner.Rows.{aggregate_events, join_streams}
use streaming_runtime_go.Joiner.Rows.Relation.{aggregate_events-join_streams}
use streaming_runtime_go.Joiner.Loops.{
  Signal, event, tick, done, InputLoop, send_rows, input_step, input_run,
}

module _ {V : Type 0} where
  -- The events of one topic, in order of arrival.
  unfoldable pub by_topic : Text → List (TopicEvent V) → List (TopicEvent V)
  by_topic topic [] = []
  by_topic topic (e ∷ es) =
      let rest = by_topic topic es in if text_eq e.topic topic then e ∷ rest else rest

  by_topic-append :
      (topic : Text) (es fs : List (TopicEvent V))
      → by_topic topic (es ++ fs) ≡ by_topic topic es ++ by_topic topic fs
  unfolding by_topic
  by_topic-append topic [] fs = refl
  by_topic-append topic (e ∷ es) fs = ground (arith, by_topic-append topic es fs)

  -- A store holds the waiting events, each under its topic.
  abbrev pub Holds : EventStore V → List (TopicEvent V) → Type 0
  Holds s waiting = (topic : Text) → events_of s topic ≡ by_topic topic waiting

  events_of-store_event :
      (s : EventStore V) (e : TopicEvent V) (topic : Text)
      → events_of (store_event s e) topic
        ≡ (if text_eq e.topic topic then events_of s e.topic ++ e ∷ [] else events_of s topic)
  unfolding store_event
  events_of-store_event s e topic =
      ground (arith, lookup-insert e.topic topic (events_of s e.topic ++ e ∷ []) s.streams)

  by_topic-last :
      (topic : Text) (waiting : List (TopicEvent V)) (e : TopicEvent V)
      → by_topic topic (waiting ++ e ∷ []) ≡ (
          if text_eq e.topic topic
          then by_topic topic waiting ++ e ∷ []
          else by_topic topic waiting)
  unfolding by_topic
  by_topic-last topic waiting e =
      ground (arith, by_topic-append topic waiting (e ∷ []), append-nil (by_topic topic waiting))

  store_event-Holds :
      (s : EventStore V) (waiting : List (TopicEvent V)) (e : TopicEvent V)
      → Holds s waiting
      → Holds (store_event s e) (waiting ++ e ∷ [])
  store_event-Holds s waiting e h topic = ground (
    arith,
    events_of-store_event s e topic,
    by_topic-last topic waiting e,
    h e.topic,
    h topic,
    text_eq_iff e.topic topic,
  )

  reset-Holds : (topics : List Text) (s : EventStore V) → Holds (reset topics s) []
  unfolding reset lookup by_topic
  reset-Holds topics s topic = refl

-- The abstract loop: the events that wait, what was sent, and whether the loop runs.
pub record WindowView (V : Type 0) : Type 0 where
  pub waiting : List (TopicEvent V)
  pub sent : List Text
  pub is_open : Bool

module _ (x : Extern) (j : Joiner x) (ta tb : Text) where
  open x use {Value, marshal_list}

  -- A window that gives rows is sent and emptied; any other is kept.
  unfoldable pub view_rows : WindowView Value → Outcome Text → Outcome (WindowView Value)
  view_rows w (ok json_data) = ok (record w { sent = w.sent ++ json_data ∷ []; waiting = [] })
  view_rows w (fail err) = ok w
  view_rows w (panic m) = panic m

  unfoldable pub view_case : WindowView Value → Signal Value → Outcome (WindowView Value)
  unfolding view_rows
  view_case w (event e) = ok (record w { waiting = w.waiting ++ e ∷ [] })
  view_case w tick = view_rows w (
      join_streams x j (by_topic ta w.waiting) (by_topic tb w.waiting) >>= λ rows.
      marshal_list rows)
  view_case w done = ok (record w { is_open = false })

  unfoldable pub view_run : WindowView Value → List (Signal Value) → Outcome (WindowView Value)
  view_run w [] = ok w
  view_run w (s ∷ ss) = do w' ← (if w.is_open then view_case w s else ok w); view_run w' ss

  -- The loop and its view send the same, run the same, and the store holds the waiting events.
  pub record Shows (l : InputLoop Value) (w : WindowView Value) : Type 0 where
    pub holds : Holds l.store w.waiting
    pub same_output : l.output ≡ w.sent
    pub same_running : l.running ≡ w.is_open

  abbrev pub Agree : Outcome (InputLoop Value) → Outcome (WindowView Value) → Type 0
  Agree (ok l) (ok w) = Shows l w
  Agree (fail e) (fail f) = e ≡ f
  Agree (panic s) (panic t) = s ≡ t
  Agree _ _ = ⊥
