-- ===== src/Joiner/Rows.antt =====
-- shouldCollect, collectData and aggregateEvents.
pub mod Relation
pub mod Counts
use streaming_runtime_go.Prelude.{
  Text, codes, text_eq, List, [], ◌∷◌, ◌++◌, Option, none, some, Bool, true, false, not, ◌||◌, Dict,
  insert, Outcome, ok, fail, errorf, wrap, index, assert_some, ◌>>=◌, is_empty, if◌then◌else◌,
}
use streaming_runtime_go.Extern.{Extern}
use streaming_runtime_go.Joiner.{TopicEvent, EventStore, events_of, Joiner}

abbrev pub should_prefix : Text
should_prefix = codes "shouldCollect check failed: "

abbrev pub collect_prefix : Text
collect_prefix = codes "failed to collect: "

abbrev pub list_prefix : Text
list_prefix = codes "aggregation bucket failed : "

abbrev pub convert_prefix : Text
convert_prefix = codes "failed to convert to native: "

abbrev pub struct_prefix : Text
struct_prefix = codes "new structpb Value failed: "

module _ (x : Extern) where
  open x use {
    Value, Program, Struct, ListValue, eval, val_type_name, as_bool, convert, as_struct, new_struct,
    struct_as_map, new_list,
  }

  abbrev Event : Type 0
  Event = TopicEvent Value

  -- `map[string]interface{}{eventA.Topic: eventA.Data, eventB.Topic: eventB.Data}`
  unfoldable pub data_map : Event → Event → Dict Value
  data_map a b = insert b.topic b.content (insert a.topic a.content [])

  -- shouldCollect tests the package's `filterProg` and evaluates its parameter; a nil program panics
  unfoldable pub should_collect : Option Program → Event → Event → Option Program → Outcome Bool
  should_collect filter_prog a b prog = elim filter_prog [
    | none ↦ ok true
    | some _ ↦ do
      p ← assert_some prog
      filter_result ← eval p (data_map a b)
      if not (text_eq (val_type_name filter_result) (codes "bool"))
          then fail (errorf (codes "select: filter expression: must return a boolean") [])
          else assert_some (as_bool filter_result)
  ]

  -- collectData
  unfoldable pub collect_data : Event → Event → Option Program → Outcome Struct
  collect_data a b prog = elim prog [
    | some p ↦ do
      result ← eval p (data_map a b)
      conv ← wrap convert_prefix (convert result)
      assert_some (as_struct conv)
    | none ↦ wrap struct_prefix (new_struct (data_map a b))
  ]

  module _ (j : Joiner x) where
    -- `if shouldCollect { … }`
    unfoldable pub collect_into :
        Event → Event → List (Dict Value) → Bool → Outcome (List (Dict Value))
    collect_into a b bucket false = ok bucket
    collect_into a b bucket true = do
      s ← wrap collect_prefix (collect_data a b j.data_prog)
      ok (bucket ++ struct_as_map s ∷ [])

    -- the body of the two loops of aggregateEvents
    unfoldable pub join_pair : Event → Event → List (Dict Value) → Outcome (List (Dict Value))
    unfolding collect_into
    join_pair a b bucket = do
      keep ← wrap should_prefix (should_collect j.filter_prog a b j.filter_prog)
      collect_into a b bucket keep

    -- `for _, eventB := range store.streams[topicB]`
    unfoldable pub join_inner : Event → List Event → List (Dict Value) → Outcome (List (Dict Value))
    join_inner a [] bucket = ok bucket
    join_inner a (b ∷ bs) bucket = do bucket' ← join_pair a b bucket; join_inner a bs bucket'

    -- `for _, eventA := range store.streams[topicA]`
    unfoldable pub join_outer :
        List Event → List Event → List (Dict Value) → Outcome (List (Dict Value))
    join_outer [] bs bucket = ok bucket
    join_outer (a ∷ xs) bs bucket = do bucket' ← join_inner a bs bucket; join_outer xs bs bucket'

    -- what follows the loops
    unfoldable pub make_list : List (Dict Value) → Outcome ListValue
    make_list bucket =
        if is_empty bucket
        then fail (errorf (codes "join result is empty") [])
        else wrap list_prefix (new_list bucket)

    -- aggregateEvents after the two topics are read
    unfoldable pub join_streams : List Event → List Event → Outcome ListValue
    join_streams events_a events_b =
        if is_empty events_a || is_empty events_b
        then fail (errorf (codes "empty stream(s): join will be empty") [])
        else (do bucket ← join_outer events_a events_b []; make_list bucket)

    -- aggregateEvents
    unfoldable pub aggregate_events : EventStore Value → Outcome ListValue
    aggregate_events store = do
      topic_a ← index j.topics 0
      topic_b ← index j.topics 1
      join_streams (events_of store topic_a) (events_of store topic_b)
