-- ===== src/Joiner/Rows/Counts.antt =====
-- How many rows a window gives.
use streaming_runtime_go.Prelude.{
  suc, ◌*◌, ◌≤◌, Text, List, ◌∷◌, Dict, ok, none, false, ◌≡◌, refl, ap, ◌∙◌, arith, length,
  length-product,
}
use streaming_runtime_go.Extern.{Extern}
use streaming_runtime_go.Joiner.{TopicEvent, EventStore, events_of, Joiner}
use streaming_runtime_go.Joiner.Rows.{should_collect, aggregate_events}
use streaming_runtime_go.Joiner.Rows.Relation.{
  Joined, none_left, dropped, collected, Keeps, aggregate_events-Joined,
}

module _ (x : Extern) (j : Joiner x) where
  open x use {Value, Struct, struct_as_map, ListValue, new_list}

  length-Joined-le :
      {ps : List (TopicEvent Value × TopicEvent Value)} {rows : List (Dict Value)}
      → Joined x j ps rows
      → length rows ≤ length ps
  length-Joined-le none_left = omega arith
  length-Joined-le (dropped k js) = omega (arith, length-Joined-le js)
  length-Joined-le (collected s k c js) = omega (arith, length-Joined-le js)

  no_filter-Keeps : j.filter_prog ≡ none → (a b : TopicEvent Value) → Keeps x j a b false → ⊥
  unfolding should_collect
  no_filter-Keeps n a b k = ground arith

  length-Joined_no_filter :
      {ps : List (TopicEvent Value × TopicEvent Value)} {rows : List (Dict Value)}
      → j.filter_prog ≡ none
      → Joined x j ps rows
      → length rows ≡ length ps
  length-Joined_no_filter n none_left = refl
  length-Joined_no_filter n (dropped {a = a} {b = b} k js) = absurd (no_filter-Keeps n a b k)
  length-Joined_no_filter n (collected s k c js) = ap suc (length-Joined_no_filter n js)

  -- A window of m and n events of the two topics that is aggregated gives at most m * n rows.
  pub aggregate_events-length-le :
      (store : EventStore Value) (ta tb : Text) (more : List Text) (l : ListValue)
      → j.topics ≡ ta ∷ tb ∷ more
      → aggregate_events x j store ≡ ok l
      → (rows : List (Dict Value)) × (new_list rows ≡ ok l)
        × (length rows ≤ length (events_of store ta) * length (events_of store tb))
  aggregate_events-length-le store ta tb more l topics h =
      let xs = events_of store ta in
      let bs = events_of store tb in
      let (rows, js, n, m) = (aggregate_events-Joined x j store ta tb more l topics).0 h in
      (rows, m, rw (← length-product xs bs) (length-Joined-le js))

  -- A window of m and n events of the two topics that is aggregated by a joiner without a filter gives
  -- exactly m * n rows.
  pub aggregate_events-length :
      (store : EventStore Value) (ta tb : Text) (more : List Text) (l : ListValue)
      → j.topics ≡ ta ∷ tb ∷ more
      → j.filter_prog ≡ none
      → aggregate_events x j store ≡ ok l
      → (rows : List (Dict Value)) × (new_list rows ≡ ok l)
        × (length rows ≡ length (events_of store ta) * length (events_of store tb))
  aggregate_events-length store ta tb more l topics none_set h =
      let xs = events_of store ta in
      let bs = events_of store tb in
      let (rows, js, n, m) = (aggregate_events-Joined x j store ta tb more l topics).0 h in
      (rows, m, length-Joined_no_filter none_set js ∙ length-product xs bs)
