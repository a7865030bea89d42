-- ===== src/Joiner/Rows/Relation.antt =====
-- What `aggregate_events` computes: the rows of all pairs of stored events, the first stream
-- outermost, that the filter keeps.
use mathlib.Core.Path.{fun_ext}
use mathlib.Core.List.{cons-ne-nil}
use streaming_runtime_go.Prelude.{
  Text, List, [], ◌∷◌, ◌++◌, map, Dict, Outcome, ok, wrap, index, ◌>>=◌, >>=-eq-ok, >>=_assoc,
  wrap-eq-ok, Bool, true, false, Bool-cases, ◌||◌, is_empty, ◌≡◌, ◌≢◌, ◌↔◌, ◌⊎◌, inl, inr, refl,
  sym, ap, ◌∙◌, arith, product, append_assoc, append-nil,
}
use streaming_runtime_go.Extern.{Extern}
use streaming_runtime_go.Joiner.{TopicEvent, EventStore, events_of, Joiner}
use streaming_runtime_go.Joiner.Rows.{
  should_collect, should_prefix, collect_prefix, list_prefix, collect_into, collect_data, join_pair,
  join_inner, join_outer, make_list, join_streams, aggregate_events,
}

module _ (x : Extern) (j : Joiner x) where
  open x use {Value, Struct, struct_as_map, ListValue, new_list}

  abbrev Event : Type 0
  Event = TopicEvent Value

  abbrev pub Keeps : Event → Event → Bool → Type 0
  Keeps a b keep = should_collect x j.filter_prog a b j.filter_prog ≡ ok keep

  -- The rows of a list of pairs: none for a pair that the filter drops, one for a pair it keeps.
  pub data Joined : List (Event × Event) → List (Dict Value) → Type 0 where
    none_left : Joined [] []
    dropped :
        {a b : Event} {ps : List (Event × Event)} {rows : List (Dict Value)}
        → Keeps a b false
        → Joined ps rows
        → Joined ((a, b) ∷ ps) rows
    collected :
        {a b : Event} {ps : List (Event × Event)} {rows : List (Dict Value)} (s : Struct)
        → Keeps a b true
        → collect_data x a b j.data_prog ≡ ok s
        → Joined ps rows
        → Joined ((a, b) ∷ ps) (struct_as_map s ∷ rows)

  -- One loop over pairs, which the two nested loops amount to.
  join_pairs : List (Event × Event) → List (Dict Value) → Outcome (List (Dict Value))
  join_pairs [] bucket = ok bucket
  join_pairs ((a, b) ∷ ps) bucket = join_pair x j a b bucket >>= λ bucket'. join_pairs ps bucket'

  join_pairs-append :
      (ps qs : List (Event × Event)) (bucket : List (Dict Value))
      → join_pairs (ps ++ qs) bucket ≡ (join_pairs ps bucket >>= λ bucket'. join_pairs qs bucket')
  unfolding join_pairs
  join_pairs-append [] qs bucket = refl
  join_pairs-append ((a, b) ∷ ps) qs bucket =
      ap (λ k. join_pair x j a b bucket >>= k) (fun_ext (join_pairs-append ps qs))
      ∙ sym (>>=_assoc (join_pair x j a b bucket) (join_pairs ps) (join_pairs qs))

  join_inner-pairs :
      (a : Event) (bs : List Event) (bucket : List (Dict Value))
      → join_inner x j a bs bucket ≡ join_pairs (map (λ b. (a, b)) bs) bucket
  unfolding join_pairs join_inner
  join_inner-pairs a [] bucket = refl
  join_inner-pairs a (b ∷ bs) bucket =
      ap (λ k. join_pair x j a b bucket >>= k) (fun_ext (join_inner-pairs a bs))

  join_outer-pairs :
      (xs bs : List Event) (bucket : List (Dict Value))
      → join_outer x j xs bs bucket ≡ join_pairs (product xs bs) bucket
  unfolding join_outer product
  join_outer-pairs [] bs bucket = unfold join_pairs in refl
  join_outer-pairs (a ∷ xs) bs bucket =
      ap (λ m. m >>= λ bucket'. join_outer x j xs bs bucket') (join_inner-pairs a bs bucket)
      ∙ ap (λ k. join_pairs (map (λ b. (a, b)) bs) bucket >>= k) (fun_ext (join_outer-pairs xs bs))
      ∙ sym (join_pairs-append (map (λ b. (a, b)) bs) (product xs bs) bucket)

  collect_into-cases :
      (keep : Bool) (a b : Event) (bucket : List (Dict Value)) {out : List (Dict Value)}
      → collect_into x j a b bucket keep ≡ ok out
      → (keep ≡ false) × (out ≡ bucket)
        ⊎ ((s : Struct) × (keep ≡ true)
            × (collect_data x a b j.data_prog ≡ ok s)
            × (out ≡ bucket ++ struct_as_map s ∷ []))
  unfolding collect_into
  collect_into-cases false a b bucket h = inl (refl, cc)
  collect_into-cases true a b bucket h =
      let (s, c, o) =
        >>=-eq-ok (wrap collect_prefix (collect_data x a b j.data_prog))
          (λ s. ok (bucket ++ struct_as_map s ∷ [])) h in
      inr (s, refl, wrap-eq-ok collect_prefix _ c, cc)

  join_pair-cases :
      (a b : Event) (bucket : List (Dict Value)) {out : List (Dict Value)}
      → join_pair x j a b bucket ≡ ok out
      → Keeps a b false × (out ≡ bucket)
        ⊎ ((s : Struct) × Keeps a b true
            × (collect_data x a b j.data_prog ≡ ok s)
            × (out ≡ bucket ++ struct_as_map s ∷ []))
  unfolding join_pair
  join_pair-cases a b bucket h =
      let (keep, k, r) =
        >>=-eq-ok (wrap should_prefix (should_collect x j.filter_prog a b j.filter_prog))
          (collect_into x j a b bucket) h in
      elim (collect_into-cases keep a b bucket r) [
        | inl (e, o) ↦ inl (rw (← e) (wrap-eq-ok should_prefix _ k), o)
        | inr (s, e, c, o) ↦ inr (s, rw (← e) (wrap-eq-ok should_prefix _ k), c, o)
      ]

  -- A list of pairs is joined exactly if the loop succeeds, and with the same rows.
  join_pairs_sound :
      (ps : List (Event × Event)) (bucket : List (Dict Value)) {out : List (Dict Value)}
      → join_pairs ps bucket ≡ ok out
      → (rows : List (Dict Value)) × Joined ps rows × (out ≡ bucket ++ rows)
  unfolding join_pairs
  join_pairs_sound [] bucket h = ([], none_left, cc (append-nil bucket))
  join_pairs_sound ((a, b) ∷ ps) bucket h =
      let (bucket', p, q) = >>=-eq-ok (join_pair x j a b bucket) (join_pairs ps) h in
      let (rows, js, o) = join_pairs_sound ps bucket' q in
      elim (join_pair-cases a b bucket p) [
        | inl (k, e) ↦ (rows, dropped k js, o ∙ ap (λ t. t ++ rows) e)
        | inr (s, k, c, e) ↦ (
          struct_as_map s ∷ rows,
          collected s k c js,
          o ∙ ap (λ t. t ++ rows) e ∙ append_assoc bucket (struct_as_map s ∷ []) rows,
        )
      ]

  join_pairs_complete :
      (ps : List (Event × Event)) (bucket rows : List (Dict Value))
      → Joined ps rows
      → join_pairs ps bucket ≡ ok (bucket ++ rows)
  unfolding join_pairs join_pair
  join_pairs_complete ps bucket rows none_left = ap ok (sym (append-nil bucket))
  join_pairs_complete ps bucket rows (dropped k js) = rw k (join_pairs_complete _ bucket _ js)
  join_pairs_complete ps bucket rows (collected {rows = rs} s k c js) =
      rw (k, c)
        (join_pairs_complete _ (bucket ++ struct_as_map s ∷ []) rs js
          ∙ ap ok (append_assoc bucket (struct_as_map s ∷ []) rs))

  make_list-eq-ok :
      (rows : List (Dict Value)) (l : ListValue)
      → make_list x j rows ≡ ok l
      → (rows ≢ []) × (new_list rows ≡ ok l)
  unfolding make_list
  make_list-eq-ok [] l h = cc
  make_list-eq-ok (r ∷ rows) l h = (cons-ne-nil r rows, wrap-eq-ok list_prefix _ h)

  make_list-ok :
      (rows : List (Dict Value)) (l : ListValue)
      → rows ≢ []
      → new_list rows ≡ ok l
      → make_list x j rows ≡ ok l
  unfolding make_list
  make_list-ok [] l n h = absurd (n refl)
  make_list-ok (r ∷ rows) l n h = rw h

  product_of_nil : (bs : List Event) → product {A = Event} [] bs ≡ []
  unfolding product
  product_of_nil bs = refl

  product_nil : (xs : List Event) → product {B = Event} xs [] ≡ []
  unfolding product
  product_nil [] = refl
  product_nil (a ∷ xs) = product_nil xs

  Joined-nil :
      {ps : List (Event × Event)} {rows : List (Dict Value)} → ps ≡ [] → Joined ps rows → rows ≡ []
  Joined-nil e none_left = refl
  Joined-nil e (dropped k js) = cc
  Joined-nil e (collected s k c js) = cc

  -- Rows come only from two streams that both hold an event.
  Joined-events :
      (xs bs : List Event) {rows : List (Dict Value)}
      → Joined (product xs bs) rows
      → rows ≢ []
      → is_empty xs || is_empty bs ≡ false
  Joined-events [] bs js n = absurd (n (Joined-nil (product_of_nil bs) js))
  Joined-events (a ∷ xs) [] js n = absurd (n (Joined-nil (product_nil (a ∷ xs)) js))
  Joined-events (a ∷ xs) (b ∷ bs) js n = refl

  module _ (xs bs : List Event) (l : ListValue) where
    join_streams_sound :
        join_streams x j xs bs ≡ ok l
        → (rows : List (Dict Value)) × Joined (product xs bs) rows
          × (rows ≢ [])
          × (new_list rows ≡ ok l)
    unfolding join_streams
    join_streams_sound h = elim (Bool-cases (is_empty xs || is_empty bs)) [
      | inl e ↦ absurd (ground arith)
      | inr e ↦
          let (out, p, q) = >>=-eq-ok (join_outer x j xs bs []) (make_list x j) (rw e at h) in
          let (rows, js, o) =
            join_pairs_sound (product xs bs) [] (sym (join_outer-pairs xs bs []) ∙ p) in
          let (n, m) = make_list-eq-ok rows l (rw o at q) in (rows, js, n, m)
    ]

    join_streams_complete :
        (rows : List (Dict Value))
        → Joined (product xs bs) rows
        → rows ≢ []
        → new_list rows ≡ ok l
        → join_streams x j xs bs ≡ ok l
    unfolding join_streams
    join_streams_complete rows js n h =
        rw (Joined-events xs bs js n, join_outer-pairs, join_pairs_complete _ [] rows js)
          (make_list-ok rows l n h)

  pub aggregate_events-join_streams :
      (store : EventStore Value) {ta tb : Text} {more : List Text}
      → j.topics ≡ ta ∷ tb ∷ more
      → aggregate_events x j store ≡ join_streams x j (events_of store ta) (events_of store tb)
  unfolding aggregate_events
  aggregate_events-join_streams store topics =
      ap
        (λ ts. index ts 0 >>= λ a.
          index ts 1 >>= λ b. join_streams x j (events_of store a) (events_of store b))
        topics

  -- The window of two streams is aggregated to a list exactly if the pairs of stored events, those of
  -- the first topic outermost, are joined to one row at least and structpb accepts the rows: nothing
  -- is lost, invented or reordered.
  pub aggregate_events-Joined :
      (store : EventStore Value) (ta tb : Text) (more : List Text) (l : ListValue)
      → j.topics ≡ ta ∷ tb ∷ more
      → (aggregate_events x j store ≡ ok l) ↔ (
          (rows : List (Dict Value)) × Joined
            (product (events_of store ta) (events_of store tb))
            rows
          × (rows ≢ [])
          × (new_list rows ≡ ok l))
  aggregate_events-Joined store ta tb more l topics =
      let e = aggregate_events-join_streams store topics in
      let xs = events_of store ta in
      let bs = events_of store tb in
      (
        λ h. join_streams_sound xs bs l (sym e ∙ h),
        λ (rows, js, n, m). e ∙ join_streams_complete xs bs l rows js n m,
      )
