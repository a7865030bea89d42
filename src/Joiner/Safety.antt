-- ===== src/Joiner/Safety.antt =====
-- The joiner's loops never stop on a panic.
use streaming_runtime_go.Prelude.{
  Text, codes, text_eq, text_eq_iff, List, [], ◌∷◌, ◌++◌, Option, none, some, Bool, true, false,
  not, ◌||◌, Bool-cases, inl, inr, Dict, Outcome, ok, fail, panic, wrap, assert_some, NoPanic,
  ok-NoPanic, fail-NoPanic, >>=-NoPanic, wrap-NoPanic, wrap-eq-ok, is_empty, if◌then◌else◌, ◌≡◌,
  refl,
}
use streaming_runtime_go.Extern.{Extern, IsDocumented}
use streaming_runtime_go.Joiner.{TopicEvent, EventStore, Joiner}
use streaming_runtime_go.Joiner.Rows.{
  data_map, should_collect, collect_data, should_prefix, collect_prefix, list_prefix,
  convert_prefix, struct_prefix, collect_into, join_pair, join_inner, join_outer, make_list,
  join_streams, aggregate_events,
}
use streaming_runtime_go.Joiner.Rows.Relation.{aggregate_events-join_streams}
use streaming_runtime_go.Joiner.Loops.{
  window_rows, Signal, event, tick, done, InputLoop, send_rows, input_case, input_step, input_run,
}

module _ (x : Extern) (doc : IsDocumented x) where
  open x use {
    Value, Program, Val, eval, val_type_name, as_bool, convert, as_struct, new_struct, marshal_list,
  }

  -- a value that passes the test of its type is a bool
  bool_test-NoPanic :
      (v : Val)
      → NoPanic (
          if not (text_eq (val_type_name v) (codes "bool"))
          then fail (record {
            message = codes "select: filter expression: must return a boolean" ++ [];
            is_not_found = false;
          })
          else assert_some (as_bool v))
  bool_test-NoPanic v = elim (Bool-cases (text_eq (val_type_name v) (codes "bool"))) [
    | inl e ↦ let (b, h) = doc.bool_value v ((text_eq_iff _ _).0 e) in rw (e, h) (ok-NoPanic b)
    | inr e ↦ rw e (fail-NoPanic _)
  ]

  should_collect-NoPanic :
      (p : Option Program) (a b : TopicEvent Value) → NoPanic (should_collect x p a b p)
  unfolding should_collect
  should_collect-NoPanic none a b = ok-NoPanic true
  should_collect-NoPanic (some p) a b =
      >>=-NoPanic (eval p (data_map x a b)) _ (doc.eval_calm p _) (λ v e. bool_test-NoPanic v)

  converted-NoPanic : (v : Val) (n : Value) → convert v ≡ ok n → NoPanic (assert_some (as_struct n))
  converted-NoPanic v n h = let (s, e) = doc.struct_value v n h in rw e (ok-NoPanic s)

  collect_data-NoPanic :
      (p : Option Program) (a b : TopicEvent Value) → NoPanic (collect_data x a b p)
  unfolding collect_data
  collect_data-NoPanic none a b =
      wrap-NoPanic struct_prefix (new_struct (data_map x a b)) (doc.new_struct_calm _)
  collect_data-NoPanic (some p) a b =
      >>=-NoPanic (eval p (data_map x a b)) _ (doc.eval_calm p _) (λ v e.
        >>=-NoPanic (wrap convert_prefix (convert v)) _
          (wrap-NoPanic convert_prefix (convert v) (doc.convert_calm v))
          (λ n e'. converted-NoPanic v n (wrap-eq-ok convert_prefix (convert v) e')))

  module _ (j : Joiner x) where
    collect_into-NoPanic :
        (a b : TopicEvent Value) (bucket : List (Dict Value)) (keep : Bool)
        → NoPanic (collect_into x j a b bucket keep)
    unfolding collect_into
    collect_into-NoPanic a b bucket false = ok-NoPanic bucket
    collect_into-NoPanic a b bucket true =
        >>=-NoPanic (wrap collect_prefix (collect_data x a b j.data_prog)) _
          (wrap-NoPanic collect_prefix (collect_data x a b j.data_prog)
            (collect_data-NoPanic j.data_prog a b))
          (λ s e. ok-NoPanic _)

    join_pair-NoPanic :
        (a b : TopicEvent Value) (bucket : List (Dict Value)) → NoPanic (join_pair x j a b bucket)
    unfolding join_pair
    join_pair-NoPanic a b bucket =
        let p = j.filter_prog in
        >>=-NoPanic (wrap should_prefix (should_collect x p a b p)) _
          (wrap-NoPanic should_prefix (should_collect x p a b p) (should_collect-NoPanic p a b))
          (λ keep e. collect_into-NoPanic a b bucket keep)

    join_inner-NoPanic :
        (a : TopicEvent Value) (bs : List (TopicEvent Value)) (bucket : List (Dict Value))
        → NoPanic (join_inner x j a bs bucket)
    unfolding join_inner
    join_inner-NoPanic a [] bucket = ok-NoPanic bucket
    join_inner-NoPanic a (b ∷ bs) bucket =
        >>=-NoPanic (join_pair x j a b bucket) _ (join_pair-NoPanic a b bucket)
          (λ bucket' e. join_inner-NoPanic a bs bucket')

    join_outer-NoPanic :
        (xs bs : List (TopicEvent Value)) (bucket : List (Dict Value))
        → NoPanic (join_outer x j xs bs bucket)
    unfolding join_outer
    join_outer-NoPanic [] bs bucket = ok-NoPanic bucket
    join_outer-NoPanic (a ∷ xs) bs bucket =
        >>=-NoPanic (join_inner x j a bs bucket) _ (join_inner-NoPanic a bs bucket)
          (λ bucket' e. join_outer-NoPanic xs bs bucket')

    make_list-NoPanic : (bucket : List (Dict Value)) → NoPanic (make_list x j bucket)
    unfolding make_list
    make_list-NoPanic [] = fail-NoPanic _
    make_list-NoPanic (r ∷ rows) = wrap-NoPanic list_prefix _ (doc.new_list_calm (r ∷ rows))

    join_streams-NoPanic : (xs bs : List (TopicEvent Value)) → NoPanic (join_streams x j xs bs)
    unfolding join_streams
    join_streams-NoPanic xs bs = elim (Bool-cases (is_empty xs || is_empty bs)) [
      | inl e ↦ rw e (fail-NoPanic _)
      | inr e ↦ rw e (
          >>=-NoPanic (join_outer x j xs bs []) _ (join_outer-NoPanic xs bs [])
            (λ bucket e'. make_list-NoPanic bucket))
    ]

    send_rows-total :
        (l : InputLoop Value) (m : Outcome Text)
        → NoPanic m
        → (l' : InputLoop Value) × (send_rows x j l m ≡ ok l')
    unfolding send_rows
    send_rows-total l (ok json_data) h = (_, refl)
    send_rows-total l (fail e) h = (l, refl)
    send_rows-total l (panic t) h = absurd (h t refl)

    module _ (ta tb : Text) (more : List Text) (topics : j.topics ≡ ta ∷ tb ∷ more) where
      aggregate_events-NoPanic : (s : EventStore Value) → NoPanic (aggregate_events x j s)
      aggregate_events-NoPanic s =
          rw (aggregate_events-join_streams x j s topics) (join_streams-NoPanic _ _)

      pub window_rows-NoPanic : (s : EventStore Value) → NoPanic (window_rows x j s)
      window_rows-NoPanic s =
          >>=-NoPanic (aggregate_events x j s) _ (aggregate_events-NoPanic s)
            (λ rows e. doc.marshal_list_calm rows)

      input_case-total :
          (l : InputLoop Value) (s : Signal Value)
          → (l' : InputLoop Value) × (input_case x j l s ≡ ok l')
      unfolding input_case
      input_case-total l (event e) = (_, refl)
      input_case-total l tick = send_rows-total l _ (window_rows-NoPanic l.store)
      input_case-total l done = (_, refl)

      -- The input loop of a joiner with two topics takes every sequence of signals: no error and no
      -- panic ends it, whatever the programs return and whichever windows fail, if the libraries behave
      -- as documented.
      pub input_run-total :
          (l : InputLoop Value) (signals : List (Signal Value))
          → (l' : InputLoop Value) × (input_run x j l signals ≡ ok l')
      unfolding input_run input_step
      input_run-total l [] = (l, refl)
      input_run-total l (s ∷ ss) = elim (Bool-cases l.running) [
        | inl e ↦
            let (l', p) = input_case-total l s in
            let (r, q) = input_run-total l' ss in (r, simp (e, p) q)
        | inr e ↦ let (r, q) = input_run-total l ss in (r, simp e q)
      ]
