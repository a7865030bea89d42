-- ===== src/Channel/Safety.antt =====
-- The processing loop survives every event.
use streaming_runtime_go.Prelude.{
  Text, codes, text_eq, text_eq_iff, [], Option, none, some, Bool, true, false, not, Bool-cases,
  Option-cases, Outcome-cases, inl, inr, Dict, lookup, ok, fail, wrap, errorf, assert_some, NoPanic,
  ok-NoPanic, fail-NoPanic, >>=-NoPanic, wrap-NoPanic, wrap-eq-ok, if◌then◌else◌, ◌≡◌, refl,
}
use streaming_runtime_go.Extern.{Extern, IsDocumented}
use streaming_runtime_go.Support.{
  InvocationEvent, json_type, cloudevent_type, payload_map, cloudevent_payload,
  extract_json_from_invocation,
}
use streaming_runtime_go.Channel.{
  Channel, data_map, should_collect, collect_data, marshal_prefix, evaluation_prefix,
  data_marshal_prefix, data_evaluation_prefix, native_prefix, json_prefix,
}
use streaming_runtime_go.Channel.Loops.{collect_if, process_event}

module _ (x : Extern) (doc : IsDocumented x) where
  open x use {
    Value, Program, Val, unmarshal, as_map, eval, val_type_name, as_bool, convert, as_struct,
    marshal_struct,
  }

  payload_map-NoPanic : (v : Value) → NoPanic (payload_map x v)
  unfolding payload_map
  payload_map-NoPanic v = elim (Option-cases (as_map v)) [
    | inl e ↦ rw (e, payload_map) (fail-NoPanic _)
    | inr (m, e) ↦ rw (e, payload_map) (ok-NoPanic m)
  ]

  cloudevent_payload-NoPanic : (m : Dict Value) → NoPanic (cloudevent_payload x m)
  unfolding cloudevent_payload
  cloudevent_payload-NoPanic m = elim (Option-cases (lookup (codes "data") m)) [
    | inl e ↦ rw (e, cloudevent_payload) (fail-NoPanic _)
    | inr (v, e) ↦ rw (e, cloudevent_payload) (payload_map-NoPanic v)
  ]

  extract-NoPanic : (e : InvocationEvent) → NoPanic (extract_json_from_invocation x e)
  unfolding extract_json_from_invocation
  extract-NoPanic e = elim (Bool-cases (text_eq e.content_type json_type)) [
    | inl h ↦ rw h (doc.unmarshal_calm e.content)
    | inr h ↦ elim (Bool-cases (text_eq e.content_type cloudevent_type)) [
      | inl k ↦
          rw (h, k)
            (>>=-NoPanic (unmarshal e.content) _ (doc.unmarshal_calm e.content)
              (λ m p. cloudevent_payload-NoPanic m))
      | inr k ↦ rw (h, k) (fail-NoPanic _)
    ]
  ]

  bool_test-NoPanic :
      (v : Val)
      → NoPanic (
          if not (text_eq (val_type_name v) (codes "bool"))
          then fail (errorf (codes "filter expression: must return a boolean") [])
          else assert_some (as_bool v))
  bool_test-NoPanic v = elim (Bool-cases (text_eq (val_type_name v) (codes "bool"))) [
    | inl e ↦ let (b, h) = doc.bool_value v ((text_eq_iff _ _).0 e) in rw (e, h) (ok-NoPanic b)
    | inr e ↦ rw e (fail-NoPanic _)
  ]

  module _ (c : Channel x) where
    should_collect-NoPanic :
        (e : InvocationEvent) (p : Option Program) → NoPanic (should_collect x c e p)
    unfolding should_collect
    should_collect-NoPanic e none = ok-NoPanic true
    should_collect-NoPanic e (some p) =
        >>=-NoPanic (wrap marshal_prefix (extract_json_from_invocation x e)) _
          (wrap-NoPanic marshal_prefix _ (extract-NoPanic e))
          (λ m h.
            >>=-NoPanic (wrap evaluation_prefix (eval p (data_map x c m))) _
              (wrap-NoPanic evaluation_prefix _ (doc.eval_calm p _)) (λ v k. bool_test-NoPanic v))

    collect_data-NoPanic :
        (e : InvocationEvent) (p : Option Program) → NoPanic (collect_data x c e p)
    unfolding collect_data
    collect_data-NoPanic e none = ok-NoPanic e.content
    collect_data-NoPanic e (some p) =
        >>=-NoPanic (wrap data_marshal_prefix (extract_json_from_invocation x e)) _
          (wrap-NoPanic data_marshal_prefix _ (extract-NoPanic e))
          (λ m h.
            >>=-NoPanic (wrap data_evaluation_prefix (eval p (data_map x c m))) _
              (wrap-NoPanic data_evaluation_prefix _ (doc.eval_calm p _))
              (λ v k.
                >>=-NoPanic (wrap native_prefix (convert v)) _
                  (wrap-NoPanic native_prefix _ (doc.convert_calm v))
                  (λ n l.
                    let (s, q) = doc.struct_value v n (wrap-eq-ok native_prefix _ l) in
                    rw q (wrap-NoPanic json_prefix _ (doc.marshal_struct_calm s)))))

    collect_if-total :
        (e : InvocationEvent) (keep : Bool)
        → (item : Option Text) × (collect_if x c e keep ≡ ok item)
    unfolding collect_if
    collect_if-total e false = (none, refl)
    collect_if-total e true = elim (Outcome-cases (collect_data x c e c.data_prog)) [
      | inl (t, h) ↦ (some t, rw h)
      | inr (inl (err, h)) ↦ (some [], rw h)
      | inr (inr (t, h)) ↦ absurd (collect_data-NoPanic e c.data_prog t h)
    ]

    -- The processing loop makes nothing or one item of every event: no event ends it, if the
    -- libraries behave as documented.
    pub process_event-total :
        (e : InvocationEvent) → (item : Option Text) × (process_event x c e ≡ ok item)
    unfolding process_event
    process_event-total e = elim (Outcome-cases (should_collect x c e c.filter_prog)) [
      | inl (keep, h) ↦ let (item, k) = collect_if-total e keep in (item, rw (h, process_event) k)
      | inr (inl (err, h)) ↦ (none, rw (h, process_event))
      | inr (inr (t, h)) ↦ absurd (should_collect-NoPanic e c.filter_prog t h)
    ]
