-- ===== src/Support/Payloads.antt =====
-- What `extract_json_from_invocation` accepts: two media types, and in the envelope a map.
use streaming_runtime_go.Prelude.{
  codes, Dict, lookup, ok, ◌>>=◌, some, ◌≡◌, ◌↔◌, arith, text_eq, text_eq_iff, text_eq_self,
  text_eq_ne, ◌≢◌, Bool-cases, inl, inr, Option-cases, >>=-eq-ok, sym, ◌∙◌,
}
use streaming_runtime_go.Extern.{Extern}
use streaming_runtime_go.Support.{
  InvocationEvent, json_type, cloudevent_type, payload_map, cloudevent_payload,
  extract_json_from_invocation,
}

module _ (x : Extern) where
  open x use {Value, unmarshal, as_map}

  -- The payload that an event carries, as its media type defines it.
  pub data Carries (e : InvocationEvent) (m : Dict Value) : Type 0 where
    plain : e.content_type ≡ json_type → unmarshal e.content ≡ ok m → Carries e m
    enveloped :
        (envelope : Dict Value) (v : Value)
        → e.content_type ≡ cloudevent_type
        → unmarshal e.content ≡ ok envelope
        → lookup (codes "data") envelope ≡ some v
        → as_map v ≡ some m
        → Carries e m

  payload_map_iff : (v : Value) (m : Dict Value) → (payload_map x v ≡ ok m) ↔ (as_map v ≡ some m)
  unfolding payload_map
  payload_map_iff v m = (λ h. ground arith, λ h. ground arith)

  cloudevent_payload-found :
      (envelope m : Dict Value)
      → cloudevent_payload x envelope ≡ ok m
      → (v : Value) × (lookup (codes "data") envelope ≡ some v) × (as_map v ≡ some m)
  unfolding cloudevent_payload
  cloudevent_payload-found envelope m h = elim (Option-cases (lookup (codes "data") envelope)) [
    | inl e ↦ absurd (ground arith)
    | inr (v, e) ↦ (v, e, ground (arith, (payload_map_iff v m)))
  ]

  cloudevent_payload-some :
      (envelope m : Dict Value) (v : Value)
      → lookup (codes "data") envelope ≡ some v
      → as_map v ≡ some m
      → cloudevent_payload x envelope ≡ ok m
  unfolding cloudevent_payload
  cloudevent_payload-some envelope m v l a = ground arith

  module _ (e : InvocationEvent) where
    extract-plain :
        e.content_type ≡ json_type → extract_json_from_invocation x e ≡ unmarshal e.content
    unfolding extract_json_from_invocation
    extract-plain t = rw (t, text_eq_self json_type)

    extract-enveloped :
        e.content_type ≡ cloudevent_type
        → extract_json_from_invocation x e
          ≡ (unmarshal e.content >>= λ envelope. cloudevent_payload x envelope)
    unfolding extract_json_from_invocation text_eq
    extract-enveloped t = rw t

    extract_other_type :
        e.content_type ≢ json_type
        → e.content_type ≢ cloudevent_type
        → (m : Dict Value) → extract_json_from_invocation x e ≢ ok m
    unfolding extract_json_from_invocation
    extract_other_type n k m =
        rw (text_eq_ne e.content_type json_type n, text_eq_ne e.content_type cloudevent_type k)
          (λ h. cc)

  extract_sound :
      (e : InvocationEvent) (m : Dict Value) → extract_json_from_invocation x e ≡ ok m → Carries e m
  extract_sound e m h = elim (Bool-cases (text_eq e.content_type json_type)) [
    | inl j ↦
        let t = (text_eq_iff e.content_type json_type).0 j in plain t (sym (extract-plain e t) ∙ h)
    | inr n ↦ elim (Bool-cases (text_eq e.content_type cloudevent_type)) [
      | inl c ↦
          let t = (text_eq_iff e.content_type cloudevent_type).0 c in
          let (envelope, u, p) =
            >>=-eq-ok (unmarshal e.content) _ (sym (extract-enveloped e t) ∙ h) in
          let (v, l, a) = cloudevent_payload-found envelope m p in enveloped envelope v t u l a
      | inr k ↦ absurd (
          extract_other_type e (ground (arith, text_eq_iff e.content_type json_type))
            (ground (arith, text_eq_iff e.content_type cloudevent_type)) m h)
    ]
  ]

  extract_complete :
      (e : InvocationEvent) (m : Dict Value) → Carries e m → extract_json_from_invocation x e ≡ ok m
  extract_complete e m (plain t u) = extract-plain e t ∙ u
  extract_complete e m (enveloped envelope v t u l a) =
      rw (extract-enveloped e t, u) (cloudevent_payload-some envelope m v l a)

  -- An event yields the payload m exactly if it carries m as its content type says: as JSON, or as the
  -- entry "data" of a cloud event.
  pub extract_json_from_invocation-Carries :
      (e : InvocationEvent) (m : Dict Value)
      → (extract_json_from_invocation x e ≡ ok m) ↔ Carries e m
  extract_json_from_invocation-Carries e m = (extract_sound e m, extract_complete e m)
