-- ===== src/Channel/Pipeline/Progress.antt =====
-- The channel never gets stuck: what it has received is delivered.
use streaming_runtime_go.Prelude.{
  ◌%◌, ◌^◌, ℕ, zero, suc, ◌<◌, Text, List, [], ◌∷◌, ◌++◌, append-nil, Option, none, some, ok,
  length, List-cases, Option-cases, inl, inr, ◌⊎◌, ◌≡◌, refl, sym, ap, ◌∙◌, arith, ok-injective,
}
use streaming_runtime_go.Extern.{Extern, IsDocumented}
use streaming_runtime_go.Support.{InvocationEvent}
use streaming_runtime_go.Deliveries.{
  Delivery, IsTarget, to_stream-deliveries, to_component-deliveries,
}
use streaming_runtime_go.Channel.{Channel}
use streaming_runtime_go.Channel.Loops.{
  State, invocation_handler, take_up, output_item, Step, process, send, deliver, Reach, begin,
  received, stepped,
}
use streaming_runtime_go.Channel.Safety.{process_event-total}
use streaming_runtime_go.Channel.Pipeline.{
  emitted, item_deliveries, all_deliveries, all_deliveries-append, Reach-Conserves,
}
use streaming_runtime_go.Channel.Pipeline.Steps.{
  IsDrained, Steps, stay, more, Reach-Steps, work, Step-work,
}

module _ (x : Extern) (c : Channel x) (ts : IsTarget c.target_stream_parts)
    (tc : IsTarget c.target_component_parts) where
  output_item-deliveries : (d : Text) → output_item x c d ≡ ok (item_deliveries x c d)
  unfolding output_item
  output_item-deliveries d = rw (
    to_stream-deliveries c.target_stream_parts d ts,
    to_component-deliveries c.target_component_parts d tc,
  )

  -- What dapr was asked for is what the delivered items call for.
  Matches : State → Type 0
  Matches s = s.deliveries ≡ all_deliveries x c s.delivered

  received-Matches :
      (e : InvocationEvent) (s : State) → Matches s → Matches (invocation_handler e s).0
  unfolding Matches invocation_handler
  received-Matches e s h = h

  take_up-Matches :
      (item : Option Text) (rest : List InvocationEvent) (s : State)
      → Matches s
      → Matches (take_up x c item (record s { input = rest }))
  unfolding Matches take_up
  take_up-Matches none rest s h = h
  take_up-Matches (some d) rest s h = h

  send-Matches :
      (d : Text) (s : State)
      → Matches s
      → Matches (record s { holding = none; output = s.output ++ d ∷ [] })
  unfolding Matches
  send-Matches d s h = h

  deliver-Matches :
      (d : Text) (rest : List Text) (ds : List Delivery) (s : State)
      → output_item x c d ≡ ok ds
      → Matches s
      → Matches (record s {
        output = rest;
        delivered = s.delivered ++ d ∷ [];
        deliveries = s.deliveries ++ ds;
      })
  unfolding Matches
  deliver-Matches d rest ds s p h =
      ap (λ l. l ++ ds) h
      ∙ ap (λ l. all_deliveries x c s.delivered ++ l)
          (ok-injective (sym p ∙ output_item-deliveries d)
            ∙ sym (append-nil (item_deliveries x c d)))
      ∙ sym (all_deliveries-append x c s.delivered (d ∷ []))

  Reach-Matches : (es : List InvocationEvent) (s : State) → Reach x c es s → Matches s
  Reach-Matches es s begin = unfold Matches in refl
  Reach-Matches es s (received {es = fs} {s = r} e reach h) =
      received-Matches e r (Reach-Matches fs r reach)
  Reach-Matches es s (stepped {s = r} reach (process _ e rest item i h p)) =
      take_up-Matches item rest r (Reach-Matches es r reach)
  Reach-Matches es s (stepped {s = r} reach (send _ d h b)) =
      send-Matches d r (Reach-Matches es r reach)
  Reach-Matches es s (stepped {s = r} reach (deliver _ d rest ds o p)) =
      deliver-Matches d rest ds r p (Reach-Matches es r reach)

  Matches-at :
      (s : State) {items : List Text}
      → s.delivered ≡ items
      → Matches s
      → s.deliveries ≡ all_deliveries x c items
  unfolding Matches
  Matches-at s e h = h ∙ ap (all_deliveries x c) e

  -- Once drained, a channel whose targets have two parts or none has delivered exactly what the events
  -- received give, in their order: to the stream and to the component of its targets; and its counter
  -- is the number of items.
  pub drained_delivers :
      (es : List InvocationEvent) (s : State)
      → Reach x c es s
      → IsDrained s
      → (s.delivered ≡ emitted x c es)
        × (s.deliveries ≡ all_deliveries x c (emitted x c es))
        × (s.counter ≡ length (emitted x c es) % 2 ^ 64)
  drained_delivers es s reach d =
      let v = Reach-Conserves x c es s reach in
      let all : s.delivered ≡ emitted x c es =
        sym (append-nil s.delivered) ∙ simp (d.no_input, d.no_item, d.no_output) at v.in_order in
      (
        all,
        Matches-at s all (Reach-Matches es s reach),
        omega (
          arith,
          simp (d.no_item, d.no_output) at v.counted,
          ap (λ (l : List Text). length l) all,
        ),
      )

  module _ (doc : IsDocumented x) where
    -- A state that is not drained has a step that leaves less to do.
    advance : (s : State) → IsDrained s ⊎ ((t : State) × Step x c s t × (work x c t < work x c s))
    advance s = elim (List-cases s.output) [
      | inr (d, rest, o) ↦
          let st = deliver s d rest (item_deliveries x c d) o (output_item-deliveries d) in
          inr (_, st, Step-work x c st)
      | inl o ↦ elim (Option-cases s.holding) [
        | inr (d, h) ↦
            let st = send s d h (omega (arith, ap (λ (l : List Text). length l) o)) in
            inr (_, st, Step-work x c st)
        | inl h ↦ elim (List-cases s.input) [
          | inr (e, rest, i) ↦
              let (item, p) = process_event-total x doc c e in
              let st = process s e rest item i h p in inr (_, st, Step-work x c st)
          | inl i ↦ inl (record { no_input = i; no_item = h; no_output = o })
        ]
      ]
    ]

    drain_below : (n : ℕ) (s : State) → work x c s < n → (t : State) × Steps x c s t × IsDrained t
    drain_below zero s h = absurd (omega arith)
    drain_below (suc n) s h = elim (advance s) [
      | inl d ↦ (s, stay s, d)
      | inr (t, st, less) ↦ let (u, run, d) = drain_below n t (omega arith) in (u, more st run, d)
    ]

    -- From every state that is reached, the two goroutines alone can go on until all that the received
    -- events give is delivered, if the targets have two parts or none and the libraries behave as
    -- documented.
    pub Reach-drains :
        (es : List InvocationEvent) (s : State)
        → Reach x c es s
        → (t : State) × Steps x c s t
          × (t.delivered ≡ emitted x c es)
          × (t.deliveries ≡ all_deliveries x c (emitted x c es))
    Reach-drains es s reach =
        let (t, run, d) = drain_below (suc (work x c s)) s (omega arith) in
        let (all, asked, _) = drained_delivers es t (Reach-Steps x c reach run) d in
        (t, run, all, asked)
