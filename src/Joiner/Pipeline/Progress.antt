-- ===== src/Joiner/Pipeline/Progress.antt =====
-- The joiner never gets stuck: while no signal comes, the loops deliver all that waits.
use streaming_runtime_go.Prelude.{
  ℕ, zero, suc, ◌+◌, ◌*◌, ◌<◌, Text, List, [], ◌∷◌, ◌++◌, append_assoc, append-nil, held, Option,
  none, Bool, true, Outcome-cases, ok, length, length-append, List-cases, Option-cases, inl, inr,
  ◌⊎◌, ok-injective, ◌≡◌, refl, sym, ap, ◌∙◌, arith,
}
use streaming_runtime_go.Extern.{Extern, IsDocumented}
use streaming_runtime_go.Deliveries.{Delivery, IsTarget}
use streaming_runtime_go.Joiner.{TopicEvent, EventStore, Joiner}
use streaming_runtime_go.Joiner.Loops.{
  Signal, event, tick, InputLoop, window_rows, content, input_run,
}
use streaming_runtime_go.Joiner.Safety.{window_rows-NoPanic}
use streaming_runtime_go.Joiner.Deliveries.{deliveries, output_step_of_IsTarget}
use streaming_runtime_go.Joiner.Pipeline.{
  State, Take, receive, rows, no_rows, Work, send, deliver, Reach, begin, took, worked, Works, stay,
  more,
}
use streaming_runtime_go.Joiner.Pipeline.Simulates.{fresh, Reach-Simulates}

module _ (x : Extern) (j : Joiner x) where
  open x use {Value}

  -- What dapr is asked for several items.
  abbrev pub all_deliveries : List Text → List Delivery
  all_deliveries [] = []
  all_deliveries (item ∷ items) =
      deliveries j.target_component_parts j.target_stream_parts (content item)
      ++ all_deliveries items

  all_deliveries-append :
      (ds es : List Text) → all_deliveries (ds ++ es) ≡ all_deliveries ds ++ all_deliveries es
  all_deliveries-append [] es = refl
  all_deliveries-append (d ∷ ds) es = simp (all_deliveries-append ds es, append_assoc)

  -- The actions that are left: two for rows in hand, one for an item in the channel.
  abbrev pub work : State Value → ℕ
  work s = 2 * length (held s.holding) + length s.queue

  Work-work : {s t : State Value} → Work x j s t → work t < work s
  Work-work (send s json_data h b) =
      omega
        (arith, length-append s.queue (json_data ∷ []), ap (λ (o : Option Text). length (held o)) h)
  Work-work (deliver s item rest ds goes_on q o) = omega (arith, ap (λ (l : List Text). length l) q)

  Reach-Works :
      {initial : EventStore Value} {ss : List (Signal Value)} {s t : State Value}
      → Reach x j initial ss s
      → Works x j s t
      → Reach x j initial ss t
  Reach-Works r (stay _) = r
  Reach-Works r (more st run) = Reach-Works (worked r st) run

  -- The input loop at its `select` takes any event, and any tick.
  pub record IsResponsive (s : State Value) : Type 0 where
    pub on_event : (e : TopicEvent Value) → (t : State Value) × Take x j s (event e) t
    pub on_tick : (t : State Value) × Take x j s tick t

  module _ (tc : IsTarget j.target_component_parts) (ts : IsTarget j.target_stream_parts) where
    Matches : State Value → Type 0
    Matches s = s.deliveries ≡ all_deliveries s.delivered

    Reach-Matches :
        (initial : EventStore Value) (ss : List (Signal Value)) (s : State Value)
        → Reach x j initial ss s
        → Matches s
    unfolding Matches
    Reach-Matches initial ss s begin = refl
    Reach-Matches initial ss s (took {ss = rs} {s = r} sig reach (receive _ e h)) =
        Reach-Matches initial rs r reach
    Reach-Matches initial ss s (took {ss = rs} {s = r} sig reach (rows _ json_data h w)) =
        Reach-Matches initial rs r reach
    Reach-Matches initial ss s (took {ss = rs} {s = r} sig reach (no_rows _ err h w)) =
        Reach-Matches initial rs r reach
    Reach-Matches initial ss s (worked {s = r} reach (send _ json_data h b)) =
        Reach-Matches initial ss r reach
    Reach-Matches initial ss s (worked {s = r} reach (deliver _ item rest ds goes_on q o)) =
        let e = ok-injective (
          sym o
          ∙ output_step_of_IsTarget j.target_component_parts j.target_stream_parts (content item) tc
              ts) in
        ap (λ (l : List Delivery). l ++ ds) (Reach-Matches initial ss r reach)
        ∙ ap (λ (l : List Delivery). all_deliveries r.delivered ++ l)
            (ap (λ (p : List Delivery × Bool). p.0) e ∙ sym (append-nil _))
        ∙ sym (all_deliveries-append r.delivered (item ∷ []))

    -- A state with work left has an action.
    advance :
        (s : State Value) → (s.holding ≡ none) × (s.queue ≡ []) ⊎ ((t : State Value) × Work x j s t)
    advance s = elim (List-cases s.queue) [
      | inr (item, rest, q) ↦
          inr (_, deliver s item rest _ true q (output_step_of_IsTarget _ _ (content item) tc ts))
      | inl q ↦ elim (Option-cases s.holding) [
        | inr (r, h) ↦ inr (_, send s r h (omega (arith, ap (λ (l : List Text). length l) q)))
        | inl h ↦ inl (h, q)
      ]
    ]

    drain_below :
        (n : ℕ) (s : State Value)
        → work s < n
        → (t : State Value) × Works x j s t × (t.holding ≡ none) × (t.queue ≡ [])
    drain_below zero s h = absurd (omega arith)
    drain_below (suc n) s h = elim (advance s) [
      | inl (a, b) ↦ (s, stay s, a, b)
      | inr (t, st) ↦
          let (u, run, a, b) = drain_below n t (omega (arith, Work-work st)) in
          (u, more st run, a, b)
    ]

    module _ (doc : IsDocumented x) where
      idle-IsResponsive :
          {ta tb : Text} {rest : List Text}
          → j.topics ≡ ta ∷ tb ∷ rest
          → (s : State Value) → s.holding ≡ none
          → IsResponsive s
      idle-IsResponsive topics s h = record {
        on_event = λ e. (_, receive s e h);
        on_tick = elim (Outcome-cases (window_rows x j s.store)) [
          | inl (json_data, w) ↦ (_, rows s json_data h w)
          | inr (inl (err, w)) ↦ (s, no_rows s err h w)
          | inr (inr (m, w)) ↦ absurd (window_rows-NoPanic x doc j _ _ _ topics s.store m w)
        ];
      }

      -- What the loops can reach while no signal comes: a state in which nothing waits, all that the
      -- sequential loop sends is delivered, and the next event or tick is taken.
      pub record Drains (initial : EventStore Value) (ss : List (Signal Value)) (s : State Value)
          : Type 0 where
        pub final : State Value
        pub last : InputLoop Value
        pub works : Works x j s final
        pub ran : input_run x j (fresh initial) ss ≡ ok last
        pub is_idle : final.holding ≡ none
        pub is_empty : final.queue ≡ []
        pub delivered : final.delivered ≡ last.output
        pub asked : final.deliveries ≡ all_deliveries last.output
        pub same_store : final.store ≡ last.store
        pub responsive : IsResponsive final

      -- From every state that a joiner with two topics and with targets of two parts or none reaches,
      -- the loops alone can go on until nothing waits, if the libraries behave as documented: then
      -- exactly what the sequential loop sends for the signals taken is delivered, in its order, to the
      -- targets, the store is the sequential loop's, and the next event or tick is taken.
      pub Reach-Drains :
          (ta tb : Text) (rest : List Text) (initial : EventStore Value) (ss : List (Signal Value))
          (s : State Value)
          → j.topics ≡ ta ∷ tb ∷ rest
          → Reach x j initial ss s
          → Drains initial ss s
      unfolding Matches
      Reach-Drains ta tb rest initial ss s topics reach =
          let (t, run, h, q) = drain_below (suc (work s)) s (omega arith) in
          let reach' = Reach-Works reach run in
          let v = Reach-Simulates x j initial ss t reach' in
          let all : t.delivered ≡ v.last.output =
            sym (append-nil t.delivered) ∙ simp (h, q) at v.same_output in
          record {
            final = t;
            last = v.last;
            works = run;
            ran = v.ran;
            is_idle = h;
            is_empty = q;
            delivered = all;
            asked = Reach-Matches initial ss t reach' ∙ ap all_deliveries all;
            same_store = simp h at v.same_store;
            responsive = idle-IsResponsive topics t h;
          }
