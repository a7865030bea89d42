-- ===== src/Channel/Pipeline.antt =====
-- The channel delivers what it collects, in the order in which the events came, under every
-- interleaving of the handler and the two goroutines.
pub mod Steps
pub mod Progress
use streaming_runtime_go.Prelude.{
  ◌%◌, ◌^◌, held, ℕ, zero, suc, ◌+◌, ◌≤◌, ◌<◌, Text, List, [], ◌∷◌, ◌++◌, append_assoc, append-nil,
  Option, none, some, Bool, true, Outcome, ok, fail, panic, ◌>>=◌, length, length-append,
  if◌then◌else◌, ◌≡◌, refl, sym, ap, ◌∙◌, arith,
}
use streaming_runtime_go.Extern.{Extern}
use streaming_runtime_go.Support.{InvocationEvent}
use streaming_runtime_go.Deliveries.{
  Delivery, IsTarget, stream_deliveries, component_deliveries, to_stream-deliveries,
  to_component-deliveries,
}
use streaming_runtime_go.Channel.{Channel, should_trigger}
use streaming_runtime_go.Channel.Loops.{
  capacity, State, start, invocation_handler, process_event, take_up, output_item, Step, process,
  send, deliver, Reach, begin, received, stepped,
}

module _ (x : Extern) (c : Channel x) where
  -- What one event gives: an item if it is collected, and nothing otherwise.
  abbrev pub emitted_by : Outcome (Option Text) → List Text
  emitted_by (ok item) = held item
  emitted_by (fail e) = []
  emitted_by (panic m) = []

  abbrev pub emitted : List InvocationEvent → List Text
  emitted [] = []
  emitted (e ∷ es) = emitted_by (process_event x c e) ++ emitted es

  emitted-append : (es fs : List InvocationEvent) → emitted (es ++ fs) ≡ emitted es ++ emitted fs
  emitted-append [] fs = refl
  emitted-append (e ∷ es) fs = simp (emitted-append es fs, append_assoc)

  -- What dapr is asked for one item and for several.
  abbrev pub item_deliveries : Text → List Delivery
  item_deliveries item =
      stream_deliveries c.target_stream_parts item
      ++ component_deliveries c.target_component_parts item

  abbrev pub all_deliveries : List Text → List Delivery
  all_deliveries [] = []
  all_deliveries (d ∷ ds) = item_deliveries d ++ all_deliveries ds

  all_deliveries-append :
      (ds es : List Text) → all_deliveries (ds ++ es) ≡ all_deliveries ds ++ all_deliveries es
  all_deliveries-append [] es = refl
  all_deliveries-append (d ∷ ds) es = simp (all_deliveries-append ds es, append_assoc)

  -- The items on their way, the oldest first.
  abbrev pub in_flight : State → List Text
  in_flight s = s.output ++ (held s.holding ++ emitted s.input)

  pub record Conserves (es : List InvocationEvent) (s : State) : Type 0 where
    pub in_order : s.delivered ++ in_flight s ≡ emitted es
    pub counted :
        s.counter ≡ (length s.delivered + (length s.output + length (held s.holding))) % 2 ^ 64
    pub input_bound : length s.input ≤ capacity
    pub output_bound : length s.output ≤ capacity

  begin-Conserves : Conserves [] start
  begin-Conserves = record {
    in_order = refl;
    counted = refl;
    input_bound = omega arith;
    output_bound = omega arith;
  }

  received-Conserves :
      (es : List InvocationEvent) (s : State) (e : InvocationEvent)
      → length s.input < capacity
      → Conserves es s
      → Conserves (es ++ e ∷ []) (invocation_handler e s).0
  unfolding invocation_handler
  received-Conserves es s e h v = record {
    in_order = simp (emitted-append, append_assoc, ← v.in_order) refl;
    counted = v.counted;
    input_bound = omega (arith, length-append s.input (e ∷ []));
    output_bound = v.output_bound;
  }

  take_up-Conserves :
      (es : List InvocationEvent) (s : State) (e : InvocationEvent) (rest : List InvocationEvent)
      (item : Option Text)
      → s.input ≡ e ∷ rest
      → s.holding ≡ none
      → process_event x c e ≡ ok item
      → Conserves es s
      → Conserves es (take_up x c item (record s { input = rest }))
  unfolding take_up
  take_up-Conserves es s e rest none i h p v = record {
    in_order = simp h (simp (i, h, p) at v.in_order);
    counted = v.counted;
    input_bound = omega (arith, ap (λ (l : List InvocationEvent). length l) i, v.input_bound);
    output_bound = v.output_bound;
  }
  take_up-Conserves es s e rest (some d) i h p v = record {
    in_order = simp (i, h, p) at v.in_order;
    counted = omega (arith, simp h at v.counted);
    input_bound = omega (arith, ap (λ (l : List InvocationEvent). length l) i, v.input_bound);
    output_bound = v.output_bound;
  }

  send-Conserves :
      (es : List InvocationEvent) (s : State) (d : Text)
      → s.holding ≡ some d
      → length s.output < capacity
      → Conserves es s
      → Conserves es (record s { holding = none; output = s.output ++ d ∷ [] })
  send-Conserves es s d h b v = record {
    in_order = simp append_assoc (simp h at v.in_order);
    counted = omega (arith, length-append s.output (d ∷ []), simp h at v.counted);
    input_bound = v.input_bound;
    output_bound = omega (arith, length-append s.output (d ∷ []));
  }

  deliver-Conserves :
      (es : List InvocationEvent) (s : State) (d : Text) (rest : List Text) (ds : List Delivery)
      → s.output ≡ d ∷ rest
      → Conserves es s
      → Conserves es (record s {
        output = rest;
        delivered = s.delivered ++ d ∷ [];
        deliveries = s.deliveries ++ ds;
      })
  deliver-Conserves es s d rest ds o v = record {
    in_order = simp append_assoc (simp o at v.in_order);
    counted = omega (arith, length-append s.delivered (d ∷ []), simp o at v.counted);
    input_bound = v.input_bound;
    output_bound = omega (arith, ap (λ (l : List Text). length l) o, v.output_bound);
  }

  Step-Conserves :
      {es : List InvocationEvent} {s t : State} → Step x c s t → Conserves es s → Conserves es t
  Step-Conserves {es} (process s e rest item i h p) v = take_up-Conserves es s e rest item i h p v
  Step-Conserves {es} (send s d h b) v = send-Conserves es s d h b v
  Step-Conserves {es} (deliver s d rest ds o p) v = deliver-Conserves es s d rest ds o v

  -- In every state that is reached, the items delivered, then those on their way, are what the events
  -- received give, in their order; the counter is the number of the items collected, wrapped to 64 bits; no channel overflows.
  pub Reach-Conserves : (es : List InvocationEvent) (s : State) → Reach x c es s → Conserves es s
  Reach-Conserves es s begin = begin-Conserves
  Reach-Conserves es s (received {es = fs} {s = r} e reach h) =
      received-Conserves fs r e h (Reach-Conserves fs r reach)
  Reach-Conserves es s (stepped {s = r} reach st) = Step-Conserves st (Reach-Conserves es r reach)
