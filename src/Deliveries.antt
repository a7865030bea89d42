-- ===== src/Deliveries.antt =====
-- What the output loops of the joiner and of the channel ask of the dapr client. Both loops have the
-- same two calls; the errors of a call are only logged, and change nothing.
use streaming_runtime_go.Prelude.{
  Text, codes, List, [], ◌∷◌, Outcome, ok, index, ◌>>=◌, is_empty, if◌then◌else◌, ◌≡◌, refl, sym,
  ◌∙◌, subst, inl, inr, ok-injective,
}
use streaming_runtime_go.Support.{get_target_parts}
use streaming_runtime_go.Support.Targets.{get_target_parts-total}

-- What the output loop asks of the dapr client; its errors are only logged.
pub data Delivery : Type 0 where
  publish_event : Text → Text → Text → Text → Delivery
  invoke_method : Text → Text → Text → Text → Delivery

abbrev pub content_json : Text
content_json = codes "application/json"

-- PublishEvent(ctx, pubsub, topic, data) with parts[0] and parts[1]
unfoldable pub to_stream : List Text → Text → Outcome (List Delivery)
to_stream parts content = if is_empty parts then ok [] else (do
  pubsub ← index parts 0
  topic ← index parts 1
  ok (publish_event pubsub topic content content_json ∷ []))

-- InvokeMethodWithContent(ctx, componentId, route, POST, content)
unfoldable pub to_component : List Text → Text → Outcome (List Delivery)
to_component parts content = if is_empty parts then ok [] else (do
  component_id ← index parts 0
  route ← index parts 1
  ok (invoke_method component_id route content content_json ∷ []))

-- A target is absent, or names an app or pubsub and a route or topic.
pub data IsTarget : List Text → Type 0 where
  absent : IsTarget []
  present : (a b : Text) (more : List Text) → IsTarget (a ∷ b ∷ more)

pub get_target_parts-IsTarget :
    (target : Text) (parts : List Text) → get_target_parts target ≡ ok parts → IsTarget parts
get_target_parts-IsTarget target parts h = elim (get_target_parts-total target) [
  | inl (_, e) ↦ subst IsTarget (ok-injective (sym e ∙ h)) absent
  | inr (_, (a, b, more, e)) ↦ subst IsTarget (ok-injective (sym e ∙ h)) (present a b more)
]

abbrev pub stream_deliveries : List Text → Text → List Delivery
stream_deliveries [] c = []
stream_deliveries (a ∷ []) c = []
stream_deliveries (pubsub ∷ topic ∷ more) c = publish_event pubsub topic c content_json ∷ []

abbrev pub component_deliveries : List Text → Text → List Delivery
component_deliveries [] c = []
component_deliveries (a ∷ []) c = []
component_deliveries (component_id ∷ route ∷ more) c =
    invoke_method component_id route c content_json ∷ []

pub to_stream-deliveries :
    (parts : List Text) (c : Text)
    → IsTarget parts
    → to_stream parts c ≡ ok (stream_deliveries parts c)
unfolding to_stream
to_stream-deliveries parts c absent = refl
to_stream-deliveries parts c (present a b more) = refl

pub to_component-deliveries :
    (parts : List Text) (c : Text)
    → IsTarget parts
    → to_component parts c ≡ ok (component_deliveries parts c)
unfolding to_component
to_component-deliveries parts c absent = refl
to_component-deliveries parts c (present a b more) = refl
