-- ===== src/Joiner/Deliveries.antt =====
-- What the joiner's output loop asks of dapr for each item, with the targets that `main` has read.
use streaming_runtime_go.Prelude.{Text, List, [], ◌∷◌, ◌++◌, ok, true, ◌≡◌, refl}
use streaming_runtime_go.Support.{get_target_parts}
use streaming_runtime_go.Deliveries.{
  Delivery, IsTarget, get_target_parts-IsTarget, stream_deliveries, component_deliveries,
  to_stream-deliveries, to_component-deliveries,
}
use streaming_runtime_go.Joiner.Loops.{OutputSignal, content, output_done, output_step}

-- An item that is not empty goes to the stream and to the component, as far as each is set.
abbrev pub deliveries : List Text → List Text → OutputSignal → List Delivery
deliveries component_parts stream_parts (content []) = []
deliveries component_parts stream_parts (content (b ∷ c)) =
    stream_deliveries stream_parts (b ∷ c) ++ component_deliveries component_parts (b ∷ c)
deliveries component_parts stream_parts output_done = []

pub output_step_of_IsTarget :
    (component_parts stream_parts : List Text) (s : OutputSignal)
    → IsTarget component_parts
    → IsTarget stream_parts
    → output_step component_parts stream_parts s
      ≡ ok (deliveries component_parts stream_parts s, true)
unfolding output_step
output_step_of_IsTarget cp sp (content []) tc ts = refl
output_step_of_IsTarget cp sp (content (b ∷ c)) tc ts =
    rw (to_stream-deliveries sp (b ∷ c) ts, to_component-deliveries cp (b ∷ c) tc)
output_step_of_IsTarget cp sp output_done tc ts = refl

-- With parts that get_target_parts made, every round of the output loop ends without a panic, makes
-- exactly the deliveries of its targets, and goes on; also once the context is done.
pub output_step-deliveries :
    (component stream : Text) (component_parts stream_parts : List Text) (s : OutputSignal)
    → get_target_parts component ≡ ok component_parts
    → get_target_parts stream ≡ ok stream_parts
    → output_step component_parts stream_parts s
      ≡ ok (deliveries component_parts stream_parts s, true)
output_step-deliveries component stream cp sp s hc hs =
    output_step_of_IsTarget cp sp s (get_target_parts-IsTarget component cp hc)
      (get_target_parts-IsTarget stream sp hs)
