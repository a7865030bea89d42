-- ===== src/Channel/System.antt =====
-- A channel from the environment of its process to what it delivers.
use streaming_runtime_go.Prelude.{Text, List, Dict, ok, ◌≡◌}
use streaming_runtime_go.Extern.{Extern, IsDocumented}
use streaming_runtime_go.Support.{InvocationEvent}
use streaming_runtime_go.Deliveries.{get_target_parts-IsTarget}
use streaming_runtime_go.Channel.Loops.{State, Reach}
use streaming_runtime_go.Channel.Pipeline.{emitted, all_deliveries}
use streaming_runtime_go.Channel.Pipeline.Steps.{Steps}
use streaming_runtime_go.Channel.Pipeline.Progress.{Reach-drains}
use streaming_runtime_go.Channel.Setup.{Settings, boot}
use streaming_runtime_go.Channel.Setup.Boot.{boot_channel-IsReady}

-- A channel that main has set up delivers, from every state that it reaches, what the received events
-- give: its two goroutines can go on, with no further event, until each item is delivered to the
-- stream and the component of its targets, in the order of the events, if the libraries behave as
-- documented.
pub boot_channel-drains :
    (x : Extern) (doc : IsDocumented x) (env : Dict Text) (st : Settings x)
    → boot x env ≡ ok st
    → (es : List InvocationEvent) (s : State) → Reach x st.channel es s
    → (t : State) × Steps x st.channel s t
      × (t.delivered ≡ emitted x st.channel es)
      × (t.deliveries ≡ all_deliveries x st.channel (emitted x st.channel es))
boot_channel-drains x doc env st h es s reach =
    let r = boot_channel-IsReady x env st h in
    Reach-drains x st.channel (get_target_parts-IsTarget _ _ r.stream_parts)
      (get_target_parts-IsTarget _ _ r.component_parts) doc es s reach
