-- ===== src/Tests/ChannelRuns.antt =====
-- A channel from "greetings" to the app "printer", without programs, that gets one event.
use streaming_runtime_go.Prelude.{
  ◌+◌, ◌≤◌, Text, codes, text_eq, split, List, [], ◌∷◌, Option, none, some, Dict, lookup, ok, ◌≡◌,
  refl, arith,
}
use streaming_runtime_go.Extern.Sample.{sample, sample-IsDocumented, data_map, constant}
use streaming_runtime_go.Support.{InvocationEvent, json_type, get_target_parts, compile_cel_prog}
use streaming_runtime_go.Deliveries.{Delivery, invoke_method, content_json, to_stream, to_component}
use streaming_runtime_go.Channel.{Channel, should_collect, should_trigger, collect_data}
use streaming_runtime_go.Channel.Loops.{
  State, start, invocation_handler, process_event, collect_if, collected_event, take_up,
  output_item, process, send, deliver, Reach, begin, received, stepped,
}
use streaming_runtime_go.Channel.Safety.{process_event-total}
use streaming_runtime_go.Channel.Pipeline.{Conserves, emitted, all_deliveries, Reach-Conserves}
use streaming_runtime_go.Channel.Pipeline.Steps.{
  Steps, stay, more, work, count_steps, count_steps-le-work,
}
use streaming_runtime_go.Channel.Setup.{
  stream_to_component_env, stream_from_env, trigger_env, Settings, stream_source, compile_into,
  compile_programs, configure, boot,
}
use streaming_runtime_go.Channel.System.{boot_channel-drains}
use streaming_runtime_go.Tests.Controllers.{
  cluster, channel as printer_channel, printer_container, printer_deployment, printer-built,
  cluster-KeepsKey,
}
use streaming_runtime_go.Controllers.Channel.System.{Delivers, deployed_channel-Delivers}
use streaming_runtime_go.Controllers.Channel.{channel_env}
use streaming_runtime_go.Controllers.Channel.Environment.{env_vars}
use streaming_runtime_go.Prelude.{format_int, true}
use streaming_runtime_go.Channel.Setup.Boot.{IsReady, boot_channel-IsReady}

abbrev printer : List Text
printer = codes "printer" ∷ codes "print" ∷ []

abbrev channel : Channel sample
channel = record {
  stream_from = codes "greetings";
  filter_prog = none;
  data_prog = none;
  trigger_prog = none;
  target_stream_parts = [];
  target_component_parts = printer;
}

abbrev hello : InvocationEvent
hello = record {
  content = codes "hello";
  content_type = json_type;
  data_type_url = [];
  query_string = [];
}

process_event-total_example : (item : Option Text) × (process_event sample channel hello ≡ ok item)
process_event-total_example = process_event-total sample sample-IsDocumented channel hello

-- The one item, and what dapr is asked for it.
abbrev request : Delivery
request = invoke_method (codes "printer") (codes "print") (codes "hello") content_json

abbrev finished_state : State
finished_state = record {
  input = [];
  holding = none;
  counter = 1;
  output = [];
  delivered = codes "hello" ∷ [];
  deliveries = request ∷ [];
}

abbrev queued_state : State
queued_state = record start { input = hello ∷ [] }

queued : Reach sample channel (hello ∷ []) queued_state
unfolding invocation_handler
queued = received hello begin (omega arith)

finished : Reach sample channel (hello ∷ []) finished_state
unfolding process_event collect_if collected_event should_collect collect_data take_up output_item
    should_trigger to_stream to_component
finished =
    stepped
      (stepped
        (stepped queued (process queued_state hello [] (some (codes "hello")) refl refl refl))
        (send (record start { counter = 1; holding = some (codes "hello") }) (codes "hello") refl
          (omega arith)))
      (deliver (record start { counter = 1; output = codes "hello" ∷ [] }) (codes "hello") []
        (request ∷ []) refl refl)

Reach-Conserves_example : Conserves sample channel (hello ∷ []) queued_state
Reach-Conserves_example = Reach-Conserves sample channel (hello ∷ []) queued_state queued

abbrev environment : Dict Text
environment =
    (stream_from_env, codes "greetings")
    ∷ (stream_to_component_env, codes "printer/print")
    ∷ (trigger_env, codes "count")
    ∷ []

abbrev settings : Settings sample
settings = record {
  port = codes ":8080";
  mode = codes "stream";
  channel = record channel { data_prog = some data_map };
}

environment-boot : boot sample environment ≡ ok settings
unfolding boot configure stream_source compile_programs compile_into compile_cel_prog
    get_target_parts split lookup text_eq
environment-boot = refl

boot_channel-IsReady_example : IsReady sample environment settings.channel
boot_channel-IsReady_example = boot_channel-IsReady sample environment settings environment-boot

queued_by_main : Reach sample settings.channel (hello ∷ []) queued_state
unfolding invocation_handler
queued_by_main = received hello begin (omega arith)

boot_channel-drains_example :
    (t : State) × Steps sample settings.channel queued_state t
    × (t.delivered ≡ emitted sample settings.channel (hello ∷ []))
    × (t.deliveries
        ≡ all_deliveries sample settings.channel (emitted sample settings.channel (hello ∷ [])))
boot_channel-drains_example =
    boot_channel-drains sample sample-IsDocumented environment settings environment-boot
      (hello ∷ []) queued_state queued_by_main

-- One event is processed.
abbrev processing :
    Steps sample channel queued_state (record start { counter = 1; holding = some (codes "hello") })
unfolding process_event collect_if should_collect collect_data collected_event take_up
processing = more (process queued_state hello [] (some (codes "hello")) refl refl refl) (stay _)

count_steps-le-work_example :
    count_steps sample channel processing
      + work sample channel (record start { counter = 1; holding = some (codes "hello") })
    ≤ work sample channel queued_state
count_steps-le-work_example = count_steps-le-work sample channel processing

-- A channel that the controller has deployed.
abbrev deployed : Settings sample
deployed = record {
  port = codes ":8080";
  mode = codes "stream";
  channel = record {
    stream_from = codes "orders";
    filter_prog = some (constant true);
    data_prog = none;
    trigger_prog = none;
    target_stream_parts = codes "kafka" ∷ codes "joined" ∷ [];
    target_component_parts = [];
  };
}

deployed-boot : boot sample (env_vars printer_container.env []) ≡ ok deployed
unfolding boot configure stream_source compile_programs compile_into compile_cel_prog
    get_target_parts split lookup text_eq channel_env format_int
deployed-boot = refl

received_by_deployed : Reach sample deployed.channel (hello ∷ []) queued_state
unfolding invocation_handler
received_by_deployed = received hello begin (omega arith)

deployed_channel-Delivers_example :
    Delivers sample printer_channel
      (env_vars printer_container.env [])
      deployed
      (hello ∷ [])
      queued_state
deployed_channel-Delivers_example =
    deployed_channel-Delivers sample sample-IsDocumented cluster printer_channel printer_deployment
      printer_container [] deployed (hello ∷ []) queued_state cluster-KeepsKey printer-built refl
      deployed-boot received_by_deployed
