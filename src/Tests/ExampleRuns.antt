-- ===== src/Tests/ExampleRuns.antt =====
-- The two example programs: a generator of Booleans, and a processor in its container.
use streaming_runtime_go.Prelude.{
  codes, Text, List, [], ◌∷◌, Option, none, some, ok, fail, errorf, wrap, ◌>>=◌, Dict, length,
  text_eq, true, false, pos, refl, ◌≡◌, lookup, arith,
}
use streaming_runtime_go.Extern.Sample.{
  sample, Tree, leaf, node, Answer, truth, structure, constant,
}
use streaming_runtime_go.Examples.MessageGen.{
  Machine, Message, Settings, Progress, max_int, loop, boot, compile_cel_prog, message_count,
  marshal_json, round, publish_value,
}
use streaming_runtime_go.Examples.MessageGen.Counts.{IsSteady, loop_lem, boot_unfinished}
use streaming_runtime_go.Examples.MessageProc.Runs.{route_of, processor_container-boot}
use streaming_runtime_go.Examples.MessageProc as MessageProc
use streaming_runtime_go.Controllers.Channel.{listen_address}
use streaming_runtime_go.Controllers.Channel.Environment.{env_vars}
use streaming_runtime_go.Controllers.Processor.{processor_container}
use streaming_runtime_go.Tests.Controllers.{processor}

abbrev text_of : Tree → Option Text
text_of (leaf t) = some t
text_of (node b) = none

abbrev type_of : Answer → Text
type_of (truth b) = codes "bool"
type_of (structure m) = codes "map"

abbrev machine : Machine sample
machine = record {
  of_text = λ t. leaf t;
  of_int = λ n. leaf [];
  as_list = λ v. none;
  go_type_name = type_of;
  JsonValue = Text;
  convert_value = λ v. ok (leaf (type_of v));
  as_value = text_of;
  marshal_value = λ t. ok t;
  atoi = λ t. fail (errorf (codes "invalid syntax") []);
  now = λ sent. codes "noon";
  publish = λ sent message. ok tt;
}

abbrev generator : Settings sample machine
generator = record {
  pubsub = codes "kafka";
  topic = codes "orders";
  count = pos 2;
  delay = pos 2;
  prog = constant true;
}

generator-IsSteady : IsSteady sample machine generator
unfolding marshal_json text_eq
generator-IsSteady = record {
  value_of = λ bindings. (truth true, codes "bool", refl, refl, refl);
  taken = λ sent message. refl;
}

loop_lem_example :
    (sent : List Message) × (loop sample machine generator 9 (pos 0) []
      ≡ ok (record { finished = true; counter = pos 3; sent = sent }))
    × (length sent ≡ 3)
loop_lem_example =
    loop_lem sample machine generator 2 9 generator-IsSteady refl (omega arith) (omega arith)

abbrev env : Dict Text
env =
    (codes "CLUSTER_STREAM", codes "kafka")
    ∷ (codes "STREAM_TOPIC", codes "orders")
    ∷ (codes "MESSAGE_EXPR", codes "true")
    ∷ []

abbrev endless : Settings sample machine
endless = record generator { count = pos max_int }

abbrev event : Message
event = record { pubsub = codes "kafka"; topic = codes "orders"; body = codes "bool" }

abbrev two_rounds : Progress sample machine
two_rounds = record { finished = false; counter = pos 2; sent = event ∷ event ∷ [] }

boot_unfinished_example : two_rounds.finished ≡ false
unfolding boot compile_cel_prog message_count loop round publish_value marshal_json lookup text_eq
boot_unfinished_example = boot_unfinished sample machine env endless 2 two_rounds refl refl refl

processor_container-boot_example :
    MessageProc.boot sample (env_vars (processor_container processor).env []) ≡ (
      wrap
        (codes "Failed to add orders handler: ")
        (sample.add_service_invocation_handler (route_of processor))
      >>= λ _. ok (record { port = listen_address (pos 8080); route = route_of processor }))
unfolding lookup
processor_container-boot_example =
    processor_container-boot sample processor [] refl refl (λ e. cc e)
