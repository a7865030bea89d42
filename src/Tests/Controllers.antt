-- ===== src/Tests/Controllers.antt =====
-- A cluster with one resource of each kind, in which the deployments are made by the controllers.
use streaming_runtime_go.Prelude.{
  ok-injective, sym, format_int, split, insert, index_byte, Text, codes, text_eq, List, [], ◌∷◌, ap,
  Option, none, some, true, false, Lacks, lookup, Outcome, ok, fail, Error, pos, ◌≡◌, ◌≢◌, ◌⊎◌,
  refl, arith,
}
use streaming_runtime_go.Extern.Sample.{sample}
use streaming_runtime_go.Api.{
  NamespacedName, ObjectMeta, Deployment, OutputTarget, StreamSetup, ChannelResource,
  JoinerResource, ProcessorResource, StreamSpec, ClusterStreamResource, Container,
}
use streaming_runtime_go.Controllers.Client.{Client, Session}
use streaming_runtime_go.Controllers.Reconcile.{key_of, reconcile}
use streaming_runtime_go.Controllers.Reconcile.Calls.{ReadsOnly, Creates}
use streaming_runtime_go.Controllers.Channel.{
  channel_container, default_channel_image, dapr_annotations, app_port, channel_mode, channel_env,
  make_deployment, own_deployment, create_chan_deployment, channel_controller, resolve_container,
}
use streaming_runtime_go.Controllers.Joiner.{
  default_joiner_image, stream_info, joiner_env, joiner_container, joiner_controller,
}
use streaming_runtime_go.Controllers.Processor.{processor_controller}
use streaming_runtime_go.Controllers.Stream.{stream_controller}
use streaming_runtime_go.Controllers.Owned.{KeepsKey}
use streaming_runtime_go.Controllers.Kinds.{controllers-calls}
use streaming_runtime_go.Controllers.ClusterStream.{status_of, reconcile_cluster_stream}
use streaming_runtime_go.Controllers.ClusterStream.Calls.{Effect, reconcile_cluster_stream-Effect}
use streaming_runtime_go.Controllers.ClusterStream.Status.{status_of_lem}
use streaming_runtime_go.Controllers.Helper.{validate_target}
use streaming_runtime_go.Controllers.Targets.{get_target_parts-validate_target}
use streaming_runtime_go.Prelude.{◌↔◌}
use streaming_runtime_go.Controllers.Channel.Conditions.{
  IsDeployable, channel_container-iff-IsDeployable,
}
use streaming_runtime_go.Controllers.Channel.Environment.{env_vars}
use streaming_runtime_go.Controllers.Joiner.Environment as JoinerEnvironment
use streaming_runtime_go.Controllers.Joiner.Environment.{
  get_subscription-stream_info, joiner_container-IsHandedOver, joiner_container-no_filter,
  joiner_container-no_component,
}
use streaming_runtime_go.Joiner.Setup.{
  Subscription, get_subscription, boot, configure, subscribe, compile_programs, compile_optional,
  new_ticker,
}
use streaming_runtime_go.Joiner.Setup as JoinerSetup
use streaming_runtime_go.Support.{get_target_parts}

abbrev pub meta_named : Text → ObjectMeta
meta_named name = record {
  name = name;
  namespace = codes "default";
  deleting = false;
  labels = [];
  annotations = [];
  owners = [];
}

abbrev pub joined : StreamSetup
joined = record {
  sources = codes "orders" ∷ codes "users" ∷ [];
  to = record { stream = codes "kafka/joined"; component = [] } ∷ [];
  select = [];
  condition = codes "orders.id == users.id";
}

abbrev pub channel : ChannelResource
channel = record {
  meta = meta_named (codes "printer");
  spec = record {
    service_port = pos 8080;
    stream = record joined { condition = codes "true" };
    mode = [];
    trigger = [];
    container = none;
  };
}

abbrev pub joiner : JoinerResource
joiner = record {
  meta = meta_named (codes "joiner");
  spec = record {
    service_port = pos 8080;
    window = codes "10ms";
    stream = some joined;
    container = none;
  };
}

abbrev pub orders : StreamSpec
orders = record {
  cluster_stream = codes "kafka";
  topic = codes "orders";
  recipients = [];
  route = [];
  properties = [];
}

abbrev pub cluster_stream : ClusterStreamResource
cluster_stream = record {
  meta = meta_named (codes "kafka");
  spec = record {
    protocol = codes "kafka";
    properties = (codes "brokers", codes "k1:9092") ∷ [];
    auth_type = [];
  };
  status = record { provider = []; servers = []; status = [] };
}

abbrev pub processor : ProcessorResource
processor = record {
  meta = meta_named (codes "proc");
  spec = record {
    replicas = pos 0;
    service_port = pos 8080;
    container = resolve_container (codes "proc") (codes "image") none;
    service_route = [];
    target = codes "printer";
  };
}

abbrev not_found : Error
not_found = record { message = codes "not found"; is_not_found = true }

abbrev found : Option Deployment → Outcome Deployment
found none = fail not_found
found (some d) = ok d

-- The world is the one deployment, once it is made.
abbrev pub cluster : Client
cluster = record {
  World = Option Deployment;
  get_stream = λ key w. (ok (record { meta = meta_named key.name; spec = orders }), w);
  get_cluster_stream = λ key w. (ok cluster_stream, w);
  get_channel = λ key w. (ok channel, w);
  get_joiner = λ key w. (ok joiner, w);
  get_processor = λ key w. (ok processor, w);
  get_subscription = λ key w. (fail not_found, w);
  get_component = λ key w. (fail not_found, w);
  get_deployment = λ key w. (found w, w);
  create_subscription = λ d w. (ok tt, w);
  create_component = λ d w. (ok tt, w);
  create_deployment = λ d w. (ok tt, some d);
  update_status = λ cs w. (ok tt, w);
  set_controller_reference = λ owner m. ok (record m { owners = owner.name ∷ [] });
  marshal_string = λ s. ok s;
}

abbrev pub empty_session : Session (Option Deployment)
empty_session = record { world = none; calls = [] }

abbrev pub request : NamespacedName
request = record { name = codes "printer"; namespace = codes "default" }

controllers-calls_example :
    (ReadsOnly empty_session (reconcile (stream_controller cluster) request empty_session).1
      ⊎ Creates
          (stream_controller cluster)
          request
          empty_session
          (reconcile (stream_controller cluster) request empty_session).1)
    × (ReadsOnly empty_session (reconcile (processor_controller cluster) request empty_session).1
        ⊎ Creates
            (processor_controller cluster)
            request
            empty_session
            (reconcile (processor_controller cluster) request empty_session).1)
    × (ReadsOnly empty_session (reconcile (channel_controller cluster) request empty_session).1
        ⊎ Creates
            (channel_controller cluster)
            request
            empty_session
            (reconcile (channel_controller cluster) request empty_session).1)
    × (ReadsOnly empty_session (reconcile (joiner_controller cluster) request empty_session).1
        ⊎ Creates
            (joiner_controller cluster)
            request
            empty_session
            (reconcile (joiner_controller cluster) request empty_session).1)
controllers-calls_example = controllers-calls cluster request empty_session

-- The container that the controller makes for the channel.
abbrev pub printer_container : Container
printer_container = record (resolve_container (codes "printer") default_channel_image none) {
  ports = app_port (pos 8080) ∷ [];
  env =
      channel_env channel.spec (codes "orders")
        (record { stream = codes "kafka/joined"; component = [] });
}

printer-container : channel_container channel ≡ ok printer_container
unfolding channel_container channel_mode text_eq
printer-container = refl

channel_container-iff-IsDeployable_example :
    ((container : Container) × (channel_container channel ≡ ok container))
    ↔ IsDeployable channel.spec
channel_container-iff-IsDeployable_example = channel_container-iff-IsDeployable channel

abbrev pub target : OutputTarget
target = record { stream = codes "kafka/joined"; component = codes "app" }

abbrev infos : List Text
infos = codes "kafka|orders|orders" ∷ codes "kafka|users|users" ∷ []

abbrev pub made_container : Container
made_container = record (resolve_container (codes "joiner") default_joiner_image none) {
  ports = app_port (pos 8080) ∷ [];
  env =
      joiner_env joiner.spec joined (codes "kafka|orders|orders") (codes "kafka|users|users")
        target;
}

joiner-container : joiner_container joiner joined target infos ≡ ok made_container
unfolding joiner_container
joiner-container = refl

joiner_container-IsHandedOver_example :
    JoinerEnvironment.IsHandedOver joiner.spec joined target [] (env_vars made_container.env [])
joiner_container-IsHandedOver_example =
    joiner_container-IsHandedOver joiner joined target infos made_container [] joiner-container

abbrev pub started : JoinerSetup.Settings sample
started = record {
  port = codes ":8080";
  window = pos 4;
  joiner = record {
    topics = codes "orders" ∷ codes "users" ∷ [];
    filter_prog = none;
    data_prog = none;
    target_component_parts = codes "app" ∷ codes "app" ∷ [];
    target_stream_parts = codes "kafka" ∷ codes "joined" ∷ [];
  };
  loop = record {
    store = record { streams = (codes "users", []) ∷ (codes "orders", []) ∷ [] };
    output = [];
    running = true;
  };
}

pub made_container-boot : JoinerSetup.boot sample (env_vars made_container.env []) ≡ ok started
unfolding boot configure subscribe get_subscription get_target_parts split compile_programs
    compile_optional new_ticker insert lookup text_eq joiner_env validate_target index_byte
    format_int
made_container-boot = refl

joiner_container-no_filter_example : started.joiner.filter_prog ≡ none
unfolding lookup
joiner_container-no_filter_example =
    joiner_container-no_filter sample joiner joined target infos made_container [] joiner-container
      started refl made_container-boot

-- The same joiner with no target component.
abbrev stream_target : OutputTarget
stream_target = record { stream = codes "kafka/joined"; component = [] }

abbrev stream_container : Container
stream_container = record made_container {
  env =
      joiner_env joiner.spec joined (codes "kafka|orders|orders") (codes "kafka|users|users")
        stream_target;
}

stream-container : joiner_container joiner joined stream_target infos ≡ ok stream_container
unfolding joiner_container
stream-container = refl

joiner_container-no_component_example :
    JoinerSetup.boot sample (env_vars stream_container.env []) ≢ ok started
joiner_container-no_component_example =
    joiner_container-no_component sample joiner joined stream_target infos stream_container []
      stream-container started refl

pub kafka-Lacks : Lacks b'|' (codes "kafka")
kafka-Lacks = (
  λ h. omega arith,
  (λ h. omega arith, (λ h. omega arith, (λ h. omega arith, (λ h. omega arith, tt)))),
)

pub orders-Lacks : Lacks b'|' (codes "orders")
orders-Lacks = (
  λ h. omega arith,
  (
    λ h. omega arith,
    (λ h. omega arith, (λ h. omega arith, (λ h. omega arith, (λ h. omega arith, tt)))),
  ),
)

get_subscription-stream_info_example :
    get_subscription (stream_info orders)
    ≡ ok (record { pubsub_name = codes "kafka"; topic = codes "orders"; route = codes "orders" })
get_subscription-stream_info_example =
    get_subscription-stream_info orders kafka-Lacks orders-Lacks tt

status_of_lem_example :
    status_of cluster_stream
    ≡ record { provider = codes "kafka"; servers = codes "k1:9092"; status = codes "Ready" }
unfolding lookup text_eq
status_of_lem_example = status_of_lem cluster_stream (tt, tt)

get_target_parts-validate_target_example :
    get_target_parts (validate_target (codes "printer")) ≡ get_target_parts (codes "printer")
get_target_parts-validate_target_example = get_target_parts-validate_target (codes "printer")

-- What `create_chan_deployment` builds, and the sessions of the two reconciles.
abbrev pub printer_deployment : Deployment
printer_deployment = record {
  meta = record {
    name = codes "printer";
    namespace = codes "default";
    deleting = false;
    labels = (codes "app", codes "printer") ∷ [];
    annotations = [];
    owners = codes "printer" ∷ [];
  };
  match_labels = (codes "app", codes "printer") ∷ [];
  replicas = pos 1;
  pod_labels = (codes "app", codes "printer") ∷ [];
  pod_annotations = dapr_annotations (codes "printer") (pos 8080);
  containers = printer_container ∷ [];
}

pub printer-built : create_chan_deployment cluster channel ≡ ok printer_deployment
unfolding create_chan_deployment channel_container channel_mode text_eq make_deployment
    own_deployment
printer-built = refl

reconcile_cluster_stream-Effect_example :
    Effect cluster request empty_session (reconcile_cluster_stream cluster request empty_session).1
reconcile_cluster_stream-Effect_example =
    reconcile_cluster_stream-Effect cluster request empty_session

pub cluster-KeepsKey : KeepsKey cluster
cluster-KeepsKey owner m m' h = ap key_of (sym (ok-injective h))
