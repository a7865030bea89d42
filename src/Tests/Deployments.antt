-- ===== src/Tests/Deployments.antt =====
-- A cluster that has a stream under every name, and what the controllers make in it.
use streaming_runtime_go.Prelude.{
  Text, codes, Lacks, [], ◌∷◌, none, some, false, ok, pos, ◌≡◌, refl, sym, ap, ok-injective, split,
  arith,
}
use streaming_runtime_go.Extern.Sample.{sample, sample-IsDocumented}
use streaming_runtime_go.Api.{
  NamespacedName, Deployment, StreamResource, DaprSubscription, DaprComponent, JoinerResource,
}
use streaming_runtime_go.Controllers.Client.{Client, Session, call, get, stream_kind}
use streaming_runtime_go.Controllers.Reconcile.{key_of}
use streaming_runtime_go.Controllers.Owned.{KeepsKey}
use streaming_runtime_go.Controllers.Channel.{dapr_annotations}
use streaming_runtime_go.Controllers.Joiner.{
  stream_info, joiner_env, joiner_container, check_stream_setup,
}
use streaming_runtime_go.Controllers.Joiner.Creation.{IsPlain, Deploys}
use streaming_runtime_go.Controllers.Stream.{subscription_route, create_dapr_subscription}
use streaming_runtime_go.Controllers.Stream.Subscription.{Matches, create_dapr_subscription-Matches}
use streaming_runtime_go.Controllers.ClusterStream.{component_metadata, create_cluster_stream}
use mathlib.Core.List.{Permᴰ}
use streaming_runtime_go.Prelude.{List}
use streaming_runtime_go.Controllers.ClusterStream.Order.{
  with_properties, create_cluster_stream-Perm,
}
use streaming_runtime_go.Joiner.Setup.{Subscription, get_subscription}
use streaming_runtime_go.Tests.JoinerRuns.{joined_signals, closing, closing-reached}
use streaming_runtime_go.Joiner.System.{Delivers}
use streaming_runtime_go.Controllers.Joiner.System.{deployed_joiner-Delivers}
use streaming_runtime_go.Tests.Controllers.{
  cluster, joiner, joined, target, orders, meta_named, made_container, started, made_container-boot,
  kafka-Lacks, orders-Lacks, cluster_stream,
}

abbrev stream_of : Text → StreamResource
stream_of name = record { meta = meta_named name; spec = record orders { topic = name } }

abbrev streams : Client
streams = record cluster { get_stream = λ key w. (ok (stream_of key.name), w) }

streams-KeepsKey : KeepsKey streams
streams-KeepsKey owner m m' h = ap key_of (sym (ok-injective h))

abbrev app_joiner : JoinerResource
app_joiner = record joiner {
  spec = record (joiner.spec) { stream = some (record joined { to = target ∷ [] }) };
}

abbrev joiner_deployment : Deployment
joiner_deployment = record {
  meta = record {
    name = codes "joiner";
    namespace = codes "default";
    deleting = false;
    labels = (codes "app", codes "joiner") ∷ [];
    annotations = [];
    owners = codes "joiner" ∷ [];
  };
  match_labels = (codes "app", codes "joiner") ∷ [];
  replicas = pos 1;
  pod_labels = (codes "app", codes "joiner") ∷ [];
  pod_annotations = dapr_annotations (codes "joiner") (pos 8080);
  containers = made_container ∷ [];
}

abbrev key : Text → NamespacedName
key name = record { name = name; namespace = codes "default" }

abbrev at_start : Session streams.World
at_start = record { world = none; calls = [] }

abbrev read_once : Session streams.World
read_once = record at_start { calls = get stream_kind (key (codes "orders")) ∷ [] }

abbrev read_twice : Session streams.World
read_twice = record at_start {
  calls = get stream_kind (key (codes "orders")) ∷ get stream_kind (key (codes "users")) ∷ [];
}

-- The same, written out.
deploys : Deploys streams app_joiner joiner_deployment at_start read_twice
unfolding check_stream_setup call stream_info joiner_container joiner_env
deploys = record {
  stream = record joined { to = target ∷ [] };
  to = target;
  name_a = codes "orders";
  name_b = codes "users";
  a = stream_of (codes "orders");
  b = stream_of (codes "users");
  between = read_once;
  container = made_container;
  checked = refl;
  sources = refl;
  read_a = refl;
  read_b = refl;
  made = refl;
  deployed = record {
    found = refl;
    selects = refl;
    annotated = refl;
    runs = refl;
    replicated = refl;
  };
}

users-Lacks : Lacks b'|' (codes "users")
users-Lacks = (
  λ h. omega arith,
  (λ h. omega arith, (λ h. omega arith, (λ h. omega arith, (λ h. omega arith, tt)))),
)

orders-IsPlain : IsPlain orders
orders-IsPlain = record { cluster_stream = kafka-Lacks; topic = orders-Lacks; route = tt }

users-IsPlain : IsPlain (stream_of (codes "users")).spec
users-IsPlain = record { cluster_stream = kafka-Lacks; topic = users-Lacks; route = tt }

deployed_joiner-Delivers_example :
    (w : Delivers sample started joined_signals closing) × (w.ta ≡ codes "orders")
    × (w.tb ≡ codes "users")
unfolding deploys
deployed_joiner-Delivers_example =
    deployed_joiner-Delivers sample sample-IsDocumented streams app_joiner joiner_deployment
      at_start read_twice deploys made_container [] started joined_signals closing orders-IsPlain
      users-IsPlain refl made_container-boot closing-reached

abbrev orders_stream : StreamResource
orders_stream = stream_of (codes "orders")

abbrev orders_subscription : DaprSubscription
orders_subscription = record {
  meta = record {
    name = codes "orders";
    namespace = codes "default";
    deleting = false;
    labels = [];
    annotations = [];
    owners = codes "orders" ∷ [];
  };
  pubsub_name = codes "kafka";
  topic = codes "orders";
  default_route = codes "/orders";
  scopes = [];
}

abbrev joiner_subscription : Subscription
joiner_subscription = record {
  pubsub_name = codes "kafka";
  topic = codes "orders";
  route = codes "orders";
}

create_dapr_subscription-Matches_example :
    Matches orders_stream orders_subscription joiner_subscription
unfolding create_dapr_subscription subscription_route get_subscription stream_info split
create_dapr_subscription-Matches_example =
    create_dapr_subscription-Matches streams orders_stream orders_subscription joiner_subscription
      streams-KeepsKey orders-IsPlain refl refl

abbrev kafka_component : DaprComponent
kafka_component = record {
  meta = record {
    name = codes "kafka";
    namespace = codes "default";
    deleting = false;
    labels = [];
    annotations = [];
    owners = codes "kafka" ∷ [];
  };
  component_type = codes "pubsub.kafka";
  version = codes "v1";
  metadata = (codes "brokers", codes "k1:9092") ∷ [];
}

-- A cluster stream with two properties, and the second order of them.
abbrev brokers : Text × Text
brokers = (codes "brokers", codes "k1:9092")

abbrev retries : Text × Text
retries = (codes "retries", codes "3")

create_cluster_stream-Perm_example : ∥ (
    (metadata : List (Text × Text)) × (create_cluster_stream streams
        (codes "pubsub.kafka")
        (with_properties streams cluster_stream (retries ∷ brokers ∷ []))
      ≡ ok (record kafka_component { metadata = metadata }))
    × Permᴰ (brokers ∷ retries ∷ []) metadata) ∥₁
unfolding create_cluster_stream component_metadata
create_cluster_stream-Perm_example =
    create_cluster_stream-Perm streams (codes "pubsub.kafka")
      (with_properties streams cluster_stream (brokers ∷ retries ∷ []))
      (record kafka_component { metadata = brokers ∷ retries ∷ [] }) (retries ∷ brokers ∷ []) refl
      ∣ Permᴰ.swap refl refl ∣₁
