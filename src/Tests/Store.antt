-- ===== src/Tests/Store.antt =====
-- An API server that stores the objects of the controllers, with one resource under every name, and a
-- cache that is never behind.
use streaming_runtime_go.Prelude.{
  codes, text_eq, List, [], ◌∷◌, Bool, true, false, ◌&&◌, if◌then◌else◌, Outcome, ok, fail, Error,
  ◌≡◌, refl, sym, ap, ok-injective, Bool-cases, inl, inr,
}
use streaming_runtime_go.Api.{
  ObjectMeta, NamespacedName, Deployment, DaprSubscription, DaprComponent,
}
use streaming_runtime_go.Controllers.Client.{
  Client, Kind, deployment_kind, subscription_kind, component_kind,
}
use streaming_runtime_go.Controllers.Reconcile.{key_of}
use streaming_runtime_go.Controllers.Cache.{Cache, Leaves}
use streaming_runtime_go.Controllers.Owned.{KeepsKey}
use streaming_runtime_go.Controllers.Cache.Health.{IsHealthy}
use streaming_runtime_go.Tests.Controllers.{
  meta_named, cluster_stream, channel, joiner, processor, cluster, printer_deployment,
}

abbrev same_key : NamespacedName → NamespacedName → Bool
same_key a b = text_eq a.name b.name && text_eq a.namespace b.namespace

abbrev has : NamespacedName → List NamespacedName → Bool
has key [] = false
has key (k ∷ keys) = if same_key k key then true else has key keys

abbrev not_found : Error
not_found = record { message = codes "not found"; is_not_found = true }

abbrev already_exists : Error
already_exists = record { message = codes "already exists"; is_not_found = false }

abbrev meta_at : NamespacedName → ObjectMeta
meta_at key = record (meta_named key.name) { namespace = key.namespace }

-- The names of the objects that are stored, and that the cache shows at once.
pub record Names : Type 0 where
  pub subscriptions : List NamespacedName
  pub components : List NamespacedName
  pub deployments : List NamespacedName

abbrev names_of : Kind → Names → List NamespacedName
names_of subscription_kind w = w.subscriptions
names_of component_kind w = w.components
names_of deployment_kind w = w.deployments
names_of _ w = []

abbrev answer : {D : Type 0} → Bool → D → Outcome D
answer true d = ok d
answer false d = fail not_found

abbrev creates : Bool → Outcome (Unit {0})
creates true = fail already_exists
creates false = ok tt

abbrev a_subscription : DaprSubscription
a_subscription = record {
  meta = meta_named (codes "orders");
  pubsub_name = codes "kafka";
  topic = codes "orders";
  default_route = codes "/orders";
  scopes = [];
}

abbrev a_component : DaprComponent
a_component = record {
  meta = meta_named (codes "kafka");
  component_type = codes "pubsub.kafka";
  version = codes "v1";
  metadata = [];
}

-- An API server with one resource of each kind but streams.
abbrev pub store : Client
store = record cluster {
  World = Names;
  get_stream = λ key w. (fail not_found, w);
  get_cluster_stream = λ key w. (ok (record cluster_stream { meta = meta_at key }), w);
  get_channel = λ key w. (ok (record channel { meta = meta_at key }), w);
  get_joiner = λ key w. (ok (record joiner { meta = meta_at key }), w);
  get_processor = λ key w. (ok (record processor { meta = meta_at key }), w);
  get_subscription = λ key w. (answer (has key w.subscriptions) a_subscription, w);
  get_component = λ key w. (answer (has key w.components) a_component, w);
  get_deployment = λ key w. (answer (has key w.deployments) printer_deployment, w);
  create_subscription = λ d w. (
    creates (has (key_of d.meta) w.subscriptions),
    record w { subscriptions = key_of d.meta ∷ w.subscriptions },
  );
  create_component = λ d w. (
    creates (has (key_of d.meta) w.components),
    record w { components = key_of d.meta ∷ w.components },
  );
  create_deployment = λ d w. (
    creates (has (key_of d.meta) w.deployments),
    record w { deployments = key_of d.meta ∷ w.deployments },
  );
  update_status = λ cs w. (ok tt, w);
}

pub store-KeepsKey : KeepsKey store
store-KeepsKey owner m m' h = ap key_of (sym (ok-injective h))

abbrev pub IsThere : Kind → NamespacedName → Names → Type 0
IsThere kind key w = has key (names_of kind w) ≡ true

pub answer-missing :
    {D : Type 0} (b : Bool) (d : D) (e : Error) → answer b d ≡ fail e → ¬ (b ≡ true)
answer-missing true d e h g = cc
answer-missing false d e h g = cc

has_tail :
    (k key : NamespacedName) (keys : List NamespacedName)
    → has key keys ≡ true
    → has key (k ∷ keys) ≡ true
has_tail k key keys h = elim (Bool-cases (same_key k key)) [ inl e ↦ rw e | inr e ↦ rw e h ]

pub add_subscription : (d : DaprSubscription) → Leaves IsThere (store.create_subscription d)
add_subscription d subscription_kind key w h = has_tail (key_of d.meta) key w.subscriptions h
add_subscription d _ key w h = h

pub add_component : (d : DaprComponent) → Leaves IsThere (store.create_component d)
add_component d component_kind key w h = has_tail (key_of d.meta) key w.components h
add_component d _ key w h = h

pub add_deployment : (d : Deployment) → Leaves IsThere (store.create_deployment d)
add_deployment d deployment_kind key w h = has_tail (key_of d.meta) key w.deployments h
add_deployment d _ key w h = h

abbrev pub store-Cache : Cache store
store-Cache = record {
  Shown = IsThere;
  misses_subscription = λ key w e h nf. answer-missing (has key w.subscriptions) a_subscription e h;
  misses_component = λ key w e h nf. answer-missing (has key w.components) a_component e h;
  misses_deployment = λ key w e h nf. answer-missing (has key w.deployments) printer_deployment e h;
  leaves_stream = λ key kind n w h. h;
  leaves_cluster_stream = λ key kind n w h. h;
  leaves_channel = λ key kind n w h. h;
  leaves_joiner = λ key kind n w h. h;
  leaves_processor = λ key kind n w h. h;
  leaves_subscription = λ key kind n w h. h;
  leaves_component = λ key kind n w h. h;
  leaves_deployment = λ key kind n w h. h;
  leaves_new_subscription = add_subscription;
  leaves_new_component = add_component;
  leaves_new_deployment = add_deployment;
  leaves_status = λ cs kind n w h. h;
}

pub store-IsHealthy : IsHealthy store store-Cache
store-IsHealthy = record {
  reads_stream = λ key w. refl;
  reads_channel = λ key w. refl;
  reads_joiner = λ key w. refl;
  reads_processor = λ key w. refl;
  reads_cluster_stream = λ key w. refl;
  finds_subscription = λ key w h. (a_subscription, ap (λ b. answer b a_subscription) h);
  finds_component = λ key w h. (a_component, ap (λ b. answer b a_component) h);
  finds_deployment = λ key w h. (printer_deployment, ap (λ b. answer b printer_deployment) h);
  updates_status = λ cs w m h. cc;
}
