-- ===== src/Controllers/ClusterStream.antt =====
-- controllers/clusterstream_controller.go.
pub mod Status
pub mod Metadata
pub mod Calls
pub mod Order
pub mod Cache
pub mod Once
use streaming_runtime_go.Prelude.{
  Text, codes, List, [], ◌∷◌, ◌++◌, Dict, join, false, Outcome, ok, fail, panic, errorf, Error,
  wrap, ◌>>=◌, is_empty, if◌then◌else◌,
}
use streaming_runtime_go.Api.{
  NamespacedName, ObjectMeta, ClusterStreamSpec, ClusterStreamStatus, ClusterStreamResource,
  DaprComponent, kafka_protocol_name,
}
use streaming_runtime_go.Controllers.Helper.{get_metadata_string_values}
use streaming_runtime_go.Controllers.Client.{
  Client, Action, Session, call, get, cluster_stream_kind, component_kind, post_component,
  put_status, Reconciled, finished, requeued, failed,
}
use streaming_runtime_go.Controllers.Reconcile.{key_of}

-- `fmt.Sprintf("pubsub.%s", cs.Spec.Protocol)`
abbrev pub component_type_of : ClusterStreamSpec → Text
component_type_of spec = codes "pubsub." ++ spec.protocol

-- The status of a cluster stream whose component is there. The error "kafka: missing bootstrap
-- servers" is assigned and not returned.
unfoldable pub status_of : ClusterStreamResource → ClusterStreamStatus
status_of cs =
    let brokers = get_metadata_string_values (codes "brokers") cs.spec.properties in
    if is_empty brokers
    then record cs.status { provider = kafka_protocol_name; status = codes "Error" }
    else record cs.status {
      provider = kafka_protocol_name;
      status = codes "Ready";
      servers = join brokers (codes ",");
    }

module _ (k : Client) where
  open k use {
    World, get_cluster_stream, get_component, create_component, update_status,
    set_controller_reference, marshal_string,
  }

  abbrev Return : Type 0
  Return = Outcome Reconciled × Session World

  -- the loop over the properties, in the order of the `range`
  unfoldable pub component_metadata : Dict Text → List (Text × Text) → Outcome (List (Text × Text))
  component_metadata [] items = ok items
  component_metadata ((key, v) ∷ properties) items = do
    value ← wrap (codes "component metadata encoding failed: ") (marshal_string v)
    component_metadata properties (items ++ (key, value) ∷ [])

  -- createClusterStream
  unfoldable pub create_cluster_stream : Text → ClusterStreamResource → Outcome DaprComponent
  create_cluster_stream component_type cs = do
    metadata ← component_metadata cs.spec.properties []
    meta ← set_controller_reference cs.meta (record {
      name = cs.meta.name;
      namespace = cs.meta.namespace;
      deleting = false;
      labels = [];
      annotations = [];
      owners = [];
    })
    ok (record {
      meta = meta;
      component_type = component_type;
      version = codes "v1";
      metadata = metadata;
    })

  -- after r.Create
  unfoldable pub after_create : Outcome (Unit {0}) × Session World → Return
  after_create (ok u, s) = (ok requeued, s)
  after_create (fail e, s) = (ok (failed e), s)
  after_create (panic m, s) = (panic m, s)

  unfoldable pub after_build : Outcome DaprComponent × Session World → Return
  unfolding after_create
  after_build (ok d, s) = after_create (call (post_component d) (create_component d) s)
  after_build (fail e, s) = (ok (failed e), s)
  after_build (panic m, s) = (panic m, s)

  -- after r.Status().Update
  unfoldable pub after_status : Outcome (Unit {0}) × Session World → Return
  after_status (ok u, s) = (ok finished, s)
  after_status (fail e, s) = (ok (failed e), s)
  after_status (panic m, s) = (panic m, s)

  -- after the Get of the component
  unfoldable pub after_component :
      ClusterStreamResource → Outcome DaprComponent × Session World → Return
  unfolding after_build after_status status_of
  after_component cs (ok component, s) =
      let cs' = record cs { status = status_of cs } in
      after_status (call (put_status cs') (update_status cs') s)
  after_component cs (fail e, s) =
      if e.is_not_found
      then after_build (create_cluster_stream (component_type_of cs.spec) cs, s)
      else (ok (failed e), s)
  after_component cs (panic m, s) = (panic m, s)

  -- after the Get of the cluster stream; a resource that is being deleted is not told apart
  unfoldable pub after_fetch : Outcome ClusterStreamResource × Session World → Return
  unfolding after_component
  after_fetch (ok cs, s) =
      after_component cs
        (call (get component_kind (key_of cs.meta)) (get_component (key_of cs.meta)) s)
  after_fetch (fail e, s) = if e.is_not_found then (ok finished, s) else (ok (failed e), s)
  after_fetch (panic m, s) = (panic m, s)

  -- Reconcile
  unfoldable pub reconcile_cluster_stream : NamespacedName → Session World → Return
  unfolding after_fetch
  reconcile_cluster_stream req s =
      after_fetch (call (get cluster_stream_kind req) (get_cluster_stream req) s)
