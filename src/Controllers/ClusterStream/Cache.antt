-- ===== src/Controllers/ClusterStream/Cache.antt =====
-- A reconcile of a cluster stream and the objects that the cache shows.
use streaming_runtime_go.Prelude.{Outcome, ok, fail, panic, Bool-cases, inl, inr}
use streaming_runtime_go.Api.{NamespacedName, ClusterStreamResource, DaprComponent}
use streaming_runtime_go.Controllers.Client.{
  Client, Kind, Session, call, get, cluster_stream_kind, component_kind, post_component, put_status,
}
use streaming_runtime_go.Controllers.Reconcile.{key_of}
use streaming_runtime_go.Controllers.Cache.{Cache, call-Keeps}
use streaming_runtime_go.Controllers.ClusterStream.{
  component_type_of, create_cluster_stream, after_create, after_build, after_status,
  after_component, after_fetch, reconcile_cluster_stream,
}
use streaming_runtime_go.Controllers.ClusterStream.Calls.{with_status}

module _ (k : Client) (st : Cache k) where
  open k use {World, get_cluster_stream, get_component, create_component, update_status}

  module _ (kind : Kind) (key : NamespacedName) where
    abbrev Kept : World → Type 0
    Kept = st.Shown kind key

    after_create-Kept :
        (r : Outcome (Unit {0}) × Session World) → Kept r.1.world → Kept (after_create k r).1.world
    unfolding after_create
    after_create-Kept (ok u, s) h = h
    after_create-Kept (fail e, s) h = h
    after_create-Kept (panic m, s) h = h

    after_build-Kept :
        (r : Outcome DaprComponent × Session World)
        → Kept r.1.world
        → Kept (after_build k r).1.world
    unfolding after_build
    after_build-Kept (ok d, s) h =
        after_create-Kept (call (post_component d) (create_component d) s)
          (call-Keeps st.Shown _ (create_component d) kind key (st.leaves_new_component d) s h)
    after_build-Kept (fail e, s) h = h
    after_build-Kept (panic m, s) h = h

    pub after_status-Kept :
        (r : Outcome (Unit {0}) × Session World) → Kept r.1.world → Kept (after_status k r).1.world
    unfolding after_status
    after_status-Kept (ok u, s) h = h
    after_status-Kept (fail e, s) h = h
    after_status-Kept (panic m, s) h = h

    after_component-Kept :
        (cs : ClusterStreamResource) (r : Outcome DaprComponent × Session World)
        → Kept r.1.world
        → Kept (after_component k cs r).1.world
    unfolding after_component
    after_component-Kept cs (ok d, s) h =
        let cs' = with_status k cs in
        after_status-Kept (call (put_status cs') (update_status cs') s)
          (call-Keeps st.Shown _ (update_status cs') kind key (st.leaves_status cs') s h)
    after_component-Kept cs (panic m, s) h = h
    after_component-Kept cs (fail e, s) h = elim (Bool-cases e.is_not_found) [
      | inl nf ↦
          rw nf (after_build-Kept (create_cluster_stream k (component_type_of cs.spec) cs, s) h)
      | inr f ↦ rw f h
    ]

    after_fetch-Kept :
        (r : Outcome ClusterStreamResource × Session World)
        → Kept r.1.world
        → Kept (after_fetch k r).1.world
    unfolding after_fetch
    after_fetch-Kept (ok cs, s) h =
        let n = key_of cs.meta in
        after_component-Kept cs (call (get component_kind n) (get_component n) s)
          (call-Keeps st.Shown _ (get_component n) kind key (st.leaves_component n) s h)
    after_fetch-Kept (panic m, s) h = h
    after_fetch-Kept (fail e, s) h = elim (Bool-cases e.is_not_found) [
      | inl nf ↦ rw nf h
      | inr f ↦ rw f h
    ]

    -- A reconcile of a cluster stream keeps what the cache shows.
    pub reconcile_cluster_stream-keeps :
        (req : NamespacedName) (s : Session World)
        → Kept s.world
        → Kept (reconcile_cluster_stream k req s).1.world
    unfolding reconcile_cluster_stream
    reconcile_cluster_stream-keeps req s h =
        after_fetch-Kept (call (get cluster_stream_kind req) (get_cluster_stream req) s) (
          call-Keeps st.Shown _ (get_cluster_stream req) kind key (st.leaves_cluster_stream req) s
            h)
