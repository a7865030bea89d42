-- ===== src/Controllers/ClusterStream/Once.antt =====
-- What a reconcile of a cluster stream never does.
use streaming_runtime_go.Prelude.{ok, sym, subst}
use streaming_runtime_go.Api.{NamespacedName, DaprComponent}
use streaming_runtime_go.Controllers.Client.{
  Client, Kind, Session, call, get, cluster_stream_kind, component_kind, post_component, put_status,
}
use streaming_runtime_go.Controllers.Reconcile.{key_of}
use streaming_runtime_go.Controllers.Reconcile.Courses.{kept}
use streaming_runtime_go.Controllers.Reconcile.Once.{CallsNone, CallsAll-trans, ReadsOnly-CallsAll}
use streaming_runtime_go.Controllers.Cache.{
  Cache, Posts, reads_post_none, call-Keeps, call_missing, call-CallsNone, clash,
}
use streaming_runtime_go.Controllers.Owned.{KeepsKey}
use streaming_runtime_go.Controllers.ClusterStream.{component_type_of, reconcile_cluster_stream}
use streaming_runtime_go.Controllers.ClusterStream.Metadata.{create_cluster_stream-IsComponentOf}
use streaming_runtime_go.Controllers.ClusterStream.Calls.{
  idle, created, reported, with_status, reconcile_cluster_stream-Effect,
}

module _ (k : Client) (st : Cache k) where
  open k use {World, get_cluster_stream, get_component, create_component, update_status}

  abbrev component_name : DaprComponent → NamespacedName
  component_name d = key_of d.meta

  module _ (keeps : KeepsKey k) where
    -- A reconcile of a cluster stream creates nothing that the cache shows.
    pub reconcile_cluster_stream-once :
        (kind : Kind) (key req : NamespacedName) (s : Session World)
        → st.Shown kind key s.world
        → CallsNone (Posts kind key) s (reconcile_cluster_stream k req s).1
    reconcile_cluster_stream-once kind key req s h =
        elim (reconcile_cluster_stream-Effect k req s) [
          | idle r ↦
              ReadsOnly-CallsAll (λ c. ¬ Posts kind key c) (reads_post_none kind key) s
                (reconcile_cluster_stream k req s).1 r
          | reported cs d s1 s2 f m r e ↦ subst (CallsNone (Posts kind key) s) (sym e) (
              CallsAll-trans (λ c. ¬ Posts kind key c) s s2
                (call (put_status (with_status k cs)) (update_status (with_status k cs)) s2).1
                (ReadsOnly-CallsAll (λ c. ¬ Posts kind key c) (reads_post_none kind key) s s2 r)
                (call-CallsNone (Posts kind key) (put_status (with_status k cs))
                  (update_status (with_status k cs)) s2 (λ b. cc)))
          | created cs d x s1 s2 f m nf b' r e ↦ subst (CallsNone (Posts kind key) s) (sym e) (
              CallsAll-trans (λ c. ¬ Posts kind key c) s s2
                (call (post_component d) (create_component d) s2).1
                (ReadsOnly-CallsAll (λ c. ¬ Posts kind key c) (reads_post_none kind key) s s2 r)
                (call-CallsNone (Posts kind key) (post_component d) (create_component d) s2 (λ b.
                  call_missing (st.Shown component_kind) get_component st.misses_component
                    (get component_kind (key_of cs.meta)) (key_of cs.meta) s1 s2 x m nf
                    (subst (λ (key : NamespacedName). st.Shown component_kind key s1.world)
                      (create_cluster_stream-IsComponentOf k (component_type_of cs.spec) cs d keeps
                        b').found
                      (clash st kind key component_kind (key_of d.meta) s1.world b (
                        kept (st.Shown kind key)
                          (call (get cluster_stream_kind req) (get_cluster_stream req)) s s1 (ok cs)
                          (call-Keeps st.Shown _ (get_cluster_stream req) kind key
                            (st.leaves_cluster_stream req))
                          f h))))))
        ]
