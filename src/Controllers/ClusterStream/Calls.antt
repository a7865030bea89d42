-- ===== src/Controllers/ClusterStream/Calls.antt =====
-- Which calls a reconcile of a cluster stream makes, whatever the API server answers.
use streaming_runtime_go.Prelude.{
  Outcome, ok, fail, panic, Error, true, Bool-cases, inl, inr, ◌≡◌, refl,
}
use streaming_runtime_go.Api.{NamespacedName, ClusterStreamResource, DaprComponent}
use streaming_runtime_go.Controllers.Client.{
  Client, Session, call, get, cluster_stream_kind, component_kind, post_component, put_status,
}
use streaming_runtime_go.Controllers.Reconcile.{key_of}
use streaming_runtime_go.Controllers.Reconcile.Calls.{ReadsOnly, ReadsOnly-trans, get_reads}
use streaming_runtime_go.Controllers.ClusterStream.{
  component_type_of, status_of, create_cluster_stream, after_create, after_build, after_status,
  after_component, after_fetch, reconcile_cluster_stream,
}

module _ (k : Client) where
  open k use {World, get_cluster_stream, get_component, create_component, update_status}

  -- The resource with its new status.
  abbrev pub with_status : ClusterStreamResource → ClusterStreamResource
  with_status cs = record cs { status = status_of cs }

  -- The calls from one session to a later one: reads alone; or, after reads, the creation of the
  -- component, which was reported missing; or, after reads, the update of the status of a resource
  -- whose component was found.
  pub data Effect (req : NamespacedName) (s t : Session World) : Type 0 where
    idle : ReadsOnly s t → Effect req s t
    created :
        (cs : ClusterStreamResource) (d : DaprComponent) (e : Error) (s1 s2 : Session World)
        → call (get cluster_stream_kind req) (get_cluster_stream req) s ≡ (ok cs, s1)
        → call (get component_kind (key_of cs.meta)) (get_component (key_of cs.meta)) s1
          ≡ (fail e, s2)
        → e.is_not_found ≡ true
        → create_cluster_stream k (component_type_of cs.spec) cs ≡ ok d
        → ReadsOnly s s2
        → t ≡ (call (post_component d) (create_component d) s2).1
        → Effect req s t
    reported :
        (cs : ClusterStreamResource) (d : DaprComponent) (s1 s2 : Session World)
        → call (get cluster_stream_kind req) (get_cluster_stream req) s ≡ (ok cs, s1)
        → call (get component_kind (key_of cs.meta)) (get_component (key_of cs.meta)) s1
          ≡ (ok d, s2)
        → ReadsOnly s s2
        → t ≡ (call (put_status (with_status cs)) (update_status (with_status cs)) s2).1
        → Effect req s t

  after_create-session : (r : Outcome (Unit {0}) × Session World) → (after_create k r).1 ≡ r.1
  unfolding after_create
  after_create-session (ok u, s) = refl
  after_create-session (fail e, s) = refl
  after_create-session (panic m, s) = refl

  after_status-session : (r : Outcome (Unit {0}) × Session World) → (after_status k r).1 ≡ r.1
  unfolding after_status
  after_status-session (ok u, s) = refl
  after_status-session (fail e, s) = refl
  after_status-session (panic m, s) = refl

  module _ (req : NamespacedName) (s s1 : Session World) (cs : ClusterStreamResource)
      (fetched : call (get cluster_stream_kind req) (get_cluster_stream req) s ≡ (ok cs, s1)) where
    by_build :
        (e : Error) (s2 : Session World) (r : Outcome DaprComponent)
        → call (get component_kind (key_of cs.meta)) (get_component (key_of cs.meta)) s1
          ≡ (fail e, s2)
        → e.is_not_found ≡ true
        → create_cluster_stream k (component_type_of cs.spec) cs ≡ r
        → ReadsOnly s s2
        → Effect req s (after_build k (r, s2)).1
    unfolding after_build
    by_build e s2 (ok d) m nf b h =
        created cs d e s1 s2 fetched m nf b h
          (after_create-session (call (post_component d) (create_component d) s2))
    by_build e s2 (fail e') m nf b h = idle h
    by_build e s2 (panic t) m nf b h = idle h

    by_component :
        (r : Outcome DaprComponent × Session World)
        → call (get component_kind (key_of cs.meta)) (get_component (key_of cs.meta)) s1 ≡ r
        → ReadsOnly s r.1
        → Effect req s (after_component k cs r).1
    unfolding after_component
    by_component (ok d, s2) m h = reported cs d s1 s2 fetched m h (
        after_status-session
          (call (put_status (with_status cs)) (update_status (with_status cs)) s2))
    by_component (panic t, s2) m h = idle h
    by_component (fail e, s2) m h = elim (Bool-cases e.is_not_found) [
      | inl nf ↦
          rw nf (by_build e s2 (create_cluster_stream k (component_type_of cs.spec) cs) m nf refl h)
      | inr f ↦ rw f (idle h)
    ]

  by_fetch :
      (req : NamespacedName) (s : Session World) (r : Outcome ClusterStreamResource × Session World)
      → call (get cluster_stream_kind req) (get_cluster_stream req) s ≡ r
      → ReadsOnly s r.1
      → Effect req s (after_fetch k r).1
  unfolding after_fetch
  by_fetch req s (ok cs, s1) f h =
      let key = key_of cs.meta in
      let r = call (get component_kind key) (get_component key) s1 in
      by_component req s s1 cs f r refl
        (ReadsOnly-trans s s1 r.1 h (get_reads component_kind key (get_component key) s1))
  by_fetch req s (fail e, s1) f h = elim (Bool-cases e.is_not_found) [
    | inl nf ↦ rw nf (idle h)
    | inr g ↦ rw g (idle h)
  ]
  by_fetch req s (panic t, s1) f h = idle h

  -- A reconcile of a cluster stream writes once at most, as its last call: it creates the component
  -- that is reported missing, or it updates the status of a resource whose component is found.
  pub reconcile_cluster_stream-Effect :
      (req : NamespacedName) (s : Session World) → Effect req s (reconcile_cluster_stream k req s).1
  unfolding reconcile_cluster_stream
  reconcile_cluster_stream-Effect req s =
      by_fetch req s (call (get cluster_stream_kind req) (get_cluster_stream req) s) refl
        (get_reads cluster_stream_kind req (get_cluster_stream req) s)
