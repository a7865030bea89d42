-- ===== src/Controllers/Cache/Health.antt =====
-- A client that answers every request, and what the controllers do when the cache shows their object.
use streaming_runtime_go.Prelude.{
  Text, Error, ◌≢◌, Outcome, ok, fail, panic, true, Bool-cases, inl, inr, ◌≡◌, refl, sym, ap, ◌∙◌,
  subst,
}
use streaming_runtime_go.Api.{NamespacedName, ObjectMeta, ClusterStreamResource, DaprComponent}
use streaming_runtime_go.Controllers.Client.{
  Client, subscription_kind, component_kind, deployment_kind, cluster_stream_kind, Call, get,
  put_status, Session, call, finished, failed, Reconciled,
}
use streaming_runtime_go.Controllers.Reconcile.{
  key_of, Controller, after_owned, after_fetch, reconcile,
}
use streaming_runtime_go.Controllers.Reconcile.Courses.{Keeps}
use streaming_runtime_go.Controllers.Cache.{Cache, call-Keeps}
use streaming_runtime_go.Controllers.ClusterStream.{
  after_status, after_component, reconcile_cluster_stream,
}
use streaming_runtime_go.Controllers.ClusterStream.Calls.{with_status}
use streaming_runtime_go.Controllers.ClusterStream as ClusterStream

-- A Get answers with the object of that name, or reports it missing.
abbrev pub Replies : {P : Type 0} → (P → ObjectMeta) → NamespacedName → Outcome P → Type 0
Replies meta_of key (ok p) = key_of (meta_of p) ≡ key
Replies meta_of key (fail e) = e.is_not_found ≡ true
Replies meta_of key (panic m) = ⊥

-- The client answers the controllers' requests: the cache has synced, so that a resource is read or
-- reported missing, and an object that it shows is found; and the update of a status, which the API
-- server may refuse, does not panic.
pub record IsHealthy (k : Client) (st : Cache k) : Type 0 where
  pub reads_stream :
      (key : NamespacedName) (w : k.World) → Replies (λ p. p.meta) key (k.get_stream key w).0
  pub reads_channel :
      (key : NamespacedName) (w : k.World) → Replies (λ p. p.meta) key (k.get_channel key w).0
  pub reads_joiner :
      (key : NamespacedName) (w : k.World) → Replies (λ p. p.meta) key (k.get_joiner key w).0
  pub reads_processor :
      (key : NamespacedName) (w : k.World) → Replies (λ p. p.meta) key (k.get_processor key w).0
  pub reads_cluster_stream :
      (key : NamespacedName) (w : k.World)
      → Replies (λ p. p.meta) key (k.get_cluster_stream key w).0
  pub finds_subscription :
      (key : NamespacedName) (w : k.World)
      → st.Shown subscription_kind key w
      → (d : _) × ((k.get_subscription key w).0 ≡ ok d)
  pub finds_component :
      (key : NamespacedName) (w : k.World)
      → st.Shown component_kind key w
      → (d : _) × ((k.get_component key w).0 ≡ ok d)
  pub finds_deployment :
      (key : NamespacedName) (w : k.World)
      → st.Shown deployment_kind key w
      → (d : _) × ((k.get_deployment key w).0 ≡ ok d)
  pub updates_status : (cs : _) (w : k.World) (m : Text) → (k.update_status cs w).0 ≢ panic m

-- The call itself.
pub call-answer :
    {W A : Type 0} (c : Call) (run : W → Outcome A × W) (s : Session W)
    → (call c run s).0 ≡ (run s.world).0
unfolding call
call-answer c run s = refl

module _ {W P D : Type 0} (c : Controller W P D) (S : W → Type 0) (req : NamespacedName) where
  found_lem :
      (p : P) (r : Outcome D × Session W) (d : D) → r.0 ≡ ok d → (after_owned c p r).0 ≡ ok finished
  unfolding after_owned
  found_lem p (ok d', s) d h = refl
  found_lem p (fail e, s) d h = cc
  found_lem p (panic m, s) d h = cc

  fetched_lem :
      (r : Outcome P × Session W)
      → Replies c.meta_of req r.0
      → ((s : Session W) → S s.world → (d : D) × ((c.fetch_owned req s).0 ≡ ok d))
      → S r.1.world
      → (after_fetch c r).0 ≡ ok finished
  unfolding after_fetch
  fetched_lem (ok p, s) h finds st = elim (Bool-cases (c.meta_of p).deleting) [
    | inl e ↦ rw e
    | inr e ↦
        let (d, q) = finds s st in
        rw e (
          found_lem p (c.fetch_owned (key_of (c.meta_of p)) s) d
            (ap (λ (key : NamespacedName). (c.fetch_owned key s).0) h ∙ q))
  ]
  fetched_lem (fail e, s) h finds st = rw h
  fetched_lem (panic m, s) h finds st = absurd h

  -- While the cache shows the object, a reconcile ends without an error and asks for nothing.
  pub reconcile_of_shown :
      (s : Session W)
      → Replies c.meta_of req (c.fetch req s).0
      → Keeps S (c.fetch req)
      → ((s : Session W) → S s.world → (d : D) × ((c.fetch_owned req s).0 ≡ ok d))
      → S s.world
      → (reconcile c req s).0 ≡ ok finished
  unfolding reconcile
  reconcile_of_shown s h keeps finds st = fetched_lem (c.fetch req s) h finds (keeps s st)

module _ (k : Client) where
  -- How the reconcile of a cluster stream ends: without an error, asking for nothing; or, its component
  -- found, with the error that the API server answered to the update of its status.
  pub data Updates (req : NamespacedName) (s : Session k.World)
      (q : Outcome Reconciled × Session k.World) : Type 0 where
    updated : q.0 ≡ ok finished → Updates req s q
    refused :
        (cs : ClusterStreamResource) (d : DaprComponent) (s1 s2 t : Session k.World) (e : Error)
        → call (get cluster_stream_kind req) (k.get_cluster_stream req) s ≡ (ok cs, s1)
        → call (get component_kind (key_of cs.meta)) (k.get_component (key_of cs.meta)) s1
          ≡ (ok d, s2)
        → call (put_status (with_status k cs)) (k.update_status (with_status k cs)) s2 ≡ (fail e, t)
        → q ≡ (ok (failed e), t)
        → Updates req s q

module _ (k : Client) (st : Cache k) (healthy : IsHealthy k st) (req : NamespacedName) where
  open k use {World, get_cluster_stream, get_component, update_status}

  module _ (s : Session World) where
    module _ (cs : ClusterStreamResource) (s1 : Session World)
        (fetched : call (get cluster_stream_kind req) (get_cluster_stream req) s
          ≡ (ok cs, s1)) where
      status_lem :
          (d : DaprComponent) (s2 : Session World) (r : Outcome (Unit {0}) × Session World)
          → call (get component_kind (key_of cs.meta)) (get_component (key_of cs.meta)) s1
            ≡ (ok d, s2)
          → call (put_status (with_status k cs)) (update_status (with_status k cs)) s2 ≡ r
          → Updates k req s (after_status k r)
      unfolding after_status
      status_lem d s2 (ok u, t) g h = updated refl
      status_lem d s2 (fail e, t) g h = refused cs d s1 s2 t e fetched g h refl
      status_lem d s2 (panic m, t) g h =
          let cs' = with_status k cs in
          absurd (
            healthy.updates_status cs' s2.world m
              (sym (call-answer (put_status cs') (update_status cs') s2) ∙ ap (λ q. q.0) h))

      component_lem :
          (r : Outcome DaprComponent × Session World) (d : DaprComponent)
          → call (get component_kind (key_of cs.meta)) (get_component (key_of cs.meta)) s1 ≡ r
          → r.0 ≡ ok d
          → Updates k req s (after_component k cs r)
      unfolding after_component
      component_lem (ok d', s2) d g h =
          let cs' = with_status k cs in
          status_lem d' s2 (call (put_status cs') (update_status cs') s2) g refl
      component_lem (fail e, s2) d g h = cc
      component_lem (panic m, s2) d g h = cc

    cluster_stream_lem :
        (r : Outcome ClusterStreamResource × Session World)
        → call (get cluster_stream_kind req) (get_cluster_stream req) s ≡ r
        → Replies (λ (cs : ClusterStreamResource). cs.meta) req r.0
        → st.Shown component_kind req r.1.world
        → Updates k req s (ClusterStream.after_fetch k r)
    unfolding ClusterStream.after_fetch
    cluster_stream_lem (ok cs, s1) f h shown =
        let key = key_of cs.meta in
        let (d, q) =
          healthy.finds_component key s1.world
            (subst (λ (n : NamespacedName). st.Shown component_kind n s1.world) (sym h) shown) in
        component_lem cs s1 f (call (get component_kind key) (get_component key) s1) d refl
          (call-answer (get component_kind key) (get_component key) s1 ∙ q)
    cluster_stream_lem (fail e, s1) f h shown = rw h (updated refl)
    cluster_stream_lem (panic m, s1) f h shown = absurd h

    -- The same for a cluster stream, but for the update of its status, which may be refused.
    pub reconcile_cluster_stream_of_shown :
        st.Shown component_kind req s.world → Updates k req s (reconcile_cluster_stream k req s)
    unfolding reconcile_cluster_stream
    reconcile_cluster_stream_of_shown shown =
        cluster_stream_lem (call (get cluster_stream_kind req) (get_cluster_stream req) s) refl
          (subst (Replies (λ (cs : ClusterStreamResource). cs.meta) req)
            (sym (call-answer (get cluster_stream_kind req) (get_cluster_stream req) s))
            (healthy.reads_cluster_stream req s.world))
          (call-Keeps st.Shown _ (get_cluster_stream req) component_kind req
            (st.leaves_cluster_stream req) s shown)
