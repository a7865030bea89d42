-- ===== src/Controllers/Cache.antt =====
-- The manager's client reads from a cache, which may be behind what the API server stores. Cache is the
-- law of such a client that the theorems on runs of reconciles take: it is about the objects that the
-- cache shows, and says nothing of those that the API server stores and the cache does not show yet.
pub mod Owners
pub mod Health
use streaming_runtime_go.Prelude.{
  Text, List, [], ◌∷◌, ◌++◌, Outcome, ok, fail, panic, Error, true, Option, none, some, ◌≡◌, refl,
  sym, ap, ◌∙◌, subst,
}
use streaming_runtime_go.Api.{NamespacedName, DaprSubscription, DaprComponent, Deployment}
use streaming_runtime_go.Controllers.Client.{
  Client, Kind, subscription_kind, component_kind, deployment_kind, Call, get, post_subscription,
  post_component, post_deployment, put_status, IsRead, Session, Action, call, and_then,
}
use streaming_runtime_go.Controllers.Reconcile.{key_of}
use streaming_runtime_go.Controllers.Reconcile.Courses.{Keeps}
use streaming_runtime_go.Controllers.Reconcile.Cache.{KeepsAll, IsCached}
use streaming_runtime_go.Controllers.Reconcile.Once.{CallsNone}

-- The kind and the name of the object that a call creates.
abbrev pub creation : Call → Option (Kind × NamespacedName)
creation (post_subscription d) = some (subscription_kind, key_of d.meta)
creation (post_component d) = some (component_kind, key_of d.meta)
creation (post_deployment d) = some (deployment_kind, key_of d.meta)
creation _ = none

-- The call creates the object of this kind and name.
abbrev pub Posts : Kind → NamespacedName → Call → Type 0
Posts kind key c = creation c ≡ some (kind, key)

-- A Get of an object that reports it missing shows that the cache did not have it under the name.
abbrev pub Misses :
    {W D : Type 0} → (NamespacedName → W → Type 0) → (NamespacedName → W → Outcome D × W) → Type 0
Misses Shown read =
    (key : NamespacedName) (w : _) (e : Error)
    → (read key w).0 ≡ fail e
    → e.is_not_found ≡ true
    → ¬ Shown key w

-- While a request is made, the cache keeps what it shows: nobody deletes it meanwhile. It may show more
-- afterwards.
abbrev pub Leaves :
    {W A : Type 0} → (Kind → NamespacedName → W → Type 0) → (W → Outcome A × W) → Type 0
Leaves Shown run =
    (kind : Kind) (key : NamespacedName) (w : _) → Shown kind key w → Shown kind key (run w).1

-- The cache of a client: what it shows of the objects that the controllers own.
pub record Cache (k : Client) : Type 1 where
  pub Shown : Kind → NamespacedName → k.World → Type 0
  pub misses_subscription : Misses (Shown subscription_kind) k.get_subscription
  pub misses_component : Misses (Shown component_kind) k.get_component
  pub misses_deployment : Misses (Shown deployment_kind) k.get_deployment
  pub leaves_stream : (key : NamespacedName) → Leaves Shown (k.get_stream key)
  pub leaves_cluster_stream : (key : NamespacedName) → Leaves Shown (k.get_cluster_stream key)
  pub leaves_channel : (key : NamespacedName) → Leaves Shown (k.get_channel key)
  pub leaves_joiner : (key : NamespacedName) → Leaves Shown (k.get_joiner key)
  pub leaves_processor : (key : NamespacedName) → Leaves Shown (k.get_processor key)
  pub leaves_subscription : (key : NamespacedName) → Leaves Shown (k.get_subscription key)
  pub leaves_component : (key : NamespacedName) → Leaves Shown (k.get_component key)
  pub leaves_deployment : (key : NamespacedName) → Leaves Shown (k.get_deployment key)
  pub leaves_new_subscription : (d : _) → Leaves Shown (k.create_subscription d)
  pub leaves_new_component : (d : _) → Leaves Shown (k.create_component d)
  pub leaves_new_deployment : (d : _) → Leaves Shown (k.create_deployment d)
  pub leaves_status : (cs : _) → Leaves Shown (k.update_status cs)

-- What a creation would make a second time is shown.
pub clash :
    {k : Client} (st : Cache k) (kind : Kind) (key : NamespacedName) (kind' : Kind)
    (key' : NamespacedName) (w : k.World)
    → ◌≡◌ {A = Option (Kind × NamespacedName)} (some (kind', key')) (some (kind, key))
    → st.Shown kind key w
    → st.Shown kind' key' w
clash st kind key kind' key' w e h =
    let p : ◌≡◌ {A = Kind × NamespacedName} (kind', key') (kind, key) = cc in
    subst (λ (p : Kind × NamespacedName). st.Shown p.0 p.1 w) (sym p) h

pub reads_post_none :
    (kind : Kind) (key : NamespacedName) (c : Call) → IsRead c → ¬ Posts kind key c
reads_post_none kind key (get _ _) h b = cc
reads_post_none kind key (post_subscription _) h b = absurd h
reads_post_none kind key (post_component _) h b = absurd h
reads_post_none kind key (post_deployment _) h b = absurd h
reads_post_none kind key (put_status _) h b = absurd h

module _ {W A : Type 0} (Shown : Kind → NamespacedName → W → Type 0) where
  -- A logged call keeps what the request keeps.
  pub call-Keeps :
      (c : Call) (run : W → Outcome A × W) (kind : Kind) (key : NamespacedName)
      → Leaves Shown run
      → Keeps (Shown kind key) (call c run)
  unfolding call
  call-Keeps c run kind key leaves s h = leaves kind key s.world h

-- A call that is no such creation.
pub call-CallsNone :
    {W A : Type 0} (Bad : Call → Type 0) (c : Call) (run : W → Outcome A × W) (s : Session W)
    → ¬ Bad c
    → CallsNone Bad s (call c run s).1
unfolding call
call-CallsNone Bad c run s h = (c ∷ [], refl, (h, tt))

pub call_missing :
    {W D : Type 0} (Shown : NamespacedName → W → Type 0) (read : NamespacedName → W → Outcome D × W)
    → Misses Shown read
    → (c : Call) (key : NamespacedName) (s t : Session W) (x : Error)
    → call c (read key) s ≡ (fail x, t)
    → x.is_not_found ≡ true
    → ¬ Shown key s.world
unfolding call
call_missing {D} Shown read misses c key s t x e =
    misses key s.world x (ap (λ (q : Outcome D × Session _). q.0) e)
