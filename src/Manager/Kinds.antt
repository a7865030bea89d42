-- ===== src/Manager/Kinds.antt =====
-- The kinds of objects that the controllers touch: all are in the manager's scheme, and a controller
-- writes objects of the kinds that it owns alone.
use streaming_runtime_go.Prelude.{
  List, [], ◌∷◌, ◌++◌, append_assoc, All, All-append, ok, ok-injective, ◌⊎◌, inl, inr, ◌≡◌, refl,
  ap, ◌∙◌, subst,
}
use streaming_runtime_go.Api.{NamespacedName}
use streaming_runtime_go.Controllers.Client.{
  Client, Kind, Call, get, post_subscription, post_component, post_deployment, put_status, IsRead,
  Session, call, stream_kind, cluster_stream_kind, channel_kind, joiner_kind, processor_kind,
  table_kind, subscription_kind, component_kind, deployment_kind,
}
use streaming_runtime_go.Controllers.Reconcile.{Controller, reconcile}
use streaming_runtime_go.Controllers.Reconcile.Calls.{ReadsOnly, Creates}
use streaming_runtime_go.Controllers.Channel.{channel_controller}
use streaming_runtime_go.Controllers.Joiner.{joiner_controller}
use streaming_runtime_go.Controllers.Processor.{processor_controller}
use streaming_runtime_go.Controllers.Stream.{stream_controller}
use streaming_runtime_go.Controllers.ClusterStream.{reconcile_cluster_stream}
use streaming_runtime_go.Controllers.Table.{reconcile_table}
use streaming_runtime_go.Controllers.ClusterStream.Calls.{
  Effect, idle, created, reported, reconcile_cluster_stream-Effect,
}
use streaming_runtime_go.Controllers.Kinds.{controllers-calls}
use streaming_runtime_go.Manager.{
  init_scheme, scheme_builder, Registration, cluster_stream_registration, stream_registration,
  processor_registration, joiner_registration, channel_registration, table_registration,
}

abbrev pub Has : Kind → List Kind → Type 0
Has k [] = ⊥
Has k (j ∷ ks) = (k ≡ j) ⊎ Has k ks

-- A call that a controller with this registration may make: any read, the creation of an object that
-- it owns, the update of the status of the resource that it reconciles.
abbrev pub IsAllowed : Registration → Call → Type 0
IsAllowed r (get kind key) = Unit
IsAllowed r (post_subscription d) = Has subscription_kind r.owns
IsAllowed r (post_component d) = Has component_kind r.owns
IsAllowed r (post_deployment d) = Has deployment_kind r.owns
IsAllowed r (put_status cs) = r.reconciles ≡ cluster_stream_kind

-- From one session to a later one only such calls were made.
abbrev pub StaysAllowed : {W : Type 0} → Registration → Session W → Session W → Type 0
StaysAllowed r s t = (made : List Call) × (t.calls ≡ s.calls ++ made) × All (IsAllowed r) made

reads-IsAllowed : (r : Registration) (cs : List Call) → All IsRead cs → All (IsAllowed r) cs
reads-IsAllowed r [] h = tt
reads-IsAllowed r (get kind key ∷ cs) h = (tt, reads-IsAllowed r cs h.1)
reads-IsAllowed r (post_subscription d ∷ cs) h = absurd h.0
reads-IsAllowed r (post_component d ∷ cs) h = absurd h.0
reads-IsAllowed r (post_deployment d ∷ cs) h = absurd h.0
reads-IsAllowed r (put_status cs' ∷ cs) h = absurd h.0

reads_StaysAllowed :
    {W : Type 0} (r : Registration) (s t : Session W) → ReadsOnly s t → StaysAllowed r s t
reads_StaysAllowed r s t (cs, e, h) = (cs, e, reads-IsAllowed r cs h)

-- Reads, then one call that is allowed.
one_more :
    {W : Type 0} (r : Registration) (s t u : Session W) (c : Call)
    → ReadsOnly s t
    → u.calls ≡ t.calls ++ c ∷ []
    → IsAllowed r c
    → StaysAllowed r s u
one_more r s t u c (cs, e, h) p a = (
  cs ++ c ∷ [],
  p ∙ ap (λ (l : List Call). l ++ c ∷ []) e ∙ append_assoc s.calls cs (c ∷ []),
  All-append (IsAllowed r) cs (c ∷ []) (reads-IsAllowed r cs h) (a, tt),
)

by_creation :
    {W P D : Type 0} (r : Registration) (c : Controller W P D) (req : NamespacedName)
    (s t : Session W)
    → ((d : D) (u : Session W)
        → (k : Call) × ((c.post d u).1.calls ≡ u.calls ++ k ∷ []) × IsAllowed r k)
    → ReadsOnly s t ⊎ Creates c req s t
    → StaysAllowed r s t
by_creation r c req s t post (inl h) = reads_StaysAllowed r s t h
by_creation r c req s t post (inr v) =
    let (k, p, a) = post v.object v.s3 in
    one_more r s v.s3 t k v.before (ap (λ (u : Session _). u.calls) v.created ∙ p) a

module _ (k : Client) where
  open k use {World}

  by_cluster_stream :
      (req : NamespacedName) (s t : Session World)
      → Effect k req s t
      → StaysAllowed cluster_stream_registration s t
  unfolding call
  by_cluster_stream req s t (idle h) = reads_StaysAllowed cluster_stream_registration s t h
  by_cluster_stream req s t (created cs d e s1 s2 f m nf b h p) =
      one_more cluster_stream_registration s s2 t (post_component d) h
        (ap (λ (u : Session World). u.calls) p) (inl refl)
  by_cluster_stream req s t (reported cs d s1 s2 f m h p) =
      one_more cluster_stream_registration s s2 t _ h (ap (λ (u : Session World). u.calls) p) refl

  -- Whatever the API server answers, each call of a reconcile is a read, the creation of an object of a
  -- kind that the controller's registration owns, or, if the kind that it reconciles is the cluster
  -- stream, the update of a cluster stream's status; the table controller makes no call.
  pub reconcile-StaysAllowed :
      (req : NamespacedName) (s : Session World)
      → StaysAllowed stream_registration s (reconcile (stream_controller k) req s).1
        × StaysAllowed processor_registration s (reconcile (processor_controller k) req s).1
        × StaysAllowed channel_registration s (reconcile (channel_controller k) req s).1
        × StaysAllowed joiner_registration s (reconcile (joiner_controller k) req s).1
        × StaysAllowed cluster_stream_registration s (reconcile_cluster_stream k req s).1
        × ((reconcile_table req s).1 ≡ s)
  unfolding call reconcile_table
  reconcile-StaysAllowed req s =
      let (a, b, c, d) = controllers-calls k req s in
      (
        by_creation stream_registration (stream_controller k) req s _
            (λ o u. (post_subscription o, refl, inl refl)) a,
        by_creation processor_registration (processor_controller k) req s _
            (λ o u. (post_deployment o, refl, inl refl)) b,
        by_creation channel_registration (channel_controller k) req s _
            (λ o u. (post_deployment o, refl, inl refl)) c,
        by_creation joiner_registration (joiner_controller k) req s _
            (λ o u. (post_deployment o, refl, inl refl)) d,
        by_cluster_stream req s _ (reconcile_cluster_stream-Effect k req s),
        refl,
      )

Has-append_left : (k : Kind) (xs ys : List Kind) → Has k xs → Has k (xs ++ ys)
Has-append_left k [] ys h = absurd h
Has-append_left k (x ∷ xs) ys (inl e) = inl e
Has-append_left k (x ∷ xs) ys (inr h) = inr (Has-append_left k xs ys h)

Has-append_right : (k : Kind) (xs ys : List Kind) → Has k ys → Has k (xs ++ ys)
Has-append_right k [] ys h = h
Has-append_right k (x ∷ xs) ys h = inr (Has-append_right k xs ys h)

-- What main registers.
abbrev pub registrations : List Registration
registrations =
    cluster_stream_registration ∷ stream_registration ∷ processor_registration ∷ joiner_registration
    ∷ channel_registration ∷ table_registration ∷ []

-- The kind that a controller reconciles, and those that it owns, are in the scheme.
abbrev pub IsCovered : List Kind → Registration → Type 0
IsCovered scheme r = Has r.reconciles scheme × All (λ k. Has k scheme) r.owns

-- If the packages register what they define, deployments, dapr components and dapr subscriptions, then
-- the scheme of the manager, if init ends, has every kind that a controller reconciles or owns.
pub init_scheme-IsCovered :
    (client_go dapr_components dapr_subscriptions scheme : List Kind)
    → Has deployment_kind client_go
    → Has component_kind dapr_components
    → Has subscription_kind dapr_subscriptions
    → init_scheme (ok client_go) (ok dapr_components) (ok dapr_subscriptions) ≡ ok scheme
    → All (IsCovered scheme) registrations
unfolding init_scheme
init_scheme-IsCovered a b c scheme ha hb hc h =
    subst (λ (ks : List Kind). All (IsCovered ks) registrations) (ok-injective h)
      (
        (
          own cluster_stream_kind (inr (inl refl)),
          (right component_kind (Has-append_left component_kind b _ hb), tt),
        ),
        (
          (
            own stream_kind (inr (inr (inr (inr (inl refl))))),
            (right_right subscription_kind (Has-append_left subscription_kind c _ hc), tt),
          ),
          (
            (own processor_kind (inr (inr (inr (inl refl)))), (left, tt)),
            (
              (own joiner_kind (inr (inr (inl refl))), (left, tt)),
              (
                (own channel_kind (inl refl), (left, tt)),
                ((own table_kind (inr (inr (inr (inr (inr (inl refl)))))), tt), tt),
              ),
            ),
          ),
        ),
      )
  where
    all : List Kind
    all = a ++ (b ++ (c ++ scheme_builder))

    right : (k : Kind) → Has k (b ++ (c ++ scheme_builder)) → Has k all
    right k m = Has-append_right k a _ m

    right_right : (k : Kind) → Has k (c ++ scheme_builder) → Has k all
    right_right k m = right k (Has-append_right k b _ m)

    own : (k : Kind) → Has k scheme_builder → Has k all
    own k m = right_right k (Has-append_right k c _ m)

    left : Has deployment_kind all
    left = Has-append_left deployment_kind a _ ha
