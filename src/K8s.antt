-- ===== src/K8s.antt =====
-- components/k8s/client.go: a client bound to one namespace. The calls of client-go and of
-- controller-runtime that make it are parameters.
use streaming_runtime_go.Prelude.{
  Text, List, [], ◌++◌, Outcome, ok, fail, panic, ◌>>=◌, ◌≡◌, refl, sym, subst,
}
use streaming_runtime_go.Api.{NamespacedName, DaprSubscription, StreamResource}
use streaming_runtime_go.Controllers.Client.{
  Client, Kind, get, stream_kind, subscription_kind, Action, Session, call, and_then,
}
use streaming_runtime_go.Controllers.Reconcile.Calls.{ReadsOnly, get_reads}

-- Client
pub record NamespacedClient : Type 1 where
  pub namespace : Text
  pub client : Client

-- `AddToScheme(scheme)`, whose error is not looked at: what it adds
abbrev pub added : Outcome (List Kind) → List Kind
added (ok kinds) = kinds
added (fail e) = []
added (panic m) = []

module _ {Config : Type 0} (in_cluster_config : Outcome Config)
    (dapr_subscriptions streaming_runtime : Outcome (List Kind))
    (new : Config → List Kind → Outcome Client) where
  -- NewClient
  unfoldable pub new_client : Text → Outcome NamespacedClient
  new_client namespace = do
    config ← in_cluster_config
    c ← new config (added dapr_subscriptions ++ added streaming_runtime)
    ok (record { namespace = namespace; client = c })

module _ (c : NamespacedClient) where
  open c use {namespace, client}

  abbrev pub key_in : Text → NamespacedName
  key_in name = record { name = name; namespace = namespace }

  -- GetSubscription
  unfoldable pub get_subscription : Text → Action client.World DaprSubscription
  get_subscription name s =
      and_then
        (call (get subscription_kind (key_in name)) (client.get_subscription (key_in name)) s)
        (λ sub t. (ok sub, t))

  -- GetStream
  unfoldable pub get_stream : Text → Action client.World StreamResource
  get_stream name s =
      and_then (call (get stream_kind (key_in name)) (client.get_stream (key_in name)) s)
        (λ stream t. (ok stream, t))

answered : {W A : Type 0} (r : Outcome A × Session W) → and_then r (λ a t. (ok a, t)) ≡ r
unfolding and_then
answered (ok a, s) = refl
answered (fail e, s) = refl
answered (panic m, s) = refl

-- GetSubscription and GetStream make one call each, a read of the object of that name in the
-- namespace of the client, and return what the API server answers, its errors included; the API
-- server is left as that read leaves it.
pub gets_lem :
    (c : NamespacedClient) (name : Text) (s : Session c.client.World)
    → (get_subscription c name s
        ≡ call
            (get subscription_kind (key_in c name))
            (c.client.get_subscription (key_in c name))
            s)
      × (get_stream c name s
          ≡ call (get stream_kind (key_in c name)) (c.client.get_stream (key_in c name)) s)
      × ReadsOnly s (get_subscription c name s).1
      × ReadsOnly s (get_stream c name s).1
unfolding get_subscription get_stream
gets_lem c name s =
    let key = key_in c name in
    let sub = answered (call (get subscription_kind key) (c.client.get_subscription key) s) in
    let stream = answered (call (get stream_kind key) (c.client.get_stream key) s) in
    (
      sub,
      stream,
      subst (λ r. ReadsOnly s r.1) (sym sub)
          (get_reads subscription_kind key (c.client.get_subscription key) s),
      subst (λ r. ReadsOnly s r.1) (sym stream)
          (get_reads stream_kind key (c.client.get_stream key) s),
    )
