-- ===== src/Controllers/Runs/Made.antt =====
-- What a run of reconciles does for each of its requests.
use streaming_runtime_go.Prelude.{
  List, [], ◌∷◌, ok, ◌⊎◌, inl, inr, is_empty, if◌then◌else◌, ◌≡◌, refl, ap, subst, >>=-eq-ok,
  ok-injective,
}
use streaming_runtime_go.Api.{
  NamespacedName, Container, Deployment, DaprSubscription, StreamResource, ChannelResource,
  ProcessorResource,
}
use streaming_runtime_go.Controllers.Client.{Client, Session}
use streaming_runtime_go.Controllers.Reconcile.{key_of}
use streaming_runtime_go.Controllers.Reconcile.{Controller, reconcile}
use streaming_runtime_go.Controllers.Reconcile.Calls.{ReadsOnly, IsReader, Creates, reconcile-calls}
use streaming_runtime_go.Controllers.Owned.{
  KeepsKey, IsDeploymentOf, create_chan_deployment-IsDeploymentOf,
  create_processor_deployment-IsDeploymentOf,
}
use streaming_runtime_go.Controllers.Kinds.{
  channel-IsReader, processor-IsReader, stream-IsReader, joiner-IsReader,
}
use streaming_runtime_go.Controllers.Channel.{channel_container, channel_controller}
use streaming_runtime_go.Controllers.Processor.{processor_container, processor_controller}
use streaming_runtime_go.Controllers.Joiner.{joiner_controller}
use streaming_runtime_go.Controllers.Joiner.Creation.{Deploys, create_joiner_deployment-Deploys}
use streaming_runtime_go.Controllers.Stream.{
  subscription_route, create_dapr_subscription, stream_controller,
}
use streaming_runtime_go.Controllers.ClusterStream.{component_type_of}
use streaming_runtime_go.Controllers.ClusterStream.Metadata.{
  IsComponentOf, create_cluster_stream-IsComponentOf,
}
use streaming_runtime_go.Controllers.ClusterStream.Calls.{
  Effect, idle, created, reported, reconcile_cluster_stream-Effect,
}
use streaming_runtime_go.Controllers.Table.{reconcile_table}
use streaming_runtime_go.Controllers.Runs.{
  Request, for_stream, for_channel, for_joiner, for_processor, for_cluster_stream, for_table,
  reconcile_request, operate,
}

-- The subscription of a stream: under its name, for its topic, at its route, open to its recipients.
-- The topic behind a slash stands in for a missing route.
pub record IsSubscriptionOf (stream : StreamResource) (d : DaprSubscription) : Type 0 where
  pub found : key_of d.meta ≡ key_of stream.meta
  pub pubsub : d.pubsub_name ≡ stream.spec.cluster_stream
  pub topic : d.topic ≡ stream.spec.topic
  pub route :
      d.default_route
      ≡ (if is_empty stream.spec.route then b'/' ∷ stream.spec.topic else stream.spec.route)
  pub recipients : d.scopes ≡ stream.spec.recipients

module _ (k : Client) where
  open k use {World}

  -- A reconcile that creates an object as it describes, for the resource that it has fetched. The
  -- sessions are those before and after the object was built.
  pub record Makes {P D : Type 0} (c : Controller World P D)
      (IsFor : P → D → Session World → Session World → Type 0) (req : NamespacedName)
      (s t : Session World) : Type 0 where
    pub creates : Creates c req s t
    pub described : IsFor creates.resource creates.object creates.s2 creates.s3

  abbrev pub IsChannelDeployment :
      ChannelResource → Deployment → Session World → Session World → Type 0
  IsChannelDeployment channel d s t =
      (c : Container) × (channel_container channel ≡ ok c)
      × IsDeploymentOf k channel.meta channel.spec.service_port c d

  abbrev pub IsProcessorDeployment :
      ProcessorResource → Deployment → Session World → Session World → Type 0
  IsProcessorDeployment proc d s t =
      IsDeploymentOf k proc.meta proc.spec.service_port (processor_container proc) d

  -- What a reconcile of a cluster stream creates is the component of the resource that it has fetched.
  abbrev pub IsComponentFor :
      {req : NamespacedName} {s t : Session World} → Effect k req s t → Type 0
  IsComponentFor (idle _) = Unit
  IsComponentFor (created cs d _ _ _ _ _ _ _ _ _) = IsComponentOf k (component_type_of cs.spec) cs d
  IsComponentFor (reported _ _ _ _ _ _ _ _) = Unit

  -- What the reconcile of a request does from one session to the next.
  abbrev pub Does : Request → Session World → Session World → Type 0
  Does (for_stream req) s t =
      ReadsOnly s t
      ⊎ Makes (stream_controller k) (λ stream d u v. IsSubscriptionOf stream d) req s t
  Does (for_channel req) s t =
      ReadsOnly s t ⊎ Makes (channel_controller k) IsChannelDeployment req s t
  Does (for_joiner req) s t = ReadsOnly s t ⊎ Makes (joiner_controller k) (Deploys k) req s t
  Does (for_processor req) s t =
      ReadsOnly s t ⊎ Makes (processor_controller k) IsProcessorDeployment req s t
  Does (for_cluster_stream req) s t = (e : Effect k req s t) × IsComponentFor e
  Does (for_table req) s t = t ≡ s

  -- The requests are reconciled one after the other, each from the session where the last has ended.
  abbrev pub Made : List Request → Session World → Session World → Type 0
  Made [] s t = s ≡ t
  Made (q ∷ requests) s t = (u : Session World) × Does q s u × Made requests u t

  module _ (keeps : KeepsKey k) where
    subscription_lem :
        (stream : StreamResource) (d : DaprSubscription)
        → create_dapr_subscription k stream ≡ ok d
        → IsSubscriptionOf stream d
    unfolding create_dapr_subscription subscription_route
    subscription_lem stream d h =
        let (meta, m, q) = >>=-eq-ok (k.set_controller_reference stream.meta _) _ h in
        subst (IsSubscriptionOf stream) (ok-injective q) (record {
          found = keeps stream.meta _ meta m;
          pubsub = refl;
          topic = refl;
          route = refl;
          recipients = refl;
        })

    by_calls :
        {P D : Type 0} (c : Controller World P D)
        (IsFor : P → D → Session World → Session World → Type 0) (req : NamespacedName)
        (s : Session World)
        → IsReader c
        → ((p : P) (d : D) (u v : Session World) → c.build p u ≡ (ok d, v) → IsFor p d u v)
        → ReadsOnly s (reconcile c req s).1 ⊎ Makes c IsFor req s (reconcile c req s).1
    by_calls c IsFor req s reader describes = elim (reconcile-calls c reader req s) [
      | inl r ↦ inl r
      | inr w ↦
          inr (record { creates = w; described = describes w.resource w.object w.s2 w.s3 w.built })
    ]

    by_writes :
        (req : NamespacedName) (s t : Session World) (e : Effect k req s t) → IsComponentFor e
    by_writes req s t (idle _) = tt
    by_writes req s t (reported _ _ _ _ _ _ _ _) = tt
    by_writes req s t (created cs d _ _ _ _ _ _ b _ _) =
        create_cluster_stream-IsComponentOf k (component_type_of cs.spec) cs d keeps b

    reconcile_request-Does :
        (q : Request) (s : Session World) → Does q s (reconcile_request k q s).1
    unfolding reconcile_request reconcile_table
    reconcile_request-Does (for_stream req) s =
        by_calls (stream_controller k) _ req s (stream-IsReader k)
          (λ stream d u v b. subscription_lem stream d (ap (λ q. q.0) b))
    reconcile_request-Does (for_channel req) s =
        by_calls (channel_controller k) IsChannelDeployment req s (channel-IsReader k)
          (λ channel d u v b.
            create_chan_deployment-IsDeploymentOf k channel d keeps (ap (λ q. q.0) b))
    reconcile_request-Does (for_joiner req) s =
        by_calls (joiner_controller k) (Deploys k) req s (joiner-IsReader k)
          (λ joiner d u v b. create_joiner_deployment-Deploys k joiner d u v keeps b)
    reconcile_request-Does (for_processor req) s =
        by_calls (processor_controller k) IsProcessorDeployment req s (processor-IsReader k)
          (λ proc d u v b.
            create_processor_deployment-IsDeploymentOf k proc d keeps (ap (λ q. q.0) b))
    reconcile_request-Does (for_cluster_stream req) s =
        let e = reconcile_cluster_stream-Effect k req s in (e, by_writes req s _ e)
    reconcile_request-Does (for_table req) s = refl

    -- A run of reconciles of all the controllers does for each request, in their order, no more than
    -- this, whatever the API server answers: it reads; or, when the resource that it has fetched for
    -- the request is not being deleted and the owned object is reported missing, it creates, as its
    -- last call, the object of that resource. This is a subscription with the stream's name, cluster
    -- stream, topic, route and recipients; or a deployment with the name of the channel, processor or
    -- joiner, which selects its own pods and runs that resource's container alone, a joiner's with both
    -- its streams read in the same reconcile. For a cluster stream it creates the component with its
    -- name, type and properties when that is reported missing, or updates the status when it is found;
    -- for a table it does nothing. SetControllerReference is taken to keep names and namespaces.
    pub operate-Made :
        (requests : List Request) (s : Session World) → Made requests s (operate k requests s)
    unfolding operate
    operate-Made [] s = refl
    operate-Made (q ∷ requests) s =
        let s' = (reconcile_request k q s).1 in
        (s', reconcile_request-Does q s, operate-Made requests s')
