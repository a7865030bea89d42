-- ===== src/Controllers/Owned.antt =====
-- The objects that the controllers create: a controller finds its object again under the name of the
-- resource, and a deployment selects the pods that it makes.
use streaming_runtime_go.Prelude.{
  [], ◌∷◌, ok, >>=-eq-ok, ok-injective, false, ◌≡◌, refl, subst, ℤ, is_zero, Bool-cases, inl, inr,
}
use streaming_runtime_go.Api.{
  ObjectMeta, Container, Deployment, ChannelResource, ProcessorSpec, ProcessorResource,
}
use streaming_runtime_go.Controllers.Client.{Client}
use streaming_runtime_go.Controllers.Reconcile.{key_of}
use streaming_runtime_go.Controllers.Channel.{
  make_deployment, own_deployment, channel_container, create_chan_deployment, dapr_annotations,
}
use streaming_runtime_go.Controllers.Processor.{
  processor_replicas, processor_container, create_processor_deployment,
}

module _ (k : Client) where
  open k use {set_controller_reference}

  -- SetControllerReference adds a reference and leaves the name and the namespace.
  abbrev pub KeepsKey : Type 0
  KeepsKey =
      (owner m m' : ObjectMeta) → set_controller_reference owner m ≡ ok m' → key_of m' ≡ key_of m

  -- A deployment for the resource with this metadata: it is found under the name of the resource, it
  -- selects the pods that it makes, and dapr runs for them under that name at the service's port.
  pub record IsDeploymentOf (meta : ObjectMeta) (port : ℤ) (container : Container) (d : Deployment)
      : Type 0 where
    pub found : key_of d.meta ≡ key_of meta
    pub selects : d.match_labels ≡ d.pod_labels
    pub annotated : d.pod_annotations ≡ dapr_annotations meta.name port
    pub runs : d.containers ≡ container ∷ []
    pub replicated : is_zero d.replicas ≡ false

  pub own_deployment-IsDeploymentOf :
      (meta : ObjectMeta) (replicas port : ℤ) (container : Container) (d : Deployment)
      → KeepsKey
      → is_zero replicas ≡ false
      → own_deployment k meta (make_deployment meta replicas port container) ≡ ok d
      → IsDeploymentOf meta port container d
  unfolding own_deployment make_deployment
  own_deployment-IsDeploymentOf meta replicas port container d keeps z h =
      let (m, p, q) =
        >>=-eq-ok
          (set_controller_reference meta (make_deployment meta replicas port container).meta) _ h in
      subst (IsDeploymentOf meta port container) (ok-injective q) (record {
        found = keeps meta _ m p;
        selects = refl;
        annotated = refl;
        runs = refl;
        replicated = z;
      })

  -- The deployment that is created for a channel is found under the channel's name, selects its own
  -- pods, runs the channel's container alone, in a number of copies that is not zero, and is known to dapr by the
  -- channel's name, if SetControllerReference keeps names and
  -- namespaces.
  pub create_chan_deployment-IsDeploymentOf :
      (channel : ChannelResource) (d : Deployment)
      → KeepsKey
      → create_chan_deployment k channel ≡ ok d
      → (c : Container) × (channel_container channel ≡ ok c)
        × IsDeploymentOf channel.meta channel.spec.service_port c d
  unfolding create_chan_deployment
  create_chan_deployment-IsDeploymentOf channel d keeps h =
      let (c, p, q) = >>=-eq-ok (channel_container channel) _ h in
      (c, p, own_deployment-IsDeploymentOf channel.meta _ _ c d keeps refl q)

  processor_replicas_ne_zero : (spec : ProcessorSpec) → is_zero (processor_replicas spec) ≡ false
  unfolding processor_replicas
  processor_replicas_ne_zero spec = elim (Bool-cases (is_zero spec.replicas)) [
    | inl e ↦ rw e
    | inr e ↦ rw (e, e)
  ]

  -- The deployment that is created for a processor is found under the processor's name, selects its
  -- own pods, runs the processor's container alone, with the number of replicas never zero, and is
  -- known to dapr by the processor's name, if SetControllerReference keeps names and
  -- namespaces.
  pub create_processor_deployment-IsDeploymentOf :
      (proc : ProcessorResource) (d : Deployment)
      → KeepsKey
      → create_processor_deployment k proc ≡ ok d
      → IsDeploymentOf proc.meta proc.spec.service_port (processor_container proc) d
  unfolding create_processor_deployment
  create_processor_deployment-IsDeploymentOf proc d keeps h =
      own_deployment-IsDeploymentOf proc.meta _ _ _ d keeps (processor_replicas_ne_zero proc.spec) h
