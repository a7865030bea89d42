-- ===== src/Controllers/Processor.antt =====
-- controllers/processor_controller.go.
use streaming_runtime_go.Prelude.{
  codes, List, [], ◌∷◌, ◌++◌, Outcome, is_empty, if◌then◌else◌, ℤ, pos, is_zero,
}
use streaming_runtime_go.Api.{EnvVar, Container, Deployment, ProcessorSpec, ProcessorResource}
use streaming_runtime_go.Controllers.Helper.{validate_target}
use streaming_runtime_go.Controllers.Client.{
  Client, call, get, processor_kind, deployment_kind, post_deployment,
}
use streaming_runtime_go.Controllers.Reconcile.{Controller}
use streaming_runtime_go.Controllers.Channel.{
  app_port, listen_address, make_deployment, own_deployment,
}

-- `replicas`, with the default
unfoldable pub processor_replicas : ProcessorSpec → ℤ
processor_replicas spec = if is_zero spec.replicas then pos 1 else spec.replicas

-- The variables that are appended to those of the container.
unfoldable pub processor_env : ProcessorResource → List EnvVar
processor_env proc =
    let route =
      if is_empty proc.spec.service_route then proc.meta.name else proc.spec.service_route in
    record { name = codes "PROC_SERVICE_PORT"; value = listen_address proc.spec.service_port }
    ∷ record { name = codes "PROC_SERVICE_ROUTE"; value = route }
    ∷ record { name = codes "PROC_TARGET"; value = validate_target proc.spec.target }
    ∷ []

unfoldable pub processor_container : ProcessorResource → Container
unfolding processor_env
processor_container proc =
    let container = proc.spec.container in
    record container {
      env = container.env ++ processor_env proc;
      ports = container.ports ++ app_port proc.spec.service_port ∷ [];
    }

-- updateProcessorDeployment; it has no caller
unfoldable pub update_processor_deployment : ProcessorResource → Deployment → Deployment
unfolding processor_replicas
update_processor_deployment proc dep = record dep {
  replicas = processor_replicas proc.spec;
  containers = proc.spec.container ∷ [];
}

module _ (k : Client) where
  open k use {World, get_processor, get_deployment, create_deployment}

  -- createProcessorDeployment
  unfoldable pub create_processor_deployment : ProcessorResource → Outcome Deployment
  unfolding processor_replicas processor_container make_deployment own_deployment
  create_processor_deployment proc = own_deployment k proc.meta (
      make_deployment proc.meta (processor_replicas proc.spec) proc.spec.service_port
        (processor_container proc))

  -- ProcessorReconciler
  abbrev pub processor_controller : Controller World ProcessorResource Deployment
  processor_controller = record {
    fetch = λ key. call (get processor_kind key) (get_processor key);
    meta_of = λ proc. proc.meta;
    fetch_owned = λ key. call (get deployment_kind key) (get_deployment key);
    build = λ proc s. (create_processor_deployment proc, s);
    post = λ d. call (post_deployment d) (create_deployment d);
  }
