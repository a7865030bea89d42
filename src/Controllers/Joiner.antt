-- ===== src/Controllers/Joiner.antt =====
-- controllers/joiner_controller.go.
pub mod Environment
pub mod Creation
pub mod System
use streaming_runtime_go.Prelude.{
  ℕ, suc, Text, codes, List, [], ◌∷◌, ◌++◌, Option, none, some, Bool, true, false, not, ◌&&◌,
  Outcome, ok, fail, panic, errorf, index, assert_some, ◌>>=◌, is_empty, length, ◌==◌,
  if◌then◌else◌, ℤ, pos,
}
use streaming_runtime_go.Api.{
  NamespacedName, ObjectMeta, EnvVar, Container, Deployment, OutputTarget, StreamSetup, JoinerSpec,
  JoinerResource, StreamSpec, StreamResource,
}
use streaming_runtime_go.Controllers.Helper.{validate_target}
use streaming_runtime_go.Controllers.Client.{
  Client, Action, Session, call, and_then, get, joiner_kind, deployment_kind, stream_kind,
  post_deployment,
}
use streaming_runtime_go.Controllers.Reconcile.{Controller}
use streaming_runtime_go.Controllers.Channel.{
  resolve_container, app_port, listen_address, make_deployment, own_deployment,
}

abbrev pub default_joiner_image : Text
default_joiner_image = codes "ghcr.io/vladimirvivien/streaming-runtime/components/joiner:latest"

-- one round of collateStreamInfo: `fmt.Sprintf("%s|%s|%s", ClusterStream, Topic, route)`
unfoldable pub stream_info : StreamSpec → Text
stream_info spec =
    let route = if is_empty spec.route then spec.topic else spec.route in
    spec.cluster_stream ++ b'|' ∷ (spec.topic ++ b'|' ∷ route)

-- container.Env
unfoldable pub joiner_env : JoinerSpec → StreamSetup → Text → Text → OutputTarget → List EnvVar
joiner_env spec stream info_0 info_1 to =
    record { name = codes "JOINER_SERVICE_PORT"; value = listen_address spec.service_port }
    ∷ record { name = codes "JOINER_STREAM_FROM_0"; value = info_0 }
    ∷ record { name = codes "JOINER_STREAM_FROM_1"; value = info_1 }
    ∷ record { name = codes "JOINER_STREAM_TO_STREAM"; value = validate_target to.stream }
    ∷ record { name = codes "JOINER_STREAM_TO_COMPONENT"; value = validate_target to.component }
    ∷ record { name = codes "JOINER_STREAM_WHERE"; value = stream.condition }
    ∷ record { name = codes "JOINER_STREAM_SELECT"; value = stream.select }
    ∷ record { name = codes "JOINER_WINDOW_SIZE"; value = spec.window }
    ∷ []

-- The checks of the specification that stand before the streams are read; the pointer to it and the
-- first target are read without a test.
unfoldable pub check_stream_setup : JoinerSpec → Outcome (StreamSetup × OutputTarget)
check_stream_setup spec = do
  stream ← assert_some spec.stream
  if not (length stream.sources == 2)
      then fail (errorf (codes "joiner stream.From must have 2 input streams") [])
      else (do
        to ← index stream.to 0
        if is_empty to.stream && is_empty to.component
            then fail
                (errorf (codes "joiner stream.To must have a stream or a component specified") [])
            else ok (stream, to))

-- The container that runs the joiner.
unfoldable pub joiner_container :
    JoinerResource → StreamSetup → OutputTarget → List Text → Outcome Container
joiner_container joiner stream to infos = do
  let container = resolve_container joiner.meta.name default_joiner_image joiner.spec.container
  info_0 ← index infos 0
  info_1 ← index infos 1
  ok (record container {
    ports = container.ports ++ app_port joiner.spec.service_port ∷ [];
    env = joiner_env joiner.spec stream info_0 info_1 to;
  })

-- updateJoinerDeployment; it has no caller
unfoldable pub update_joiner_deployment : JoinerResource → Deployment → Deployment
update_joiner_deployment joiner dep = record dep {
  containers = resolve_container joiner.meta.name default_joiner_image joiner.spec.container ∷ [];
}

module _ (k : Client) where
  open k use {World, get_stream, get_joiner, get_deployment, create_deployment}

  -- collateStreamInfo
  unfoldable pub collate_stream_info : Text → List Text → List Text → Action World (List Text)
  collate_stream_info namespace [] result s = (ok result, s)
  collate_stream_info namespace (stream_name ∷ names) result s =
      let key : NamespacedName = record { name = stream_name; namespace = namespace } in
      and_then (call (get stream_kind key) (get_stream key) s)
        (λ stream. collate_stream_info namespace names (result ++ stream_info stream.spec ∷ []))

  -- the rest of createJoinerDeployment
  unfoldable pub deploy_joiner :
      JoinerResource → StreamSetup → OutputTarget → List Text → Outcome Deployment
  unfolding own_deployment make_deployment joiner_container
  deploy_joiner joiner stream to infos = do
    container ← joiner_container joiner stream to infos
    own_deployment k joiner.meta
        (make_deployment joiner.meta (pos 1) joiner.spec.service_port container)

  -- createJoinerDeployment
  unfoldable pub create_joiner_deployment : JoinerResource → Action World Deployment
  create_joiner_deployment joiner s =
      and_then (check_stream_setup joiner.spec, s)
        (λ (stream, to) s1.
          and_then (collate_stream_info joiner.meta.namespace stream.sources [] s1)
            (λ infos s2. (deploy_joiner joiner stream to infos, s2)))

  -- JoinerReconciler
  abbrev pub joiner_controller : Controller World JoinerResource Deployment
  joiner_controller = record {
    fetch = λ key. call (get joiner_kind key) (get_joiner key);
    meta_of = λ joiner. joiner.meta;
    fetch_owned = λ key. call (get deployment_kind key) (get_deployment key);
    build = create_joiner_deployment;
    post = λ d. call (post_deployment d) (create_deployment d);
  }
