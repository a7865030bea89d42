-- ===== src/Controllers/Channel.antt =====
-- controllers/channel_controller.go.
pub mod Environment
pub mod Conditions
pub mod System
use streaming_runtime_go.Prelude.{
  Text, codes, text_eq, List, [], ◌∷◌, ◌++◌, Option, none, some, Bool, true, false, not, ◌&&◌, ◌||◌,
  Dict, Outcome, ok, fail, errorf, index, ◌>>=◌, is_empty, if◌then◌else◌, ℤ, pos, format_int,
}
use streaming_runtime_go.Api.{
  ObjectMeta, EnvVar, ContainerPort, Container, Deployment, OutputTarget, ChannelSpec,
  ChannelResource, NamespacedName,
}
use streaming_runtime_go.Controllers.Client.{
  Client, Action, Session, call, get, channel_kind, deployment_kind, post_deployment,
}
use streaming_runtime_go.Controllers.Reconcile.{Controller}

abbrev pub default_channel_image : Text
default_channel_image = codes "ghcr.io/vladimirvivien/streaming-runtime/components/channel:latest"

-- The metadata of a new deployment, its selector's and its pods' labels, and the pods' annotations:
-- they are the same in the three controllers that make deployments.
abbrev pub app_labels : Text → Dict Text
app_labels name = (codes "app", name) ∷ []

abbrev pub dapr_annotations : Text → ℤ → Dict Text
dapr_annotations name service_port =
    (codes "dapr.io/enabled", codes "true")
    ∷ (codes "dapr.io/app-id", name)
    ∷ (codes "dapr.io/app-port", format_int service_port)
    ∷ []

unfoldable pub make_deployment : ObjectMeta → ℤ → ℤ → Container → Deployment
make_deployment meta replicas service_port container = record {
  meta = record {
    name = meta.name;
    namespace = meta.namespace;
    deleting = false;
    labels = app_labels meta.name;
    annotations = [];
    owners = [];
  };
  match_labels = app_labels meta.name;
  replicas = replicas;
  pod_labels = app_labels meta.name;
  pod_annotations = dapr_annotations meta.name service_port;
  containers = container ∷ [];
}

-- The container of the resource, or one with the default image.
abbrev pub resolve_container : Text → Text → Option Container → Container
resolve_container name image none = record {
  name = name;
  image = image;
  image_pull_policy = codes "Always";
  env = [];
  env_from = [];
  ports = [];
}
resolve_container name image (some container) = container

abbrev pub app_port : ℤ → ContainerPort
app_port service_port = record { name = codes "app-port"; container_port = service_port }

-- `":%d"`
abbrev pub listen_address : ℤ → Text
listen_address service_port = b':' ∷ format_int service_port

-- the mode that is set: "stream" unless it is "aggregate"
unfoldable pub channel_mode : Text → Text
channel_mode mode =
    if is_empty mode
      || (not (text_eq mode (codes "stream")) && not (text_eq mode (codes "aggregate")))
    then codes "stream"
    else mode

-- container.Env
unfoldable pub channel_env : ChannelSpec → Text → OutputTarget → List EnvVar
unfolding channel_mode
channel_env spec source to =
    record { name = codes "CHANNEL_SERVICE_PORT"; value = listen_address spec.service_port }
    ∷ record { name = codes "CHANNEL_MODE"; value = channel_mode spec.mode }
    ∷ record { name = codes "CHANNEL_AGGREGATE_TRIGGER"; value = spec.trigger }
    ∷ record { name = codes "CHANNEL_STREAM_FROM"; value = source }
    ∷ record { name = codes "CHANNEL_STREAM_TO_STREAM"; value = to.stream }
    ∷ record { name = codes "CHANNEL_STREAM_TO_COMPONENT"; value = to.component }
    ∷ record { name = codes "CHANNEL_STREAM_WHERE"; value = spec.stream.condition }
    ∷ record { name = codes "CHANNEL_STREAM_SELECT"; value = spec.stream.select }
    ∷ []

-- The container that runs the channel: the checks of the specification, then the environment.
unfoldable pub channel_container : ChannelResource → Outcome Container
channel_container channel = do
  let spec = channel.spec
  let container = resolve_container channel.meta.name default_channel_image spec.container
  to ← index spec.stream.to 0
  if is_empty to.stream && is_empty to.component
      then fail (errorf (codes "channel stream.To must have a stream or a component specified") [])
      else if text_eq (channel_mode spec.mode) (codes "aggregate") && is_empty spec.trigger
      then fail (errorf (codes "channel missing aggregate trigger expression") [])
      else (do
        source ← index spec.stream.sources 0
        ok (record container {
          ports = container.ports ++ app_port spec.service_port ∷ [];
          env = channel_env spec source to;
        }))

module _ (k : Client) where
  open k use {World, get_channel, get_deployment, create_deployment, set_controller_reference}

  -- ctrl.SetControllerReference(owner, deployment, r.Scheme)
  unfoldable pub own_deployment : ObjectMeta → Deployment → Outcome Deployment
  own_deployment owner deployment = do
    meta ← set_controller_reference owner deployment.meta
    ok (record deployment { meta = meta })

  -- createChanDeployment
  unfoldable pub create_chan_deployment : ChannelResource → Outcome Deployment
  unfolding own_deployment make_deployment
  create_chan_deployment channel = do
    container ← channel_container channel
    own_deployment channel.meta
        (make_deployment channel.meta (pos 1) channel.spec.service_port container)

  -- ChannelReconciler
  abbrev pub channel_controller : Controller World ChannelResource Deployment
  channel_controller = record {
    fetch = λ key. call (get channel_kind key) (get_channel key);
    meta_of = λ channel. channel.meta;
    fetch_owned = λ key. call (get deployment_kind key) (get_deployment key);
    build = λ channel s. (create_chan_deployment channel, s);
    post = λ d. call (post_deployment d) (create_deployment d);
  }
