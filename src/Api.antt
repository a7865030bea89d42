-- ===== src/Api.antt =====
-- api/v1alpha1: the custom resources, and of the Kubernetes and dapr types the fields that the
-- controllers read or write.
use streaming_runtime_go.Prelude.{Text, codes, List, Option, Bool, Dict, ℤ}

-- types.NamespacedName
pub record NamespacedName : Type 0 where
  pub name : Text
  pub namespace : Text

-- metav1.ObjectMeta; `deleting` says that DeletionTimestamp is set, and `owners` are the owner
-- references
pub record ObjectMeta : Type 0 where
  pub name : Text
  pub namespace : Text
  pub deleting : Bool
  pub labels : Dict Text
  pub annotations : Dict Text
  pub owners : List Text

-- corev1.EnvVar
pub record EnvVar : Type 0 where
  pub name : Text
  pub value : Text

-- corev1.ContainerPort; HostPort is 0 throughout
pub record ContainerPort : Type 0 where
  pub name : Text
  pub container_port : ℤ

-- corev1.EnvFromSource: a prefix, and the name of a ConfigMap or of a Secret
pub record EnvFromSource : Type 0 where
  pub prefix : Text
  pub config_map : Option Text
  pub secret : Option Text

-- corev1.Container
pub record Container : Type 0 where
  pub name : Text
  pub image : Text
  pub image_pull_policy : Text
  pub env : List EnvVar
  pub env_from : List EnvFromSource
  pub ports : List ContainerPort

-- appsv1.Deployment: its metadata and its specification, with that of the pods
pub record Deployment : Type 0 where
  pub meta : ObjectMeta
  pub match_labels : Dict Text
  pub replicas : ℤ
  pub pod_labels : Dict Text
  pub pod_annotations : Dict Text
  pub containers : List Container

-- OutputTarget
pub record OutputTarget : Type 0 where
  pub stream : Text
  pub component : Text

-- StreamSetup
pub record StreamSetup : Type 0 where
  pub sources : List Text
  pub to : List OutputTarget
  pub select : Text
  pub condition : Text

-- ChannelSpec
pub record ChannelSpec : Type 0 where
  pub service_port : ℤ
  pub stream : StreamSetup
  pub mode : Text
  pub trigger : Text
  pub container : Option Container

-- Channel
pub record ChannelResource : Type 0 where
  pub meta : ObjectMeta
  pub spec : ChannelSpec

-- JoinerSpec; the pointer `stream` may be nil
pub record JoinerSpec : Type 0 where
  pub service_port : ℤ
  pub window : Text
  pub stream : Option StreamSetup
  pub container : Option Container

-- Joiner
pub record JoinerResource : Type 0 where
  pub meta : ObjectMeta
  pub spec : JoinerSpec

-- ProcessorSpec
pub record ProcessorSpec : Type 0 where
  pub replicas : ℤ
  pub service_port : ℤ
  pub container : Container
  pub service_route : Text
  pub target : Text

-- Processor
pub record ProcessorResource : Type 0 where
  pub meta : ObjectMeta
  pub spec : ProcessorSpec

-- StreamSpec
pub record StreamSpec : Type 0 where
  pub cluster_stream : Text
  pub topic : Text
  pub recipients : List Text
  pub route : Text
  pub properties : Dict Text

-- Stream
pub record StreamResource : Type 0 where
  pub meta : ObjectMeta
  pub spec : StreamSpec

-- ClusterStreamSpec
pub record ClusterStreamSpec : Type 0 where
  pub protocol : Text
  pub properties : Dict Text
  pub auth_type : Text

-- ClusterStreamStatus
pub record ClusterStreamStatus : Type 0 where
  pub provider : Text
  pub servers : Text
  pub status : Text

-- ClusterStream
pub record ClusterStreamResource : Type 0 where
  pub meta : ObjectMeta
  pub spec : ClusterStreamSpec
  pub status : ClusterStreamStatus

-- the dapr Subscription (v2alpha1)
pub record DaprSubscription : Type 0 where
  pub meta : ObjectMeta
  pub pubsub_name : Text
  pub topic : Text
  pub default_route : Text
  pub scopes : List Text

-- the dapr Component, with the raw JSON of its metadata items
pub record DaprComponent : Type 0 where
  pub meta : ObjectMeta
  pub component_type : Text
  pub version : Text
  pub metadata : List (Text × Text)

abbrev pub kafka_protocol_name : Text
kafka_protocol_name = codes "kafka"
