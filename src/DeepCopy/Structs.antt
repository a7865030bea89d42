-- ===== src/DeepCopy/Structs.antt =====
-- The structs of api/v1alpha1 in memory.
use streaming_runtime_go.Prelude.{ℕ, Text, Option, ℤ}

-- The structs, with their slices, maps and pointers as type parameters: addresses in memory, and what
-- these hold in a value.
pub record SetupOf (T O : Type 0) : Type 0 where
  pub sources : T
  pub to : O
  pub select : Text
  pub condition : Text

pub record ChannelSpecOf (S K : Type 0) : Type 0 where
  pub service_port : ℤ
  pub stream : S
  pub mode : Text
  pub trigger : Text
  pub container : K

pub record JoinerSpecOf (S K : Type 0) : Type 0 where
  pub service_port : ℤ
  pub window : Text
  pub stream : S
  pub container : K

pub record ProcessorSpecOf (K : Type 0) : Type 0 where
  pub replicas : ℤ
  pub service_port : ℤ
  pub container : K
  pub service_route : Text
  pub target : Text

pub record StreamSpecOf (T M : Type 0) : Type 0 where
  pub cluster_stream : Text
  pub topic : Text
  pub recipients : T
  pub route : Text
  pub properties : M

pub record ClusterStreamSpecOf (M : Type 0) : Type 0 where
  pub protocol : Text
  pub properties : M
  pub auth_type : Text

-- TableSpec
pub record TableSpec : Type 0 where
  pub foo : Text

-- ChannelStatus, JoinerStatus, ProcessorStatus, StreamStatus and TableStatus: structs without fields
abbrev pub ChannelStatus : Type 0
ChannelStatus = Unit

abbrev pub JoinerStatus : Type 0
JoinerStatus = Unit

abbrev pub ProcessorStatus : Type 0
ProcessorStatus = Unit

abbrev pub StreamStatus : Type 0
StreamStatus = Unit

abbrev pub TableStatus : Type 0
TableStatus = Unit

-- metav1.TypeMeta
pub record TypeMeta : Type 0 where
  pub kind : Text
  pub api_version : Text

-- An object: its metadata, specification and status.
pub record ObjectOf (M S T : Type 0) : Type 0 where
  pub type_meta : TypeMeta
  pub meta : M
  pub spec : S
  pub status : T

-- A list of objects.
pub record ListOf (M I : Type 0) : Type 0 where
  pub type_meta : TypeMeta
  pub meta : M
  pub items : I

-- StreamSetup in memory
abbrev pub Setup : Type 0
Setup = SetupOf (Option ℕ) (Option ℕ)
