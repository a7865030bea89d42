-- ===== src/DeepCopy/Types.antt =====
-- The objects of api/v1alpha1 in memory, and the cells that hold them. Containers and metadata are
-- Kubernetes' own: parameters, with cells of their own.
use streaming_runtime_go.Prelude.{ℕ, Text, List, Dict, Option, none, some}
use streaming_runtime_go.Api.{OutputTarget, ClusterStreamStatus}
use streaming_runtime_go.DeepCopy.Structs.{
  ChannelSpecOf, ChannelStatus, ClusterStreamSpecOf, JoinerSpecOf, JoinerStatus, ListOf, ObjectOf,
  ProcessorSpecOf, ProcessorStatus, Setup, StreamSpecOf, StreamStatus, TableSpec, TableStatus,
}

-- corev1.Container, metav1.ObjectMeta and metav1.ListMeta, and the cells that their references lead to.
pub record Foreign : Type 1 where
  pub Container : Type 0
  pub Meta : Type 0
  pub ListMeta : Type 0
  pub Inner : Type 0

module _ (f : Foreign) where
  open f use {Container, Meta, ListMeta, Inner}

  -- The objects in memory, and a list of objects.
  abbrev pub Channel : Type 0
  Channel = ObjectOf Meta (ChannelSpecOf Setup (Option ℕ)) ChannelStatus

  abbrev pub ClusterStream : Type 0
  ClusterStream = ObjectOf Meta (ClusterStreamSpecOf (Option ℕ)) ClusterStreamStatus

  abbrev pub Joiner : Type 0
  Joiner = ObjectOf Meta (JoinerSpecOf (Option ℕ) (Option ℕ)) JoinerStatus

  abbrev pub Processor : Type 0
  Processor = ObjectOf Meta (ProcessorSpecOf Container) ProcessorStatus

  abbrev pub Stream : Type 0
  Stream = ObjectOf Meta (StreamSpecOf (Option ℕ) (Option ℕ)) StreamStatus

  abbrev pub Table : Type 0
  Table = ObjectOf Meta TableSpec TableStatus

  abbrev pub Items : Type 0
  Items = ListOf ListMeta (Option ℕ)

  pub data Cell : Type 0 where
    texts_cell : List Text → Cell
    targets_cell : List OutputTarget → Cell
    map_cell : Dict Text → Cell
    setup_cell : Setup → Cell
    container_cell : Container → Cell
    inner_cell : Inner → Cell
    channel_cell : Channel → Cell
    channels_cell : List Channel → Cell
    channel_list_cell : Items → Cell
    cluster_stream_cell : ClusterStream → Cell
    cluster_streams_cell : List ClusterStream → Cell
    cluster_stream_list_cell : Items → Cell
    joiner_cell : Joiner → Cell
    joiners_cell : List Joiner → Cell
    joiner_list_cell : Items → Cell
    processor_cell : Processor → Cell
    processors_cell : List Processor → Cell
    processor_list_cell : Items → Cell
    stream_cell : Stream → Cell
    streams_cell : List Stream → Cell
    stream_list_cell : Items → Cell
    table_cell : Table → Cell
    tables_cell : List Table → Cell
    table_list_cell : Items → Cell
    target_cell : OutputTarget → Cell
    channel_spec_cell : ChannelSpecOf Setup (Option ℕ) → Cell
    channel_status_cell : ChannelStatus → Cell
    cluster_stream_spec_cell : ClusterStreamSpecOf (Option ℕ) → Cell
    cluster_stream_status_cell : ClusterStreamStatus → Cell
    joiner_spec_cell : JoinerSpecOf (Option ℕ) (Option ℕ) → Cell
    joiner_status_cell : JoinerStatus → Cell
    processor_spec_cell : ProcessorSpecOf Container → Cell
    processor_status_cell : ProcessorStatus → Cell
    stream_spec_cell : StreamSpecOf (Option ℕ) (Option ℕ) → Cell
    stream_status_cell : StreamStatus → Cell
    table_spec_cell : TableSpec → Cell
    table_status_cell : TableStatus → Cell

  abbrev pub texts_of : Cell → Option (List Text)
  texts_of (texts_cell l) = some l
  texts_of _ = none

  abbrev pub targets_of : Cell → Option (List OutputTarget)
  targets_of (targets_cell l) = some l
  targets_of _ = none

  abbrev pub map_of : Cell → Option (Dict Text)
  map_of (map_cell m) = some m
  map_of _ = none

  abbrev pub setup_of : Cell → Option Setup
  setup_of (setup_cell s) = some s
  setup_of _ = none

  abbrev pub container_of : Cell → Option Container
  container_of (container_cell c) = some c
  container_of _ = none

  abbrev pub channel_of : Cell → Option Channel
  channel_of (channel_cell c) = some c
  channel_of _ = none

  abbrev pub channels_of : Cell → Option (List Channel)
  channels_of (channels_cell c) = some c
  channels_of _ = none

  abbrev pub channel_list_of : Cell → Option Items
  channel_list_of (channel_list_cell c) = some c
  channel_list_of _ = none

  abbrev pub cluster_stream_of : Cell → Option ClusterStream
  cluster_stream_of (cluster_stream_cell c) = some c
  cluster_stream_of _ = none

  abbrev pub cluster_streams_of : Cell → Option (List ClusterStream)
  cluster_streams_of (cluster_streams_cell c) = some c
  cluster_streams_of _ = none

  abbrev pub cluster_stream_list_of : Cell → Option Items
  cluster_stream_list_of (cluster_stream_list_cell c) = some c
  cluster_stream_list_of _ = none

  abbrev pub joiner_of : Cell → Option Joiner
  joiner_of (joiner_cell c) = some c
  joiner_of _ = none

  abbrev pub joiners_of : Cell → Option (List Joiner)
  joiners_of (joiners_cell c) = some c
  joiners_of _ = none

  abbrev pub joiner_list_of : Cell → Option Items
  joiner_list_of (joiner_list_cell c) = some c
  joiner_list_of _ = none

  abbrev pub processor_of : Cell → Option Processor
  processor_of (processor_cell c) = some c
  processor_of _ = none

  abbrev pub processors_of : Cell → Option (List Processor)
  processors_of (processors_cell c) = some c
  processors_of _ = none

  abbrev pub processor_list_of : Cell → Option Items
  processor_list_of (processor_list_cell c) = some c
  processor_list_of _ = none

  abbrev pub stream_of : Cell → Option Stream
  stream_of (stream_cell c) = some c
  stream_of _ = none

  abbrev pub streams_of : Cell → Option (List Stream)
  streams_of (streams_cell c) = some c
  streams_of _ = none

  abbrev pub stream_list_of : Cell → Option Items
  stream_list_of (stream_list_cell c) = some c
  stream_list_of _ = none

  abbrev pub table_of : Cell → Option Table
  table_of (table_cell c) = some c
  table_of _ = none

  abbrev pub tables_of : Cell → Option (List Table)
  tables_of (tables_cell c) = some c
  tables_of _ = none

  abbrev pub table_list_of : Cell → Option Items
  table_list_of (table_list_cell c) = some c
  table_list_of _ = none
