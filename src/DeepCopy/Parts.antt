-- ===== src/DeepCopy/Parts.antt =====
-- The DeepCopyInto and DeepCopy methods of the parts of an object.
use streaming_runtime_go.Prelude.{ℕ, Option, none, some}
use streaming_runtime_go.Api.{OutputTarget, ClusterStreamStatus}
use streaming_runtime_go.Memory.Shapes.{Copier, copy_value}
use streaming_runtime_go.Memory.Pointers.{copy_pointer}
use streaming_runtime_go.DeepCopy.Structs.{
  Setup, ChannelSpecOf, ClusterStreamSpecOf, JoinerSpecOf, ProcessorSpecOf, StreamSpecOf, TableSpec,
  ChannelStatus, JoinerStatus, ProcessorStatus, StreamStatus, TableStatus,
}
use streaming_runtime_go.DeepCopy.Types.{
  Foreign, Cell, setup_cell, setup_of, target_cell, channel_spec_cell, channel_status_cell,
  cluster_stream_spec_cell, cluster_stream_status_cell, joiner_spec_cell, joiner_status_cell,
  processor_spec_cell, processor_status_cell, stream_spec_cell, stream_status_cell, table_spec_cell,
  table_status_cell,
}
use streaming_runtime_go.DeepCopy.Methods.{
  deep_copy_setup, deep_copy_channel_spec, deep_copy_cluster_stream_spec, deep_copy_joiner_spec,
  deep_copy_processor_spec, deep_copy_stream_spec,
}

module _ (f : Foreign) where
  abbrev pub target_of : Cell f → Option OutputTarget
  target_of (target_cell v) = some v
  target_of _ = none

  abbrev pub channel_spec_of : Cell f → Option (ChannelSpecOf Setup (Option ℕ))
  channel_spec_of (channel_spec_cell v) = some v
  channel_spec_of _ = none

  abbrev pub channel_status_of : Cell f → Option ChannelStatus
  channel_status_of (channel_status_cell v) = some v
  channel_status_of _ = none

  abbrev pub cluster_stream_spec_of : Cell f → Option (ClusterStreamSpecOf (Option ℕ))
  cluster_stream_spec_of (cluster_stream_spec_cell v) = some v
  cluster_stream_spec_of _ = none

  abbrev pub cluster_stream_status_of : Cell f → Option ClusterStreamStatus
  cluster_stream_status_of (cluster_stream_status_cell v) = some v
  cluster_stream_status_of _ = none

  abbrev pub joiner_spec_of : Cell f → Option (JoinerSpecOf (Option ℕ) (Option ℕ))
  joiner_spec_of (joiner_spec_cell v) = some v
  joiner_spec_of _ = none

  abbrev pub joiner_status_of : Cell f → Option JoinerStatus
  joiner_status_of (joiner_status_cell v) = some v
  joiner_status_of _ = none

  abbrev pub processor_spec_of : Cell f → Option (ProcessorSpecOf f.Container)
  processor_spec_of (processor_spec_cell v) = some v
  processor_spec_of _ = none

  abbrev pub processor_status_of : Cell f → Option ProcessorStatus
  processor_status_of (processor_status_cell v) = some v
  processor_status_of _ = none

  abbrev pub stream_spec_of : Cell f → Option (StreamSpecOf (Option ℕ) (Option ℕ))
  stream_spec_of (stream_spec_cell v) = some v
  stream_spec_of _ = none

  abbrev pub stream_status_of : Cell f → Option StreamStatus
  stream_status_of (stream_status_cell v) = some v
  stream_status_of _ = none

  abbrev pub table_spec_of : Cell f → Option TableSpec
  table_spec_of (table_spec_cell v) = some v
  table_spec_of _ = none

  abbrev pub table_status_of : Cell f → Option TableStatus
  table_status_of (table_status_cell v) = some v
  table_status_of _ = none

  -- `*out = *in`
  unfoldable pub deep_copy_target : Copier (Cell f) OutputTarget
  deep_copy_target = copy_value

  unfoldable pub deep_copy_channel_status : Copier (Cell f) ChannelStatus
  deep_copy_channel_status = copy_value

  unfoldable pub deep_copy_cluster_stream_status : Copier (Cell f) ClusterStreamStatus
  deep_copy_cluster_stream_status = copy_value

  unfoldable pub deep_copy_joiner_status : Copier (Cell f) JoinerStatus
  deep_copy_joiner_status = copy_value

  unfoldable pub deep_copy_processor_status : Copier (Cell f) ProcessorStatus
  deep_copy_processor_status = copy_value

  unfoldable pub deep_copy_stream_status : Copier (Cell f) StreamStatus
  deep_copy_stream_status = copy_value

  unfoldable pub deep_copy_table_spec : Copier (Cell f) TableSpec
  deep_copy_table_spec = copy_value

  unfoldable pub deep_copy_table_status : Copier (Cell f) TableStatus
  deep_copy_table_status = copy_value

  -- `if in == nil { return nil }; out := new(T); in.DeepCopyInto(out)`
  unfoldable pub copy_of_setup : Copier (Cell f) (Option ℕ)
  copy_of_setup = copy_pointer setup_cell (setup_of f) (deep_copy_setup f)

  unfoldable pub copy_of_target : Copier (Cell f) (Option ℕ)
  unfolding deep_copy_target
  copy_of_target = copy_pointer target_cell target_of deep_copy_target

  unfoldable pub copy_of_channel_status : Copier (Cell f) (Option ℕ)
  unfolding deep_copy_channel_status
  copy_of_channel_status =
      copy_pointer channel_status_cell channel_status_of deep_copy_channel_status

  unfoldable pub copy_of_cluster_stream_spec : Copier (Cell f) (Option ℕ)
  copy_of_cluster_stream_spec =
      copy_pointer cluster_stream_spec_cell cluster_stream_spec_of (deep_copy_cluster_stream_spec f)

  unfoldable pub copy_of_cluster_stream_status : Copier (Cell f) (Option ℕ)
  unfolding deep_copy_cluster_stream_status
  copy_of_cluster_stream_status =
      copy_pointer cluster_stream_status_cell cluster_stream_status_of
        deep_copy_cluster_stream_status

  unfoldable pub copy_of_joiner_status : Copier (Cell f) (Option ℕ)
  unfolding deep_copy_joiner_status
  copy_of_joiner_status = copy_pointer joiner_status_cell joiner_status_of deep_copy_joiner_status

  unfoldable pub copy_of_processor_status : Copier (Cell f) (Option ℕ)
  unfolding deep_copy_processor_status
  copy_of_processor_status =
      copy_pointer processor_status_cell processor_status_of deep_copy_processor_status

  unfoldable pub copy_of_stream_spec : Copier (Cell f) (Option ℕ)
  copy_of_stream_spec = copy_pointer stream_spec_cell stream_spec_of (deep_copy_stream_spec f)

  unfoldable pub copy_of_stream_status : Copier (Cell f) (Option ℕ)
  unfolding deep_copy_stream_status
  copy_of_stream_status = copy_pointer stream_status_cell stream_status_of deep_copy_stream_status

  unfoldable pub copy_of_table_spec : Copier (Cell f) (Option ℕ)
  unfolding deep_copy_table_spec
  copy_of_table_spec = copy_pointer table_spec_cell table_spec_of deep_copy_table_spec

  unfoldable pub copy_of_table_status : Copier (Cell f) (Option ℕ)
  unfolding deep_copy_table_status
  copy_of_table_status = copy_pointer table_status_cell table_status_of deep_copy_table_status

  module _ (copy_container : Copier (Cell f) f.Container) where
    unfoldable pub copy_of_channel_spec : Copier (Cell f) (Option ℕ)
    copy_of_channel_spec =
        copy_pointer channel_spec_cell channel_spec_of (deep_copy_channel_spec f copy_container)

    unfoldable pub copy_of_joiner_spec : Copier (Cell f) (Option ℕ)
    copy_of_joiner_spec =
        copy_pointer joiner_spec_cell joiner_spec_of (deep_copy_joiner_spec f copy_container)

    unfoldable pub copy_of_processor_spec : Copier (Cell f) (Option ℕ)
    copy_of_processor_spec =
        copy_pointer processor_spec_cell processor_spec_of
          (deep_copy_processor_spec f copy_container)
