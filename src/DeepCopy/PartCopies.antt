-- ===== src/DeepCopy/PartCopies.antt =====
-- The DeepCopy methods of the parts of an object make deep copies.
use streaming_runtime_go.Prelude.{refl}
use streaming_runtime_go.Api.{OutputTarget, ClusterStreamStatus}
use streaming_runtime_go.Memory.Shapes.{Shape, Copier, IsDeep, value_shape, copy_value-IsDeep}
use streaming_runtime_go.Memory.Pointers.{pointer_shape, copy_pointer-IsDeep}
use streaming_runtime_go.DeepCopy.Structs.{
  TableSpec, ChannelStatus, JoinerStatus, ProcessorStatus, StreamStatus, TableStatus,
}
use streaming_runtime_go.DeepCopy.Types.{
  Foreign, Cell, setup_cell, setup_of, target_cell, channel_spec_cell, channel_status_cell,
  cluster_stream_spec_cell, cluster_stream_status_cell, joiner_spec_cell, joiner_status_cell,
  processor_spec_cell, processor_status_cell, stream_spec_cell, stream_status_cell, table_spec_cell,
  table_status_cell,
}
use streaming_runtime_go.DeepCopy.Methods.{
  deep_copy_setup, deep_copy_channel_spec, deep_copy_cluster_stream_spec, deep_copy_joiner_spec,
  deep_copy_processor_spec, deep_copy_stream_spec,
}
use streaming_runtime_go.DeepCopy.Parts.{
  target_of, channel_spec_of, channel_status_of, cluster_stream_spec_of, cluster_stream_status_of,
  joiner_spec_of, joiner_status_of, processor_spec_of, processor_status_of, stream_spec_of,
  stream_status_of, table_spec_of, table_status_of, deep_copy_target, deep_copy_channel_status,
  deep_copy_cluster_stream_status, deep_copy_joiner_status, deep_copy_processor_status,
  deep_copy_stream_status, deep_copy_table_spec, deep_copy_table_status, copy_of_setup,
  copy_of_target, copy_of_channel_spec, copy_of_channel_status, copy_of_cluster_stream_spec,
  copy_of_cluster_stream_status, copy_of_joiner_spec, copy_of_joiner_status, copy_of_processor_spec,
  copy_of_processor_status, copy_of_stream_spec, copy_of_stream_status, copy_of_table_spec,
  copy_of_table_status,
}
use streaming_runtime_go.DeepCopy.Shapes.{
  setup_shape, channel_spec_shape, cluster_stream_spec_shape, joiner_spec_shape,
  processor_spec_shape, stream_spec_shape,
}
use streaming_runtime_go.DeepCopy.Copies.{
  deep_copy_setup-IsDeep, deep_copy_channel_spec-IsDeep, deep_copy_cluster_stream_spec-IsDeep,
  deep_copy_joiner_spec-IsDeep, deep_copy_processor_spec-IsDeep, deep_copy_stream_spec-IsDeep,
}

module _ (f : Foreign) where
  copy_of_setup-IsDeep :
      IsDeep (pointer_shape setup_cell (setup_of f) (setup_shape f)) (copy_of_setup f)
  unfolding copy_of_setup
  copy_of_setup-IsDeep =
      copy_pointer-IsDeep setup_cell (setup_of f) (setup_shape f) (λ v. refl) (deep_copy_setup f)
        (deep_copy_setup-IsDeep f)

  copy_of_target-IsDeep :
      IsDeep (pointer_shape target_cell (target_of f) (value_shape OutputTarget)) (copy_of_target f)
  unfolding copy_of_target deep_copy_target
  copy_of_target-IsDeep =
      copy_pointer-IsDeep target_cell (target_of f) (value_shape OutputTarget) (λ v. refl)
        (deep_copy_target f) (copy_value-IsDeep)

  copy_of_channel_status-IsDeep :
      IsDeep
        (pointer_shape channel_status_cell (channel_status_of f) (value_shape ChannelStatus))
        (copy_of_channel_status f)
  unfolding copy_of_channel_status deep_copy_channel_status
  copy_of_channel_status-IsDeep =
      copy_pointer-IsDeep channel_status_cell (channel_status_of f) (value_shape ChannelStatus)
        (λ v. refl) (deep_copy_channel_status f) (copy_value-IsDeep)

  copy_of_cluster_stream_spec-IsDeep :
      IsDeep
        (pointer_shape cluster_stream_spec_cell
          (cluster_stream_spec_of f)
          (cluster_stream_spec_shape f))
        (copy_of_cluster_stream_spec f)
  unfolding copy_of_cluster_stream_spec
  copy_of_cluster_stream_spec-IsDeep =
      copy_pointer-IsDeep cluster_stream_spec_cell (cluster_stream_spec_of f)
        (cluster_stream_spec_shape f) (λ v. refl) (deep_copy_cluster_stream_spec f)
        (deep_copy_cluster_stream_spec-IsDeep f)

  copy_of_cluster_stream_status-IsDeep :
      IsDeep
        (pointer_shape cluster_stream_status_cell
          (cluster_stream_status_of f)
          (value_shape ClusterStreamStatus))
        (copy_of_cluster_stream_status f)
  unfolding copy_of_cluster_stream_status deep_copy_cluster_stream_status
  copy_of_cluster_stream_status-IsDeep =
      copy_pointer-IsDeep cluster_stream_status_cell (cluster_stream_status_of f)
        (value_shape ClusterStreamStatus) (λ v. refl) (deep_copy_cluster_stream_status f)
        (copy_value-IsDeep)

  copy_of_joiner_status-IsDeep :
      IsDeep
        (pointer_shape joiner_status_cell (joiner_status_of f) (value_shape JoinerStatus))
        (copy_of_joiner_status f)
  unfolding copy_of_joiner_status deep_copy_joiner_status
  copy_of_joiner_status-IsDeep =
      copy_pointer-IsDeep joiner_status_cell (joiner_status_of f) (value_shape JoinerStatus)
        (λ v. refl) (deep_copy_joiner_status f) (copy_value-IsDeep)

  copy_of_processor_status-IsDeep :
      IsDeep
        (pointer_shape processor_status_cell (processor_status_of f) (value_shape ProcessorStatus))
        (copy_of_processor_status f)
  unfolding copy_of_processor_status deep_copy_processor_status
  copy_of_processor_status-IsDeep =
      copy_pointer-IsDeep processor_status_cell (processor_status_of f)
        (value_shape ProcessorStatus) (λ v. refl) (deep_copy_processor_status f) (copy_value-IsDeep)

  copy_of_stream_spec-IsDeep :
      IsDeep
        (pointer_shape stream_spec_cell (stream_spec_of f) (stream_spec_shape f))
        (copy_of_stream_spec f)
  unfolding copy_of_stream_spec
  copy_of_stream_spec-IsDeep =
      copy_pointer-IsDeep stream_spec_cell (stream_spec_of f) (stream_spec_shape f) (λ v. refl)
        (deep_copy_stream_spec f) (deep_copy_stream_spec-IsDeep f)

  copy_of_stream_status-IsDeep :
      IsDeep
        (pointer_shape stream_status_cell (stream_status_of f) (value_shape StreamStatus))
        (copy_of_stream_status f)
  unfolding copy_of_stream_status deep_copy_stream_status
  copy_of_stream_status-IsDeep =
      copy_pointer-IsDeep stream_status_cell (stream_status_of f) (value_shape StreamStatus)
        (λ v. refl) (deep_copy_stream_status f) (copy_value-IsDeep)

  copy_of_table_spec-IsDeep :
      IsDeep
        (pointer_shape table_spec_cell (table_spec_of f) (value_shape TableSpec))
        (copy_of_table_spec f)
  unfolding copy_of_table_spec deep_copy_table_spec
  copy_of_table_spec-IsDeep =
      copy_pointer-IsDeep table_spec_cell (table_spec_of f) (value_shape TableSpec) (λ v. refl)
        (deep_copy_table_spec f) (copy_value-IsDeep)

  copy_of_table_status-IsDeep :
      IsDeep
        (pointer_shape table_status_cell (table_status_of f) (value_shape TableStatus))
        (copy_of_table_status f)
  unfolding copy_of_table_status deep_copy_table_status
  copy_of_table_status-IsDeep =
      copy_pointer-IsDeep table_status_cell (table_status_of f) (value_shape TableStatus)
        (λ v. refl) (deep_copy_table_status f) (copy_value-IsDeep)

  module _ {KV : Type 0} (container_shape : Shape (Cell f) f.Container KV)
      (copy_container : Copier (Cell f) f.Container)
      (container_deep : IsDeep container_shape copy_container) where
    copy_of_channel_spec-IsDeep :
        IsDeep
          (pointer_shape channel_spec_cell
            (channel_spec_of f)
            (channel_spec_shape f container_shape))
          (copy_of_channel_spec f copy_container)
    unfolding copy_of_channel_spec
    copy_of_channel_spec-IsDeep =
        copy_pointer-IsDeep channel_spec_cell (channel_spec_of f)
          (channel_spec_shape f container_shape) (λ v. refl)
          (deep_copy_channel_spec f copy_container)
          (deep_copy_channel_spec-IsDeep f container_shape copy_container container_deep)

    copy_of_joiner_spec-IsDeep :
        IsDeep
          (pointer_shape joiner_spec_cell (joiner_spec_of f) (joiner_spec_shape f container_shape))
          (copy_of_joiner_spec f copy_container)
    unfolding copy_of_joiner_spec
    copy_of_joiner_spec-IsDeep =
        copy_pointer-IsDeep joiner_spec_cell (joiner_spec_of f)
          (joiner_spec_shape f container_shape) (λ v. refl) (deep_copy_joiner_spec f copy_container)
          (deep_copy_joiner_spec-IsDeep f container_shape copy_container container_deep)

    copy_of_processor_spec-IsDeep :
        IsDeep
          (pointer_shape processor_spec_cell
            (processor_spec_of f)
            (processor_spec_shape f container_shape))
          (copy_of_processor_spec f copy_container)
    unfolding copy_of_processor_spec
    copy_of_processor_spec-IsDeep =
        copy_pointer-IsDeep processor_spec_cell (processor_spec_of f)
          (processor_spec_shape f container_shape) (λ v. refl)
          (deep_copy_processor_spec f copy_container)
          (deep_copy_processor_spec-IsDeep f container_shape copy_container container_deep)
