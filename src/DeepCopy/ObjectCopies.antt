-- ===== src/DeepCopy/ObjectCopies.antt =====
-- What DeepCopyObject returns for the objects.
use streaming_runtime_go.Prelude.{refl}
use streaming_runtime_go.Memory.Shapes.{Copier, IsDeep}
use streaming_runtime_go.Memory.Pointers.{pointer_shape, copy_pointer-IsDeep}
use streaming_runtime_go.DeepCopy.Types.{
  Foreign, Cell, channel_cell, channel_of, cluster_stream_cell, cluster_stream_of, joiner_cell,
  joiner_of, processor_cell, processor_of, stream_cell, stream_of, table_cell, table_of,
}
use streaming_runtime_go.DeepCopy.Methods.{
  deep_copy_channel, deep_copy_cluster_stream, deep_copy_joiner, deep_copy_processor,
  deep_copy_stream, deep_copy_table,
}
use streaming_runtime_go.DeepCopy.Lists.{
  copy_of_channel, object_of_channel, copy_of_cluster_stream, object_of_cluster_stream,
  copy_of_joiner, object_of_joiner, copy_of_processor, object_of_processor, copy_of_stream,
  object_of_stream, copy_of_table, object_of_table,
}
use streaming_runtime_go.DeepCopy.Objects.{
  IsDocumented, channel_shape, deep_copy_channel-IsDeep, cluster_stream_shape,
  deep_copy_cluster_stream-IsDeep, joiner_shape, deep_copy_joiner-IsDeep, processor_shape,
  deep_copy_processor-IsDeep, stream_shape, deep_copy_stream-IsDeep, table_shape,
  deep_copy_table-IsDeep,
}
use streaming_runtime_go.DeepCopy.ListShapes.{as_object-IsDeep}

module _ (f : Foreign) (copy_container : Copier (Cell f) f.Container)
    (copy_meta : Copier (Cell f) f.Meta) (copy_list_meta : Copier (Cell f) f.ListMeta)
    (doc : IsDocumented f copy_container copy_meta) where
  object_of_channel-IsDeep :
      IsDeep
        (pointer_shape channel_cell (channel_of f) (channel_shape f copy_container copy_meta doc))
        (object_of_channel f copy_container copy_meta copy_list_meta)
  unfolding object_of_channel copy_of_channel
  object_of_channel-IsDeep =
      as_object-IsDeep
        (pointer_shape channel_cell (channel_of f) (channel_shape f copy_container copy_meta doc))
        (copy_of_channel f copy_container copy_meta copy_list_meta)
        (copy_pointer-IsDeep channel_cell (channel_of f)
          (channel_shape f copy_container copy_meta doc) (λ o. refl)
          (deep_copy_channel f copy_container copy_meta)
          (deep_copy_channel-IsDeep f copy_container copy_meta doc))

  object_of_cluster_stream-IsDeep :
      IsDeep
        (pointer_shape cluster_stream_cell
          (cluster_stream_of f)
          (cluster_stream_shape f copy_container copy_meta doc))
        (object_of_cluster_stream f copy_container copy_meta copy_list_meta)
  unfolding object_of_cluster_stream copy_of_cluster_stream
  object_of_cluster_stream-IsDeep =
      as_object-IsDeep
        (pointer_shape cluster_stream_cell (cluster_stream_of f)
          (cluster_stream_shape f copy_container copy_meta doc))
        (copy_of_cluster_stream f copy_container copy_meta copy_list_meta)
        (copy_pointer-IsDeep cluster_stream_cell (cluster_stream_of f)
          (cluster_stream_shape f copy_container copy_meta doc) (λ o. refl)
          (deep_copy_cluster_stream f copy_container copy_meta)
          (deep_copy_cluster_stream-IsDeep f copy_container copy_meta doc))

  object_of_joiner-IsDeep :
      IsDeep
        (pointer_shape joiner_cell (joiner_of f) (joiner_shape f copy_container copy_meta doc))
        (object_of_joiner f copy_container copy_meta copy_list_meta)
  unfolding object_of_joiner copy_of_joiner
  object_of_joiner-IsDeep =
      as_object-IsDeep
        (pointer_shape joiner_cell (joiner_of f) (joiner_shape f copy_container copy_meta doc))
        (copy_of_joiner f copy_container copy_meta copy_list_meta)
        (copy_pointer-IsDeep joiner_cell (joiner_of f) (joiner_shape f copy_container copy_meta doc)
          (λ o. refl) (deep_copy_joiner f copy_container copy_meta)
          (deep_copy_joiner-IsDeep f copy_container copy_meta doc))

  object_of_processor-IsDeep :
      IsDeep
        (pointer_shape processor_cell
          (processor_of f)
          (processor_shape f copy_container copy_meta doc))
        (object_of_processor f copy_container copy_meta copy_list_meta)
  unfolding object_of_processor copy_of_processor
  object_of_processor-IsDeep =
      as_object-IsDeep
        (pointer_shape processor_cell (processor_of f)
          (processor_shape f copy_container copy_meta doc))
        (copy_of_processor f copy_container copy_meta copy_list_meta)
        (copy_pointer-IsDeep processor_cell (processor_of f)
          (processor_shape f copy_container copy_meta doc) (λ o. refl)
          (deep_copy_processor f copy_container copy_meta)
          (deep_copy_processor-IsDeep f copy_container copy_meta doc))

  object_of_stream-IsDeep :
      IsDeep
        (pointer_shape stream_cell (stream_of f) (stream_shape f copy_container copy_meta doc))
        (object_of_stream f copy_container copy_meta copy_list_meta)
  unfolding object_of_stream copy_of_stream
  object_of_stream-IsDeep =
      as_object-IsDeep
        (pointer_shape stream_cell (stream_of f) (stream_shape f copy_container copy_meta doc))
        (copy_of_stream f copy_container copy_meta copy_list_meta)
        (copy_pointer-IsDeep stream_cell (stream_of f) (stream_shape f copy_container copy_meta doc)
          (λ o. refl) (deep_copy_stream f copy_container copy_meta)
          (deep_copy_stream-IsDeep f copy_container copy_meta doc))

  object_of_table-IsDeep :
      IsDeep
        (pointer_shape table_cell (table_of f) (table_shape f copy_container copy_meta doc))
        (object_of_table f copy_container copy_meta copy_list_meta)
  unfolding object_of_table copy_of_table
  object_of_table-IsDeep =
      as_object-IsDeep
        (pointer_shape table_cell (table_of f) (table_shape f copy_container copy_meta doc))
        (copy_of_table f copy_container copy_meta copy_list_meta)
        (copy_pointer-IsDeep table_cell (table_of f) (table_shape f copy_container copy_meta doc)
          (λ o. refl) (deep_copy_table f copy_container copy_meta)
          (deep_copy_table-IsDeep f copy_container copy_meta doc))
