-- ===== src/DeepCopy/ListCopies.antt =====
-- Lists of objects, and what DeepCopyObject returns for them.
use streaming_runtime_go.Prelude.{Dict, Text, ℕ, List, length, Option, ◌≡◌, refl}
use streaming_runtime_go.Api.{ClusterStreamStatus}
use streaming_runtime_go.Memory.{AgreesOn}
use streaming_runtime_go.Memory.Shapes.{Shape, Copier, IsCopy, IsDeep, isolated}
use streaming_runtime_go.Memory.Pointers.{pointer_shape, copy_pointer-IsDeep}
use streaming_runtime_go.DeepCopy.Structs.{
  ChannelSpecOf, ProcessorSpecOf, ClusterStreamSpecOf, TableSpec, ListOf, ObjectOf,
}
use streaming_runtime_go.DeepCopy.Types.{
  Foreign, Cell, Items, channels_cell, channels_of, channel_list_cell, channel_list_of,
  cluster_streams_cell, cluster_streams_of, cluster_stream_list_cell, cluster_stream_list_of,
  joiners_cell, joiners_of, joiner_list_cell, joiner_list_of, processors_cell, processors_of,
  processor_list_cell, processor_list_of, streams_cell, streams_of, stream_list_cell,
  stream_list_of, tables_cell, tables_of, table_list_cell, table_list_of,
}
use streaming_runtime_go.DeepCopy.Shapes.{StreamSpecValue}
use streaming_runtime_go.DeepCopy.Methods.{
  deep_copy_channel, deep_copy_cluster_stream, deep_copy_joiner, deep_copy_processor,
  deep_copy_stream, deep_copy_table,
}
use streaming_runtime_go.DeepCopy.Lists.{
  deep_copy_channel_list, copy_of_channel_list, object_of_channel_list,
  deep_copy_cluster_stream_list, copy_of_cluster_stream_list, object_of_cluster_stream_list,
  deep_copy_joiner_list, copy_of_joiner_list, object_of_joiner_list, deep_copy_processor_list,
  copy_of_processor_list, object_of_processor_list, deep_copy_stream_list, copy_of_stream_list,
  object_of_stream_list, deep_copy_table_list, copy_of_table_list, object_of_table_list,
}
use streaming_runtime_go.DeepCopy.Objects.{
  IsDocumented, channel_shape, deep_copy_channel-IsDeep, cluster_stream_shape,
  deep_copy_cluster_stream-IsDeep, joiner_shape, deep_copy_joiner-IsDeep, processor_shape,
  deep_copy_processor-IsDeep, stream_shape, deep_copy_stream-IsDeep, table_shape,
  deep_copy_table-IsDeep,
}
use streaming_runtime_go.DeepCopy.ListShapes.{as_object-IsDeep, list_shape, copy_list-IsDeep}
use streaming_runtime_go.DeepCopy.Shapes.{SetupValue, JoinerSpecValue}

module _ (f : Foreign) (copy_container : Copier (Cell f) f.Container)
    (copy_meta : Copier (Cell f) f.Meta) (copy_list_meta : Copier (Cell f) f.ListMeta)
    (doc : IsDocumented f copy_container copy_meta) {LV : Type 0}
    (list_meta_shape : Shape (Cell f) f.ListMeta LV)
    (list_meta_deep : IsDeep list_meta_shape copy_list_meta) where
  abbrev pub channel_list_shape : Shape (Cell f) (Items f) (
      ListOf LV (
        Option (
          List (
            ObjectOf doc.MetaValue
              (ChannelSpecOf (SetupValue f) (Option doc.ContainerValue))
              (Unit {0})))))
  channel_list_shape =
      list_shape f list_meta_shape channels_cell (channels_of f)
        (channel_shape f copy_container copy_meta doc)

  object_of_channel_list-IsDeep :
      IsDeep
        (pointer_shape channel_list_cell (channel_list_of f) channel_list_shape)
        (object_of_channel_list f copy_container copy_meta copy_list_meta)
  unfolding object_of_channel_list copy_of_channel_list deep_copy_channel_list
  object_of_channel_list-IsDeep =
      as_object-IsDeep (pointer_shape channel_list_cell (channel_list_of f) channel_list_shape)
        (copy_of_channel_list f copy_container copy_meta copy_list_meta)
        (copy_pointer-IsDeep channel_list_cell (channel_list_of f) channel_list_shape (λ l. refl)
          (deep_copy_channel_list f copy_container copy_meta copy_list_meta)
          (copy_list-IsDeep f list_meta_shape copy_list_meta channels_cell (channels_of f)
            (channel_shape f copy_container copy_meta doc)
            (deep_copy_channel f copy_container copy_meta) list_meta_deep (λ l. refl)
            (deep_copy_channel-IsDeep f copy_container copy_meta doc)))

  abbrev pub cluster_stream_list_shape : Shape (Cell f) (Items f) (
      ListOf LV (
        Option (
          List (
            ObjectOf doc.MetaValue
              (ClusterStreamSpecOf (Option (Dict Text)))
              ClusterStreamStatus))))
  cluster_stream_list_shape =
      list_shape f list_meta_shape cluster_streams_cell (cluster_streams_of f)
        (cluster_stream_shape f copy_container copy_meta doc)

  object_of_cluster_stream_list-IsDeep :
      IsDeep
        (pointer_shape cluster_stream_list_cell
          (cluster_stream_list_of f)
          cluster_stream_list_shape)
        (object_of_cluster_stream_list f copy_container copy_meta copy_list_meta)
  unfolding object_of_cluster_stream_list copy_of_cluster_stream_list deep_copy_cluster_stream_list
  object_of_cluster_stream_list-IsDeep =
      as_object-IsDeep
        (pointer_shape cluster_stream_list_cell (cluster_stream_list_of f)
          cluster_stream_list_shape)
        (copy_of_cluster_stream_list f copy_container copy_meta copy_list_meta)
        (copy_pointer-IsDeep cluster_stream_list_cell (cluster_stream_list_of f)
          cluster_stream_list_shape (λ l. refl)
          (deep_copy_cluster_stream_list f copy_container copy_meta copy_list_meta)
          (copy_list-IsDeep f list_meta_shape copy_list_meta cluster_streams_cell
            (cluster_streams_of f) (cluster_stream_shape f copy_container copy_meta doc)
            (deep_copy_cluster_stream f copy_container copy_meta) list_meta_deep (λ l. refl)
            (deep_copy_cluster_stream-IsDeep f copy_container copy_meta doc)))

  abbrev pub joiner_list_shape : Shape (Cell f) (Items f) (
      ListOf LV
        (Option (List (ObjectOf doc.MetaValue (JoinerSpecValue f doc.container_shape) (Unit {0})))))
  joiner_list_shape =
      list_shape f list_meta_shape joiners_cell (joiners_of f)
        (joiner_shape f copy_container copy_meta doc)

  object_of_joiner_list-IsDeep :
      IsDeep
        (pointer_shape joiner_list_cell (joiner_list_of f) joiner_list_shape)
        (object_of_joiner_list f copy_container copy_meta copy_list_meta)
  unfolding object_of_joiner_list copy_of_joiner_list deep_copy_joiner_list
  object_of_joiner_list-IsDeep =
      as_object-IsDeep (pointer_shape joiner_list_cell (joiner_list_of f) joiner_list_shape)
        (copy_of_joiner_list f copy_container copy_meta copy_list_meta)
        (copy_pointer-IsDeep joiner_list_cell (joiner_list_of f) joiner_list_shape (λ l. refl)
          (deep_copy_joiner_list f copy_container copy_meta copy_list_meta)
          (copy_list-IsDeep f list_meta_shape copy_list_meta joiners_cell (joiners_of f)
            (joiner_shape f copy_container copy_meta doc)
            (deep_copy_joiner f copy_container copy_meta) list_meta_deep (λ l. refl)
            (deep_copy_joiner-IsDeep f copy_container copy_meta doc)))

  abbrev pub processor_list_shape : Shape (Cell f) (Items f) (
      ListOf LV
        (Option (List (ObjectOf doc.MetaValue (ProcessorSpecOf doc.ContainerValue) (Unit {0})))))
  processor_list_shape =
      list_shape f list_meta_shape processors_cell (processors_of f)
        (processor_shape f copy_container copy_meta doc)

  object_of_processor_list-IsDeep :
      IsDeep
        (pointer_shape processor_list_cell (processor_list_of f) processor_list_shape)
        (object_of_processor_list f copy_container copy_meta copy_list_meta)
  unfolding object_of_processor_list copy_of_processor_list deep_copy_processor_list
  object_of_processor_list-IsDeep =
      as_object-IsDeep
        (pointer_shape processor_list_cell (processor_list_of f) processor_list_shape)
        (copy_of_processor_list f copy_container copy_meta copy_list_meta)
        (copy_pointer-IsDeep processor_list_cell (processor_list_of f) processor_list_shape
          (λ l. refl) (deep_copy_processor_list f copy_container copy_meta copy_list_meta)
          (copy_list-IsDeep f list_meta_shape copy_list_meta processors_cell (processors_of f)
            (processor_shape f copy_container copy_meta doc)
            (deep_copy_processor f copy_container copy_meta) list_meta_deep (λ l. refl)
            (deep_copy_processor-IsDeep f copy_container copy_meta doc)))

  abbrev pub stream_items_shape :
      Shape
        (Cell f)
        (Items f)
        (ListOf LV (Option (List (ObjectOf doc.MetaValue (StreamSpecValue f) (Unit {0})))))
  stream_items_shape =
      list_shape f list_meta_shape streams_cell (streams_of f)
        (stream_shape f copy_container copy_meta doc)

  object_of_stream_list-IsDeep :
      IsDeep
        (pointer_shape stream_list_cell (stream_list_of f) stream_items_shape)
        (object_of_stream_list f copy_container copy_meta copy_list_meta)
  unfolding object_of_stream_list copy_of_stream_list deep_copy_stream_list
  object_of_stream_list-IsDeep =
      as_object-IsDeep (pointer_shape stream_list_cell (stream_list_of f) stream_items_shape)
        (copy_of_stream_list f copy_container copy_meta copy_list_meta)
        (copy_pointer-IsDeep stream_list_cell (stream_list_of f) stream_items_shape (λ l. refl)
          (deep_copy_stream_list f copy_container copy_meta copy_list_meta)
          (copy_list-IsDeep f list_meta_shape copy_list_meta streams_cell (streams_of f)
            (stream_shape f copy_container copy_meta doc)
            (deep_copy_stream f copy_container copy_meta) list_meta_deep (λ l. refl)
            (deep_copy_stream-IsDeep f copy_container copy_meta doc)))

  abbrev pub table_list_shape :
      Shape
        (Cell f)
        (Items f)
        (ListOf LV (Option (List (ObjectOf doc.MetaValue (TableSpec) (Unit {0})))))
  table_list_shape =
      list_shape f list_meta_shape tables_cell (tables_of f)
        (table_shape f copy_container copy_meta doc)

  object_of_table_list-IsDeep :
      IsDeep
        (pointer_shape table_list_cell (table_list_of f) table_list_shape)
        (object_of_table_list f copy_container copy_meta copy_list_meta)
  unfolding object_of_table_list copy_of_table_list deep_copy_table_list
  object_of_table_list-IsDeep =
      as_object-IsDeep (pointer_shape table_list_cell (table_list_of f) table_list_shape)
        (copy_of_table_list f copy_container copy_meta copy_list_meta)
        (copy_pointer-IsDeep table_list_cell (table_list_of f) table_list_shape (λ l. refl)
          (deep_copy_table_list f copy_container copy_meta copy_list_meta)
          (copy_list-IsDeep f list_meta_shape copy_list_meta tables_cell (tables_of f)
            (table_shape f copy_container copy_meta doc)
            (deep_copy_table f copy_container copy_meta) list_meta_deep (λ l. refl)
            (deep_copy_table-IsDeep f copy_container copy_meta doc)))

  abbrev pub stream_list_shape :
      Shape
        (Cell f)
        (Option ℕ)
        (Option (ListOf LV (Option (List (ObjectOf doc.MetaValue (StreamSpecValue f) (Unit {0}))))))
  stream_list_shape = pointer_shape stream_list_cell (stream_list_of f) stream_items_shape

  -- What DeepCopyObject returns for a list of streams is the same value and reaches new cells alone:
  -- what is then written into old cells leaves the copy as it is, and what is written into new cells
  -- leaves the original as it is; if every address of the original leads to a cell of its type and
  -- DeepCopyInto of containers and of metadata makes deep copies.
  pub object_of_stream_list_lem :
      (h old new : List (Cell f)) (p : Option ℕ)
      → stream_list_shape.within 0 (length h) h p
      → AgreesOn
          (length h)
          (length (object_of_stream_list f copy_container copy_meta copy_list_meta p h).1)
          (object_of_stream_list f copy_container copy_meta copy_list_meta p h).1
          old
      → AgreesOn 0 (length h) h new
      → IsCopy stream_list_shape h p
          (object_of_stream_list f copy_container copy_meta copy_list_meta p h).1
          (object_of_stream_list f copy_container copy_meta copy_list_meta p h).0
        × (stream_list_shape.view old
              (object_of_stream_list f copy_container copy_meta copy_list_meta p h).0
            ≡ stream_list_shape.view h p)
        × (stream_list_shape.view new p ≡ stream_list_shape.view h p)
  object_of_stream_list_lem h old new p w e e' =
      isolated stream_list_shape (object_of_stream_list f copy_container copy_meta copy_list_meta) h
        old new p object_of_stream_list-IsDeep w e e'
