-- ===== src/DeepCopy/Lists.antt =====
-- The DeepCopyInto methods of the lists, and DeepCopy and DeepCopyObject of objects and lists.
use streaming_runtime_go.Prelude.{ℕ, List, Option, none, some}
use streaming_runtime_go.Memory.Shapes.{Copier}
use streaming_runtime_go.Memory.Pointers.{copy_pointer}
use streaming_runtime_go.Memory.Lists.{copy_items}
use streaming_runtime_go.DeepCopy.Types.{
  Foreign, Cell, Items, channel_cell, channel_of, channels_cell, channels_of, channel_list_cell,
  channel_list_of, cluster_stream_cell, cluster_stream_of, cluster_streams_cell, cluster_streams_of,
  cluster_stream_list_cell, cluster_stream_list_of, joiner_cell, joiner_of, joiners_cell,
  joiners_of, joiner_list_cell, joiner_list_of, processor_cell, processor_of, processors_cell,
  processors_of, processor_list_cell, processor_list_of, stream_cell, stream_of, streams_cell,
  streams_of, stream_list_cell, stream_list_of, table_cell, table_of, tables_cell, tables_of,
  table_list_cell, table_list_of,
}
use streaming_runtime_go.DeepCopy.Methods.{
  deep_copy_channel, deep_copy_cluster_stream, deep_copy_joiner, deep_copy_processor,
  deep_copy_stream, deep_copy_table,
}

-- `if c := in.DeepCopy(); c != nil { return c }; return nil`
abbrev pub as_object : {C : Type 0} → Copier C (Option ℕ) → Copier C (Option ℕ)
as_object copy p h = let (c, h1) = copy p h in elim c [ none ↦ (none, h1) | some r ↦ (some r, h1) ]

-- The DeepCopyInto method of a list, from that of its objects: the metadata, and if the slice is not
-- nil a new array with a copy of each object.
abbrev pub copy_list :
    (f : Foreign) {O : Type 0}
    → Copier (Cell f) f.ListMeta
    → (List O → Cell f)
    → (Cell f → Option (List O))
    → Copier (Cell f) O
    → Copier (Cell f) (Items f)
copy_list f copy_list_meta array content copy l h =
    let (meta, h1) = copy_list_meta l.meta h in
    let (items, h2) = copy_pointer array content (copy_items copy) l.items h1 in
    (record l { meta = meta; items = items }, h2)

module _ (f : Foreign) (copy_container : Copier (Cell f) f.Container)
    (copy_meta : Copier (Cell f) f.Meta) (copy_list_meta : Copier (Cell f) f.ListMeta) where
  -- Channel
  unfoldable pub copy_of_channel : Copier (Cell f) (Option ℕ)
  copy_of_channel =
      copy_pointer channel_cell (channel_of f) (deep_copy_channel f copy_container copy_meta)

  unfoldable pub object_of_channel : Copier (Cell f) (Option ℕ)
  unfolding copy_of_channel
  object_of_channel = as_object copy_of_channel

  -- ChannelList
  unfoldable pub deep_copy_channel_list : Copier (Cell f) (Items f)
  deep_copy_channel_list =
      copy_list f copy_list_meta channels_cell (channels_of f)
        (deep_copy_channel f copy_container copy_meta)

  unfoldable pub copy_of_channel_list : Copier (Cell f) (Option ℕ)
  unfolding deep_copy_channel_list
  copy_of_channel_list = copy_pointer channel_list_cell (channel_list_of f) deep_copy_channel_list

  unfoldable pub object_of_channel_list : Copier (Cell f) (Option ℕ)
  unfolding copy_of_channel_list
  object_of_channel_list = as_object copy_of_channel_list

  -- ClusterStream
  unfoldable pub copy_of_cluster_stream : Copier (Cell f) (Option ℕ)
  copy_of_cluster_stream =
      copy_pointer cluster_stream_cell (cluster_stream_of f)
        (deep_copy_cluster_stream f copy_container copy_meta)

  unfoldable pub object_of_cluster_stream : Copier (Cell f) (Option ℕ)
  unfolding copy_of_cluster_stream
  object_of_cluster_stream = as_object copy_of_cluster_stream

  -- ClusterStreamList
  unfoldable pub deep_copy_cluster_stream_list : Copier (Cell f) (Items f)
  deep_copy_cluster_stream_list =
      copy_list f copy_list_meta cluster_streams_cell (cluster_streams_of f)
        (deep_copy_cluster_stream f copy_container copy_meta)

  unfoldable pub copy_of_cluster_stream_list : Copier (Cell f) (Option ℕ)
  unfolding deep_copy_cluster_stream_list
  copy_of_cluster_stream_list =
      copy_pointer cluster_stream_list_cell (cluster_stream_list_of f) deep_copy_cluster_stream_list

  unfoldable pub object_of_cluster_stream_list : Copier (Cell f) (Option ℕ)
  unfolding copy_of_cluster_stream_list
  object_of_cluster_stream_list = as_object copy_of_cluster_stream_list

  -- Joiner
  unfoldable pub copy_of_joiner : Copier (Cell f) (Option ℕ)
  copy_of_joiner =
      copy_pointer joiner_cell (joiner_of f) (deep_copy_joiner f copy_container copy_meta)

  unfoldable pub object_of_joiner : Copier (Cell f) (Option ℕ)
  unfolding copy_of_joiner
  object_of_joiner = as_object copy_of_joiner

  -- JoinerList
  unfoldable pub deep_copy_joiner_list : Copier (Cell f) (Items f)
  deep_copy_joiner_list =
      copy_list f copy_list_meta joiners_cell (joiners_of f)
        (deep_copy_joiner f copy_container copy_meta)

  unfoldable pub copy_of_joiner_list : Copier (Cell f) (Option ℕ)
  unfolding deep_copy_joiner_list
  copy_of_joiner_list = copy_pointer joiner_list_cell (joiner_list_of f) deep_copy_joiner_list

  unfoldable pub object_of_joiner_list : Copier (Cell f) (Option ℕ)
  unfolding copy_of_joiner_list
  object_of_joiner_list = as_object copy_of_joiner_list

  -- Processor
  unfoldable pub copy_of_processor : Copier (Cell f) (Option ℕ)
  copy_of_processor =
      copy_pointer processor_cell (processor_of f) (deep_copy_processor f copy_container copy_meta)

  unfoldable pub object_of_processor : Copier (Cell f) (Option ℕ)
  unfolding copy_of_processor
  object_of_processor = as_object copy_of_processor

  -- ProcessorList
  unfoldable pub deep_copy_processor_list : Copier (Cell f) (Items f)
  deep_copy_processor_list =
      copy_list f copy_list_meta processors_cell (processors_of f)
        (deep_copy_processor f copy_container copy_meta)

  unfoldable pub copy_of_processor_list : Copier (Cell f) (Option ℕ)
  unfolding deep_copy_processor_list
  copy_of_processor_list =
      copy_pointer processor_list_cell (processor_list_of f) deep_copy_processor_list

  unfoldable pub object_of_processor_list : Copier (Cell f) (Option ℕ)
  unfolding copy_of_processor_list
  object_of_processor_list = as_object copy_of_processor_list

  -- Stream
  unfoldable pub copy_of_stream : Copier (Cell f) (Option ℕ)
  copy_of_stream =
      copy_pointer stream_cell (stream_of f) (deep_copy_stream f copy_container copy_meta)

  unfoldable pub object_of_stream : Copier (Cell f) (Option ℕ)
  unfolding copy_of_stream
  object_of_stream = as_object copy_of_stream

  -- StreamList
  unfoldable pub deep_copy_stream_list : Copier (Cell f) (Items f)
  deep_copy_stream_list =
      copy_list f copy_list_meta streams_cell (streams_of f)
        (deep_copy_stream f copy_container copy_meta)

  unfoldable pub copy_of_stream_list : Copier (Cell f) (Option ℕ)
  unfolding deep_copy_stream_list
  copy_of_stream_list = copy_pointer stream_list_cell (stream_list_of f) deep_copy_stream_list

  unfoldable pub object_of_stream_list : Copier (Cell f) (Option ℕ)
  unfolding copy_of_stream_list
  object_of_stream_list = as_object copy_of_stream_list

  -- Table
  unfoldable pub copy_of_table : Copier (Cell f) (Option ℕ)
  copy_of_table = copy_pointer table_cell (table_of f) (deep_copy_table f copy_container copy_meta)

  unfoldable pub object_of_table : Copier (Cell f) (Option ℕ)
  unfolding copy_of_table
  object_of_table = as_object copy_of_table

  -- TableList
  unfoldable pub deep_copy_table_list : Copier (Cell f) (Items f)
  deep_copy_table_list =
      copy_list f copy_list_meta tables_cell (tables_of f)
        (deep_copy_table f copy_container copy_meta)

  unfoldable pub copy_of_table_list : Copier (Cell f) (Option ℕ)
  unfolding deep_copy_table_list
  copy_of_table_list = copy_pointer table_list_cell (table_list_of f) deep_copy_table_list

  unfoldable pub object_of_table_list : Copier (Cell f) (Option ℕ)
  unfolding copy_of_table_list
  object_of_table_list = as_object copy_of_table_list
