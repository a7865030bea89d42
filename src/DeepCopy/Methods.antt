-- ===== src/DeepCopy/Methods.antt =====
-- The DeepCopyInto methods of the specifications and of the objects.
use streaming_runtime_go.Prelude.{ℕ, Option}
use streaming_runtime_go.Memory.Shapes.{Copier, copy_value}
use streaming_runtime_go.Memory.Pointers.{copy_pointer}
use streaming_runtime_go.DeepCopy.Structs.{
  ChannelSpecOf, ClusterStreamSpecOf, JoinerSpecOf, ObjectOf, ProcessorSpecOf, Setup, StreamSpecOf,
}
use streaming_runtime_go.DeepCopy.Types.{
  Cell, Channel, ClusterStream, Foreign, Joiner, Processor, Stream, Table, container_cell,
  container_of, map_cell, map_of, setup_cell, setup_of, targets_cell, targets_of, texts_cell,
  texts_of,
}

module _ (f : Foreign) where
  -- `make([]string, len(*in))` and `copy`
  abbrev pub copy_texts : Copier (Cell f) (Option ℕ)
  copy_texts = copy_pointer texts_cell (texts_of f) copy_value

  abbrev pub copy_targets : Copier (Cell f) (Option ℕ)
  copy_targets = copy_pointer targets_cell (targets_of f) copy_value

  -- `make(map[string]string, len(*in))` and the loop over the entries
  abbrev pub copy_map : Copier (Cell f) (Option ℕ)
  copy_map = copy_pointer map_cell (map_of f) copy_value

  -- StreamSetup
  unfoldable pub deep_copy_setup : Copier (Cell f) Setup
  deep_copy_setup setup h =
      let (sources, h1) = copy_texts setup.sources h in
      let (to, h2) = copy_targets setup.to h1 in (record setup { sources = sources; to = to }, h2)

  -- StreamSpec
  unfoldable pub deep_copy_stream_spec : Copier (Cell f) (StreamSpecOf (Option ℕ) (Option ℕ))
  deep_copy_stream_spec spec h =
      let (recipients, h1) = copy_texts spec.recipients h in
      let (properties, h2) = copy_map spec.properties h1 in
      (record spec { recipients = recipients; properties = properties }, h2)

  -- ClusterStreamSpec
  unfoldable pub deep_copy_cluster_stream_spec : Copier (Cell f) (ClusterStreamSpecOf (Option ℕ))
  deep_copy_cluster_stream_spec spec h =
      let (properties, h1) = copy_map spec.properties h in
      (record spec { properties = properties }, h1)

  module _ (copy_container : Copier (Cell f) f.Container) where
    -- `*out = new(v1.Container)` and its DeepCopyInto
    abbrev pub copy_container_pointer : Copier (Cell f) (Option ℕ)
    copy_container_pointer = copy_pointer container_cell (container_of f) copy_container

    -- ChannelSpec
    unfoldable pub deep_copy_channel_spec : Copier (Cell f) (ChannelSpecOf Setup (Option ℕ))
    deep_copy_channel_spec spec h =
        let (stream, h1) = deep_copy_setup spec.stream h in
        let (container, h2) = copy_container_pointer spec.container h1 in
        (record spec { stream = stream; container = container }, h2)

    -- JoinerSpec
    unfoldable pub deep_copy_joiner_spec : Copier (Cell f) (JoinerSpecOf (Option ℕ) (Option ℕ))
    deep_copy_joiner_spec spec h =
        let (stream, h1) = copy_pointer setup_cell (setup_of f) deep_copy_setup spec.stream h in
        let (container, h2) = copy_container_pointer spec.container h1 in
        (record spec { stream = stream; container = container }, h2)

    -- ProcessorSpec
    unfoldable pub deep_copy_processor_spec : Copier (Cell f) (ProcessorSpecOf f.Container)
    deep_copy_processor_spec spec h =
        let (container, h1) = copy_container spec.container h in
        (record spec { container = container }, h1)

  module _ (copy_meta : Copier (Cell f) f.Meta) where
    -- the DeepCopyInto method of an object, from that of its specification
    abbrev pub copy_object :
        {S T : Type 0} → Copier (Cell f) S → Copier (Cell f) (ObjectOf f.Meta S T)
    copy_object copy_spec obj h =
        let (meta, h1) = copy_meta obj.meta h in
        let (spec, h2) = copy_spec obj.spec h1 in (record obj { meta = meta; spec = spec }, h2)

module _ (f : Foreign) (copy_container : Copier (Cell f) f.Container)
    (copy_meta : Copier (Cell f) f.Meta) where
  -- Channel, ClusterStream, Joiner, Processor, Stream and Table
  unfoldable pub deep_copy_channel : Copier (Cell f) (Channel f)
  deep_copy_channel = copy_object f copy_meta (deep_copy_channel_spec f copy_container)

  unfoldable pub deep_copy_cluster_stream : Copier (Cell f) (ClusterStream f)
  deep_copy_cluster_stream = copy_object f copy_meta (deep_copy_cluster_stream_spec f)

  unfoldable pub deep_copy_joiner : Copier (Cell f) (Joiner f)
  deep_copy_joiner = copy_object f copy_meta (deep_copy_joiner_spec f copy_container)

  unfoldable pub deep_copy_processor : Copier (Cell f) (Processor f)
  deep_copy_processor = copy_object f copy_meta (deep_copy_processor_spec f copy_container)

  unfoldable pub deep_copy_stream : Copier (Cell f) (Stream f)
  deep_copy_stream = copy_object f copy_meta (deep_copy_stream_spec f)

  unfoldable pub deep_copy_table : Copier (Cell f) (Table f)
  deep_copy_table = copy_object f copy_meta copy_value
