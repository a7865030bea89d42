-- ===== src/DeepCopy/Objects.antt =====
-- The deep copies of whole objects, and what a later write can change.
use streaming_runtime_go.Prelude.{ℕ, Text, Dict, List, length, Option, ◌≡◌, refl}
use streaming_runtime_go.Api.{ClusterStreamStatus}
use streaming_runtime_go.Memory.{AgreesOn}
use streaming_runtime_go.Memory.Shapes.{
  Shape, Copier, IsCopy, IsDeep, isolated, value_shape, copy_value, copy_value-IsDeep, pair_shape,
  copy_pair, copy_pair-IsDeep,
}
use streaming_runtime_go.Memory.Pointers.{struct_shape, struct-IsDeep}
use streaming_runtime_go.DeepCopy.Structs.{
  ChannelSpecOf, JoinerSpecOf, ProcessorSpecOf, StreamSpecOf, ClusterStreamSpecOf, TableSpec,
  ObjectOf, Setup,
}
use streaming_runtime_go.DeepCopy.Types.{Foreign, Cell}
use streaming_runtime_go.DeepCopy.Methods.{
  deep_copy_channel_spec, deep_copy_joiner_spec, deep_copy_processor_spec, deep_copy_stream_spec,
  deep_copy_cluster_stream_spec, copy_object, deep_copy_channel, deep_copy_cluster_stream,
  deep_copy_joiner, deep_copy_processor, deep_copy_stream, deep_copy_table,
}
use streaming_runtime_go.DeepCopy.Shapes.{
  SetupValue, StreamSpecValue, JoinerSpecValue, channel_spec_shape, joiner_spec_shape,
  processor_spec_shape, stream_spec_shape, cluster_stream_spec_shape,
}
use streaming_runtime_go.DeepCopy.Copies.{
  deep_copy_channel_spec-IsDeep, deep_copy_joiner_spec-IsDeep, deep_copy_processor_spec-IsDeep,
  deep_copy_stream_spec-IsDeep, deep_copy_cluster_stream_spec-IsDeep,
}

-- The DeepCopyInto methods of corev1.Container and metav1.ObjectMeta make deep copies.
pub record IsDocumented (f : Foreign) (copy_container : Copier (Cell f) f.Container)
    (copy_meta : Copier (Cell f) f.Meta) : Type 1 where
  pub ContainerValue : Type 0
  pub MetaValue : Type 0
  pub container_shape : Shape (Cell f) f.Container ContainerValue
  pub meta_shape : Shape (Cell f) f.Meta MetaValue
  pub container_deep : IsDeep container_shape copy_container
  pub meta_deep : IsDeep meta_shape copy_meta

module _ (f : Foreign) (copy_container : Copier (Cell f) f.Container)
    (copy_meta : Copier (Cell f) f.Meta) (doc : IsDocumented f copy_container copy_meta) where
  abbrev pub object_of_refs :
      {S T SV : Type 0} → ObjectOf f.Meta S T → doc.MetaValue × SV → ObjectOf doc.MetaValue SV T
  object_of_refs obj v = record {
    type_meta = obj.type_meta;
    meta = v.0;
    spec = v.1;
    status = obj.status;
  }

  abbrev pub object_shape :
      {S SV : Type 0} (T : Type 0)
      → Shape (Cell f) S SV
      → Shape (Cell f) (ObjectOf f.Meta S T) (ObjectOf doc.MetaValue SV T)
  object_shape T s =
      struct_shape (pair_shape doc.meta_shape s) (λ obj. (obj.meta, obj.spec)) object_of_refs

  copy_object-IsDeep :
      {S SV : Type 0} (T : Type 0) (s : Shape (Cell f) S SV) (copy_spec : Copier (Cell f) S)
      → IsDeep s copy_spec
      → IsDeep (object_shape T s) (copy_object f copy_meta copy_spec)
  copy_object-IsDeep T s copy_spec deep =
      struct-IsDeep (pair_shape doc.meta_shape s) (λ obj. (obj.meta, obj.spec)) object_of_refs
        (copy_pair copy_meta copy_spec) (λ obj p. record obj { meta = p.0; spec = p.1 })
        (λ obj p. refl) (λ obj p v. refl)
        (copy_pair-IsDeep doc.meta_shape s copy_meta copy_spec doc.meta_deep deep)

  abbrev pub channel_shape :
      Shape (Cell f) (ObjectOf f.Meta (ChannelSpecOf Setup (Option ℕ)) (Unit {0})) (
        ObjectOf doc.MetaValue
          (ChannelSpecOf (SetupValue f) (Option doc.ContainerValue))
          (Unit {0}))
  channel_shape = object_shape (Unit {0}) (channel_spec_shape f doc.container_shape)

  pub deep_copy_channel-IsDeep : IsDeep channel_shape (deep_copy_channel f copy_container copy_meta)
  unfolding deep_copy_channel
  deep_copy_channel-IsDeep =
      copy_object-IsDeep (Unit {0}) (channel_spec_shape f doc.container_shape)
        (deep_copy_channel_spec f copy_container)
        (deep_copy_channel_spec-IsDeep f doc.container_shape copy_container doc.container_deep)

  abbrev pub joiner_shape :
      Shape
        (Cell f)
        (ObjectOf f.Meta (JoinerSpecOf (Option ℕ) (Option ℕ)) (Unit {0}))
        (ObjectOf doc.MetaValue (JoinerSpecValue f doc.container_shape) (Unit {0}))
  joiner_shape = object_shape (Unit {0}) (joiner_spec_shape f doc.container_shape)

  pub deep_copy_joiner-IsDeep : IsDeep joiner_shape (deep_copy_joiner f copy_container copy_meta)
  unfolding deep_copy_joiner
  deep_copy_joiner-IsDeep =
      copy_object-IsDeep (Unit {0}) (joiner_spec_shape f doc.container_shape)
        (deep_copy_joiner_spec f copy_container)
        (deep_copy_joiner_spec-IsDeep f doc.container_shape copy_container doc.container_deep)

  abbrev pub processor_shape :
      Shape
        (Cell f)
        (ObjectOf f.Meta (ProcessorSpecOf f.Container) (Unit {0}))
        (ObjectOf doc.MetaValue (ProcessorSpecOf doc.ContainerValue) (Unit {0}))
  processor_shape = object_shape (Unit {0}) (processor_spec_shape f doc.container_shape)

  pub deep_copy_processor-IsDeep :
      IsDeep processor_shape (deep_copy_processor f copy_container copy_meta)
  unfolding deep_copy_processor
  deep_copy_processor-IsDeep =
      copy_object-IsDeep (Unit {0}) (processor_spec_shape f doc.container_shape)
        (deep_copy_processor_spec f copy_container)
        (deep_copy_processor_spec-IsDeep f doc.container_shape copy_container doc.container_deep)

  abbrev pub stream_shape :
      Shape
        (Cell f)
        (ObjectOf f.Meta (StreamSpecOf (Option ℕ) (Option ℕ)) (Unit {0}))
        (ObjectOf doc.MetaValue (StreamSpecValue f) (Unit {0}))
  stream_shape = object_shape (Unit {0}) (stream_spec_shape f)

  pub deep_copy_stream-IsDeep : IsDeep stream_shape (deep_copy_stream f copy_container copy_meta)
  unfolding deep_copy_stream
  deep_copy_stream-IsDeep =
      copy_object-IsDeep (Unit {0}) (stream_spec_shape f) (deep_copy_stream_spec f)
        (deep_copy_stream_spec-IsDeep f)

  abbrev pub cluster_stream_shape :
      Shape
        (Cell f)
        (ObjectOf f.Meta (ClusterStreamSpecOf (Option ℕ)) ClusterStreamStatus)
        (ObjectOf doc.MetaValue (ClusterStreamSpecOf (Option (Dict Text))) ClusterStreamStatus)
  cluster_stream_shape = object_shape ClusterStreamStatus (cluster_stream_spec_shape f)

  pub deep_copy_cluster_stream-IsDeep :
      IsDeep cluster_stream_shape (deep_copy_cluster_stream f copy_container copy_meta)
  unfolding deep_copy_cluster_stream
  deep_copy_cluster_stream-IsDeep =
      copy_object-IsDeep ClusterStreamStatus (cluster_stream_spec_shape f)
        (deep_copy_cluster_stream_spec f) (deep_copy_cluster_stream_spec-IsDeep f)

  abbrev pub table_shape :
      Shape
        (Cell f)
        (ObjectOf f.Meta (TableSpec) (Unit {0}))
        (ObjectOf doc.MetaValue (TableSpec) (Unit {0}))
  table_shape = object_shape (Unit {0}) (value_shape TableSpec)

  pub deep_copy_table-IsDeep : IsDeep table_shape (deep_copy_table f copy_container copy_meta)
  unfolding deep_copy_table
  deep_copy_table-IsDeep =
      copy_object-IsDeep (Unit {0}) (value_shape TableSpec) copy_value copy_value-IsDeep

  -- A deep copy of a joiner is the same value and reaches new cells alone: what is then written into
  -- old cells leaves the copy as it is, and what is written into new cells leaves the original as it
  -- is; if every address of the original leads to a cell of its type and DeepCopyInto of containers
  -- and of metadata makes deep copies.
  pub deep_copy_joiner_lem :
      (h old new : List (Cell f))
      (joiner : ObjectOf f.Meta (JoinerSpecOf (Option ℕ) (Option ℕ)) (Unit {0}))
      → joiner_shape.within 0 (length h) h joiner
      → AgreesOn
          (length h)
          (length (deep_copy_joiner f copy_container copy_meta joiner h).1)
          (deep_copy_joiner f copy_container copy_meta joiner h).1
          old
      → AgreesOn 0 (length h) h new
      → IsCopy joiner_shape h joiner
          (deep_copy_joiner f copy_container copy_meta joiner h).1
          (deep_copy_joiner f copy_container copy_meta joiner h).0
        × (joiner_shape.view old (deep_copy_joiner f copy_container copy_meta joiner h).0
            ≡ joiner_shape.view h joiner)
        × (joiner_shape.view new joiner ≡ joiner_shape.view h joiner)
  deep_copy_joiner_lem h old new joiner w e e' =
      isolated joiner_shape (deep_copy_joiner f copy_container copy_meta) h old new joiner
        deep_copy_joiner-IsDeep w e e'
