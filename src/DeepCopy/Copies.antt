-- ===== src/DeepCopy/Copies.antt =====
-- The deep copies share nothing with their originals.
use streaming_runtime_go.Prelude.{Text, List, Dict, refl}
use streaming_runtime_go.Api.{OutputTarget}
use streaming_runtime_go.Memory.Shapes.{
  Shape, Copier, IsDeep, value_shape, copy_value, copy_value-IsDeep, pair_shape, copy_pair,
  copy_pair-IsDeep,
}
use streaming_runtime_go.Memory.Pointers.{copy_pointer, copy_pointer-IsDeep, struct-IsDeep}
use streaming_runtime_go.DeepCopy.Types.{
  Foreign, Cell, texts_cell, targets_cell, map_cell, setup_cell, container_cell, texts_of,
  targets_of, map_of, setup_of, container_of,
}
use streaming_runtime_go.DeepCopy.Methods.{
  copy_texts, copy_targets, copy_map, deep_copy_setup, deep_copy_stream_spec,
  deep_copy_cluster_stream_spec, copy_container_pointer, deep_copy_channel_spec,
  deep_copy_joiner_spec, deep_copy_processor_spec,
}
use streaming_runtime_go.DeepCopy.Shapes.{
  texts_shape, targets_shape, map_shape, setup_of_refs, setup_shape, stream_spec_of_refs,
  stream_spec_shape, cluster_stream_spec_of_refs, cluster_stream_spec_shape,
  container_pointer_shape, channel_spec_of_refs, channel_spec_shape, setup_pointer_shape,
  joiner_spec_of_refs, joiner_spec_shape, processor_spec_of_refs, processor_spec_shape,
}

module _ (f : Foreign) where
  copy_texts-IsDeep : IsDeep (texts_shape f) (copy_texts f)
  copy_texts-IsDeep =
      copy_pointer-IsDeep texts_cell (texts_of f) (value_shape (List Text)) (λ l. refl) copy_value
        copy_value-IsDeep

  copy_targets-IsDeep : IsDeep (targets_shape f) (copy_targets f)
  copy_targets-IsDeep =
      copy_pointer-IsDeep targets_cell (targets_of f) (value_shape (List OutputTarget)) (λ l. refl)
        copy_value copy_value-IsDeep

  copy_map-IsDeep : IsDeep (map_shape f) (copy_map f)
  copy_map-IsDeep =
      copy_pointer-IsDeep map_cell (map_of f) (value_shape (Dict Text)) (λ m. refl) copy_value
        copy_value-IsDeep

  pub deep_copy_setup-IsDeep : IsDeep (setup_shape f) (deep_copy_setup f)
  unfolding deep_copy_setup
  deep_copy_setup-IsDeep =
      struct-IsDeep (pair_shape (texts_shape f) (targets_shape f))
        (λ setup. (setup.sources, setup.to)) (setup_of_refs f)
        (copy_pair (copy_texts f) (copy_targets f))
        (λ setup p. record setup { sources = p.0; to = p.1 }) (λ setup p. refl) (λ setup p v. refl)
        (copy_pair-IsDeep (texts_shape f) (targets_shape f) (copy_texts f) (copy_targets f)
          copy_texts-IsDeep copy_targets-IsDeep)

  pub deep_copy_stream_spec-IsDeep : IsDeep (stream_spec_shape f) (deep_copy_stream_spec f)
  unfolding deep_copy_stream_spec
  deep_copy_stream_spec-IsDeep =
      struct-IsDeep (pair_shape (texts_shape f) (map_shape f))
        (λ spec. (spec.recipients, spec.properties)) (stream_spec_of_refs f)
        (copy_pair (copy_texts f) (copy_map f))
        (λ spec p. record spec { recipients = p.0; properties = p.1 }) (λ spec p. refl)
        (λ spec p v. refl)
        (copy_pair-IsDeep (texts_shape f) (map_shape f) (copy_texts f) (copy_map f)
          copy_texts-IsDeep copy_map-IsDeep)

  pub deep_copy_cluster_stream_spec-IsDeep :
      IsDeep (cluster_stream_spec_shape f) (deep_copy_cluster_stream_spec f)
  unfolding deep_copy_cluster_stream_spec
  deep_copy_cluster_stream_spec-IsDeep =
      struct-IsDeep (map_shape f) (λ spec. spec.properties) (cluster_stream_spec_of_refs f)
        (copy_map f) (λ spec p. record spec { properties = p }) (λ spec p. refl) (λ spec p v. refl)
        copy_map-IsDeep

  module _ {KV : Type 0} (container_shape : Shape (Cell f) f.Container KV)
      (copy_container : Copier (Cell f) f.Container)
      (container_deep : IsDeep container_shape copy_container) where
    copy_container_pointer-IsDeep :
        IsDeep (container_pointer_shape f container_shape) (copy_container_pointer f copy_container)
    copy_container_pointer-IsDeep =
        copy_pointer-IsDeep container_cell (container_of f) container_shape (λ c. refl)
          copy_container container_deep

    pub deep_copy_channel_spec-IsDeep :
        IsDeep (channel_spec_shape f container_shape) (deep_copy_channel_spec f copy_container)
    unfolding deep_copy_channel_spec
    deep_copy_channel_spec-IsDeep =
        struct-IsDeep (pair_shape (setup_shape f) (container_pointer_shape f container_shape))
          (λ spec. (spec.stream, spec.container)) (channel_spec_of_refs f container_shape)
          (copy_pair (deep_copy_setup f) (copy_container_pointer f copy_container))
          (λ spec p. record spec { stream = p.0; container = p.1 }) (λ spec p. refl)
          (λ spec p v. refl)
          (copy_pair-IsDeep (setup_shape f) (container_pointer_shape f container_shape)
            (deep_copy_setup f) (copy_container_pointer f copy_container) deep_copy_setup-IsDeep
            copy_container_pointer-IsDeep)

    pub deep_copy_joiner_spec-IsDeep :
        IsDeep (joiner_spec_shape f container_shape) (deep_copy_joiner_spec f copy_container)
    unfolding deep_copy_joiner_spec
    deep_copy_joiner_spec-IsDeep =
        struct-IsDeep
          (pair_shape (setup_pointer_shape f container_shape)
            (container_pointer_shape f container_shape))
          (λ spec. (spec.stream, spec.container)) (joiner_spec_of_refs f container_shape)
          (copy_pair (copy_pointer setup_cell (setup_of f) (deep_copy_setup f))
            (copy_container_pointer f copy_container))
          (λ spec p. record spec { stream = p.0; container = p.1 }) (λ spec p. refl)
          (λ spec p v. refl)
          (copy_pair-IsDeep (setup_pointer_shape f container_shape)
            (container_pointer_shape f container_shape)
            (copy_pointer setup_cell (setup_of f) (deep_copy_setup f))
            (copy_container_pointer f copy_container)
            (copy_pointer-IsDeep setup_cell (setup_of f) (setup_shape f) (λ s. refl)
              (deep_copy_setup f) deep_copy_setup-IsDeep)
            copy_container_pointer-IsDeep)

    pub deep_copy_processor_spec-IsDeep :
        IsDeep (processor_spec_shape f container_shape) (deep_copy_processor_spec f copy_container)
    unfolding deep_copy_processor_spec
    deep_copy_processor_spec-IsDeep =
        struct-IsDeep container_shape (λ spec. spec.container)
          (processor_spec_of_refs f container_shape) copy_container
          (λ spec p. record spec { container = p }) (λ spec p. refl) (λ spec p v. refl)
          container_deep
