-- ===== src/DeepCopy/Shapes.antt =====
-- What the structs of api/v1alpha1 reach in memory, and what they are as values.
use streaming_runtime_go.Prelude.{ℕ, Text, List, Dict, Option}
use streaming_runtime_go.Api.{OutputTarget}
use streaming_runtime_go.Memory.Shapes.{Shape, value_shape, pair_shape}
use streaming_runtime_go.Memory.Pointers.{pointer_shape, struct_shape}
use streaming_runtime_go.DeepCopy.Structs.{
  SetupOf, ChannelSpecOf, JoinerSpecOf, ProcessorSpecOf, StreamSpecOf, ClusterStreamSpecOf, Setup,
}
use streaming_runtime_go.DeepCopy.Types.{
  Foreign, Cell, texts_cell, targets_cell, map_cell, setup_cell, container_cell, texts_of,
  targets_of, map_of, setup_of, container_of,
}

module _ (f : Foreign) where
  abbrev pub texts_shape : Shape (Cell f) (Option ℕ) (Option (List Text))
  texts_shape = pointer_shape texts_cell (texts_of f) (value_shape (List Text))

  abbrev pub targets_shape : Shape (Cell f) (Option ℕ) (Option (List OutputTarget))
  targets_shape = pointer_shape targets_cell (targets_of f) (value_shape (List OutputTarget))

  abbrev pub map_shape : Shape (Cell f) (Option ℕ) (Option (Dict Text))
  map_shape = pointer_shape map_cell (map_of f) (value_shape (Dict Text))

  -- StreamSetup without addresses
  abbrev pub SetupValue : Type 0
  SetupValue = SetupOf (Option (List Text)) (Option (List OutputTarget))

  abbrev pub setup_of_refs : Setup → Option (List Text) × Option (List OutputTarget) → SetupValue
  setup_of_refs setup v = record {
    sources = v.0;
    to = v.1;
    select = setup.select;
    condition = setup.condition;
  }

  abbrev pub setup_shape : Shape (Cell f) Setup SetupValue
  setup_shape =
      struct_shape (pair_shape texts_shape targets_shape) (λ setup. (setup.sources, setup.to))
        setup_of_refs

  -- StreamSpec
  abbrev pub StreamSpecValue : Type 0
  StreamSpecValue = StreamSpecOf (Option (List Text)) (Option (Dict Text))

  abbrev pub stream_spec_of_refs :
      StreamSpecOf (Option ℕ) (Option ℕ) → Option (List Text) × Option (Dict Text) → StreamSpecValue
  stream_spec_of_refs spec v = record {
    cluster_stream = spec.cluster_stream;
    topic = spec.topic;
    recipients = v.0;
    route = spec.route;
    properties = v.1;
  }

  abbrev pub stream_spec_shape : Shape (Cell f) (StreamSpecOf (Option ℕ) (Option ℕ)) StreamSpecValue
  stream_spec_shape =
      struct_shape (pair_shape texts_shape map_shape) (λ spec. (spec.recipients, spec.properties))
        stream_spec_of_refs

  -- ClusterStreamSpec
  abbrev pub cluster_stream_spec_of_refs :
      ClusterStreamSpecOf (Option ℕ) → Option (Dict Text) → ClusterStreamSpecOf (Option (Dict Text))
  cluster_stream_spec_of_refs spec v = record {
    protocol = spec.protocol;
    properties = v;
    auth_type = spec.auth_type;
  }

  abbrev pub cluster_stream_spec_shape :
      Shape (Cell f) (ClusterStreamSpecOf (Option ℕ)) (ClusterStreamSpecOf (Option (Dict Text)))
  cluster_stream_spec_shape =
      struct_shape map_shape (λ spec. spec.properties) cluster_stream_spec_of_refs

  module _ {KV : Type 0} (container_shape : Shape (Cell f) f.Container KV) where
    abbrev pub container_pointer_shape : Shape (Cell f) (Option ℕ) (Option KV)
    container_pointer_shape = pointer_shape container_cell (container_of f) container_shape

    -- ChannelSpec
    abbrev pub channel_spec_of_refs :
        ChannelSpecOf Setup (Option ℕ)
        → SetupValue × Option KV
        → ChannelSpecOf SetupValue (Option KV)
    channel_spec_of_refs spec v = record {
      service_port = spec.service_port;
      stream = v.0;
      mode = spec.mode;
      trigger = spec.trigger;
      container = v.1;
    }

    abbrev pub channel_spec_shape :
        Shape (Cell f) (ChannelSpecOf Setup (Option ℕ)) (ChannelSpecOf SetupValue (Option KV))
    channel_spec_shape =
        struct_shape (pair_shape setup_shape container_pointer_shape)
          (λ spec. (spec.stream, spec.container)) channel_spec_of_refs

    -- JoinerSpec
    abbrev pub JoinerSpecValue : Type 0
    JoinerSpecValue = JoinerSpecOf (Option SetupValue) (Option KV)

    abbrev pub setup_pointer_shape : Shape (Cell f) (Option ℕ) (Option SetupValue)
    setup_pointer_shape = pointer_shape setup_cell (setup_of f) setup_shape

    abbrev pub joiner_spec_of_refs :
        JoinerSpecOf (Option ℕ) (Option ℕ) → Option SetupValue × Option KV → JoinerSpecValue
    joiner_spec_of_refs spec v = record {
      service_port = spec.service_port;
      window = spec.window;
      stream = v.0;
      container = v.1;
    }

    abbrev pub joiner_spec_shape :
        Shape (Cell f) (JoinerSpecOf (Option ℕ) (Option ℕ)) JoinerSpecValue
    joiner_spec_shape =
        struct_shape (pair_shape setup_pointer_shape container_pointer_shape)
          (λ spec. (spec.stream, spec.container)) joiner_spec_of_refs

    -- ProcessorSpec
    abbrev pub processor_spec_of_refs : ProcessorSpecOf f.Container → KV → ProcessorSpecOf KV
    processor_spec_of_refs spec v = record {
      replicas = spec.replicas;
      service_port = spec.service_port;
      container = v;
      service_route = spec.service_route;
      target = spec.target;
    }

    abbrev pub processor_spec_shape :
        Shape (Cell f) (ProcessorSpecOf f.Container) (ProcessorSpecOf KV)
    processor_spec_shape =
        struct_shape container_shape (λ spec. spec.container) processor_spec_of_refs
