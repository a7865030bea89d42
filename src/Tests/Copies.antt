-- ===== src/Tests/Copies.antt =====
-- A joiner and a stream in a small memory, their copies, and a write into each.
use streaming_runtime_go.Prelude.{
  ℕ, zero, suc, Text, codes, Dict, List, [], ◌∷◌, ◌++◌, Option, none, some, pos, ◌≤◌, ◌≡◌, refl,
  arith,
}
use streaming_runtime_go.Api.{OutputTarget}
use streaming_runtime_go.Memory.{AgreesOn, append-AgreesOn}
use streaming_runtime_go.Memory.Shapes.{IsCopy, value_shape, copy_value, copy_value-IsDeep}
use streaming_runtime_go.DeepCopy.Structs.{ListOf, Setup, JoinerSpecOf, ObjectOf}
use streaming_runtime_go.DeepCopy.Types.{
  Items, Stream, streams_cell, stream_list_cell, Foreign, Cell, texts_cell, targets_cell, map_cell,
  setup_cell,
}
use streaming_runtime_go.DeepCopy.Methods.{
  deep_copy_setup, deep_copy_joiner_spec, deep_copy_stream_spec, deep_copy_joiner, deep_copy_stream,
}
use streaming_runtime_go.DeepCopy.Shapes.{StreamSpecValue}
use streaming_runtime_go.DeepCopy.Lists.{
  deep_copy_stream_list, copy_of_stream_list, object_of_stream_list,
}
use streaming_runtime_go.DeepCopy.ListCopies.{stream_list_shape, object_of_stream_list_lem}
use streaming_runtime_go.DeepCopy.Objects.{IsDocumented, joiner_shape, deep_copy_joiner_lem}

-- Containers and metadata that are values.
abbrev plain : Foreign
plain = record { Container = Text; Meta = Text; ListMeta = Text; Inner = Unit }

abbrev plain-IsDocumented : IsDocumented plain copy_value copy_value
plain-IsDocumented = record {
  ContainerValue = Text;
  MetaValue = Text;
  container_shape = value_shape Text;
  meta_shape = value_shape Text;
  container_deep = copy_value-IsDeep;
  meta_deep = copy_value-IsDeep;
}

abbrev sources : List Text
sources = codes "orders" ∷ codes "users" ∷ []

abbrev targets : List OutputTarget
targets = record { stream = codes "kafka/joined"; component = [] } ∷ []

abbrev setup_at : ℕ → ℕ → Setup
setup_at a b = record { sources = some a; to = some b; select = []; condition = [] }

abbrev memory : List (Cell plain)
memory = texts_cell sources ∷ targets_cell targets ∷ setup_cell (setup_at 0 1) ∷ []

abbrev joiner_at : ℕ → ObjectOf Text (JoinerSpecOf (Option ℕ) (Option ℕ)) (Unit {0})
joiner_at r = record {
  type_meta = record { kind = codes "Joiner"; api_version = codes "v1alpha1" };
  meta = codes "joiner";
  spec = record {
    service_port = pos 8080;
    window = codes "10s";
    stream = some r;
    container = none;
  };
  status = tt;
}

-- The cells after the first one, once the copy is made.
abbrev later_cells : List (Cell plain)
later_cells =
    targets_cell targets
    ∷ setup_cell (setup_at 0 1)
    ∷ texts_cell sources
    ∷ targets_cell targets
    ∷ setup_cell (setup_at 3 4)
    ∷ []

-- A write into the first cell.
abbrev overwritten : List (Cell plain)
overwritten = texts_cell [] ∷ later_cells

first_cell :
    (lo hi : ℕ) (c d : Cell plain) (h : List (Cell plain)) → 1 ≤ lo → AgreesOn lo hi (c ∷ h) (d ∷ h)
first_cell lo hi c d h b zero p q = absurd (omega (arith, b, p))
first_cell lo hi c d h b (suc r) p q = refl

deep_copy_joiner_lem_example :
    IsCopy
      (joiner_shape plain copy_value copy_value plain-IsDocumented)
      memory
      (joiner_at 2)
      (memory ++ texts_cell sources ∷ targets_cell targets ∷ setup_cell (setup_at 3 4) ∷ [])
      (joiner_at 5)
    × ((joiner_shape plain copy_value copy_value plain-IsDocumented).view overwritten (joiner_at 5)
        ≡ (joiner_shape plain copy_value copy_value plain-IsDocumented).view memory (joiner_at 2))
    × ((joiner_shape plain copy_value copy_value plain-IsDocumented).view
          (memory ++ texts_cell [] ∷ [])
          (joiner_at 2)
        ≡ (joiner_shape plain copy_value copy_value plain-IsDocumented).view memory (joiner_at 2))
unfolding deep_copy_joiner deep_copy_joiner_spec deep_copy_setup
deep_copy_joiner_lem_example =
    deep_copy_joiner_lem plain copy_value copy_value plain-IsDocumented memory overwritten
      (memory ++ texts_cell [] ∷ []) (joiner_at 2)
      (
        tt,
        (
          (
            omega arith,
            omega arith,
            (
              setup_at 0 1,
              refl,
              (
                (omega arith, omega arith, (sources, refl, tt)),
                (omega arith, omega arith, (targets, refl, tt)),
              ),
            ),
          ),
          tt,
        ),
      )
      (first_cell 3 6 (texts_cell sources) (texts_cell []) later_cells (omega arith))
      (append-AgreesOn 0 memory (texts_cell [] ∷ []))

abbrev stream_at : ℕ → ℕ → Stream plain
stream_at a b = record {
  type_meta = record { kind = codes "Stream"; api_version = codes "v1alpha1" };
  meta = codes "orders";
  spec = record {
    cluster_stream = codes "kafka";
    topic = codes "orders";
    recipients = some a;
    route = [];
    properties = some b;
  };
  status = tt;
}

abbrev properties : Dict Text
properties = (codes "a", codes "b") ∷ []

abbrev list_at : ℕ → Items plain
list_at r = record {
  type_meta = record { kind = codes "StreamList"; api_version = codes "v1alpha1" };
  meta = codes "1";
  items = some r;
}

abbrev stream_memory : List (Cell plain)
stream_memory =
    texts_cell sources
    ∷ map_cell properties
    ∷ streams_cell (stream_at 0 1 ∷ [])
    ∷ stream_list_cell (list_at 2)
    ∷ []

abbrev later_stream_cells : List (Cell plain)
later_stream_cells =
    map_cell properties
    ∷ streams_cell (stream_at 0 1 ∷ [])
    ∷ stream_list_cell (list_at 2)
    ∷ texts_cell sources
    ∷ map_cell properties
    ∷ streams_cell (stream_at 4 5 ∷ [])
    ∷ stream_list_cell (list_at 6)
    ∷ []

abbrev seen_list :
    List (Cell plain)
    → Option ℕ
    → Option (ListOf Text (Option (List (ObjectOf Text (StreamSpecValue plain) (Unit {0})))))
seen_list =
    (stream_list_shape plain copy_value copy_value copy_value plain-IsDocumented (value_shape Text)
      copy_value-IsDeep).view

object_of_stream_list_lem_example :
    IsCopy
      (stream_list_shape plain copy_value copy_value copy_value plain-IsDocumented
        (value_shape Text)
        copy_value-IsDeep)
      stream_memory
      (some 3)
      (texts_cell sources ∷ later_stream_cells)
      (some 7)
    × (seen_list (texts_cell [] ∷ later_stream_cells) (some 7) ≡ seen_list stream_memory (some 3))
    × (seen_list (stream_memory ++ texts_cell [] ∷ []) (some 3) ≡ seen_list stream_memory (some 3))
unfolding object_of_stream_list copy_of_stream_list deep_copy_stream_list deep_copy_stream
    deep_copy_stream_spec
object_of_stream_list_lem_example =
    object_of_stream_list_lem plain copy_value copy_value copy_value plain-IsDocumented
      (value_shape Text) copy_value-IsDeep stream_memory (texts_cell [] ∷ later_stream_cells)
      (stream_memory ++ texts_cell [] ∷ []) (some 3)
      (
        omega arith,
        omega arith,
        (
          list_at 2,
          refl,
          (
            tt,
            (
              omega arith,
              omega arith,
              (
                stream_at 0 1 ∷ [],
                refl,
                (
                  (
                    tt,
                    (
                      (omega arith, omega arith, (sources, refl, tt)),
                      (omega arith, omega arith, (properties, refl, tt)),
                    ),
                  ),
                  tt,
                ),
              ),
            ),
          ),
        ),
      )
      (first_cell 4 8 (texts_cell sources) (texts_cell []) later_stream_cells (omega arith))
      (append-AgreesOn 0 stream_memory (texts_cell [] ∷ []))
