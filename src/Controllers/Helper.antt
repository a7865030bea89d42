-- ===== src/Controllers/Helper.antt =====
-- controllers/helper.go.
use streaming_runtime_go.Prelude.{
  Text, text_eq, index_byte, List, [], ◌∷◌, ◌++◌, none, some, Dict, if◌then◌else◌, is_empty,
}

-- getMetadataStringValues; the map is given as the list of its entries in the order of the `range`
unfoldable pub get_metadata_string_values : Text → Dict Text → List Text
get_metadata_string_values key_name [] = []
get_metadata_string_values key_name ((key, value) ∷ properties) =
    let rest = get_metadata_string_values key_name properties in
    if text_eq key key_name then value ∷ rest else rest

-- validateTarget; `none` is the index -1
unfoldable pub validate_target : Text → Text
validate_target target =
    if is_empty target
    then target
    else elim (index_byte target b'/') [ none ↦ target ++ b'/' ∷ target | some i ↦ target ]
