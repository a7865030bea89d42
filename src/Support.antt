-- ===== src/Support.antt =====
-- components/support/support.go: targets, identifiers, JSON payloads and CEL programs.
pub mod Targets
pub mod Identifiers
pub mod Payloads
use streaming_runtime_go.Prelude.{
  ℕ, suc, Text, codes, text_eq, split, replace_all, List, [], ◌∷◌, ◌++◌, Option, none, some, Dict,
  lookup, Outcome, ok, fail, errorf, index, ◌>>=◌, length, ltb, ◌==◌, if◌then◌else◌, is_empty,
}
use streaming_runtime_go.Extern.{Extern}

-- GetTargetParts. The `switch` has three cases; the last one is its `default`.
unfoldable pub get_target_parts : Text → Outcome (List Text)
get_target_parts target =
    let parts = split target b'/' in
    if is_empty target
    then ok []
    else if ltb 1 (length parts)
    then ok parts
    else if length parts == 1
    then (do p ← index parts 0; ok (parts ++ p ∷ []))
    else fail (errorf (codes "target malformed") [])

-- SanitizeIdentifier
unfoldable pub sanitize_identifier : Text → Text
sanitize_identifier id =
    if is_empty id then id else replace_all (replace_all id b'-' b'_') b'.' b'_'

-- common.InvocationEvent, with the fields that the components read
pub record InvocationEvent : Type 0 where
  pub content : Text
  pub content_type : Text
  pub data_type_url : Text
  pub query_string : Text

abbrev pub json_type : Text
json_type = codes "application/json"

abbrev pub cloudevent_type : Text
cloudevent_type = codes "application/cloudevents+json"

module _ (x : Extern) where
  open x use {
    Value, unmarshal, as_map, value_type_name, Decl, Program, new_env, compile, new_program,
  }

  -- UnmarshalJSON
  unfoldable pub unmarshal_json : Text → Outcome (Dict Value)
  unmarshal_json content = unmarshal content

  -- `jsonData, ok := data.(map[string]interface{})`
  unfoldable pub payload_map : Value → Outcome (Dict Value)
  payload_map v = elim (as_map v) [
    | some m ↦ ok m
    | none ↦ fail (errorf (codes "cloudevent data has unexpected type: ") (value_type_name v))
  ]

  -- `data, ok := cloudevent["data"]`
  unfoldable pub cloudevent_payload : Dict Value → Outcome (Dict Value)
  unfolding payload_map
  cloudevent_payload cloudevent = elim (lookup (codes "data") cloudevent) [
    | some v ↦ payload_map v
    | none ↦ fail (errorf (codes "cloudevent missing 'data' entry") [])
  ]

  -- ExtractJSONFromInvocation
  unfoldable pub extract_json_from_invocation : InvocationEvent → Outcome (Dict Value)
  unfolding unmarshal_json cloudevent_payload
  extract_json_from_invocation e =
      if text_eq e.content_type json_type
      then unmarshal_json e.content
      else if text_eq e.content_type cloudevent_type
      then (do cloudevent ← unmarshal e.content; cloudevent_payload cloudevent)
      else fail (errorf (codes "unsupported event type: ") e.content_type)

  -- CompileCELProg
  unfoldable pub compile_cel_prog : Text → List Decl → Outcome Program
  compile_cel_prog expr variables = do
    env ← new_env variables
    ast ← compile env expr
    new_program env ast
