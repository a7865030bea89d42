-- ===== src/Extern.antt =====
-- What the components call and this repository does not implement: decoded JSON values, the common
-- expression language (cel-go), the protobuf structs (structpb), durations and dapr. Each is an operation of a
-- record, with no law. `IsDocumented` holds the documented behaviour that some theorems rely on.
pub mod Sample
use streaming_runtime_go.Prelude.{
  Text, codes, Dict, Outcome, ok, NoPanic, Option, some, Bool, List, ◌≡◌, ℤ,
}

pub record Extern : Type 1 where
  -- `interface{}`, and its assertion to a `map[string]interface{}`
  pub Value : Type 0
  pub of_map : Dict Value → Value
  pub as_map : Value → Option (Dict Value)
  pub value_type_name : Value → Text
  -- encoding/json into a map[string]interface{}
  pub unmarshal : Text → Outcome (Dict Value)
  -- cel-go
  pub Decl : Type 0
  pub CelEnv : Type 0
  pub Ast : Type 0
  pub Program : Type 0
  pub Val : Type 0
  pub new_map_var : Text → Decl
  pub new_int_var : Text → Decl
  pub new_string_var : Text → Decl
  pub new_env : List Decl → Outcome CelEnv
  pub compile : CelEnv → Text → Outcome Ast
  pub new_program : CelEnv → Ast → Outcome Program
  pub eval : Program → Dict Value → Outcome Val
  pub val_type_name : Val → Text
  -- `val.Value().(bool)`
  pub as_bool : Val → Option Bool
  -- structpb; `convert` is ConvertToNative at the type of structs, and `as_struct` the assertion
  pub Struct : Type 0
  pub ListValue : Type 0
  pub convert : Val → Outcome Value
  pub as_struct : Value → Option Struct
  pub new_struct : Dict Value → Outcome Struct
  pub struct_as_map : Struct → Dict Value
  pub new_list : List (Dict Value) → Outcome ListValue
  pub marshal_list : ListValue → Outcome Text
  pub marshal_struct : Struct → Outcome Text
  -- time.ParseDuration, in nanoseconds
  pub parse_duration : Text → Outcome ℤ
  -- the dapr client and its service: the handler of a topic is registered under pubsub, topic and
  -- route, that of an invocation under its method
  pub new_client : Outcome (Unit {0})
  pub add_topic_event_handler : Text → Text → Text → Outcome (Unit {0})
  pub add_service_invocation_handler : Text → Outcome (Unit {0})

pub record IsDocumented (x : Extern) : Type 0 where
  -- a CEL value of type "bool" holds a Go bool
  pub bool_value :
      (v : x.Val) → x.val_type_name v ≡ codes "bool" → (b : Bool) × (x.as_bool v ≡ some b)
  -- ConvertToNative returns a value of the type that it was asked for
  pub struct_value :
      (v : x.Val) (n : x.Value) → x.convert v ≡ ok n → (s : x.Struct) × (x.as_struct n ≡ some s)
  -- a map in an `interface{}` is asserted back to itself
  pub map_value : (m : Dict x.Value) → x.as_map (x.of_map m) ≡ some m
  -- these calls return an error rather than panic
  pub eval_calm : (p : x.Program) (m : Dict x.Value) → NoPanic (x.eval p m)
  pub convert_calm : (v : x.Val) → NoPanic (x.convert v)
  pub new_struct_calm : (m : Dict x.Value) → NoPanic (x.new_struct m)
  pub new_list_calm : (l : List (Dict x.Value)) → NoPanic (x.new_list l)
  pub marshal_list_calm : (l : x.ListValue) → NoPanic (x.marshal_list l)
  pub unmarshal_calm : (content : Text) → NoPanic (x.unmarshal content)
  pub marshal_struct_calm : (s : x.Struct) → NoPanic (x.marshal_struct s)
