-- ===== src/Channel.antt =====
-- components/channel/main.go: the programs that filter and shape one event. `Loops` has the handler and
-- the two goroutines, `Setup` the configuration that `main` makes of the environment.
pub mod Loops
pub mod Safety
pub mod Pipeline
pub mod Setup
pub mod System
use streaming_runtime_go.Prelude.{
  Text, codes, text_eq, List, [], ◌∷◌, Option, none, some, Bool, true, not, Dict, insert, Outcome,
  ok, fail, errorf, wrap, assert_some, ◌>>=◌, if◌then◌else◌,
}
use streaming_runtime_go.Extern.{Extern}
use streaming_runtime_go.Support.{InvocationEvent, extract_json_from_invocation}

-- The variables of the package that the loops read, and what `main` passes to the output loop.
pub record Channel (x : Extern) : Type 0 where
  pub stream_from : Text
  pub filter_prog : Option x.Program
  pub data_prog : Option x.Program
  pub trigger_prog : Option x.Program
  pub target_stream_parts : List Text
  pub target_component_parts : List Text

-- The texts that the functions put before an error.
abbrev pub marshal_prefix : Text
marshal_prefix = codes "filter expression: marshal data: "

abbrev pub evaluation_prefix : Text
evaluation_prefix = codes "filter expression: evaluation:"

abbrev pub data_marshal_prefix : Text
data_marshal_prefix = codes "data collection: marshal data: "

abbrev pub data_evaluation_prefix : Text
data_evaluation_prefix = codes "data collection: failed to evaluate filter expression: "

abbrev pub native_prefix : Text
native_prefix = codes "data collection: failed to convert to native: "

abbrev pub json_prefix : Text
json_prefix = codes "data collection: failed marshal to JSON: "

module _ (x : Extern) (c : Channel x) where
  open x use {
    Value, Program, of_map, eval, val_type_name, as_bool, convert, as_struct, marshal_struct,
  }

  -- `map[string]interface{}{streamFromEnv: jsonData}`
  abbrev pub data_map : Dict Value → Dict Value
  data_map json_data = insert c.stream_from (of_map json_data) []

  -- shouldCollect
  unfoldable pub should_collect : InvocationEvent → Option Program → Outcome Bool
  should_collect event none = ok true
  should_collect event (some prog) = do
    json_data ← wrap marshal_prefix (extract_json_from_invocation x event)
    filter_result ← wrap evaluation_prefix (eval prog (data_map json_data))
    if not (text_eq (val_type_name filter_result) (codes "bool"))
        then fail (errorf (codes "filter expression: must return a boolean") [])
        else assert_some (as_bool filter_result)

  -- shouldTrigger: its body is commented out
  unfoldable pub should_trigger : Option Program → Outcome Bool
  should_trigger prog = ok true

  -- collectData
  unfoldable pub collect_data : InvocationEvent → Option Program → Outcome Text
  collect_data event none = ok event.content
  collect_data event (some prog) = do
    json_data ← wrap data_marshal_prefix (extract_json_from_invocation x event)
    result ← wrap data_evaluation_prefix (eval prog (data_map json_data))
    conv ← wrap native_prefix (convert result)
    s ← assert_some (as_struct conv)
    wrap json_prefix (marshal_struct s)
