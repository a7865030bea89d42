-- ===== src/Channel/Setup.antt =====
-- The configuration part of `main` of components/channel/main.go: all that it does before it starts
-- the loops and the service. `log.Fatalf` ends the program; it is the outcome `fail`.
pub mod Boot
pub mod Main
use streaming_runtime_go.Prelude.{
  Text, codes, List, [], ◌∷◌, ◌++◌, Option, none, some, Dict, getenv, or_default, Outcome, ok, fail,
  errorf, wrap, ◌>>=◌, ◌&&◌, is_empty, if◌then◌else◌,
}
use streaming_runtime_go.Extern.{Extern}
use streaming_runtime_go.Support.{get_target_parts, compile_cel_prog, sanitize_identifier}
use streaming_runtime_go.Channel.{Channel}

-- The names of the environment variables.
abbrev pub service_port_env : Text
service_port_env = codes "CHANNEL_SERVICE_PORT"

abbrev pub mode_env : Text
mode_env = codes "CHANNEL_MODE"

abbrev pub stream_from_env : Text
stream_from_env = codes "CHANNEL_STREAM_FROM"

abbrev pub stream_to_stream_env : Text
stream_to_stream_env = codes "CHANNEL_STREAM_TO_STREAM"

abbrev pub stream_to_component_env : Text
stream_to_component_env = codes "CHANNEL_STREAM_TO_COMPONENT"

abbrev pub stream_filter_env : Text
stream_filter_env = codes "CHANNEL_STREAM_WHERE"

abbrev pub stream_select_env : Text
stream_select_env = codes "CHANNEL_STREAM_SELECT"

abbrev pub trigger_env : Text
trigger_env = codes "CHANNEL_AGGREGATE_TRIGGER"

abbrev pub app_id_env : Text
app_id_env = codes "APP_ID"

-- The texts that `log.Fatalf` puts before an error.
abbrev pub client_prefix : Text
client_prefix = codes "channel: client failed: "

abbrev pub stream_prefix : Text
stream_prefix = codes "channel: stream target: "

abbrev pub component_prefix : Text
component_prefix = codes "channel: component target: "

abbrev pub route_prefix : Text → Text
route_prefix stream_from = codes "channel: service route: " ++ (stream_from ++ codes ": failed: ")

abbrev pub filter_prefix : Text
filter_prefix = codes "channel: filter expression: "

abbrev pub select_prefix : Text
select_prefix = codes "channel: data selection expression: "

module _ (x : Extern) where
  open x use {
    Program, Decl, new_map_var, new_int_var, new_string_var, new_client,
    add_service_invocation_handler,
  }

  -- `if expr != "" { prog, err := support.CompileCELProg(…); target = prog }`: the variable keeps its
  -- value if there is no expression
  unfoldable pub compile_into : Text → Text → List Decl → Option Program → Outcome (Option Program)
  compile_into prefix [] variables before = ok before
  compile_into prefix (c ∷ expr) variables before = do
    prog ← wrap prefix (compile_cel_prog x (c ∷ expr) variables)
    ok (some prog)

  -- What `main` has set up when it starts the loops.
  pub record Settings : Type 0 where
    pub port : Text
    pub mode : Text
    pub channel : Channel x

  -- The variables of the trigger expression.
  abbrev pub trigger_variables : Text → List Decl
  trigger_variables stream_from =
      new_map_var stream_from ∷ new_int_var (codes "count") ∷ new_string_var (codes "duration") ∷ []

  -- The three programs: the trigger expression, too, is compiled into `dataProg`, and `triggerProg`
  -- stays nil.
  unfoldable pub compile_programs : Dict Text → Text → List Text → List Text → Outcome (Channel x)
  compile_programs env stream_from stream_parts component_parts = do
    let variables = new_map_var stream_from ∷ []
    filter_prog ← compile_into filter_prefix (getenv stream_filter_env env) variables none
    select_prog ← compile_into select_prefix (getenv stream_select_env env) variables none
    data_prog ←
        compile_into select_prefix (getenv trigger_env env) (trigger_variables stream_from)
          select_prog
    ok (record {
      stream_from = stream_from;
      filter_prog = filter_prog;
      data_prog = data_prog;
      trigger_prog = none;
      target_stream_parts = stream_parts;
      target_component_parts = component_parts;
    })

  -- the source of the channel: the route that is registered, and the variable of its expressions
  unfoldable pub stream_source : Dict Text → Text
  stream_source env =
      or_default (getenv stream_from_env env) (sanitize_identifier (getenv app_id_env env))

  -- `main` from the client on
  unfoldable pub configure : Dict Text → Outcome Settings
  configure env = do
    _ ← wrap client_prefix new_client
    stream_parts ← wrap stream_prefix (get_target_parts (getenv stream_to_stream_env env))
    component_parts ← wrap component_prefix (get_target_parts (getenv stream_to_component_env env))
    _ ← wrap (route_prefix (stream_source env)) (add_service_invocation_handler (stream_source env))
    channel ← compile_programs env (stream_source env) stream_parts component_parts
    ok (record {
      port = or_default (getenv service_port_env env) (codes ":8080");
      mode = or_default (getenv mode_env env) (codes "stream");
      channel = channel;
    })

  -- `main` up to the start of the loops
  unfoldable pub boot : Dict Text → Outcome Settings
  boot env =
      if is_empty (getenv stream_to_stream_env env) && is_empty (getenv stream_to_component_env env)
      then fail (
          errorf
            (codes
              "channel: env CHANNEL_STREAM_TO_STREAM and/or CHANNEL_STREAM_TO_COMPONENT must be provided")
            [])
      else configure env
