-- ===== src/Examples/MessageProc.antt =====
-- examples/message-proc/main.go: a processor that logs the data it is invoked with and returns it.
-- The service's own loop is dapr's.
pub mod Runs
use streaming_runtime_go.Prelude.{
  Text, codes, [], Option, none, some, Dict, getenv, or_default, Outcome, ok, fail, errorf, wrap,
  ◌>>=◌,
}
use streaming_runtime_go.Extern.{Extern}
use streaming_runtime_go.Support.{InvocationEvent}
use streaming_runtime_go.Channel.Loops.{Content}
use streaming_runtime_go.Service.{serve}
use streaming_runtime_go.Prelude.{Error, Bool}

-- The names of the environment variables.
abbrev pub port_env : Text
port_env = codes "PROC_SERVICE_PORT"

abbrev pub route_env : Text
route_env = codes "PROC_SERVICE_ROUTE"

abbrev pub app_id_env : Text
app_id_env = codes "APP_ID"

-- The address of the service and the method that it answers.
pub record Service : Type 0 where
  pub port : Text
  pub route : Text

-- the two variables with their defaults
abbrev pub read_service : Dict Text → Service
read_service env = record {
  port = or_default (getenv port_env env) (codes ":8080");
  route = or_default (getenv route_env env) (getenv app_id_env env);
}

-- `main` up to the start of the service
unfoldable pub boot : Extern → Dict Text → Outcome Service
boot x env = do
  let service = read_service env
  _ ← wrap (codes "Failed to add orders handler: ") (x.add_service_invocation_handler service.route)
  ok service

-- `main`: it ends once the service is closed
unfoldable pub main : Extern → (Error → Bool) → Outcome (Unit {0}) → Dict Text → Outcome Service
unfolding boot
main x is_server_closed start env = do
  service ← boot x env
  _ ← serve is_server_closed (codes "error listenning: ") start
  ok service

-- messageHandler; `none` is the nil pointer
unfoldable pub message_handler : Option InvocationEvent → Outcome Content
message_handler none = fail (errorf (codes "invocation parameter required") [])
message_handler (some e) =
    ok (record {
      content = e.content;
      content_type = e.content_type;
      data_type_url = e.data_type_url;
    })
