-- ===== src/Joiner/Setup.antt =====
-- getSubscription and the configuration part of `main` of components/joiner/main.go: all that it does
-- before it starts the loops and the service. `log.Fatalf` ends the program; it is the outcome `fail`.
pub mod Boot
pub mod Main
pub mod Subscriptions
use streaming_runtime_go.Prelude.{
  Text, codes, split, List, [], ◌∷◌, ◌++◌, Option, none, some, Dict, getenv, or_default, insert,
  Outcome, ok, fail, panic, errorf, wrap, index, ◌>>=◌, Bool, true, ◌||◌, is_empty, if◌then◌else◌,
  ℤ, is_positive,
}
use streaming_runtime_go.Extern.{Extern}
use streaming_runtime_go.Support.{get_target_parts, compile_cel_prog}
use streaming_runtime_go.Joiner.{TopicEvent, EventStore, Joiner}
use streaming_runtime_go.Joiner.Loops.{InputLoop}

-- common.Subscription
pub record Subscription : Type 0 where
  pub pubsub_name : Text
  pub topic : Text
  pub route : Text

-- getSubscription
unfoldable pub get_subscription : Text → Outcome Subscription
get_subscription stream_info = do
  let stream_part = split stream_info b'|'
  pubsub_name ← index stream_part 0
  topic ← index stream_part 1
  route ← index stream_part 2
  ok (record { pubsub_name = pubsub_name; topic = topic; route = route })

-- log.Fatalf
abbrev pub fatal {ℓ} : {A : Type ℓ} → Text → Outcome A
fatal message = fail (errorf message [])

-- The names of the environment variables.
abbrev pub service_port_env : Text
service_port_env = codes "JOINER_SERVICE_PORT"

abbrev pub stream_from_0_env : Text
stream_from_0_env = codes "JOINER_STREAM_FROM_0"

abbrev pub stream_from_1_env : Text
stream_from_1_env = codes "JOINER_STREAM_FROM_1"

abbrev pub stream_to_component_env : Text
stream_to_component_env = codes "JOINER_STREAM_TO_COMPONENT"

abbrev pub stream_to_stream_env : Text
stream_to_stream_env = codes "JOINER_STREAM_TO_STREAM"

abbrev pub stream_filter_env : Text
stream_filter_env = codes "JOINER_STREAM_FILTER"

abbrev pub stream_select_env : Text
stream_select_env = codes "JOINER_STREAM_SELECT"

abbrev pub window_size_env : Text
window_size_env = codes "JOINER_WINDOW_SIZE"

-- The texts that `log.Fatalf` puts before an error.
abbrev pub client_prefix : Text
client_prefix = codes "joiner: client failed: "

abbrev pub component_prefix : Text
component_prefix = codes "joiner: stream.To component: "

abbrev pub stream_prefix : Text
stream_prefix = codes "joiner: stream.To stream: "

abbrev pub window_prefix : Text
window_prefix = codes "joiner: time window: "

abbrev pub sub_prefix : Text
sub_prefix = codes "joiner: failed to get subscription: "

abbrev pubsub_prefix : Text
pubsub_prefix = codes "joiner: pubsub: "

abbrev pub handler_prefix : Text → Text
handler_prefix pubsub_name = pubsub_prefix ++ (pubsub_name ++ codes ": failed: ")

abbrev pub filter_prefix : Text
filter_prefix = codes "joiner: filter expression: "

abbrev pub select_prefix : Text
select_prefix = codes "joiner: data selection expression: "

module _ (x : Extern) where
  open x use {
    Value, Program, Decl, new_map_var, parse_duration, new_client, add_topic_event_handler,
  }

  -- The loop over `streamsInfo`: the topics and the store that it leaves.
  unfoldable pub subscribe :
      List Text → List Text → EventStore Value → Outcome (List Text × EventStore Value)
  subscribe [] topics store = ok (topics, store)
  subscribe (stream ∷ streams_info) topics store = do
    sub ← wrap sub_prefix (get_subscription stream)
    _ ←
        wrap (handler_prefix sub.pubsub_name)
          (add_topic_event_handler sub.pubsub_name sub.topic sub.route)
    subscribe streams_info (topics ++ sub.topic ∷ [])
        (record { streams = insert sub.topic [] store.streams })

  -- `if expr != "" { prog, err := support.CompileCELProg(…) … }`
  unfoldable pub compile_optional : Text → Text → List Decl → Outcome (Option Program)
  compile_optional prefix [] variables = ok none
  compile_optional prefix (c ∷ expr) variables = do
    prog ← wrap prefix (compile_cel_prog x (c ∷ expr) variables)
    ok (some prog)

  -- What `main` has set up when it starts the loops.
  pub record Settings : Type 0 where
    pub port : Text
    pub window : ℤ
    pub joiner : Joiner x
    pub loop : InputLoop Value

  -- time.NewTicker panics unless the duration is positive
  unfoldable pub new_ticker : ℤ → Outcome ℤ
  new_ticker d = if is_positive d then ok d else panic (codes "non-positive interval for NewTicker")

  -- `main` from the CEL variables on
  unfoldable pub compile_programs :
      Dict Text → List Text → List Text → ℤ → List Text → EventStore Value → Outcome Settings
  compile_programs env component_parts stream_parts window topics store = do
    topic_0 ← index topics 0
    topic_1 ← index topics 1
    let variables = new_map_var topic_0 ∷ new_map_var topic_1 ∷ []
    filter_prog ← compile_optional filter_prefix (getenv stream_filter_env env) variables
    data_prog ← compile_optional select_prefix (getenv stream_select_env env) variables
    ok (record {
      port = or_default (getenv service_port_env env) (codes ":8080");
      window = window;
      joiner = record {
        topics = topics;
        filter_prog = filter_prog;
        data_prog = data_prog;
        target_component_parts = component_parts;
        target_stream_parts = stream_parts;
      };
      loop = record { store = store; output = []; running = true };
    })

  -- `main` from the client on
  unfoldable pub configure : Dict Text → Outcome Settings
  configure env = do
    _ ← wrap client_prefix new_client
    component_parts ← wrap component_prefix (get_target_parts (getenv stream_to_component_env env))
    stream_parts ← wrap stream_prefix (get_target_parts (getenv stream_to_stream_env env))
    win_dur ←
        wrap window_prefix (parse_duration (or_default (getenv window_size_env env) (codes "10ms")))
    window ← new_ticker win_dur
    (topics, store) ←
        subscribe (getenv stream_from_0_env env ∷ getenv stream_from_1_env env ∷ []) []
          (record { streams = [] })
    compile_programs env component_parts stream_parts window topics store

  -- `main` up to the start of the loops
  unfoldable pub boot : Dict Text → Outcome Settings
  boot env =
      if is_empty (getenv stream_from_0_env env) || is_empty (getenv stream_from_1_env env)
      then fatal (codes "joiner: env JOINER_STREAM_FROM_0 or JOINER_STREAM_FROM_1 missing")
      else if is_empty (getenv stream_to_component_env env)
      then fatal (codes "joiner: env JOINER_STREAM_TO_COMPONENT not provided")
      else configure env
