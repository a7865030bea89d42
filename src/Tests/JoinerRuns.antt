-- ===== src/Tests/JoinerRuns.antt =====
-- A joiner of two streams, "orders" and "users", with the filter `true`.
use streaming_runtime_go.Prelude.{
  ◌*◌, Text, codes, text_eq, split, List, [], ◌∷◌, length, product, none, some, true, false, Dict,
  lookup, insert, ok, pos, ◌≡◌, ◌≢◌, ◌↔◌, refl,
}
use streaming_runtime_go.Extern.Sample.{sample, sample-IsDocumented, Tree, leaf, constant}
use streaming_runtime_go.Support.{get_target_parts}
use streaming_runtime_go.Deliveries.{publish_event, invoke_method, content_json}
use streaming_runtime_go.Joiner.{TopicEvent, EventStore, store_event, events_of, reset, Joiner}
use streaming_runtime_go.Joiner.Rows.{
  aggregate_events, join_streams, join_outer, join_inner, join_pair, should_collect, collect_data,
  collect_into, data_map, make_list,
}
use streaming_runtime_go.Joiner.Rows.Relation.{Joined, aggregate_events-Joined}
use streaming_runtime_go.Joiner.Rows.Counts.{aggregate_events-length}
use streaming_runtime_go.Joiner.Loops.{
  Signal, event, tick, done, InputLoop, input_step, input_case, input_run, content, output_step,
}
use streaming_runtime_go.Joiner.Window.{by_topic, WindowView, view_run, Shows, Agree}
use streaming_runtime_go.Joiner.Window.Runs.{input_run-Agree}
use streaming_runtime_go.Joiner.Deliveries.{output_step-deliveries}
use streaming_runtime_go.Joiner.Setup.{
  stream_from_0_env, stream_from_1_env, stream_to_component_env, stream_to_stream_env, Settings,
  subscribe, get_subscription, compile_programs, compile_optional, new_ticker, configure, boot,
}
use streaming_runtime_go.Joiner.System.{Delivers, boot_joiner-Delivers}
use streaming_runtime_go.Joiner.Pipeline.{State, start, receive, rows, Reach, begin, took}
use streaming_runtime_go.Joiner.Pipeline.Simulates.{Simulates, Reach-Simulates}
use streaming_runtime_go.Joiner.Setup.Boot.{IsReady, boot_joiner-IsReady}

abbrev orders : Text
orders = codes "orders"

abbrev users : Text
users = codes "users"

abbrev joiner : Joiner sample
joiner = record {
  topics = orders ∷ users ∷ [];
  filter_prog = some (constant true);
  data_prog = none;
  target_component_parts = [];
  target_stream_parts = [];
}

abbrev order : TopicEvent Tree
order = record { topic = orders; content = leaf (codes "o1") }

abbrev user : TopicEvent Tree
user = record { topic = users; content = leaf (codes "u1") }

abbrev both : EventStore Tree
both = record { streams = (orders, order ∷ []) ∷ (users, user ∷ user ∷ []) ∷ [] }

abbrev order_only : EventStore Tree
order_only = record { streams = (orders, order ∷ []) ∷ [] }

-- The row of the two events.
abbrev row : Dict Tree
row = (users, user.content) ∷ (orders, order.content) ∷ []

abbrev fresh : InputLoop Tree
fresh = record { store = record { streams = [] }; output = []; running = true }

abbrev half : InputLoop Tree
half = record { store = order_only; output = []; running = true }

both-rows : aggregate_events sample joiner both ≡ ok (row ∷ row ∷ [])
unfolding aggregate_events join_streams join_outer join_inner join_pair should_collect collect_data
    collect_into data_map insert make_list lookup text_eq
both-rows = refl

aggregate_events-Joined_example : (aggregate_events sample joiner both ≡ ok (row ∷ row ∷ [])) ↔ (
    (rows : List (Dict Tree)) × Joined sample joiner
      (product (events_of both orders) (events_of both users))
      rows
    × (rows ≢ [])
    × (sample.new_list rows ≡ ok (row ∷ row ∷ [])))
aggregate_events-Joined_example =
    aggregate_events-Joined sample joiner both orders users [] (row ∷ row ∷ []) refl

abbrev unfiltered : Joiner sample
unfiltered = record joiner { filter_prog = none }

unfiltered-rows : aggregate_events sample unfiltered both ≡ ok (row ∷ row ∷ [])
unfolding aggregate_events join_streams join_outer join_inner join_pair should_collect collect_data
    collect_into data_map insert make_list lookup text_eq
unfiltered-rows = refl

aggregate_events-length_example :
    (rows : List (Dict Tree)) × (sample.new_list rows ≡ ok (row ∷ row ∷ []))
    × (length rows ≡ length (events_of both orders) * length (events_of both users))
aggregate_events-length_example =
    aggregate_events-length sample unfiltered both orders users [] (row ∷ row ∷ []) refl refl
      unfiltered-rows

abbrev round : List (Signal Tree)
round = event order ∷ tick ∷ event user ∷ tick ∷ done ∷ tick ∷ []

abbrev view : WindowView Tree
view = record { waiting = []; sent = []; is_open = true }

fresh-Shows : Shows sample joiner orders users fresh view
unfolding lookup by_topic
fresh-Shows = record { holds = λ topic. refl; same_output = refl; same_running = refl }

input_run-Agree_example :
    Agree sample joiner orders users
      (input_run sample joiner fresh round)
      (view_run sample joiner orders users view round)
input_run-Agree_example =
    input_run-Agree sample joiner orders users [] refl fresh view round fresh-Shows

-- The loop after `round`: one window gave one row.
abbrev ended : InputLoop Tree
ended = record { store = record { streams = [] }; output = (1 ∷ []) ∷ []; running = false }

round-ended : input_run sample joiner fresh round ≡ ok ended
unfolding input_run input_step input_case store_event reset aggregate_events join_streams join_outer
    join_inner join_pair should_collect collect_data collect_into data_map insert make_list lookup
    text_eq
round-ended = refl

abbrev sink : List Text
sink = codes "kafka" ∷ codes "joined" ∷ []

abbrev app : List Text
app = codes "app" ∷ codes "app" ∷ []

output_step-deliveries_example :
    output_step app sink (content (codes "rows"))
    ≡ ok (
      publish_event (codes "kafka") (codes "joined") (codes "rows") content_json
          ∷ invoke_method (codes "app") (codes "app") (codes "rows") content_json
          ∷ [],
      true,
    )
unfolding get_target_parts split
output_step-deliveries_example =
    output_step-deliveries (codes "app") (codes "kafka/joined") app sink (content (codes "rows"))
      refl refl

abbrev environment : Dict Text
environment =
    (stream_from_0_env, codes "kafka|orders|orders")
    ∷ (stream_from_1_env, codes "kafka|users|users")
    ∷ (stream_to_component_env, codes "app")
    ∷ (stream_to_stream_env, codes "kafka/joined")
    ∷ []

abbrev settings : Settings sample
settings = record {
  port = codes ":8080";
  window = pos 4;
  joiner = record {
    topics = orders ∷ users ∷ [];
    filter_prog = none;
    data_prog = none;
    target_component_parts = app;
    target_stream_parts = sink;
  };
  loop = record {
    store = record { streams = (users, []) ∷ (orders, []) ∷ [] };
    output = [];
    running = true;
  };
}

environment-boot : boot sample environment ≡ ok settings
unfolding boot configure subscribe get_subscription get_target_parts split compile_programs
    compile_optional new_ticker insert lookup text_eq
environment-boot = refl

boot_joiner-IsReady_example : IsReady sample environment settings
boot_joiner-IsReady_example = boot_joiner-IsReady sample environment settings environment-boot

-- An order and a user come, and the window closes.
abbrev pub joined_signals : List (Signal Tree)
joined_signals = event order ∷ event user ∷ tick ∷ []

abbrev one_each : EventStore Tree
one_each = record { streams = (users, user ∷ []) ∷ (orders, order ∷ []) ∷ [] }

abbrev pub closing : State Tree
closing = record (start one_each) { holding = some (1 ∷ []) }

pub closing-reached : Reach sample settings.joiner settings.loop.store joined_signals closing
unfolding store_event aggregate_events join_streams join_outer join_inner join_pair should_collect
    collect_data collect_into data_map insert make_list lookup text_eq
closing-reached =
    took tick
      (took (event user) (took (event order) begin (receive _ order refl)) (receive _ user refl))
      (rows (start one_each) (1 ∷ []) refl refl)

Reach-Simulates_example :
    Simulates sample settings.joiner settings.loop.store joined_signals closing
Reach-Simulates_example =
    Reach-Simulates sample settings.joiner settings.loop.store joined_signals closing
      closing-reached

boot_joiner-Delivers_example : Delivers sample settings joined_signals closing
boot_joiner-Delivers_example =
    boot_joiner-Delivers sample sample-IsDocumented environment settings joined_signals closing
      environment-boot closing-reached
