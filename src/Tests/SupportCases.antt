-- ===== src/Tests/SupportCases.antt =====
-- Targets, identifiers and payloads.
use streaming_runtime_go.Prelude.{Text, codes, List, [], ◌∷◌, join, Dict, ok, ◌≡◌, ◌↔◌, arith}
use streaming_runtime_go.Extern.Sample.{sample, Tree, leaf}
use streaming_runtime_go.Support.{
  InvocationEvent, cloudevent_type, get_target_parts, extract_json_from_invocation,
}
use streaming_runtime_go.Support.Targets.{slash, join-get_target_parts}
use streaming_runtime_go.Support.Payloads.{Carries, extract_json_from_invocation-Carries}

abbrev target : Text
target = codes "kafka/joined"

join-get_target_parts_example :
    (parts : List Text) × (get_target_parts (codes "a/b") ≡ ok parts)
    × (join parts (slash ∷ []) ≡ codes "a/b")
join-get_target_parts_example = join-get_target_parts (codes "a") (codes "b") (λ h. omega arith, tt)

abbrev app_id : Text
app_id = codes "my-app.v1"

abbrev cloud_event : InvocationEvent
cloud_event = record {
  content = codes "e1";
  content_type = cloudevent_type;
  data_type_url = [];
  query_string = [];
}

abbrev payload : Dict Tree
payload = (codes "id", leaf (codes "e1")) ∷ []

extract_json_from_invocation-Carries_example :
    (extract_json_from_invocation sample cloud_event ≡ ok payload)
    ↔ Carries sample cloud_event payload
extract_json_from_invocation-Carries_example =
    extract_json_from_invocation-Carries sample cloud_event payload
