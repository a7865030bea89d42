-- ===== src/Tests/ManagerRuns.antt =====
-- A manager whose sixth call fails, and the controllers in a cluster.
use streaming_runtime_go.Prelude.{
  codes, ℕ, suc, List, [], ◌∷◌, All, ok, fail, Outcome, errorf, ◌==◌, if◌then◌else◌, inl, refl, ◌≡◌,
}
use streaming_runtime_go.Controllers.Client.{
  Kind, channel_kind, cluster_stream_kind, joiner_kind, processor_kind, stream_kind, table_kind,
  subscription_kind, component_kind, deployment_kind,
}
use streaming_runtime_go.Controllers.Reconcile.{reconcile}
use streaming_runtime_go.Controllers.Channel.{channel_controller}
use streaming_runtime_go.Controllers.Joiner.{joiner_controller}
use streaming_runtime_go.Controllers.Processor.{processor_controller}
use streaming_runtime_go.Controllers.Stream.{stream_controller}
use streaming_runtime_go.Controllers.ClusterStream.{reconcile_cluster_stream}
use streaming_runtime_go.Controllers.Table.{reconcile_table}
use streaming_runtime_go.Manager.{
  Step, init_scheme, cluster_stream_registration, stream_registration, processor_registration,
  joiner_registration, channel_registration,
}
use streaming_runtime_go.Manager.Starts.{Starts}
use streaming_runtime_go.Manager.Kinds.{
  StaysAllowed, reconcile-StaysAllowed, IsCovered, registrations, init_scheme-IsCovered,
}
use streaming_runtime_go.Tests.Controllers.{cluster, request, empty_session}

-- The world counts the calls.
abbrev api : Step → ℕ → Outcome (Unit {0}) × ℕ
api s w = if w == 5 then (fail (errorf (codes "no match for kind") []), w) else (ok tt, suc w)

reconcile-StaysAllowed_example :
    StaysAllowed stream_registration empty_session
      (reconcile (stream_controller cluster) request empty_session).1
    × StaysAllowed processor_registration empty_session
        (reconcile (processor_controller cluster) request empty_session).1
    × StaysAllowed channel_registration empty_session
        (reconcile (channel_controller cluster) request empty_session).1
    × StaysAllowed joiner_registration empty_session
        (reconcile (joiner_controller cluster) request empty_session).1
    × StaysAllowed cluster_stream_registration empty_session
        (reconcile_cluster_stream cluster request empty_session).1
    × ((reconcile_table request empty_session).1 ≡ empty_session)
reconcile-StaysAllowed_example = reconcile-StaysAllowed cluster request empty_session

abbrev known_kinds : List Kind
known_kinds =
    deployment_kind ∷ component_kind ∷ subscription_kind ∷ channel_kind ∷ cluster_stream_kind
    ∷ joiner_kind ∷ processor_kind ∷ stream_kind ∷ table_kind ∷ []

init_scheme-IsCovered_example : All (IsCovered known_kinds) registrations
unfolding init_scheme
init_scheme-IsCovered_example =
    init_scheme-IsCovered (deployment_kind ∷ []) (component_kind ∷ []) (subscription_kind ∷ [])
      known_kinds (inl refl) (inl refl) (inl refl) refl
