-- ===== src/Tests/ClusterRuns.antt =====
-- The controllers at work on an API server that stores their objects.
use streaming_runtime_go.Prelude.{text_eq, List, [], ◌∷◌, refl}
use streaming_runtime_go.Controllers.Client.{deployment_kind, Session}
use streaming_runtime_go.Controllers.Reconcile.Once.{CallsNone}
use streaming_runtime_go.Controllers.Cache.{Posts}
use streaming_runtime_go.Controllers.Runs.{
  Request, for_processor, for_channel, for_cluster_stream, operate, operate-once, reconcile_request,
}
use streaming_runtime_go.Controllers.Runs.Made.{Made, operate-Made}
use streaming_runtime_go.Controllers.Runs.Quiet.{Rests, operate-finished}
use streaming_runtime_go.Tests.Controllers.{request}
use streaming_runtime_go.Tests.Store.{
  Names, store, IsThere, store-Cache, store-KeepsKey, store-IsHealthy,
}

abbrev at_start : Session Names
at_start = record {
  world = record { subscriptions = []; components = []; deployments = [] };
  calls = [];
}

abbrev with_printer : Session Names
with_printer = record {
  world = record { subscriptions = []; components = []; deployments = request ∷ [] };
  calls = [];
}

-- A processor of the channel's name, and the channel.
abbrev requests : List Request
requests = for_processor request ∷ for_channel request ∷ for_cluster_stream request ∷ []

operate-once_example :
    IsThere deployment_kind request (operate store requests with_printer).world
    × CallsNone (Posts deployment_kind request) with_printer (operate store requests with_printer)
unfolding text_eq
operate-once_example =
    operate-once store store-Cache deployment_kind request store-KeepsKey requests with_printer refl

operate-Made_example : Made store requests at_start (operate store requests at_start)
operate-Made_example = operate-Made store store-KeepsKey requests at_start

operate-finished_example :
    Rests store
      (for_processor request)
      (operate store requests with_printer)
      (reconcile_request store (for_processor request) (operate store requests with_printer))
unfolding text_eq
operate-finished_example =
    operate-finished store store-Cache store-IsHealthy (for_processor request) requests with_printer
      refl
