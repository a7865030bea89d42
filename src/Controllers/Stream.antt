-- ===== src/Controllers/Stream.antt =====
-- controllers/stream_controller.go.
pub mod Subscription
use streaming_runtime_go.Prelude.{Text, [], ◌∷◌, false, Outcome, ok, ◌>>=◌, is_empty, if◌then◌else◌}
use streaming_runtime_go.Api.{StreamSpec, StreamResource, DaprSubscription}
use streaming_runtime_go.Controllers.Client.{
  Client, call, get, stream_kind, subscription_kind, post_subscription,
}
use streaming_runtime_go.Controllers.Reconcile.{Controller}

-- The route of the subscription: "/topic" unless the stream has one.
unfoldable pub subscription_route : StreamSpec → Text
subscription_route spec = if is_empty spec.route then b'/' ∷ spec.topic else spec.route

-- updateDaprSubscription; it has no caller
unfoldable pub update_dapr_subscription : StreamResource → DaprSubscription → DaprSubscription
update_dapr_subscription stream sub = record sub {
  topic = stream.spec.topic;
  pubsub_name = stream.spec.cluster_stream;
  default_route = stream.spec.route;
  scopes = stream.spec.recipients;
}

module _ (k : Client) where
  open k use {World, get_stream, get_subscription, create_subscription, set_controller_reference}

  -- createDaprSubscription
  unfoldable pub create_dapr_subscription : StreamResource → Outcome DaprSubscription
  unfolding subscription_route
  create_dapr_subscription stream = do
    meta ← set_controller_reference stream.meta (record {
      name = stream.meta.name;
      namespace = stream.meta.namespace;
      deleting = false;
      labels = [];
      annotations = [];
      owners = [];
    })
    ok (record {
      meta = meta;
      pubsub_name = stream.spec.cluster_stream;
      topic = stream.spec.topic;
      default_route = subscription_route stream.spec;
      scopes = stream.spec.recipients;
    })

  -- StreamReconciler
  abbrev pub stream_controller : Controller World StreamResource DaprSubscription
  stream_controller = record {
    fetch = λ key. call (get stream_kind key) (get_stream key);
    meta_of = λ stream. stream.meta;
    fetch_owned = λ key. call (get subscription_kind key) (get_subscription key);
    build = λ stream s. (create_dapr_subscription stream, s);
    post = λ d. call (post_subscription d) (create_subscription d);
  }
