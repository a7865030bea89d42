-- ===== src/Controllers/Stream/Subscription.antt =====
-- What dapr is told of a stream by its subscription, and what a joiner of the stream subscribes to.
use streaming_runtime_go.Prelude.{
  Text, [], ◌∷◌, ok, >>=-eq-ok, ok-injective, or_default, is_empty, if◌then◌else◌, ◌≡◌, refl, sym,
  ◌∙◌, subst,
}
use streaming_runtime_go.Api.{StreamSpec, StreamResource, DaprSubscription}
use streaming_runtime_go.Controllers.Client.{Client}
use streaming_runtime_go.Controllers.Reconcile.{key_of}
use streaming_runtime_go.Controllers.Owned.{KeepsKey}
use streaming_runtime_go.Controllers.Stream.{subscription_route, create_dapr_subscription}
use streaming_runtime_go.Controllers.Joiner.{stream_info}
use streaming_runtime_go.Controllers.Joiner.Environment.{get_subscription-stream_info}
use streaming_runtime_go.Controllers.Joiner.Creation.{IsPlain}
use streaming_runtime_go.Joiner.Setup.{Subscription, get_subscription}

-- The subscription that the controller creates for a stream, against that of a joiner of the stream.
pub record Matches (stream : StreamResource) (sub : DaprSubscription) (j : Subscription)
    : Type 0 where
  pub found : key_of sub.meta ≡ key_of stream.meta
  pub same_pubsub : sub.pubsub_name ≡ j.pubsub_name
  pub same_topic : sub.topic ≡ j.topic
  pub route : sub.default_route ≡ (if is_empty stream.spec.route then b'/' ∷ j.route else j.route)
  pub recipients : sub.scopes ≡ stream.spec.recipients

route_lem :
    (spec : StreamSpec)
    → subscription_route spec ≡ (
        if is_empty spec.route
        then b'/' ∷ or_default spec.route spec.topic
        else or_default spec.route spec.topic)
unfolding subscription_route
route_lem spec = go spec.route
  where
    go :
        (r : Text)
        → (if is_empty r then b'/' ∷ spec.topic else r)
          ≡ (if is_empty r then b'/' ∷ or_default r spec.topic else or_default r spec.topic)
    go [] = refl
    go (c ∷ r) = refl

-- The subscription that is created for a stream is found under the stream's name, is open to its
-- recipients, and has the pubsub and the topic that a joiner of the stream subscribes to; its default
-- route is the joiner's, with a slash in front if the stream has no route; if the stream's fields have
-- no bar in them and SetControllerReference keeps names and namespaces.
pub create_dapr_subscription-Matches :
    (k : Client) (stream : StreamResource) (sub : DaprSubscription) (j : Subscription)
    → KeepsKey k
    → IsPlain stream.spec
    → create_dapr_subscription k stream ≡ ok sub
    → get_subscription (stream_info stream.spec) ≡ ok j
    → Matches stream sub j
unfolding create_dapr_subscription
create_dapr_subscription-Matches k stream sub j keeps p h g =
    let (meta, m, q) = >>=-eq-ok (k.set_controller_reference stream.meta _) _ h in
    subst (λ (r : Subscription). Matches stream sub r)
      (ok-injective
        (sym (get_subscription-stream_info stream.spec p.cluster_stream p.topic p.route) ∙ g))
      (subst
        (λ (d : DaprSubscription). Matches stream d (record {
          pubsub_name = stream.spec.cluster_stream;
          topic = stream.spec.topic;
          route = or_default stream.spec.route stream.spec.topic;
        }))
        (ok-injective q)
        (record {
          found = keeps stream.meta _ meta m;
          same_pubsub = refl;
          same_topic = refl;
          route = route_lem stream.spec;
          recipients = refl;
        }))
