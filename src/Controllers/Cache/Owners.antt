-- ===== src/Controllers/Cache/Owners.antt =====
-- The four owning controllers and what the cache shows.
use streaming_runtime_go.Prelude.{
  Text, List, [], ◌∷◌, ◌++◌, Outcome, ok, fail, panic, ◌≡◌, refl, sym, ap, ◌∙◌, >>=-eq-ok,
  ok-injective,
}
use streaming_runtime_go.Api.{NamespacedName, DaprSubscription, Deployment}
use streaming_runtime_go.Controllers.Client.{
  Client, Kind, subscription_kind, deployment_kind, stream_kind, get, post_deployment, Session,
  Action, call, and_then,
}
use streaming_runtime_go.Controllers.Reconcile.{key_of, Controller}
use streaming_runtime_go.Controllers.Reconcile.Courses.{Keeps}
use streaming_runtime_go.Controllers.Reconcile.Cache.{KeepsAll, IsCached}
use streaming_runtime_go.Controllers.Cache.{Cache, call-Keeps, call_missing}
use streaming_runtime_go.Controllers.Owned.{
  KeepsKey, create_chan_deployment-IsDeploymentOf, create_processor_deployment-IsDeploymentOf,
}
use streaming_runtime_go.Controllers.Channel.{create_chan_deployment, channel_controller}
use streaming_runtime_go.Controllers.Joiner.{
  stream_info, check_stream_setup, collate_stream_info, create_joiner_deployment, joiner_controller,
}
use streaming_runtime_go.Controllers.Joiner.Creation.{create_joiner_deployment-Deploys}
use streaming_runtime_go.Controllers.Processor.{create_processor_deployment, processor_controller}
use streaming_runtime_go.Controllers.Stream.{create_dapr_subscription, stream_controller}

and_then-Keeps :
    {W A B : Type 0} (S : W → Type 0) (m : Outcome A × Session W) (f : A → Action W B)
    → ((a : A) → Keeps S (f a))
    → S m.1.world
    → S (and_then m f).1.world
unfolding and_then
and_then-Keeps S (ok a, t) f keeps h = keeps a t h
and_then-Keeps S (fail e, t) f keeps h = h
and_then-Keeps S (panic x, t) f keeps h = h

module _ (k : Client) (st : Cache k) where
  open k use {
    World, get_stream, get_channel, get_joiner, get_processor, get_subscription, get_deployment,
    create_subscription, create_deployment,
  }

  module _ (kind : Kind) (key : NamespacedName) where
    abbrev Kept : World → Type 0
    Kept = st.Shown kind key

    pub stream-KeepsAll : KeepsAll (stream_controller k) Kept
    stream-KeepsAll = record {
      fetch_keeps = λ n. call-Keeps st.Shown _ (get_stream n) kind key (st.leaves_stream n);
      owned_keeps =
          λ n. call-Keeps st.Shown _ (get_subscription n) kind key (st.leaves_subscription n);
      build_keeps = λ p s h. h;
      post_keeps = λ d.
          call-Keeps st.Shown _ (create_subscription d) kind key (st.leaves_new_subscription d);
    }

    deployment-Keeps :
        (n : NamespacedName) → Keeps Kept (call (get deployment_kind n) (get_deployment n))
    deployment-Keeps n = call-Keeps st.Shown _ (get_deployment n) kind key (st.leaves_deployment n)

    new_deployment-Keeps :
        (d : Deployment) → Keeps Kept (call (post_deployment d) (create_deployment d))
    new_deployment-Keeps d =
        call-Keeps st.Shown _ (create_deployment d) kind key (st.leaves_new_deployment d)

    pub channel-KeepsAll : KeepsAll (channel_controller k) Kept
    channel-KeepsAll = record {
      fetch_keeps = λ n. call-Keeps st.Shown _ (get_channel n) kind key (st.leaves_channel n);
      owned_keeps = deployment-Keeps;
      build_keeps = λ p s h. h;
      post_keeps = new_deployment-Keeps;
    }

    pub processor-KeepsAll : KeepsAll (processor_controller k) Kept
    processor-KeepsAll = record {
      fetch_keeps = λ n. call-Keeps st.Shown _ (get_processor n) kind key (st.leaves_processor n);
      owned_keeps = deployment-Keeps;
      build_keeps = λ p s h. h;
      post_keeps = new_deployment-Keeps;
    }

    collate-Keeps :
        (namespace : Text) (names result : List Text)
        → Keeps Kept (collate_stream_info k namespace names result)
    unfolding collate_stream_info
    collate-Keeps namespace [] result s h = h
    collate-Keeps namespace (name ∷ names) result s h =
        let n : NamespacedName = record { name = name; namespace = namespace } in
        and_then-Keeps Kept (call (get stream_kind n) (get_stream n) s) _
          (λ stream. collate-Keeps namespace names (result ++ stream_info stream.spec ∷ []))
          (call-Keeps st.Shown _ (get_stream n) kind key (st.leaves_stream n) s h)

    pub joiner-KeepsAll : KeepsAll (joiner_controller k) Kept
    unfolding create_joiner_deployment
    joiner-KeepsAll = record {
      fetch_keeps = λ n. call-Keeps st.Shown _ (get_joiner n) kind key (st.leaves_joiner n);
      owned_keeps = deployment-Keeps;
      build_keeps = λ joiner s h.
          and_then-Keeps Kept (check_stream_setup joiner.spec, s) _
            (λ setup t g.
              and_then-Keeps Kept (collate_stream_info k _ _ [] t) _ (λ infos u v. v)
                (collate-Keeps _ _ [] t g))
            h;
      post_keeps = new_deployment-Keeps;
    }

  module _ (keeps : KeepsKey k) where
    abbrev pub subscription_name : DaprSubscription → NamespacedName
    subscription_name d = key_of d.meta

    abbrev pub deployment_name : Deployment → NamespacedName
    deployment_name d = key_of d.meta

    pub stream-IsCached :
        IsCached (stream_controller k) (st.Shown subscription_kind) subscription_name
    unfolding create_dapr_subscription
    stream-IsCached = record {
      missing = λ key.
          call_missing (st.Shown subscription_kind) get_subscription st.misses_subscription
            (get subscription_kind key) key;
      built = λ stream s t d e.
          let h : create_dapr_subscription k stream ≡ ok d = ap (λ q. q.0) e in
          let (meta, m, q) = >>=-eq-ok (k.set_controller_reference stream.meta _) _ h in
          ap subscription_name (sym (ok-injective q)) ∙ keeps stream.meta _ meta m;
    }

    -- A controller of deployments whose built deployments have the resource's name.
    owns_deployments :
        {P : Type 0} (c : Controller World P Deployment)
        → c.fetch_owned ≡ (λ n. call (get deployment_kind n) (get_deployment n))
        → ((p : P) (s t : Session World) (d : Deployment)
            → c.build p s ≡ (ok d, t)
            → deployment_name d ≡ key_of (c.meta_of p))
        → IsCached c (st.Shown deployment_kind) deployment_name
    owns_deployments c r built = record {
      missing = λ n s t x e.
          call_missing (st.Shown deployment_kind) get_deployment st.misses_deployment _ n s t x
            (ap (λ f. f n s) (sym r) ∙ e);
      built = built;
    }

    pub channel-IsCached :
        IsCached (channel_controller k) (st.Shown deployment_kind) deployment_name
    channel-IsCached = owns_deployments (channel_controller k) refl (λ channel s t d e.
        let h : create_chan_deployment k channel ≡ ok d = ap (λ q. q.0) e in
        let (c, m, v) = create_chan_deployment-IsDeploymentOf k channel d keeps h in v.found)

    pub processor-IsCached :
        IsCached (processor_controller k) (st.Shown deployment_kind) deployment_name
    processor-IsCached = owns_deployments (processor_controller k) refl (λ proc s t d e.
        let h : create_processor_deployment k proc ≡ ok d = ap (λ q. q.0) e in
        let v = create_processor_deployment-IsDeploymentOf k proc d keeps h in v.found)

    pub joiner-IsCached : IsCached (joiner_controller k) (st.Shown deployment_kind) deployment_name
    joiner-IsCached = owns_deployments (joiner_controller k) refl (λ joiner s t d e.
        let v = create_joiner_deployment-Deploys k joiner d s t keeps e in v.deployed.found)
