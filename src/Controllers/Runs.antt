-- ===== src/Controllers/Runs.antt =====
-- The controllers together: reconciles one after the other, in any order and of any resources. What
-- runs beside them is behind the client: any request to the API server may change its world.
pub mod Made
pub mod Quiet
use streaming_runtime_go.Prelude.{List, [], ◌∷◌, ◌++◌, Outcome, ok, ◌≡◌, refl, sym, subst, ap}
use streaming_runtime_go.Api.{NamespacedName, DaprSubscription, Deployment}
use streaming_runtime_go.Controllers.Client.{
  Client, Kind, call, subscription_kind, component_kind, deployment_kind, Session, Reconciled,
  post_subscription, post_deployment,
}
use streaming_runtime_go.Controllers.Reconcile.{reconcile}
use streaming_runtime_go.Controllers.Reconcile.Cache.{reconcile-keeps}
use streaming_runtime_go.Controllers.Reconcile.Once.{
  CallsNone, CallsAll-refl, CallsAll-trans, reconcile-once,
}
use streaming_runtime_go.Controllers.Cache.{Cache, Posts, reads_post_none, call-CallsNone, clash}
use streaming_runtime_go.Controllers.Cache.Owners.{
  subscription_name, deployment_name, stream-KeepsAll, channel-KeepsAll, processor-KeepsAll,
  joiner-KeepsAll, stream-IsCached, channel-IsCached, processor-IsCached, joiner-IsCached,
}
use streaming_runtime_go.Controllers.Owned.{KeepsKey}
use streaming_runtime_go.Controllers.Kinds.{
  channel-IsReader, processor-IsReader, stream-IsReader, joiner-IsReader,
}
use streaming_runtime_go.Controllers.Channel.{channel_controller}
use streaming_runtime_go.Controllers.Joiner.{joiner_controller}
use streaming_runtime_go.Controllers.Processor.{processor_controller}
use streaming_runtime_go.Controllers.Stream.{stream_controller}
use streaming_runtime_go.Controllers.ClusterStream.{reconcile_cluster_stream}
use streaming_runtime_go.Controllers.ClusterStream.Cache.{reconcile_cluster_stream-keeps}
use streaming_runtime_go.Controllers.ClusterStream.Once.{reconcile_cluster_stream-once}
use streaming_runtime_go.Controllers.Table.{reconcile_table}

-- A reconcile that the manager starts: of which controller, and for which resource.
pub data Request : Type 0 where
  for_stream for_channel for_joiner for_processor : NamespacedName → Request
  for_cluster_stream for_table : NamespacedName → Request

module _ (k : Client) where
  open k use {World}

  -- The reconcile of the controller that the manager has for the kind.
  unfoldable pub reconcile_request : Request → Session World → Outcome Reconciled × Session World
  reconcile_request (for_stream req) s = reconcile (stream_controller k) req s
  reconcile_request (for_channel req) s = reconcile (channel_controller k) req s
  reconcile_request (for_joiner req) s = reconcile (joiner_controller k) req s
  reconcile_request (for_processor req) s = reconcile (processor_controller k) req s
  reconcile_request (for_cluster_stream req) s = reconcile_cluster_stream k req s
  reconcile_request (for_table req) s = reconcile_table req s

  -- A run of reconciles.
  unfoldable pub operate : List Request → Session World → Session World
  unfolding reconcile_request
  operate [] s = s
  operate (q ∷ requests) s = operate requests (reconcile_request q s).1

  module _ (st : Cache k) where
    module _ (kind : Kind) (key : NamespacedName) where
      reconcile_request-keeps :
          (q : Request) (s : Session World)
          → st.Shown kind key s.world
          → st.Shown kind key (reconcile_request q s).1.world
      unfolding reconcile_request reconcile_table
      reconcile_request-keeps (for_stream req) s =
          reconcile-keeps (stream_controller k) req s _ (stream-KeepsAll k st kind key)
      reconcile_request-keeps (for_channel req) s =
          reconcile-keeps (channel_controller k) req s _ (channel-KeepsAll k st kind key)
      reconcile_request-keeps (for_joiner req) s =
          reconcile-keeps (joiner_controller k) req s _ (joiner-KeepsAll k st kind key)
      reconcile_request-keeps (for_processor req) s =
          reconcile-keeps (processor_controller k) req s _ (processor-KeepsAll k st kind key)
      reconcile_request-keeps (for_cluster_stream req) s =
          reconcile_cluster_stream-keeps k st kind key req s
      reconcile_request-keeps (for_table req) s = λ h. h

      pub operate-keeps :
          (requests : List Request) (s : Session World)
          → st.Shown kind key s.world
          → st.Shown kind key (operate requests s).world
      unfolding operate
      operate-keeps [] s h = h
      operate-keeps (q ∷ requests) s h =
          operate-keeps requests (reconcile_request q s).1 (reconcile_request-keeps q s h)

      module _ (keeps : KeepsKey k) where
        new_deployment_once :
            (d : Deployment) (s : Session World)
            → ¬ Posts kind key (post_deployment d)
            → CallsNone (Posts kind key) s (call (post_deployment d) (k.create_deployment d) s).1
        new_deployment_once d s =
            call-CallsNone (Posts kind key) (post_deployment d) (k.create_deployment d) s

        deployment_clash :
            (d : Deployment) (w : World)
            → Posts kind key (post_deployment d)
            → st.Shown kind key w
            → st.Shown deployment_kind (deployment_name k st keeps d) w
        deployment_clash d w = clash st kind key deployment_kind (deployment_name k st keeps d) w

        reconcile_request-once :
            (q : Request) (s : Session World)
            → st.Shown kind key s.world
            → CallsNone (Posts kind key) s (reconcile_request q s).1
        unfolding reconcile_request reconcile_table
        reconcile_request-once (for_stream req) s =
            reconcile-once (Posts kind key) (reads_post_none kind key) (stream_controller k)
              (st.Shown subscription_kind) (subscription_name k st keeps) (st.Shown kind key)
              post_subscription req s (stream-IsReader k) (stream-KeepsAll k st kind key)
              (stream-IsCached k st keeps)
              (λ d t.
                call-CallsNone (Posts kind key) (post_subscription d) (k.create_subscription d) t)
              (λ d w. clash st kind key subscription_kind (subscription_name k st keeps d) w)
        reconcile_request-once (for_channel req) s =
            reconcile-once (Posts kind key) (reads_post_none kind key) (channel_controller k)
              (st.Shown deployment_kind) (deployment_name k st keeps) (st.Shown kind key)
              post_deployment req s (channel-IsReader k) (channel-KeepsAll k st kind key)
              (channel-IsCached k st keeps) new_deployment_once deployment_clash
        reconcile_request-once (for_joiner req) s =
            reconcile-once (Posts kind key) (reads_post_none kind key) (joiner_controller k)
              (st.Shown deployment_kind) (deployment_name k st keeps) (st.Shown kind key)
              post_deployment req s (joiner-IsReader k) (joiner-KeepsAll k st kind key)
              (joiner-IsCached k st keeps) new_deployment_once deployment_clash
        reconcile_request-once (for_processor req) s =
            reconcile-once (Posts kind key) (reads_post_none kind key) (processor_controller k)
              (st.Shown deployment_kind) (deployment_name k st keeps) (st.Shown kind key)
              post_deployment req s (processor-IsReader k) (processor-KeepsAll k st kind key)
              (processor-IsCached k st keeps) new_deployment_once deployment_clash
        reconcile_request-once (for_cluster_stream req) s =
            reconcile_cluster_stream-once k st keeps kind key req s
        reconcile_request-once (for_table req) s = λ h. CallsAll-refl (λ c. ¬ Posts kind key c) s

        operate_calls :
            (requests : List Request) (s : Session World)
            → st.Shown kind key s.world
            → CallsNone (Posts kind key) s (operate requests s)
        unfolding operate
        operate_calls [] s h = CallsAll-refl (λ c. ¬ Posts kind key c) s
        operate_calls (q ∷ requests) s h =
            let s' = (reconcile_request q s).1 in
            CallsAll-trans (λ c. ¬ Posts kind key c) s s' (operate requests s')
              (reconcile_request-once q s h)
              (operate_calls requests s' (reconcile_request-keeps q s h))

        -- An object that the client's cache shows is shown throughout every run of reconciles of all the
        -- controllers, and none of them creates one of its kind and name again, if a Get reports missing
        -- only what the cache does not show, the cache keeps showing what it shows, as it does while
        -- nobody deletes it, and SetControllerReference keeps names and namespaces. Of an object that is
        -- created and not yet shown by the cache nothing is said.
        pub operate-once :
            (requests : List Request) (s : Session World)
            → st.Shown kind key s.world
            → st.Shown kind key (operate requests s).world
              × CallsNone (Posts kind key) s (operate requests s)
        operate-once requests s h = (operate-keeps requests s h, operate_calls requests s h)
