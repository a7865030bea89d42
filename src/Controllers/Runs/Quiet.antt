-- ===== src/Controllers/Runs/Quiet.antt =====
-- Once the cache shows the object of a resource, the controllers come to rest.
use streaming_runtime_go.Prelude.{Outcome, List, ok, ◌≡◌, refl, sym, ◌∙◌, subst}
use streaming_runtime_go.Api.{
  NamespacedName, StreamResource, ChannelResource, JoinerResource, ProcessorResource,
}
use streaming_runtime_go.Controllers.Client.{
  Client, subscription_kind, component_kind, deployment_kind, stream_kind, channel_kind,
  joiner_kind, processor_kind, Session, get, call, finished, Reconciled,
}
use streaming_runtime_go.Controllers.Cache.{Cache}
use streaming_runtime_go.Controllers.Cache.Health.{
  Updates, IsHealthy, Replies, call-answer, reconcile_of_shown, reconcile_cluster_stream_of_shown,
}
use streaming_runtime_go.Controllers.Channel.{channel_controller}
use streaming_runtime_go.Controllers.Joiner.{joiner_controller}
use streaming_runtime_go.Controllers.Processor.{processor_controller}
use streaming_runtime_go.Controllers.Stream.{stream_controller}
use streaming_runtime_go.Controllers.Table.{reconcile_table}
use streaming_runtime_go.Controllers.Cache.Owners.{
  stream-KeepsAll, channel-KeepsAll, processor-KeepsAll, joiner-KeepsAll,
}
use streaming_runtime_go.Controllers.Runs.{
  Request, for_stream, for_channel, for_joiner, for_processor, for_cluster_stream, for_table,
  reconcile_request, operate, operate-keeps,
}

module _ (k : Client) where
  -- How a reconcile of the request ends once its object is shown.
  abbrev pub Rests : Request → Session k.World → Outcome Reconciled × Session k.World → Type 0
  Rests (for_cluster_stream req) s q = Updates k req s q
  Rests (for_stream req) s q = q.0 ≡ ok finished
  Rests (for_channel req) s q = q.0 ≡ ok finished
  Rests (for_joiner req) s q = q.0 ≡ ok finished
  Rests (for_processor req) s q = q.0 ≡ ok finished
  Rests (for_table req) s q = q.0 ≡ ok finished

module _ (k : Client) (st : Cache k) where
  open k use {World}

  -- The cache shows the object that the controller owns for the request's resource.
  abbrev pub IsProvided : Request → World → Type 0
  IsProvided (for_stream req) = st.Shown subscription_kind req
  IsProvided (for_channel req) = st.Shown deployment_kind req
  IsProvided (for_joiner req) = st.Shown deployment_kind req
  IsProvided (for_processor req) = st.Shown deployment_kind req
  IsProvided (for_cluster_stream req) = st.Shown component_kind req
  IsProvided (for_table req) = λ w. Unit

  operate-IsProvided :
      (q : Request) (requests : List Request) (s : Session World)
      → IsProvided q s.world
      → IsProvided q (operate k requests s).world
  operate-IsProvided (for_stream req) requests s h =
      operate-keeps k st subscription_kind req requests s h
  operate-IsProvided (for_channel req) requests s h =
      operate-keeps k st deployment_kind req requests s h
  operate-IsProvided (for_joiner req) requests s h =
      operate-keeps k st deployment_kind req requests s h
  operate-IsProvided (for_processor req) requests s h =
      operate-keeps k st deployment_kind req requests s h
  operate-IsProvided (for_cluster_stream req) requests s h =
      operate-keeps k st component_kind req requests s h
  operate-IsProvided (for_table req) requests s h = tt

  module _ (healthy : IsHealthy k st) where
    finds :
        (req : NamespacedName) (s : Session World)
        → st.Shown deployment_kind req s.world
        → (d : _) × ((call (get deployment_kind req) (k.get_deployment req) s).0 ≡ ok d)
    finds req s h =
        let (d, q) = healthy.finds_deployment req s.world h in
        (d, call-answer (get deployment_kind req) (k.get_deployment req) s ∙ q)

    request_of_shown :
        (q : Request) (s : Session World)
        → IsProvided q s.world
        → Rests k q s (reconcile_request k q s)
    unfolding reconcile_request reconcile_table
    request_of_shown (for_stream req) s h =
        reconcile_of_shown (stream_controller k) (st.Shown subscription_kind req) req s
          (subst (Replies (λ (p : StreamResource). p.meta) req)
            (sym (call-answer (get stream_kind req) (k.get_stream req) s))
            (healthy.reads_stream req s.world))
          ((stream-KeepsAll k st subscription_kind req).fetch_keeps req)
          (λ t g.
            let (d, q) = healthy.finds_subscription req t.world g in
            (d, call-answer (get subscription_kind req) (k.get_subscription req) t ∙ q))
          h
    request_of_shown (for_channel req) s h =
        reconcile_of_shown (channel_controller k) (st.Shown deployment_kind req) req s
          (subst (Replies (λ (p : ChannelResource). p.meta) req)
            (sym (call-answer (get channel_kind req) (k.get_channel req) s))
            (healthy.reads_channel req s.world))
          ((channel-KeepsAll k st deployment_kind req).fetch_keeps req) (finds req) h
    request_of_shown (for_joiner req) s h =
        reconcile_of_shown (joiner_controller k) (st.Shown deployment_kind req) req s
          (subst (Replies (λ (p : JoinerResource). p.meta) req)
            (sym (call-answer (get joiner_kind req) (k.get_joiner req) s))
            (healthy.reads_joiner req s.world))
          ((joiner-KeepsAll k st deployment_kind req).fetch_keeps req) (finds req) h
    request_of_shown (for_processor req) s h =
        reconcile_of_shown (processor_controller k) (st.Shown deployment_kind req) req s
          (subst (Replies (λ (p : ProcessorResource). p.meta) req)
            (sym (call-answer (get processor_kind req) (k.get_processor req) s))
            (healthy.reads_processor req s.world))
          ((processor-KeepsAll k st deployment_kind req).fetch_keeps req) (finds req) h
    request_of_shown (for_cluster_stream req) s h =
        reconcile_cluster_stream_of_shown k st healthy req s h
    request_of_shown (for_table req) s h = refl

    -- Once the client's cache shows the object of a resource, every reconcile of the resource, after
    -- any other reconciles, ends without an error and does not ask to be run again, or, of a cluster
    -- stream, ends with the error that the API server answered to the update of the status; if the
    -- cache answers every Get with the object that it shows or reports it missing, and keeps showing
    -- what it shows, as it does while nobody deletes it, and the update of a status does not panic.
    pub operate-finished :
        (q : Request) (requests : List Request) (s : Session World)
        → IsProvided q s.world
        → Rests k q (operate k requests s) (reconcile_request k q (operate k requests s))
    operate-finished q requests s h =
        request_of_shown q (operate k requests s) (operate-IsProvided q requests s h)
