-- ===== src/Controllers/Kinds.antt =====
-- The four controllers read as `reconcile-calls` asks: only the creation of the object writes.
use streaming_runtime_go.Prelude.{Text, List, [], ◌∷◌, ◌++◌, Outcome, ok, fail, panic, ◌⊎◌}
use streaming_runtime_go.Api.{NamespacedName}
use streaming_runtime_go.Controllers.Client.{Client, Session, and_then}
use streaming_runtime_go.Controllers.Reconcile.{reconcile}
use streaming_runtime_go.Controllers.Reconcile.Calls.{
  get_reads, ReadsOnly, ReadsOnly-refl, ReadsOnly-trans, IsReader, Creates, reconcile-calls,
}
use streaming_runtime_go.Controllers.Channel.{channel_controller}
use streaming_runtime_go.Controllers.Joiner.{
  stream_info, check_stream_setup, collate_stream_info, create_joiner_deployment, joiner_controller,
}
use streaming_runtime_go.Controllers.Processor.{processor_controller}
use streaming_runtime_go.Controllers.Stream.{stream_controller}

and_then_reads :
    {W A B : Type 0} (s : Session W) (m : Outcome A × Session W)
    (f : A → Session W → Outcome B × Session W)
    → ReadsOnly s m.1
    → ((a : A) (t : Session W) → ReadsOnly t (f a t).1)
    → ReadsOnly s (and_then m f).1
unfolding and_then
and_then_reads s (ok a, t) f h k = ReadsOnly-trans s t (f a t).1 h (k a t)
and_then_reads s (fail e, t) f h k = h
and_then_reads s (panic m, t) f h k = h

module _ (k : Client) where
  open k use {
    World, get_stream, get_channel, get_joiner, get_processor, get_subscription, get_deployment,
  }

  pub channel-IsReader : IsReader (channel_controller k)
  channel-IsReader = record {
    fetch_reads = λ key. get_reads _ key (get_channel key);
    owned_reads = λ key. get_reads _ key (get_deployment key);
    build_reads = λ p. ReadsOnly-refl;
  }

  pub processor-IsReader : IsReader (processor_controller k)
  processor-IsReader = record {
    fetch_reads = λ key. get_reads _ key (get_processor key);
    owned_reads = λ key. get_reads _ key (get_deployment key);
    build_reads = λ p. ReadsOnly-refl;
  }

  pub stream-IsReader : IsReader (stream_controller k)
  stream-IsReader = record {
    fetch_reads = λ key. get_reads _ key (get_stream key);
    owned_reads = λ key. get_reads _ key (get_subscription key);
    build_reads = λ p. ReadsOnly-refl;
  }

  collate_reads :
      (namespace : Text) (names result : List Text) (s : Session World)
      → ReadsOnly s (collate_stream_info k namespace names result s).1
  unfolding collate_stream_info
  collate_reads namespace [] result s = ReadsOnly-refl s
  collate_reads namespace (name ∷ names) result s =
      let key : NamespacedName = record { name = name; namespace = namespace } in
      and_then_reads s _ _ (get_reads _ key (get_stream key) s)
        (λ stream. collate_reads namespace names (result ++ stream_info stream.spec ∷ []))

  pub joiner-IsReader : IsReader (joiner_controller k)
  unfolding create_joiner_deployment
  joiner-IsReader = record {
    fetch_reads = λ key. get_reads _ key (get_joiner key);
    owned_reads = λ key. get_reads _ key (get_deployment key);
    build_reads = λ joiner s.
        and_then_reads s (check_stream_setup joiner.spec, s) _ (ReadsOnly-refl s)
          (λ setup t. and_then_reads t _ _ (collate_reads _ _ [] t) (λ infos. ReadsOnly-refl));
  }

  -- Each of the four controllers writes nothing in a reconcile, unless its resource is there and not
  -- being deleted and its object is reported missing: then it creates the object, once and last.
  pub controllers-calls :
      (req : NamespacedName) (s : Session World)
      → (ReadsOnly s (reconcile (stream_controller k) req s).1
          ⊎ Creates (stream_controller k) req s (reconcile (stream_controller k) req s).1)
        × (ReadsOnly s (reconcile (processor_controller k) req s).1
            ⊎ Creates (processor_controller k) req s (reconcile (processor_controller k) req s).1)
        × (ReadsOnly s (reconcile (channel_controller k) req s).1
            ⊎ Creates (channel_controller k) req s (reconcile (channel_controller k) req s).1)
        × (ReadsOnly s (reconcile (joiner_controller k) req s).1
            ⊎ Creates (joiner_controller k) req s (reconcile (joiner_controller k) req s).1)
  controllers-calls req s = (
    reconcile-calls (stream_controller k) stream-IsReader req s,
    reconcile-calls (processor_controller k) processor-IsReader req s,
    reconcile-calls (channel_controller k) channel-IsReader req s,
    reconcile-calls (joiner_controller k) joiner-IsReader req s,
  )
