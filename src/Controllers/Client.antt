-- ===== src/Controllers/Client.antt =====
-- The API server as the reconcilers see it: controller-runtime's client, with what it answers left
-- open. `World` is everything behind the client; a call may change it in any way. A session logs the
-- calls that a reconciler makes.
use streaming_runtime_go.Prelude.{
  Text, List, [], ◌∷◌, ◌++◌, Outcome, ok, fail, panic, Error, Option, none, some, Bool, true, false,
}
use streaming_runtime_go.Api.{
  NamespacedName, ObjectMeta, StreamResource, ClusterStreamResource, ChannelResource,
  JoinerResource, ProcessorResource, DaprSubscription, DaprComponent, Deployment,
}

pub record Client : Type 1 where
  pub World : Type 0
  pub get_stream : NamespacedName → World → Outcome StreamResource × World
  pub get_cluster_stream : NamespacedName → World → Outcome ClusterStreamResource × World
  pub get_channel : NamespacedName → World → Outcome ChannelResource × World
  pub get_joiner : NamespacedName → World → Outcome JoinerResource × World
  pub get_processor : NamespacedName → World → Outcome ProcessorResource × World
  pub get_subscription : NamespacedName → World → Outcome DaprSubscription × World
  pub get_component : NamespacedName → World → Outcome DaprComponent × World
  pub get_deployment : NamespacedName → World → Outcome Deployment × World
  pub create_subscription : DaprSubscription → World → Outcome (Unit {0}) × World
  pub create_component : DaprComponent → World → Outcome (Unit {0}) × World
  pub create_deployment : Deployment → World → Outcome (Unit {0}) × World
  pub update_status : ClusterStreamResource → World → Outcome (Unit {0}) × World
  -- ctrl.SetControllerReference(owner, controlled, scheme): the metadata of the controlled object
  -- with the reference added
  pub set_controller_reference : ObjectMeta → ObjectMeta → Outcome ObjectMeta
  -- json.Marshal of a string
  pub marshal_string : Text → Outcome Text

pub data Kind : Type 0 where
  stream_kind cluster_stream_kind channel_kind joiner_kind processor_kind table_kind : Kind
  subscription_kind component_kind deployment_kind : Kind

pub data Call : Type 0 where
  get : Kind → NamespacedName → Call
  post_subscription : DaprSubscription → Call
  post_component : DaprComponent → Call
  post_deployment : Deployment → Call
  put_status : ClusterStreamResource → Call

abbrev pub IsRead : Call → Type 0
IsRead (get k key) = Unit
IsRead _ = ⊥

pub record Session (W : Type 0) : Type 0 where
  pub world : W
  pub calls : List Call

-- A method that calls the client.
abbrev pub Action : Type 0 → Type 0 → Type 0
Action W A = Session W → Outcome A × Session W

-- One call, logged.
unfoldable pub call : {W A : Type 0} → Call → (W → Outcome A × W) → Action W A
call c run s = let (r, w) = run s.world in (r, record { world = w; calls = s.calls ++ c ∷ [] })

-- `a, err := m; if err != nil { return nil, err }`
unfoldable pub and_then :
    {W A B : Type 0} → Outcome A × Session W → (A → Action W B) → Outcome B × Session W
and_then (ok a, s) f = f a s
and_then (fail e, s) f = (fail e, s)
and_then (panic m, s) f = (panic m, s)

-- What Reconcile returns: ctrl.Result's `Requeue`, and the error.
pub record Reconciled : Type 0 where
  pub requeue : Bool
  pub err : Option Error

abbrev pub finished : Reconciled
finished = record { requeue = false; err = none }

abbrev pub requeued : Reconciled
requeued = record { requeue = true; err = none }

abbrev pub failed : Error → Reconciled
failed e = record { requeue = false; err = some e }
