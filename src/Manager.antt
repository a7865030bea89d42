-- ===== src/Manager.antt =====
-- main.go, the init functions of api/v1alpha1 with groupversion_info.go, and the SetupWithManager
-- methods of controllers/. controller-runtime's manager is a parameter: what each of its calls answers
-- is left open.
pub mod Starts
pub mod Kinds
use streaming_runtime_go.Prelude.{
  Text, codes, List, [], ◌∷◌, ◌++◌, Outcome, ok, fail, panic, Error, ◌>>=◌, Bool, false, ℤ, pos,
}
use streaming_runtime_go.Controllers.Client.{
  Kind, stream_kind, cluster_stream_kind, channel_kind, joiner_kind, processor_kind, table_kind,
  subscription_kind, component_kind, deployment_kind,
}

-- schema.GroupVersion
pub record GroupVersion : Type 0 where
  pub group : Text
  pub version : Text

abbrev pub group_version : GroupVersion
group_version = record { group = codes "streaming.vivien.io"; version = codes "v1alpha1" }

-- SchemeBuilder after the init functions of the package, which Go runs in the order of the files'
-- names: the kinds that AddToScheme registers, each with its list.
abbrev pub scheme_builder : List Kind
scheme_builder =
    channel_kind ∷ cluster_stream_kind ∷ joiner_kind ∷ processor_kind ∷ stream_kind ∷ table_kind
    ∷ []

-- utilruntime.Must
abbrev pub must {ℓ} : {A : Type ℓ} → Outcome A → Outcome A
must (ok a) = ok a
must (fail e) = panic e.message
must (panic m) = panic m

-- init: the kinds of the manager's scheme, from those of client-go and of dapr's two packages
unfoldable pub init_scheme :
    Outcome (List Kind) → Outcome (List Kind) → Outcome (List Kind) → Outcome (List Kind)
init_scheme client_go dapr_components dapr_subscriptions = do
  a ← must client_go
  b ← must dapr_components
  c ← must dapr_subscriptions
  d ← must (ok scheme_builder)
  ok (a ++ (b ++ (c ++ d)))

-- What SetupWithManager asks for: the kind that is reconciled, and the kinds whose objects, when they
-- change, have their owner reconciled.
pub record Registration : Type 0 where
  pub reconciles : Kind
  pub owns : List Kind

-- The SetupWithManager methods.
abbrev pub cluster_stream_registration : Registration
cluster_stream_registration = record {
  reconciles = cluster_stream_kind;
  owns = component_kind ∷ [];
}

abbrev pub stream_registration : Registration
stream_registration = record { reconciles = stream_kind; owns = subscription_kind ∷ [] }

abbrev pub processor_registration : Registration
processor_registration = record { reconciles = processor_kind; owns = deployment_kind ∷ [] }

abbrev pub joiner_registration : Registration
joiner_registration = record { reconciles = joiner_kind; owns = deployment_kind ∷ [] }

abbrev pub channel_registration : Registration
channel_registration = record { reconciles = channel_kind; owns = deployment_kind ∷ [] }

abbrev pub table_registration : Registration
table_registration = record { reconciles = table_kind; owns = [] }

-- ctrl.Options, without the scheme
pub record Options : Type 0 where
  pub metrics_bind_address : Text
  pub port : ℤ
  pub health_probe_bind_address : Text
  pub leader_election : Bool
  pub leader_election_id : Text

-- The options that main makes of its three flags.
abbrev pub manager_options : Text → Text → Bool → Options
manager_options metrics_addr probe_addr enable_leader_election = record {
  metrics_bind_address = metrics_addr;
  port = pos 9443;
  health_probe_bind_address = probe_addr;
  leader_election = enable_leader_election;
  leader_election_id = codes "873658fb.vivienv.io";
}

-- The options when no flag is given.
abbrev pub default_options : Options
default_options = manager_options (codes ":8080") (codes ":8081") false

-- The calls of main that may fail.
pub data Step : Type 0 where
  new_manager : Options → Step
  complete : Registration → Step
  add_healthz_check add_readyz_check : Text → Step
  start_manager : Step

unfoldable pub main_steps : Options → List Step
main_steps options =
    new_manager options
    ∷ complete cluster_stream_registration
    ∷ complete stream_registration
    ∷ complete processor_registration
    ∷ complete joiner_registration
    ∷ complete channel_registration
    ∷ complete table_registration
    ∷ add_healthz_check (codes "healthz")
    ∷ add_readyz_check (codes "readyz")
    ∷ start_manager
    ∷ []

-- How the process ends: main returns, it calls os.Exit(1) after an error, or it panics.
pub data Exit : Type 0 where
  returned : Exit
  exited : Error → Exit
  panicked : Text → Exit

-- The calls that were made, and the end.
pub record Ended : Type 0 where
  pub made : List Step
  pub exit : Exit

module _ {W : Type 0} (api : Step → W → Outcome (Unit {0}) × W) where
  -- `if err = …; err != nil { os.Exit(1) }`, one call after the other
  unfoldable pub run_steps : List Step → List Step → W → Ended
  run_steps [] made w = record { made = made; exit = returned }
  run_steps (s ∷ steps) made w =
      let (r, w') = api s w in
      elim r [
        | ok u ↦ run_steps steps (made ++ s ∷ []) w'
        | fail e ↦ record { made = made ++ s ∷ []; exit = exited e }
        | panic m ↦ record { made = made ++ s ∷ []; exit = panicked m }
      ]

  -- main
  unfoldable pub run_main : Options → W → Ended
  run_main options w = run_steps (main_steps options) [] w
