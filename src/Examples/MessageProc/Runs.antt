-- ===== src/Examples/MessageProc/Runs.antt =====
-- The example processor in the deployment that the controller makes for it.
use streaming_runtime_go.Prelude.{
  Text, codes, text_eq, List, [], ◌∷◌, ◌++◌, Option, none, some, Bool-cases, inl, inr, lookup, Dict,
  getenv, or_default, ok, wrap, ◌>>=◌, ◌≡◌, ◌≢◌, refl, ap, ◌∙◌,
}
use streaming_runtime_go.Extern.{Extern}
use streaming_runtime_go.Api.{EnvVar, ProcessorResource}
use streaming_runtime_go.Controllers.Channel.{listen_address}
use streaming_runtime_go.Controllers.Channel.Environment.{env_vars}
use streaming_runtime_go.Controllers.Processor.{processor_env, processor_container}
use streaming_runtime_go.Examples.MessageProc.{
  port_env, route_env, app_id_env, Service, read_service, boot,
}

-- A variable that the first list does not have has its value from the second.
lookup-env_vars :
    (name : Text) (vs ws : List EnvVar) (others : Dict Text)
    → lookup name (env_vars vs []) ≡ none
    → lookup name (env_vars (vs ++ ws) others) ≡ lookup name (env_vars ws others)
unfolding lookup
lookup-env_vars name [] ws others h = refl
lookup-env_vars name (v ∷ vs) ws others h = elim (Bool-cases (text_eq v.name name)) [
  | inl e ↦ absurd (cc (rw e at h))
  | inr e ↦ rw e (lookup-env_vars name vs ws others (rw e at h))
]

getenv-env_vars :
    (name : Text) (vs ws : List EnvVar) (others : Dict Text)
    → lookup name (env_vars vs []) ≡ none
    → getenv name (env_vars (vs ++ ws) others) ≡ getenv name (env_vars ws others)
getenv-env_vars name vs ws others h =
    ap (λ (o : Option Text). elim o [ none ↦ [] | some v ↦ v ])
      (lookup-env_vars name vs ws others h)

-- The route that the controller hands over.
abbrev pub route_of : ProcessorResource → Text
route_of proc = or_default proc.spec.service_route proc.meta.name

or_default_ne : (s t : Text) → t ≢ [] → or_default s t ≢ []
or_default_ne [] t n = n
or_default_ne (c ∷ s) t n = λ e. cc e

or_default_self : (s t : Text) → s ≢ [] → or_default s t ≡ s
or_default_self [] t n = absurd (n refl)
or_default_self (c ∷ s) t n = refl

read_service_lem :
    (proc : ProcessorResource) (others : Dict Text)
    → lookup port_env (env_vars proc.spec.container.env []) ≡ none
    → lookup route_env (env_vars proc.spec.container.env []) ≡ none
    → proc.meta.name ≢ []
    → read_service (env_vars (proc.spec.container.env ++ processor_env proc) others)
      ≡ record { port = listen_address proc.spec.service_port; route = route_of proc }
unfolding lookup text_eq processor_env
read_service_lem proc others p r n =
    let own = proc.spec.container.env in
    let added = processor_env proc in
    let route = route_of proc in
    let env = env_vars (own ++ added) others in
    ap
      (λ (t : Text). record {
        port = or_default t (codes ":8080");
        route = or_default (getenv route_env env) (getenv app_id_env env);
      })
      (getenv-env_vars port_env own added others p)
    ∙ ap
        (λ (t : Text). record {
          port = listen_address proc.spec.service_port;
          route = or_default t (getenv app_id_env env);
        })
        (getenv-env_vars route_env own added others r)
    ∙ ap (λ (t : Text). record { port = listen_address proc.spec.service_port; route = t })
        (or_default_self route (getenv app_id_env env)
          (or_default_ne proc.spec.service_route proc.meta.name n))

-- A processor whose container runs the example, has no variable of its own under the two names, and
-- whose resource has a name: the program listens at the port of the specification, and it registers
-- its handler under the service route, or under the name of the processor when there is no route,
-- whatever other variables its environment has.
pub processor_container-boot :
    (x : Extern) (proc : ProcessorResource) (others : Dict Text)
    → lookup port_env (env_vars proc.spec.container.env []) ≡ none
    → lookup route_env (env_vars proc.spec.container.env []) ≡ none
    → proc.meta.name ≢ []
    → boot x (env_vars (processor_container proc).env others) ≡ (
        wrap
          (codes "Failed to add orders handler: ")
          (x.add_service_invocation_handler (route_of proc))
        >>= λ _.
            ok (record { port = listen_address proc.spec.service_port; route = route_of proc }))
unfolding boot processor_container
processor_container-boot x proc others p r n =
    ap
      (λ (s : Service).
        wrap (codes "Failed to add orders handler: ") (x.add_service_invocation_handler s.route)
        >>= λ _. ok s)
      (read_service_lem proc others p r n)
