-- ===== src/Controllers/Joiner/Environment.antt =====
-- What the deployment of a joiner hands to the component, and what the component makes of it.
use streaming_runtime_go.Prelude.{
  Option, Text, text_eq, Lacks, List, [], ◌∷◌, none, ◌||◌, Bool-cases, inl, inr, Dict, lookup,
  getenv, or_default, ok, index, >>=-eq-ok, ok-injective, fail-ne-ok, ◌≢◌, is_empty, if◌then◌else◌,
  ◌≡◌, refl, ◌∙◌, subst,
}
use streaming_runtime_go.Extern.{Extern}
use streaming_runtime_go.Api.{
  Container, OutputTarget, StreamSetup, StreamSpec, JoinerSpec, JoinerResource,
}
use streaming_runtime_go.Controllers.Helper.{validate_target}
use streaming_runtime_go.Controllers.Channel.{listen_address}
use streaming_runtime_go.Controllers.Channel.Environment.{env_vars}
use streaming_runtime_go.Controllers.Joiner.{stream_info, joiner_env, joiner_container}
use streaming_runtime_go.Joiner.Setup.{
  get_subscription, service_port_env, stream_from_0_env, stream_from_1_env, stream_to_component_env,
  stream_to_stream_env, stream_filter_env, stream_select_env, window_size_env, Settings, boot,
}
use streaming_runtime_go.Joiner.Setup.Subscriptions.{get_subscription_lem}
use streaming_runtime_go.Joiner.Setup.Boot.{Compiled, unset, compiled, boot_joiner-IsReady}

-- What the joiner subscribes to for a stream is what the Stream resource says, its topic standing in
-- for a missing route, if none of the three has a bar in it.
pub get_subscription-stream_info :
    (spec : StreamSpec)
    → Lacks b'|' spec.cluster_stream
    → Lacks b'|' spec.topic
    → Lacks b'|' spec.route
    → get_subscription (stream_info spec)
      ≡ ok (record {
        pubsub_name = spec.cluster_stream;
        topic = spec.topic;
        route = or_default spec.route spec.topic;
      })
unfolding stream_info
get_subscription-stream_info spec hc ht hr =
    get_subscription_lem spec.cluster_stream spec.topic (or_default spec.route spec.topic) hc ht
      (or_default-Lacks spec.route hr)
  where
    or_default-Lacks : (r : Text) → Lacks b'|' r → Lacks b'|' (if is_empty r then spec.topic else r)
    or_default-Lacks [] h = ht
    or_default-Lacks (c ∷ r) h = h

-- The environment of the joiner's process.
pub record IsHandedOver (spec : JoinerSpec) (stream : StreamSetup) (to : OutputTarget)
    (others env : Dict Text) : Type 0 where
  pub port : getenv service_port_env env ≡ listen_address spec.service_port
  pub to_stream : getenv stream_to_stream_env env ≡ validate_target to.stream
  pub to_component : getenv stream_to_component_env env ≡ validate_target to.component
  pub select : getenv stream_select_env env ≡ stream.select
  pub window : getenv window_size_env env ≡ spec.window
  -- the condition goes to JOINER_STREAM_WHERE, which the joiner does not read
  pub no_filter : getenv stream_filter_env env ≡ getenv stream_filter_env others

joiner_env-IsHandedOver :
    (spec : JoinerSpec) (stream : StreamSetup) (info_0 info_1 : Text) (to : OutputTarget)
    (others : Dict Text)
    → IsHandedOver spec stream to others (env_vars (joiner_env spec stream info_0 info_1 to) others)
unfolding joiner_env lookup text_eq
joiner_env-IsHandedOver spec stream info_0 info_1 to others = record {
  port = refl;
  to_stream = refl;
  to_component = refl;
  select = refl;
  window = refl;
  no_filter = refl;
}

-- The container that the controller makes for a joiner hands over the port, the targets, the select
-- expression and the window of its specification, and leaves the filter expression that the joiner
-- reads as the rest of the environment has it.
pub joiner_container-IsHandedOver :
    (joiner : JoinerResource) (stream : StreamSetup) (to : OutputTarget) (infos : List Text)
    (container : Container) (others : Dict Text)
    → joiner_container joiner stream to infos ≡ ok container
    → IsHandedOver joiner.spec stream to others (env_vars container.env others)
unfolding joiner_container
joiner_container-IsHandedOver joiner stream to infos container others h =
    let (info_0, _, h1) = >>=-eq-ok (index infos 0) _ h in
    let (info_1, _, h2) = >>=-eq-ok (index infos 1) _ h1 in
    subst (λ (c : Container). IsHandedOver joiner.spec stream to others (env_vars c.env others))
      (ok-injective h2) (joiner_env-IsHandedOver joiner.spec stream info_0 info_1 to others)

boot_no_component :
    (x : Extern) (env : Dict Text) (st : Settings x)
    → getenv stream_to_component_env env ≡ []
    → boot x env ≢ ok st
unfolding boot
boot_no_component x env st h =
    elim (Bool-cases
      (is_empty (getenv stream_from_0_env env) || is_empty (getenv stream_from_1_env env))) [
        | inl e ↦ rw e fail-ne-ok
        | inr e ↦ rw (e, h) fail-ne-ok
      ]

validate_target_of_nil : (target : Text) → target ≡ [] → validate_target target ≡ []
unfolding validate_target
validate_target_of_nil target h = rw h

no_program :
    (x : Extern) (variables : List x.Decl) {expr : Text} {p : Option x.Program}
    → expr ≡ []
    → Compiled x expr variables p
    → p ≡ none
no_program x variables e (unset _ n) = n
no_program x variables e (compiled prog n _ _) = absurd (n e)

module _ (x : Extern) (joiner : JoinerResource) (stream : StreamSetup) (to : OutputTarget)
    (infos : List Text) (container : Container) (others : Dict Text)
    (made : joiner_container joiner stream to infos ≡ ok container) where
  -- A joiner that starts in the container which the controller makes for it has no filter program,
  -- whatever the condition of its specification is, if nothing else in its environment, such as EnvFrom,
  -- sets the filter expression that it reads.
  pub joiner_container-no_filter :
      (st : Settings x)
      → getenv stream_filter_env others ≡ []
      → boot x (env_vars container.env others) ≡ ok st
      → st.joiner.filter_prog ≡ none
  joiner_container-no_filter st none_given h =
      let v = joiner_container-IsHandedOver joiner stream to infos container others made in
      let r = boot_joiner-IsReady x (env_vars container.env others) st h in
      no_program x _ (v.no_filter ∙ none_given) r.filter_compiled

  -- A joiner without a target component does not start in the container which the controller makes for
  -- it.
  pub joiner_container-no_component :
      (st : Settings x) → to.component ≡ [] → boot x (env_vars container.env others) ≢ ok st
  joiner_container-no_component st n =
      let v = joiner_container-IsHandedOver joiner stream to infos container others made in
      boot_no_component x (env_vars container.env others) st
        (v.to_component ∙ validate_target_of_nil to.component n)
