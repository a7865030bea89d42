-- ===== src/Controllers/Channel/Environment.antt =====
-- What the deployment of a channel hands to the component, and what the component makes of it.
use streaming_runtime_go.Prelude.{
  Text, codes, text_eq, List, [], ◌∷◌, false, Bool-cases, inl, inr, ◌&&◌, Dict, lookup, getenv, ok,
  index, >>=-eq-ok, ok-injective, fail-ne-ok, is_empty, ◌≡◌, refl, ap, ◌∙◌, subst,
}
use streaming_runtime_go.Extern.{Extern}
use streaming_runtime_go.Api.{EnvVar, Container, OutputTarget, ChannelSpec, ChannelResource}
use streaming_runtime_go.Controllers.Channel.{
  channel_mode, channel_env, channel_container, listen_address,
}
use streaming_runtime_go.Channel.Setup.{
  service_port_env, mode_env, stream_from_env, stream_to_stream_env, stream_to_component_env,
  stream_filter_env, stream_select_env, trigger_env, configure, boot,
}

-- The environment of a process: a container's variables, which come before all `others`: those that
-- its EnvFrom, its image and the cluster give.
abbrev pub env_vars : List EnvVar → Dict Text → Dict Text
env_vars [] others = others
env_vars (v ∷ vs) others = (v.name, v.value) ∷ env_vars vs others

-- Everything in the environment as the specification has it.
pub record IsHandedOver (spec : ChannelSpec) (env : Dict Text) : Type 0 where
  pub source : Text
  pub to : OutputTarget
  pub first_source : index spec.stream.sources 0 ≡ ok source
  pub first_target : index spec.stream.to 0 ≡ ok to
  pub has_target : (is_empty to.stream && is_empty to.component) ≡ false
  pub port : getenv service_port_env env ≡ listen_address spec.service_port
  pub mode : getenv mode_env env ≡ channel_mode spec.mode
  pub trigger : getenv trigger_env env ≡ spec.trigger
  pub stream_from : getenv stream_from_env env ≡ source
  pub to_stream : getenv stream_to_stream_env env ≡ to.stream
  pub to_component : getenv stream_to_component_env env ≡ to.component
  pub filter : getenv stream_filter_env env ≡ spec.stream.condition
  pub select : getenv stream_select_env env ≡ spec.stream.select

channel_env-IsHandedOver :
    (spec : ChannelSpec) (source : Text) (to : OutputTarget) (others : Dict Text)
    → index spec.stream.sources 0 ≡ ok source
    → index spec.stream.to 0 ≡ ok to
    → (is_empty to.stream && is_empty to.component) ≡ false
    → IsHandedOver spec (env_vars (channel_env spec source to) others)
unfolding channel_env lookup text_eq
channel_env-IsHandedOver spec source to others s t h = record {
  source = source;
  to = to;
  first_source = s;
  first_target = t;
  has_target = h;
  port = refl;
  mode = refl;
  trigger = refl;
  stream_from = refl;
  to_stream = refl;
  to_component = refl;
  filter = refl;
  select = refl;
}

-- A container that is made for a channel hands its specification over.
pub channel_container-IsHandedOver :
    (channel : ChannelResource) (container : Container) (others : Dict Text)
    → channel_container channel ≡ ok container
    → IsHandedOver channel.spec (env_vars container.env others)
unfolding channel_container
channel_container-IsHandedOver channel container others h =
    let (to, t, h1) = >>=-eq-ok (index channel.spec.stream.to 0) _ h in
    elim (Bool-cases (is_empty to.stream && is_empty to.component)) [
      | inl e ↦ absurd (fail-ne-ok (rw e at h1))
      | inr e ↦
          elim (Bool-cases (
            text_eq (channel_mode channel.spec.mode) (codes "aggregate")
            && is_empty channel.spec.trigger)) [
              | inl f ↦ absurd (fail-ne-ok (rw f at (rw e at h1)))
              | inr f ↦
                  let (source, s, h2) =
                    >>=-eq-ok (index channel.spec.stream.sources 0) _ (rw f at (rw e at h1)) in
                  subst (λ (c : Container). IsHandedOver channel.spec (env_vars c.env others))
                    (ok-injective h2) (channel_env-IsHandedOver channel.spec source to others s t e)
            ]
    ]

-- The container that the controller makes for a channel carries the specification to the component:
-- each variable that `main` reads has the field's value, and the set-up is not refused for a missing
-- target.
pub channel_container-boot :
    (x : Extern) (channel : ChannelResource) (container : Container) (others : Dict Text)
    → channel_container channel ≡ ok container
    → IsHandedOver channel.spec (env_vars container.env others)
      × (boot x (env_vars container.env others) ≡ configure x (env_vars container.env others))
unfolding boot
channel_container-boot x channel container others h =
    let v = channel_container-IsHandedOver channel container others h in
    (
      v,
      rw (
          ap
            (λ (t : Text).
              is_empty t
              && is_empty (getenv stream_to_component_env (env_vars container.env others)))
            v.to_stream
          ∙ ap (λ (t : Text). is_empty v.to.stream && is_empty t) v.to_component
          ∙ v.has_target),
    )
