-- ===== src/Controllers/Channel/System.antt =====
-- A channel from its custom resource to its deliveries.
use streaming_runtime_go.Prelude.{
  Text, subst, Dict, getenv, or_default, none, List, [], ◌∷◌, ok, index, ◌≡◌, sym, ap, ◌∙◌,
}
use streaming_runtime_go.Extern.{Extern, IsDocumented}
use streaming_runtime_go.Api.{Container, Deployment, OutputTarget, ChannelResource}
use streaming_runtime_go.Support.{InvocationEvent, get_target_parts, sanitize_identifier}
use streaming_runtime_go.Controllers.Client.{Client}
use streaming_runtime_go.Controllers.Owned.{KeepsKey, create_chan_deployment-IsDeploymentOf}
use streaming_runtime_go.Controllers.Channel.{create_chan_deployment}
use streaming_runtime_go.Controllers.Channel.Environment.{env_vars, channel_container-IsHandedOver}
use streaming_runtime_go.Channel.Loops.{State, Reach}
use streaming_runtime_go.Channel.Pipeline.{emitted, all_deliveries}
use streaming_runtime_go.Channel.Pipeline.Steps.{Steps}
use streaming_runtime_go.Channel.Setup.{Settings, boot, app_id_env, stream_source}
use streaming_runtime_go.Channel.Setup.Boot.{Compiled, boot_channel-IsReady}
use streaming_runtime_go.Channel.System.{boot_channel-drains}

-- What a deployed channel can go on to: nothing waits, and all that the events give is delivered to
-- the first target of the specification; the channel reads the first source, and filters by the
-- condition.
pub record Delivers (x : Extern) (channel : ChannelResource) (env : Dict Text) (st : Settings x)
    (es : List InvocationEvent) (s : State) : Type 0 where
  pub to : OutputTarget
  pub target : index channel.spec.stream.to 0 ≡ ok to
  pub stream_parts : get_target_parts to.stream ≡ ok st.channel.target_stream_parts
  pub component_parts : get_target_parts to.component ≡ ok st.channel.target_component_parts
  pub source : Text
  pub first_source : index channel.spec.stream.sources 0 ≡ ok source
  pub reads :
      st.channel.stream_from ≡ or_default source (sanitize_identifier (getenv app_id_env env))
  pub filters :
      Compiled x channel.spec.stream.condition
        (x.new_map_var st.channel.stream_from ∷ [])
        none
        st.channel.filter_prog
  pub final : State
  pub steps : Steps x st.channel s final
  pub delivered : final.delivered ≡ emitted x st.channel es
  pub deliveries : final.deliveries ≡ all_deliveries x st.channel (emitted x st.channel es)

-- A channel that runs in the container of the deployment which was made for it, whatever other
-- variables its environment has: it reads the first
-- source of its specification and has the program of its condition as its filter, and from every state
-- that it reaches its two goroutines can go on, with no further event, until all that the received
-- events give is delivered, in their order, to the stream and the component of the first target, if
-- the libraries behave as documented and SetControllerReference keeps names and namespaces.
pub deployed_channel-Delivers :
    (x : Extern) (doc : IsDocumented x) (k : Client) (channel : ChannelResource) (d : Deployment)
    (container : Container) (others : Dict Text) (st : Settings x) (es : List InvocationEvent)
    (s : State)
    → KeepsKey k
    → create_chan_deployment k channel ≡ ok d
    → d.containers ≡ container ∷ []
    → boot x (env_vars container.env others) ≡ ok st
    → Reach x st.channel es s
    → Delivers x channel (env_vars container.env others) st es s
unfolding stream_source
deployed_channel-Delivers x doc k channel d container others st es s keeps c runs h reach =
    let (made, m, v) = create_chan_deployment-IsDeploymentOf k channel d keeps c in
    let same : made ≡ container = cc (sym v.runs ∙ runs) in
    let e = channel_container-IsHandedOver channel container others (m ∙ ap ok same) in
    let r = boot_channel-IsReady x (env_vars container.env others) st h in
    let (final, steps, delivered, deliveries) =
      boot_channel-drains x doc (env_vars container.env others) st h es s reach in
    record {
      to = e.to;
      target = e.first_target;
      stream_parts = ap get_target_parts (sym e.to_stream) ∙ r.stream_parts;
      component_parts = ap get_target_parts (sym e.to_component) ∙ r.component_parts;
      source = e.source;
      first_source = e.first_source;
      reads =
          r.source
          ∙ ap
              (λ (t : Text).
                or_default t
                  (sanitize_identifier (getenv app_id_env (env_vars container.env others))))
              e.stream_from;
      filters =
          subst
            (λ (t : Text).
              Compiled x t (x.new_map_var st.channel.stream_from ∷ []) none st.channel.filter_prog)
            e.filter r.filter_compiled;
      final = final;
      steps = steps;
      delivered = delivered;
      deliveries = deliveries;
    }
