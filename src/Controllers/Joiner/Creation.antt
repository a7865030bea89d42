-- ===== src/Controllers/Joiner/Creation.antt =====
-- createJoinerDeployment as a whole: what it reads, and what the deployment that it makes runs.
use streaming_runtime_go.Prelude.{
  Text, Lacks, List, [], ◌∷◌, Bool-cases, inl, inr, ◌&&◌, Outcome, ok, fail, panic, index,
  assert_some, >>=-eq-ok, ok-injective, fail-ne-ok, is_empty, length, ◌==◌, ==_iff, ◌≡◌, refl, sym,
  ap, ◌∙◌, subst, arith, pos, getenv, lookup, text_eq, Dict,
}
use streaming_runtime_go.Extern.{Extern}
use streaming_runtime_go.Api.{
  Container, Deployment, OutputTarget, StreamSetup, StreamResource, StreamSpec, JoinerSpec,
  JoinerResource,
}
use streaming_runtime_go.Controllers.Client.{Client, Session, call, get, and_then, stream_kind}
use streaming_runtime_go.Controllers.Owned.{KeepsKey, IsDeploymentOf, own_deployment-IsDeploymentOf}
use streaming_runtime_go.Controllers.Joiner.{
  stream_info, joiner_env, check_stream_setup, joiner_container, collate_stream_info, deploy_joiner,
  create_joiner_deployment,
}
use streaming_runtime_go.Controllers.Channel.Environment.{env_vars}
use streaming_runtime_go.Controllers.Joiner.Environment.{get_subscription-stream_info}
use streaming_runtime_go.Joiner.Setup.{
  stream_from_0_env, stream_from_1_env, Subscription, get_subscription, Settings, boot,
}
use streaming_runtime_go.Joiner.Setup.Boot.{boot_joiner-IsReady}

and_then-eq-ok :
    {W A B : Type 0} (r : Outcome A × Session W) (f : A → Session W → Outcome B × Session W) {b : B}
    {t : Session W}
    → and_then r f ≡ (ok b, t)
    → (a : A) × (s : Session W) × (r ≡ (ok a, s)) × (f a s ≡ (ok b, t))
unfolding and_then
and_then-eq-ok (ok a, s) f h = (a, s, refl, h)
and_then-eq-ok (fail e, s) f h = absurd (fail-ne-ok (ap (λ q. q.0) h))
and_then-eq-ok (panic m, s) f h = absurd (cc (ap (λ q. q.0) h))

-- A list of two.
two_of : {A : Type 0} (l : List A) → length l ≡ 2 → (a b : A) × (l ≡ a ∷ b ∷ [])
two_of [] h = absurd (omega (arith, h))
two_of (a ∷ []) h = absurd (omega (arith, h))
two_of (a ∷ b ∷ []) h = (a, b, refl)
two_of (a ∷ b ∷ c ∷ l) h = absurd (omega (arith, h))

check_stream_setup-length :
    (spec : JoinerSpec) (stream : StreamSetup) (to : OutputTarget)
    → check_stream_setup spec ≡ ok (stream, to)
    → length stream.sources ≡ 2
unfolding check_stream_setup
check_stream_setup-length spec stream to h =
    let (stream', p, q) = >>=-eq-ok (assert_some spec.stream) _ h in
    elim (Bool-cases (length stream'.sources == 2)) [
      | inr e ↦ absurd (fail-ne-ok (rw e at q))
      | inl e ↦
          let (to', p', q') = >>=-eq-ok (index stream'.to 0) _ (rw e at q) in
          elim (Bool-cases (is_empty to'.stream && is_empty to'.component)) [
            | inl f ↦ absurd (fail-ne-ok (rw f at q'))
            | inr f ↦
                let same : stream' ≡ stream =
                  ap (λ (r : StreamSetup × OutputTarget). r.0) (ok-injective (rw f at q')) in
                ap (λ (r : StreamSetup). length r.sources) (sym same)
                ∙ (==_iff (length stream'.sources) 2).0 e
          ]
    ]

module _ (k : Client) where
  open k use {World, get_stream}

  -- The read of a stream.
  abbrev pub read_stream : Text → Text → Session World → Outcome StreamResource × Session World
  read_stream namespace name =
      call (get stream_kind (record { name = name; namespace = namespace }))
        (get_stream (record { name = name; namespace = namespace }))

  collate_two :
      (namespace name_a name_b : Text) (s t : Session World) (infos : List Text)
      → collate_stream_info k namespace (name_a ∷ name_b ∷ []) [] s ≡ (ok infos, t)
      → (a b : StreamResource) × (u : Session World) × (read_stream namespace name_a s ≡ (ok a, u))
        × (read_stream namespace name_b u ≡ (ok b, t))
        × (infos ≡ stream_info a.spec ∷ stream_info b.spec ∷ [])
  unfolding collate_stream_info
  collate_two namespace name_a name_b s t infos h =
      let (a, u, ra, ha) = and_then-eq-ok (read_stream namespace name_a s) _ h in
      let (b, v, rb, hb) = and_then-eq-ok (read_stream namespace name_b u) _ ha in
      (
        a,
        b,
        u,
        ra,
        rb ∙ ap (λ (q : Outcome (List Text) × Session World). (ok b, q.1)) hb,
        sym (ok-injective (ap (λ (q : Outcome (List Text) × Session World). q.0) hb)),
      )

  -- What a successful createJoinerDeployment has done: it has read the two streams that the joiner
  -- names, in the joiner's namespace, and has made the deployment of a container that is told of both.
  pub record Deploys (joiner : JoinerResource) (d : Deployment) (s t : Session World) : Type 0 where
    pub stream : StreamSetup
    pub to : OutputTarget
    pub name_a : Text
    pub name_b : Text
    pub a : StreamResource
    pub b : StreamResource
    pub between : Session World
    pub container : Container
    pub checked : check_stream_setup joiner.spec ≡ ok (stream, to)
    pub sources : stream.sources ≡ name_a ∷ name_b ∷ []
    pub read_a : read_stream joiner.meta.namespace name_a s ≡ (ok a, between)
    pub read_b : read_stream joiner.meta.namespace name_b between ≡ (ok b, t)
    pub made :
        joiner_container joiner stream to (stream_info a.spec ∷ stream_info b.spec ∷ [])
        ≡ ok container
    pub deployed : IsDeploymentOf k joiner.meta joiner.spec.service_port container d

  deploys_lem :
      (joiner : JoinerResource) (d : Deployment) (s t : Session World)
      → KeepsKey k
      → (stream : StreamSetup) (to : OutputTarget) (infos : List Text)
      → check_stream_setup joiner.spec ≡ ok (stream, to)
      → collate_stream_info k joiner.meta.namespace stream.sources [] s ≡ (ok infos, t)
      → deploy_joiner k joiner stream to infos ≡ ok d
      → Deploys joiner d s t
  unfolding deploy_joiner
  deploys_lem joiner d s t keeps stream to infos c h r =
      let (name_a, name_b, names) =
        two_of stream.sources (check_stream_setup-length joiner.spec stream to c) in
      let (a, b, u, ra, rb, e) =
        collate_two joiner.meta.namespace name_a name_b s t infos (rw names at h) in
      let (container, m, q) = >>=-eq-ok (joiner_container joiner stream to infos) _ r in
      record {
        stream = stream;
        to = to;
        name_a = name_a;
        name_b = name_b;
        a = a;
        b = b;
        between = u;
        container = container;
        checked = c;
        sources = names;
        read_a = ra;
        read_b = rb;
        made = rw e at m;
        deployed =
            own_deployment-IsDeploymentOf k joiner.meta (pos 1) joiner.spec.service_port container d
              keeps refl q;
      }

  pub create_joiner_deployment-Deploys :
      (joiner : JoinerResource) (d : Deployment) (s t : Session World)
      → KeepsKey k
      → create_joiner_deployment k joiner s ≡ (ok d, t)
      → Deploys joiner d s t
  unfolding create_joiner_deployment
  create_joiner_deployment-Deploys joiner d s t keeps h =
      let ((stream, to), s0, e0, h0) = and_then-eq-ok (check_stream_setup joiner.spec, s) _ h in
      let (infos, t', e1, h1) =
        and_then-eq-ok (collate_stream_info k joiner.meta.namespace stream.sources [] s0) _ h0 in
      deploys_lem joiner d s t keeps stream to infos
        (ap (λ (q : Outcome (StreamSetup × OutputTarget) × Session World). q.0) e0)
        (ap (λ (u : Session World). collate_stream_info k joiner.meta.namespace stream.sources [] u)
            (ap (λ (q : Outcome (StreamSetup × OutputTarget) × Session World). q.1) e0)
          ∙ e1
          ∙ ap (λ (q : Outcome Deployment × Session World). (ok infos, q.1)) h1)
        (ap (λ (q : Outcome Deployment × Session World). q.0) h1)

-- A stream whose cluster stream, topic and route have no bar in them.
pub record IsPlain (spec : StreamSpec) : Type 0 where
  pub cluster_stream : Lacks b'|' spec.cluster_stream
  pub topic : Lacks b'|' spec.topic
  pub route : Lacks b'|' spec.route

joiner_container-sources :
    (joiner : JoinerResource) (stream : StreamSetup) (to : OutputTarget) (info_0 info_1 : Text)
    (container : Container) (others : Dict Text)
    → joiner_container joiner stream to (info_0 ∷ info_1 ∷ []) ≡ ok container
    → (getenv stream_from_0_env (env_vars container.env others) ≡ info_0)
      × (getenv stream_from_1_env (env_vars container.env others) ≡ info_1)
unfolding joiner_container joiner_env lookup text_eq
joiner_container-sources joiner stream to info_0 info_1 container others h =
    subst
      (λ (c : Container).
        (getenv stream_from_0_env (env_vars c.env others) ≡ info_0)
        × (getenv stream_from_1_env (env_vars c.env others) ≡ info_1))
      (ok-injective h) (refl, refl)

subscribed_topic :
    (spec : StreamSpec) (s : Subscription)
    → IsPlain spec
    → get_subscription (stream_info spec) ≡ ok s
    → s.topic ≡ spec.topic
subscribed_topic spec s p h =
    ap (λ (r : Subscription). r.topic)
      (ok-injective (sym h ∙ get_subscription-stream_info spec p.cluster_stream p.topic p.route))

-- A joiner that main sets up in the container of the deployment which was made for it, whatever other variables its
-- environment has, joins the topics
-- of the two streams that the controller read, in their order, if the fields of these streams have no
-- bar in them.
pub boot-Deploys :
    (x : Extern) (k : Client) (joiner : JoinerResource) (d : Deployment) (s t : Session k.World)
    (v : Deploys k joiner d s t) (container : Container) (others : Dict Text) (st : Settings x)
    → IsPlain v.a.spec
    → IsPlain v.b.spec
    → d.containers ≡ container ∷ []
    → boot x (env_vars container.env others) ≡ ok st
    → st.joiner.topics ≡ v.a.spec.topic ∷ v.b.spec.topic ∷ []
boot-Deploys x k joiner d s t v container others st pa pb runs h =
    let (e0, e1) =
      joiner_container-sources joiner v.stream v.to (stream_info v.a.spec) (stream_info v.b.spec)
        v.container others v.made in
    let same : container ≡ v.container = cc (sym runs ∙ v.deployed.runs) in
    let r = boot_joiner-IsReady x (env_vars v.container.env others) st (rw same at h) in
    let (sa, ga, ta) = r.subscription_a in
    let (sb, gb, tb) = r.subscription_b in
    let topic_a : r.ta ≡ v.a.spec.topic =
      sym ta ∙ subscribed_topic v.a.spec sa pa (ap get_subscription (sym e0) ∙ ga) in
    let topic_b : r.tb ≡ v.b.spec.topic =
      sym tb ∙ subscribed_topic v.b.spec sb pb (ap get_subscription (sym e1) ∙ gb) in
    r.topics
    ∙ ap (λ (u : Text). u ∷ r.tb ∷ []) topic_a
    ∙ ap (λ (u : Text). v.a.spec.topic ∷ u ∷ []) topic_b
