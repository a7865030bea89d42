-- ===== src/Controllers/Joiner/System.antt =====
-- A joiner from its custom resource to its deliveries.
use streaming_runtime_go.Prelude.{Text, Dict, List, [], ◌∷◌, ok, ◌≡◌, sym, ◌∙◌}
use streaming_runtime_go.Extern.{Extern, IsDocumented}
use streaming_runtime_go.Api.{Container, Deployment, JoinerResource}
use streaming_runtime_go.Controllers.Client.{Client, Session}
use streaming_runtime_go.Controllers.Channel.Environment.{env_vars}
use streaming_runtime_go.Controllers.Joiner.Creation.{Deploys, IsPlain, boot-Deploys}
use streaming_runtime_go.Joiner.Loops.{Signal}
use streaming_runtime_go.Joiner.Setup.{Settings, boot}
use streaming_runtime_go.Joiner.Pipeline.{State, Reach}
use streaming_runtime_go.Joiner.System.{Delivers, boot_joiner-Delivers}

-- A joiner that runs in the container of the deployment which the controller made for it, whatever
-- other variables its environment has: from every
-- state that it reaches, it can go on to a state in which nothing waits, and has then delivered to its
-- targets what the abstract view of the topics of the two streams that the controller read sends for
-- the signals taken, if the libraries behave as documented and the fields of these streams have no bar
-- in them.
pub deployed_joiner-Delivers :
    (x : Extern) (doc : IsDocumented x) (k : Client) (joiner : JoinerResource) (d : Deployment)
    (s t : Session k.World) (v : Deploys k joiner d s t) (container : Container)
    (others : Dict Text) (st : Settings x) (signals : List (Signal x.Value)) (r : State x.Value)
    → IsPlain v.a.spec
    → IsPlain v.b.spec
    → d.containers ≡ container ∷ []
    → boot x (env_vars container.env others) ≡ ok st
    → Reach x st.joiner st.loop.store signals r
    → (w : Delivers x st signals r) × (w.ta ≡ v.a.spec.topic) × (w.tb ≡ v.b.spec.topic)
deployed_joiner-Delivers x doc k joiner d s t v container others st signals r pa pb runs h reach =
    let w = boot_joiner-Delivers x doc (env_vars container.env others) st signals r h reach in
    let same = sym w.topics ∙ boot-Deploys x k joiner d s t v container others st pa pb runs h in
    (w, cc same, cc same)
