-- ===== src/Joiner/System.antt =====
-- A joiner from the environment of its process to what it sends.
use streaming_runtime_go.Prelude.{
  none, sym, ap, ◌∙◌, Text, List, [], ◌∷◌, Dict, Outcome, ok, fail, panic, true, ◌≡◌, refl, subst,
  ok-injective,
}
use streaming_runtime_go.Extern.{Extern, IsDocumented}
use streaming_runtime_go.Joiner.Loops.{Signal, InputLoop, input_run, content, output_step}
use streaming_runtime_go.Joiner.Window.{Holds, WindowView, view_run, Shows, Agree}
use streaming_runtime_go.Joiner.Window.Runs.{input_run-Agree}
use streaming_runtime_go.Joiner.Safety.{input_run-total}
use streaming_runtime_go.Joiner.Deliveries.{output_step-deliveries, deliveries}
use streaming_runtime_go.Deliveries.{get_target_parts-IsTarget}
use streaming_runtime_go.Joiner.Pipeline.{State, Reach, Works}
use streaming_runtime_go.Joiner.Pipeline.Simulates.{fresh}
use streaming_runtime_go.Joiner.Pipeline.Progress.{all_deliveries, IsResponsive, Reach-Drains}
use streaming_runtime_go.Joiner.{EventStore, events_of}
use streaming_runtime_go.Joiner.Setup.{Settings, boot}
use streaming_runtime_go.Joiner.Setup.Boot.{IsReady, boot_joiner-IsReady}

module _ (x : Extern) where
  open x use {Value}

  -- The abstract view at the start.
  abbrev pub closed_view : WindowView Value
  closed_view = record { waiting = []; sent = []; is_open = true }

  -- What a run of a joiner does: the loop ends where its view ends, and every item that it sends has
  -- its deliveries made.
  pub record Serves (st : Settings x) (signals : List (Signal Value)) : Type 0 where
    pub ta : Text
    pub tb : Text
    pub last : InputLoop Value
    pub view : WindowView Value
    pub topics : st.joiner.topics ≡ ta ∷ tb ∷ []
    pub ran : input_run x st.joiner st.loop signals ≡ ok last
    pub viewed : view_run x st.joiner ta tb closed_view signals ≡ ok view
    pub shown : Shows x st.joiner ta tb last view
    pub delivered :
        (item : Text)
        → output_step st.joiner.target_component_parts st.joiner.target_stream_parts (content item)
          ≡ ok (
            deliveries st.joiner.target_component_parts st.joiner.target_stream_parts
                (content item),
            true,
          )

  Agree-ok :
      (st : Settings x) (ta tb : Text) (l : InputLoop Value) (m : Outcome (InputLoop Value))
      (n : Outcome (WindowView Value))
      → m ≡ ok l
      → Agree x st.joiner ta tb m n
      → (w : WindowView Value) × (n ≡ ok w) × Shows x st.joiner ta tb l w
  Agree-ok st ta tb l (ok l') (ok w) e h =
      (w, refl, subst (λ k. Shows x st.joiner ta tb k w) (ok-injective e) h)
  Agree-ok st ta tb l (ok l') (fail err) e h = absurd h
  Agree-ok st ta tb l (ok l') (panic t) e h = absurd h
  Agree-ok st ta tb l (fail err) n e h = cc
  Agree-ok st ta tb l (panic t) n e h = cc

  -- A joiner that main has set up takes every sequence of signals to an end, if the libraries behave as
  -- documented: it sends what the abstract view of its two topics, which starts empty, sends, and has
  -- waiting what the view has; and each item that is not empty is delivered to its targets.
  pub boot_joiner-Serves :
      (doc : IsDocumented x) (env : Dict Text) (st : Settings x) (signals : List (Signal Value))
      → boot x env ≡ ok st
      → Serves st signals
  boot_joiner-Serves doc env st signals h =
      let r = boot_joiner-IsReady x env st h in
      let (l, p) = input_run-total x doc st.joiner r.ta r.tb [] r.topics st.loop signals in
      let start : Shows x st.joiner r.ta r.tb st.loop closed_view = record {
        holds = r.nothing_waits;
        same_output = r.nothing_sent;
        same_running = r.is_running;
      } in
      let agree =
        input_run-Agree x st.joiner r.ta r.tb [] r.topics st.loop closed_view signals start in
      let (w, q, s) = Agree-ok st r.ta r.tb l _ _ p agree in
      record {
        ta = r.ta;
        tb = r.tb;
        last = l;
        view = w;
        topics = r.topics;
        ran = p;
        viewed = q;
        shown = s;
        delivered = λ item.
            output_step-deliveries _ _ st.joiner.target_component_parts
              st.joiner.target_stream_parts (content item) r.component_parts r.stream_parts;
      }

  -- What the loops of a joiner can reach while no signal comes: all that the abstract view sends for
  -- the signals taken is delivered to the targets, in its order, the store holds the events that the
  -- view has waiting, nothing else waits, and the next event or tick is taken.
  pub record Delivers (st : Settings x) (signals : List (Signal Value)) (s : State Value)
      : Type 0 where
    pub ta : Text
    pub tb : Text
    pub final : State Value
    pub view : WindowView Value
    pub topics : st.joiner.topics ≡ ta ∷ tb ∷ []
    pub viewed : view_run x st.joiner ta tb closed_view signals ≡ ok view
    pub works : Works x st.joiner s final
    pub delivered : final.delivered ≡ view.sent
    pub asked : final.deliveries ≡ all_deliveries x st.joiner view.sent
    pub holds : Holds final.store view.waiting
    pub is_idle : final.holding ≡ none
    pub is_empty : final.queue ≡ []
    pub responsive : IsResponsive x st.joiner final

  ready_loop :
      (env : Dict Text) (st : Settings x) → IsReady x env st → fresh st.loop.store ≡ st.loop
  ready_loop env st r = cc (r.nothing_sent, r.is_running)

  -- From every state that the handlers and the two loops of a joiner reach, however they interleave,
  -- once main has set it up, the loops alone can go on to a state in which nothing waits, if the
  -- libraries behave as documented: all that the abstract view of its topics, which starts empty,
  -- sends for the signals taken is then delivered to the targets of its environment.
  pub boot_joiner-Delivers :
      (doc : IsDocumented x) (env : Dict Text) (st : Settings x) (signals : List (Signal Value))
      (s : State Value)
      → boot x env ≡ ok st
      → Reach x st.joiner st.loop.store signals s
      → Delivers st signals s
  boot_joiner-Delivers doc env st signals s h reach =
      let r = boot_joiner-IsReady x env st h in
      let v = boot_joiner-Serves doc env st signals h in
      let d =
        Reach-Drains x st.joiner (get_target_parts-IsTarget _ _ r.component_parts)
          (get_target_parts-IsTarget _ _ r.stream_parts) doc v.ta v.tb [] st.loop.store signals s
          v.topics reach in
      let same : d.last ≡ v.last =
        ok-injective
          (sym d.ran ∙ ap (λ l. input_run x st.joiner l signals) (ready_loop env st r) ∙ v.ran) in
      let sent : d.last.output ≡ v.view.sent =
        ap (λ (l : InputLoop Value). l.output) same ∙ v.shown.same_output in
      record {
        ta = v.ta;
        tb = v.tb;
        final = d.final;
        view = v.view;
        topics = v.topics;
        viewed = v.viewed;
        works = d.works;
        delivered = d.delivered ∙ sent;
        asked = d.asked ∙ ap (all_deliveries x st.joiner) sent;
        holds = λ topic.
            ap (λ (m : EventStore Value). events_of m topic)
              (d.same_store ∙ ap (λ (l : InputLoop Value). l.store) same)
            ∙ v.shown.holds topic;
        is_idle = d.is_idle;
        is_empty = d.is_empty;
        responsive = d.responsive;
      }
