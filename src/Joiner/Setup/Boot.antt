-- ===== src/Joiner/Setup/Boot.antt =====
-- What holds of a joiner that `main` has set up.
use streaming_runtime_go.Prelude.{
  subst, some, ◌≢◌, Text, codes, ok-injective, List, [], ◌∷◌, ◌++◌, Option, none, Dict, lookup,
  getenv, or_default, insert, lookup-insert, ok, >>=-eq-ok, wrap->>=-eq-ok, true, Bool-cases, inl,
  inr, ◌||◌, is_empty, ◌≡◌, refl, sym, ap, ◌∙◌, arith, ℤ, is_positive,
}
use mathlib.Core.List.{cons-ne-nil}
use streaming_runtime_go.Extern.{Extern}
use streaming_runtime_go.Support.{get_target_parts, compile_cel_prog}
use streaming_runtime_go.Joiner.{TopicEvent, EventStore, events_of}
use streaming_runtime_go.Joiner.Loops.{InputLoop}
use streaming_runtime_go.Joiner.Window.{by_topic, Holds}
use streaming_runtime_go.Joiner.Setup.{
  Subscription, get_subscription, stream_from_0_env, stream_from_1_env, stream_to_component_env,
  stream_to_stream_env, stream_filter_env, stream_select_env, window_size_env, subscribe,
  compile_optional, compile_programs, client_prefix, component_prefix, stream_prefix, window_prefix,
  sub_prefix, handler_prefix, filter_prefix, select_prefix, Settings, new_ticker, configure, boot,
}

module _ (x : Extern) where
  open x use {
    Value, Program, Decl, add_topic_event_handler, new_client, parse_duration, new_map_var,
  }

  -- The program of an expression, if there is one.
  pub data Compiled (expr : Text) (variables : List Decl) (p : Option Program) : Type 0 where
    unset : expr ≡ [] → p ≡ none → Compiled expr variables p
    compiled :
        (prog : Program)
        → expr ≢ []
        → compile_cel_prog x expr variables ≡ ok prog
        → p ≡ some prog
        → Compiled expr variables p

  -- Everything that the loops rely on.
  pub record IsReady (env : Dict Text) (st : Settings x) : Type 0 where
    pub ta : Text
    pub tb : Text
    pub topics : st.joiner.topics ≡ ta ∷ tb ∷ []
    pub subscription_a :
        (s : Subscription) × (get_subscription (getenv stream_from_0_env env) ≡ ok s)
        × (s.topic ≡ ta)
    pub subscription_b :
        (s : Subscription) × (get_subscription (getenv stream_from_1_env env) ≡ ok s)
        × (s.topic ≡ tb)
    pub component_parts :
        get_target_parts (getenv stream_to_component_env env) ≡ ok st.joiner.target_component_parts
    pub stream_parts :
        get_target_parts (getenv stream_to_stream_env env) ≡ ok st.joiner.target_stream_parts
    pub window_positive : is_positive st.window ≡ true
    pub nothing_waits : Holds st.loop.store []
    pub nothing_sent : st.loop.output ≡ []
    pub is_running : st.loop.running ≡ true
    pub filter_compiled :
        Compiled
          (getenv stream_filter_env env)
          (new_map_var ta ∷ new_map_var tb ∷ [])
          st.joiner.filter_prog
    pub select_compiled :
        Compiled
          (getenv stream_select_env env)
          (new_map_var ta ∷ new_map_var tb ∷ [])
          st.joiner.data_prog

  empty_store-Holds : Holds {V = Value} (record { streams = [] }) []
  unfolding lookup by_topic
  empty_store-Holds topic = refl

  insert_empty-Holds :
      (s : EventStore Value) (topic : Text)
      → Holds s []
      → Holds (record { streams = insert topic [] s.streams }) []
  unfolding by_topic
  insert_empty-Holds s topic h t =
      ground (arith, lookup-insert {V = List (TopicEvent Value)} topic t [] s.streams, h t)

  subscribe_step :
      (stream : Text) (rest topics : List Text) (store : EventStore Value)
      {out : List Text × EventStore Value}
      → subscribe x (stream ∷ rest) topics store ≡ ok out
      → (s : Subscription) × (get_subscription stream ≡ ok s)
        × (subscribe x rest
              (topics ++ s.topic ∷ [])
              (record { streams = insert s.topic [] store.streams })
            ≡ ok out)
  unfolding subscribe
  subscribe_step stream rest topics store h =
      let (s, p, q) = wrap->>=-eq-ok sub_prefix (get_subscription stream) _ h in
      let (u, p', q') =
        wrap->>=-eq-ok (handler_prefix s.pubsub_name)
          (add_topic_event_handler s.pubsub_name s.topic s.route) _ q in
      (s, p, q')

  subscribe_two :
      (s0 s1 : Text) (store : EventStore Value) {topics : List Text} {out : EventStore Value}
      → Holds store []
      → subscribe x (s0 ∷ s1 ∷ []) [] store ≡ ok (topics, out)
      → (a : Subscription) × (b : Subscription) × (get_subscription s0 ≡ ok a)
        × (get_subscription s1 ≡ ok b)
        × (topics ≡ a.topic ∷ b.topic ∷ [])
        × Holds out []
  subscribe_two s0 s1 store {topics} {out} e h =
      let (a, p, q) = subscribe_step s0 (s1 ∷ []) [] store h in
      let (b, p', q') = subscribe_step s1 [] (a.topic ∷ []) _ q in
      let r = ends _ _ _ q' in
      (
        a,
        b,
        p,
        p',
        sym r.0,
        rw (← r.1) (insert_empty-Holds _ b.topic (insert_empty-Holds store a.topic e)),
      )
    where
      ends :
          (ts : List Text) (s : EventStore Value) (o : List Text × EventStore Value)
          → subscribe x [] ts s ≡ ok o
          → (ts ≡ o.0) × (s ≡ o.1)
      ends ts s o k = unfold subscribe in (cc k, cc k)

  new_ticker-positive : (d : ℤ) {w : ℤ} → new_ticker x d ≡ ok w → is_positive w ≡ true
  unfolding new_ticker
  new_ticker-positive d h = elim (Bool-cases (is_positive d)) [
    | inl e ↦ ground arith
    | inr e ↦ ground arith
  ]

  compile_optional-Compiled :
      (prefix expr : Text) (variables : List Decl) {p : Option Program}
      → compile_optional x prefix expr variables ≡ ok p
      → Compiled expr variables p
  unfolding compile_optional
  compile_optional-Compiled prefix [] variables h = unset refl (sym (ok-injective h))
  compile_optional-Compiled prefix (c ∷ expr) variables h =
      let (prog, p, q) = wrap->>=-eq-ok prefix (compile_cel_prog x (c ∷ expr) variables) _ h in
      compiled prog (cons-ne-nil c expr) p (sym (ok-injective q))

  -- The two programs, and the rest of the settings, of `compile_programs`.
  record IsCompiled (env : Dict Text) (cp sp : List Text) (w : ℤ) (ta tb : Text)
      (store : EventStore Value) (st : Settings x) : Type 0 where
    topics : st.joiner.topics ≡ ta ∷ tb ∷ []
    components : st.joiner.target_component_parts ≡ cp
    streams : st.joiner.target_stream_parts ≡ sp
    ticker : st.window ≡ w
    fresh : st.loop ≡ record { store = store; output = []; running = true }
    filter_compiled :
        Compiled
          (getenv stream_filter_env env)
          (new_map_var ta ∷ new_map_var tb ∷ [])
          st.joiner.filter_prog
    select_compiled :
        Compiled
          (getenv stream_select_env env)
          (new_map_var ta ∷ new_map_var tb ∷ [])
          st.joiner.data_prog

  compile_programs-IsCompiled :
      (env : Dict Text) (cp sp : List Text) (w : ℤ) (ta tb : Text) (store : EventStore Value)
      {st : Settings x}
      → compile_programs x env cp sp w (ta ∷ tb ∷ []) store ≡ ok st
      → IsCompiled env cp sp w ta tb store st
  unfolding compile_programs
  compile_programs-IsCompiled env cp sp w ta tb store h =
      let variables = new_map_var ta ∷ new_map_var tb ∷ [] in
      let filter_expr = getenv stream_filter_env env in
      let select_expr = getenv stream_select_env env in
      let (f, pf, h1) = >>=-eq-ok (compile_optional x filter_prefix filter_expr variables) _ h in
      let (d, pd, h2) = >>=-eq-ok (compile_optional x select_prefix select_expr variables) _ h1 in
      let e = ok-injective h2 in
      record {
        topics = sym (ap (λ (s : Settings x). s.joiner.topics) e);
        components = sym (ap (λ (s : Settings x). s.joiner.target_component_parts) e);
        streams = sym (ap (λ (s : Settings x). s.joiner.target_stream_parts) e);
        ticker = sym (ap (λ (s : Settings x). s.window) e);
        fresh = sym (ap (λ (s : Settings x). s.loop) e);
        filter_compiled =
            subst (Compiled filter_expr variables) (ap (λ (s : Settings x). s.joiner.filter_prog) e)
              (compile_optional-Compiled filter_prefix filter_expr variables pf);
        select_compiled =
            subst (Compiled select_expr variables) (ap (λ (s : Settings x). s.joiner.data_prog) e)
              (compile_optional-Compiled select_prefix select_expr variables pd);
      }

  ready :
      (env : Dict Text) (cp sp : List Text) (w : ℤ) (ts : List Text) (store : EventStore Value)
      {st : Settings x}
      → get_target_parts (getenv stream_to_component_env env) ≡ ok cp
      → get_target_parts (getenv stream_to_stream_env env) ≡ ok sp
      → is_positive w ≡ true
      → subscribe x
          (getenv stream_from_0_env env ∷ getenv stream_from_1_env env ∷ [])
          []
          (record { streams = [] })
        ≡ ok (ts, store)
      → compile_programs x env cp sp w ts store ≡ ok st
      → IsReady env st
  ready env cp sp w ts store pc ps pw pt h =
      let (a, b, pa, pb, e, empty) = subscribe_two _ _ _ empty_store-Holds pt in
      let c =
        compile_programs-IsCompiled env cp sp w a.topic b.topic store
          (ap (λ r. compile_programs x env cp sp w r store) (sym e) ∙ h) in
      record {
        ta = a.topic;
        tb = b.topic;
        topics = c.topics;
        subscription_a = (a, pa, refl);
        subscription_b = (b, pb, refl);
        component_parts = pc ∙ ap ok (sym c.components);
        stream_parts = ps ∙ ap ok (sym c.streams);
        window_positive = ap is_positive c.ticker ∙ pw;
        nothing_waits = λ t. ap (λ (l : InputLoop Value). events_of l.store t) c.fresh ∙ empty t;
        nothing_sent = ap (λ (l : InputLoop Value). l.output) c.fresh;
        is_running = ap (λ (l : InputLoop Value). l.running) c.fresh;
        filter_compiled = c.filter_compiled;
        select_compiled = c.select_compiled;
      }

  configure-IsReady : (env : Dict Text) {st : Settings x} → configure x env ≡ ok st → IsReady env st
  unfolding configure
  configure-IsReady env h =
      let component_env = getenv stream_to_component_env env in
      let stream_env = getenv stream_to_stream_env env in
      let s0 = getenv stream_from_0_env env in
      let s1 = getenv stream_from_1_env env in
      let size = or_default (getenv window_size_env env) (codes "10ms") in
      let (u, _, h1) = wrap->>=-eq-ok client_prefix new_client _ h in
      let (cp, pc, h2) = wrap->>=-eq-ok component_prefix (get_target_parts component_env) _ h1 in
      let (sp, ps, h3) = wrap->>=-eq-ok stream_prefix (get_target_parts stream_env) _ h2 in
      let (d, _, h4) = wrap->>=-eq-ok window_prefix (parse_duration size) _ h3 in
      let (w, pw, h5) = >>=-eq-ok (new_ticker x d) _ h4 in
      let ((ts, store), pt, h6) =
        >>=-eq-ok (subscribe x (s0 ∷ s1 ∷ []) [] (record { streams = [] })) _ h5 in
      ready env cp sp w ts store pc ps (new_ticker-positive d pw) pt h6

  -- If main gets through its set-up, the joiner is ready: it has exactly the topics of its two
  -- subscriptions, target parts that get_target_parts made of the environment, a positive window, an
  -- empty store, nothing sent and a running loop, and the programs of the filter and the select
  -- expression, or none where there is no expression.
  pub boot_joiner-IsReady :
      (env : Dict Text) (st : Settings x) → boot x env ≡ ok st → IsReady env st
  unfolding boot
  boot_joiner-IsReady env st h =
      elim (Bool-cases
        (is_empty (getenv stream_from_0_env env) || is_empty (getenv stream_from_1_env env))) [
          | inl e ↦ absurd (ground arith)
          | inr e ↦ elim (Bool-cases (is_empty (getenv stream_to_component_env env))) [
            | inl f ↦ absurd (ground arith)
            | inr f ↦ configure-IsReady env (rw f at (rw e at h))
          ]
        ]
