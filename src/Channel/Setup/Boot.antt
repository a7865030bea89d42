-- ===== src/Channel/Setup/Boot.antt =====
-- What holds of a channel that `main` has set up.
use streaming_runtime_go.Prelude.{
  Text, List, [], ◌∷◌, Option, none, some, Dict, getenv, ok, >>=-eq-ok, wrap->>=-eq-ok,
  ok-injective, Bool-cases, inl, inr, ◌&&◌, is_empty, ◌≡◌, ◌≢◌, refl, sym, ap, arith, subst,
}
use mathlib.Core.List.{cons-ne-nil}
use streaming_runtime_go.Extern.{Extern}
use streaming_runtime_go.Support.{get_target_parts, compile_cel_prog}
use streaming_runtime_go.Channel.{Channel}
use streaming_runtime_go.Channel.Setup.{
  stream_to_stream_env, stream_to_component_env, stream_filter_env, stream_select_env, trigger_env,
  client_prefix, stream_prefix, component_prefix, route_prefix, filter_prefix, select_prefix,
  compile_into, Settings, trigger_variables, compile_programs, stream_source, configure, boot,
}

module _ (x : Extern) where
  open x use {Program, Decl, new_map_var, new_client, add_service_invocation_handler}

  -- What `compile_into` leaves in its variable.
  pub data Compiled (expr : Text) (variables : List Decl) (before after : Option Program)
      : Type 0 where
    kept : expr ≡ [] → after ≡ before → Compiled expr variables before after
    replaced :
        (prog : Program)
        → expr ≢ []
        → compile_cel_prog x expr variables ≡ ok prog
        → after ≡ some prog
        → Compiled expr variables before after

  compile_into-Compiled :
      (prefix expr : Text) (variables : List Decl) (before : Option Program)
      {after : Option Program}
      → compile_into x prefix expr variables before ≡ ok after
      → Compiled expr variables before after
  unfolding compile_into
  compile_into-Compiled prefix [] variables before h = kept refl (sym (ok-injective h))
  compile_into-Compiled prefix (c ∷ expr) variables before h =
      let (prog, p, q) = wrap->>=-eq-ok prefix (compile_cel_prog x (c ∷ expr) variables) _ h in
      replaced prog (cons-ne-nil c expr) p (sym (ok-injective q))

  -- Everything that the loops rely on.
  pub record IsReady (env : Dict Text) (c : Channel x) : Type 0 where
    pub source : c.stream_from ≡ stream_source x env
    pub stream_parts : get_target_parts (getenv stream_to_stream_env env) ≡ ok c.target_stream_parts
    pub component_parts :
        get_target_parts (getenv stream_to_component_env env) ≡ ok c.target_component_parts
    pub filter_compiled :
        Compiled (getenv stream_filter_env env) (new_map_var c.stream_from ∷ []) none c.filter_prog
    pub select_prog : Option Program
    pub select_compiled :
        Compiled (getenv stream_select_env env) (new_map_var c.stream_from ∷ []) none select_prog
    pub data_compiled :
        Compiled
          (getenv trigger_env env)
          (trigger_variables x c.stream_from)
          select_prog
          c.data_prog
    pub no_trigger : c.trigger_prog ≡ none

  compile_programs-IsReady :
      (env : Dict Text) (source : Text) (sp cp : List Text) {c : Channel x}
      → source ≡ stream_source x env
      → get_target_parts (getenv stream_to_stream_env env) ≡ ok sp
      → get_target_parts (getenv stream_to_component_env env) ≡ ok cp
      → compile_programs x env source sp cp ≡ ok c
      → IsReady env c
  unfolding compile_programs
  compile_programs-IsReady env source sp cp {c} e ps pc h =
      let variables = new_map_var source ∷ [] in
      let filter_expr = getenv stream_filter_env env in
      let select_expr = getenv stream_select_env env in
      let trigger_expr = getenv trigger_env env in
      let (f, pf, h1) = >>=-eq-ok (compile_into x filter_prefix filter_expr variables none) _ h in
      let (s, pq, h2) = >>=-eq-ok (compile_into x select_prefix select_expr variables none) _ h1 in
      let (d, pd, h3) =
        >>=-eq-ok (compile_into x select_prefix trigger_expr (trigger_variables x source) s) _ h2 in
      subst (IsReady env) (ok-injective h3) (record {
        source = e;
        stream_parts = ps;
        component_parts = pc;
        filter_compiled = compile_into-Compiled filter_prefix filter_expr variables none pf;
        select_prog = s;
        select_compiled = compile_into-Compiled select_prefix select_expr variables none pq;
        data_compiled =
            compile_into-Compiled select_prefix trigger_expr (trigger_variables x source) s pd;
        no_trigger = refl;
      })

  configure-IsReady :
      (env : Dict Text) {st : Settings x} → configure x env ≡ ok st → IsReady env st.channel
  unfolding configure
  configure-IsReady env h =
      let stream_env = getenv stream_to_stream_env env in
      let component_env = getenv stream_to_component_env env in
      let source = stream_source x env in
      let (_, _, h1) = wrap->>=-eq-ok client_prefix new_client _ h in
      let (sp, ps, h2) = wrap->>=-eq-ok stream_prefix (get_target_parts stream_env) _ h1 in
      let (cp, pc, h3) = wrap->>=-eq-ok component_prefix (get_target_parts component_env) _ h2 in
      let (_, _, h4) =
        wrap->>=-eq-ok (route_prefix source) (add_service_invocation_handler source) _ h3 in
      let (c, p, h5) = >>=-eq-ok (compile_programs x env source sp cp) _ h4 in
      subst (IsReady env) (ap (λ (s : Settings x). s.channel) (ok-injective h5))
        (compile_programs-IsReady env source sp cp refl ps pc p)

  -- If main gets through its set-up, the channel is ready: it has the source of its environment, target
  -- parts that get_target_parts made of it, the filter program of the filter expression, the data
  -- program of the trigger expression or, without one, of the select expression, and no trigger
  -- program.
  pub boot_channel-IsReady :
      (env : Dict Text) (st : Settings x) → boot x env ≡ ok st → IsReady env st.channel
  unfolding boot
  boot_channel-IsReady env st h =
      elim (Bool-cases (
        is_empty (getenv stream_to_stream_env env)
        && is_empty (getenv stream_to_component_env env))) [
          | inl e ↦ absurd (ground arith)
          | inr e ↦ configure-IsReady env (rw e at h)
        ]

  -- A trigger expression takes the place of the select expression, and no trigger is set: with
  -- CHANNEL_AGGREGATE_TRIGGER set, the data of every event is shaped by the trigger's program.
  pub boot_trigger :
      (env : Dict Text) (st : Settings x)
      → boot x env ≡ ok st
      → getenv trigger_env env ≢ []
      → (prog : Program) × (compile_cel_prog x
            (getenv trigger_env env)
            (trigger_variables x st.channel.stream_from)
          ≡ ok prog)
        × (st.channel.data_prog ≡ some prog)
        × (st.channel.trigger_prog ≡ none)
  boot_trigger env st h n = let r = boot_channel-IsReady env st h in replaced_only r r.data_compiled
    where
      replaced_only :
          (r : IsReady env st.channel)
          → Compiled
              (getenv trigger_env env)
              (trigger_variables x st.channel.stream_from)
              r.select_prog
              st.channel.data_prog
          → (prog : Program) × (compile_cel_prog x
                (getenv trigger_env env)
                (trigger_variables x st.channel.stream_from)
              ≡ ok prog)
            × (st.channel.data_prog ≡ some prog)
            × (st.channel.trigger_prog ≡ none)
      replaced_only r (kept e k) = absurd (n e)
      replaced_only r (replaced prog k p q) = (prog, p, q, r.no_trigger)
