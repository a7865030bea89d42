-- ===== src/Examples/MessageGen/Counts.antt =====
-- How many messages the generator sends.
use streaming_runtime_go.Prelude.{
  ℕ, zero, suc, ◌+◌, ◌≤◌, ◌<◌, Text, codes, text_eq, List, [], ◌∷◌, ◌++◌, Option-cases, true, false,
  Bool-cases, inl, inr, Dict, getenv, or_default, insert, ok, ◌>>=◌, >>=-eq-ok, wrap->>=-eq-ok,
  ok-injective, fail-ne-ok, length, length-append, ◌==◌, if◌then◌else◌, ℤ, pos, negsuc, is_zero,
  ◌≡◌, refl, sym, ap, ◌∙◌, arith, subst,
}
use streaming_runtime_go.Extern.{Extern}
use streaming_runtime_go.Examples.MessageGen.{
  Message, Machine, max_int, succ_int, leb_int, count_env, pubsub_env, topic_env, expr_env,
  delay_env, required, delay_or_default, compile_cel_prog, marshal_json, message_count, Settings,
  boot, Progress, string_type, int_type, publish_value, publish_list, publish_all, round, loop,
}

-- The values of a 64-bit int.
abbrev pub IsInt : ℤ → Type 0
IsInt (pos n) = n ≤ max_int
IsInt (negsuc n) = n ≤ max_int

succ_int-IsInt : (n : ℤ) → IsInt n → IsInt (succ_int n)
succ_int-IsInt (pos n) h = elim (Bool-cases (n == max_int)) [
  | inl e ↦ rw e (omega arith)
  | inr e ↦ rw e (ground arith)
]
succ_int-IsInt (negsuc zero) h = omega arith
succ_int-IsInt (negsuc (suc n)) h = omega arith

leb_int_max : (n : ℤ) → IsInt n → leb_int n (pos max_int) ≡ true
leb_int_max (pos n) h = ground arith
leb_int_max (negsuc n) h = refl

module _ (x : Extern) (mc : Machine x) where
  open x use {Val, Value, eval, val_type_name}

  module _ (st : Settings x mc) where
    publish_list-IsInt :
        (list : List Val) (n : ℤ) (sent : List Message) {out : ℤ × List Message}
        → publish_list x mc st list n sent ≡ ok out
        → IsInt n
        → IsInt out.0
    unfolding publish_list
    publish_list-IsInt [] n sent h i =
        subst (λ (o : ℤ × List Message). IsInt o.0) (ok-injective h) i
    publish_list-IsInt (l ∷ list) n sent h i =
        let (sent', _, q) = >>=-eq-ok (publish_value x mc st l sent) _ h in
        publish_list-IsInt list (succ_int n) sent' q (succ_int-IsInt n i)

    publish_all-IsInt :
        (val : Val) (n : ℤ) (sent : List Message) {out : ℤ × List Message}
        → publish_all x mc st val n sent ≡ ok out
        → IsInt n
        → IsInt out.0
    unfolding publish_all
    publish_all-IsInt val n sent h i = elim (Option-cases (mc.as_list val)) [
      | inl e ↦ absurd (fail-ne-ok (rw (e, publish_all) at h))
      | inr (list, e) ↦ publish_list-IsInt list n sent (rw (e, publish_all) at h) i
    ]

    round-IsInt :
        (n : ℤ) (sent : List Message) {out : ℤ × List Message}
        → round x mc st n sent ≡ ok out
        → IsInt n
        → IsInt out.0
    unfolding round
    round-IsInt n sent h i =
        let (val, _, q) =
          wrap->>=-eq-ok (codes "messasge-gen: fail to evaluate message expression: ")
            (eval st.prog (
              insert (codes "id") (mc.of_int (succ_int n))
                (insert (codes "timestamp") (mc.of_text (mc.now sent)) [])))
            (λ val.
              if text_eq (val_type_name val) (codes "list")
              then publish_all x mc st val n sent
              else (publish_value x mc st val sent >>= λ sent'. ok (n, sent')))
            h in
        elim (Bool-cases (text_eq (val_type_name val) (codes "list"))) [
          | inl e ↦ publish_all-IsInt val n sent (rw e at q) i
          | inr e ↦
              let (sent', _, r) = >>=-eq-ok (publish_value x mc st val sent) _ (rw e at q) in
              subst (λ (o : ℤ × List Message). IsInt o.0) (ok-injective r) i
        ]

    loop_unfinished :
        st.count ≡ pos max_int
        → (fuel : ℕ) (n : ℤ) (sent : List Message) (p : Progress x mc) → IsInt n
        → loop x mc st fuel n sent ≡ ok p
        → p.finished ≡ false
    unfolding loop
    loop_unfinished c zero n sent p i h =
        sym (ap (λ (q : Progress x mc). q.finished) (ok-injective h))
    loop_unfinished c (suc fuel) n sent p i h =
        let e : leb_int n st.count ≡ true = ap (leb_int n) c ∙ leb_int_max n i in
        let ((m, sent'), q, r) = >>=-eq-ok (round x mc st n sent) _ (rw e at h) in
        loop_unfinished c fuel (succ_int m) sent' p (succ_int-IsInt m (round-IsInt n sent q i)) r

    -- The expression evaluates, to a value that is no list and has a JSON form, whatever the clock
    -- and the counter say, and dapr takes every message.
    pub record IsSteady : Type 0 where
      pub value_of :
          (bindings : Dict Value)
          → (val : Val) × (json : Text) × (eval st.prog bindings ≡ ok val)
            × (text_eq (val_type_name val) (codes "list") ≡ false)
            × (marshal_json x mc val ≡ ok json)
      pub taken : (sent : List Message) (message : Message) → mc.publish sent message ≡ ok tt

    -- A round of such a generator publishes one message and leaves the counter.
    round_lem :
        IsSteady
        → (n : ℤ) (sent : List Message)
        → (m : Message) × (round x mc st n sent ≡ ok (n, sent ++ m ∷ []))
    unfolding round publish_value
    round_lem steady n sent =
        let (val, json, e, t, j) = steady.value_of (
          insert (codes "id") (mc.of_int (succ_int n))
            (insert (codes "timestamp") (mc.of_text (mc.now sent)) [])) in
        let message : Message = record { pubsub = st.pubsub; topic = st.topic; body = json } in
        (message, rw (e, t, j, steady.taken sent message))

    loop_counts :
        (c : ℕ)
        → IsSteady
        → st.count ≡ pos c
        → c < max_int
        → (left k fuel : ℕ) (sent : List Message) → k + left ≡ suc c
        → left < fuel
        → (out : List Message) × (loop x mc st fuel (pos k) sent
            ≡ ok (record { finished = true; counter = pos (suc c); sent = out }))
          × (length out ≡ length sent + left)
    unfolding loop
    loop_counts c steady e b left k zero sent p q = absurd (omega arith)
    loop_counts c steady e b zero k (suc fuel) sent p q =
        let stop : leb_int (pos k) st.count ≡ false = rw e (ground arith) in
        let eq : k ≡ suc c = omega (arith, p) in (sent, rw (stop, eq) refl, omega arith)
    loop_counts c steady e b (suc left) k (suc fuel) sent p q =
        let (m, r) = round_lem steady (pos k) sent in
        let (out, s, l) =
          loop_counts c steady e b left (suc k) fuel (sent ++ m ∷ []) (omega arith) (omega arith) in
        let go_on : leb_int (pos k) st.count ≡ true = rw e (ground arith) in
        let next : succ_int (pos k) ≡ pos (suc k) = ground arith in
        (out, rw (go_on, r, next) s, omega (arith, length-append sent (m ∷ [])))

    -- A generator with a count c below the largest int ends and has sent c + 1 messages, one more than
    -- the count, if its expression always evaluates to a value that is no list and has a JSON form, and
    -- dapr takes every message.
    pub loop_lem :
        (c fuel : ℕ)
        → IsSteady
        → st.count ≡ pos c
        → c < max_int
        → suc c < fuel
        → (sent : List Message) × (loop x mc st fuel (pos 0) []
            ≡ ok (record { finished = true; counter = pos (suc c); sent = sent }))
          × (length sent ≡ suc c)
    loop_lem c fuel steady e b f =
        let (sent, r, l) = loop_counts c steady e b (suc c) 0 fuel [] (omega arith) f in
        (sent, r, omega (arith, l))

  -- `main` takes an empty count for the largest int.
  boot-count :
      (env : Dict Text) (st : Settings x mc)
      → boot x mc env ≡ ok st
      → getenv count_env env ≡ []
      → st.count ≡ pos max_int
  unfolding boot message_count
  boot-count env st h n =
      let (_, _, h1) =
        wrap->>=-eq-ok (codes "message-gen: failed to create client: ") x.new_client _ h in
      let (count, p, h2) = >>=-eq-ok (message_count x mc (getenv count_env env)) _ h1 in
      let (_, _, h3) =
        >>=-eq-ok (required x mc (getenv pubsub_env env) (codes "pubsub name must be provided")) _
          h2 in
      let (_, _, h4) =
        >>=-eq-ok (required x mc (getenv topic_env env) (codes "topic name must be provided")) _
          h3 in
      let (_, _, h5) =
        >>=-eq-ok
          (required x mc (getenv expr_env env) (codes "message expression must be provided")) _
          h4 in
      let (delay, _, h6) =
        >>=-eq-ok
          (delay_or_default x mc
            (x.parse_duration (or_default (getenv delay_env env) (codes "1s"))))
          _ h5 in
      let (prog, _, h7) =
        wrap->>=-eq-ok (codes "message-gen: failed to compile expression: ")
          (compile_cel_prog x mc (getenv expr_env env)
            ((codes "timestamp", string_type) ∷ (codes "id", int_type) ∷ []))
          _ h6 in
      let zero_count : pos 0 ≡ count = ok-injective (rw n at p) in
      sym (ap (λ (s : Settings x mc). s.count) (ok-injective h7))
      ∙ ap (λ c. if is_zero c then pos max_int else c) (sym zero_count)

  -- A generator that main has set up with no count never ends by itself: after any number of rounds
  -- the loop goes on, whatever the values are, or the program has stopped on an error.
  pub boot_unfinished :
      (env : Dict Text) (st : Settings x mc) (fuel : ℕ) (p : Progress x mc)
      → boot x mc env ≡ ok st
      → getenv count_env env ≡ []
      → loop x mc st fuel (pos 0) [] ≡ ok p
      → p.finished ≡ false
  boot_unfinished env st fuel p h n r =
      loop_unfinished st (boot-count env st h n) fuel (pos 0) [] p (omega arith) r
