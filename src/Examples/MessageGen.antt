-- ===== src/Examples/MessageGen.antt =====
-- examples/message-gen/main.go: a program that evaluates an expression over and over and publishes
-- each result. `Machine` has what it calls besides `Extern`: conversions of CEL values, strconv, the
-- clock and dapr, whose answers may depend on what was published before.
pub mod Counts
use streaming_runtime_go.Prelude.{
  ℕ, zero, suc, Text, codes, text_eq, List, [], ◌∷◌, ◌++◌, Option, none, some, Bool, true, false,
  Dict, getenv, or_default, insert, Outcome, ok, fail, panic, errorf, wrap, assert_some, ◌>>=◌,
  is_empty, leb, ◌==◌, if◌then◌else◌, ℤ, pos, negsuc, is_zero,
}
use streaming_runtime_go.Extern.{Extern}

pub record Message : Type 0 where
  pub pubsub : Text
  pub topic : Text
  pub body : Text

pub record Machine (x : Extern) : Type 1 where
  pub of_text : Text → x.Value
  pub of_int : ℤ → x.Value
  -- `val.Value().([]commontypes.Val)`
  pub as_list : x.Val → Option (List x.Val)
  -- `%T` of `val.Value()`
  pub go_type_name : x.Val → Text
  -- ConvertToNative at the type of structpb values, the assertion to it, and its MarshalJSON
  pub JsonValue : Type 0
  pub convert_value : x.Val → Outcome x.Value
  pub as_value : x.Value → Option JsonValue
  pub marshal_value : JsonValue → Outcome Text
  pub atoi : Text → Outcome ℤ
  -- time.Now().String() after these messages
  pub now : List Message → Text
  -- PublishEvent with the content type application/json, after these messages
  pub publish : List Message → Message → Outcome (Unit {0})

-- math.MaxInt
abbrev pub max_int : ℕ
max_int = 9223372036854775807

-- `n++` on a 64-bit int
abbrev pub succ_int : ℤ → ℤ
succ_int (pos n) = if n == max_int then negsuc max_int else pos (suc n)
succ_int (negsuc zero) = pos 0
succ_int (negsuc (suc n)) = negsuc n

-- `a <= b`
abbrev pub leb_int : ℤ → ℤ → Bool
leb_int (pos a) (pos b) = leb a b
leb_int (pos a) (negsuc b) = false
leb_int (negsuc a) (pos b) = true
leb_int (negsuc a) (negsuc b) = leb b a

-- The types of the expression's variables.
pub data VarType : Type 0 where
  string_type int_type : VarType

-- The names of the environment variables.
abbrev pub count_env : Text
count_env = codes "MESSAGE_COUNT"

abbrev pub pubsub_env : Text
pubsub_env = codes "CLUSTER_STREAM"

abbrev pub topic_env : Text
topic_env = codes "STREAM_TOPIC"

abbrev pub expr_env : Text
expr_env = codes "MESSAGE_EXPR"

abbrev pub delay_env : Text
delay_env = codes "MESSAGE_DELAY"

module _ (x : Extern) (mc : Machine x) where
  open x use {
    Value, Decl, Program, Val, new_env, compile, new_program, new_string_var, new_int_var, eval,
    val_type_name, parse_duration, new_client,
  }
  open mc use {
    of_text, of_int, as_list, go_type_name, convert_value, as_value, marshal_value, atoi, now,
    publish,
  }

  abbrev pub new_var : Text → VarType → Decl
  new_var variable string_type = new_string_var variable
  new_var variable int_type = new_int_var variable

  abbrev pub var_decls : List (Text × VarType) → List Decl
  var_decls [] = []
  var_decls ((variable, vartype) ∷ variables) = new_var variable vartype ∷ var_decls variables

  -- compileCELProg; the map of variables is given as the list of its entries in the order of the
  -- `range`
  unfoldable pub compile_cel_prog : Text → List (Text × VarType) → Outcome Program
  compile_cel_prog expr variables = do
    env ← new_env (var_decls variables)
    ast ← compile env expr
    new_program env ast

  -- marshalJSON
  unfoldable pub marshal_json : Val → Outcome Text
  marshal_json value = do
    conv ← convert_value value
    json_value ← assert_some (as_value conv)
    marshal_value json_value

  -- What `main` has set up when the loop starts.
  pub record Settings : Type 0 where
    pub pubsub : Text
    pub topic : Text
    pub count : ℤ
    pub delay : ℤ
    pub prog : Program

  -- `if count, err := strconv.Atoi(messageCountEnv); err == nil`
  abbrev pub count_or_zero : Outcome ℤ → Outcome ℤ
  count_or_zero (ok count) = ok count
  count_or_zero (fail e) = ok (pos 0)
  count_or_zero (panic m) = panic m

  unfoldable pub message_count : Text → Outcome ℤ
  message_count text = if is_empty text then ok (pos 0) else count_or_zero (atoi text)

  -- a delay that does not parse is logged, and taken as three seconds
  abbrev pub delay_or_default : Outcome ℤ → Outcome ℤ
  delay_or_default (ok delay) = ok delay
  delay_or_default (fail e) = ok (pos 3000000000)
  delay_or_default (panic m) = panic m

  -- `if v == "" { log.Fatal(…) }`
  abbrev pub required : Text → Text → Outcome (Unit {0})
  required v message = if is_empty v then fail (errorf message []) else ok tt

  -- `main` up to the loop
  unfoldable pub boot : Dict Text → Outcome Settings
  boot env = do
    _ ← wrap (codes "message-gen: failed to create client: ") new_client
    count ← message_count (getenv count_env env)
    _ ← required (getenv pubsub_env env) (codes "pubsub name must be provided")
    _ ← required (getenv topic_env env) (codes "topic name must be provided")
    _ ← required (getenv expr_env env) (codes "message expression must be provided")
    delay ← delay_or_default (parse_duration (or_default (getenv delay_env env) (codes "1s")))
    prog ← wrap (codes "message-gen: failed to compile expression: ") (
        compile_cel_prog (getenv expr_env env)
          ((codes "timestamp", string_type) ∷ (codes "id", int_type) ∷ []))
    ok (record {
      pubsub = getenv pubsub_env env;
      topic = getenv topic_env env;
      count = if is_zero count then pos max_int else count;
      delay = delay;
      prog = prog;
    })

  -- What the loop has done: whether it has ended, the counter, and the messages.
  pub record Progress : Type 0 where
    pub finished : Bool
    pub counter : ℤ
    pub sent : List Message

  module _ (st : Settings) where
    -- the three calls for one value; `time.Sleep` is left out
    unfoldable pub publish_value : Val → List Message → Outcome (List Message)
    unfolding marshal_json
    publish_value value sent = do
      json ← wrap (codes "message-gen: fail to convert to JSON: ") (marshal_json value)
      let message : Message = record { pubsub = st.pubsub; topic = st.topic; body = json }
      _ ← wrap (codes "message-gen: fail to publish event: ") (publish sent message)
      ok (sent ++ message ∷ [])

    -- `for _, l := range list`
    unfoldable pub publish_list : List Val → ℤ → List Message → Outcome (ℤ × List Message)
    publish_list [] n sent = ok (n, sent)
    publish_list (l ∷ list) n sent = do
      sent' ← publish_value l sent
      publish_list list (succ_int n) sent'

    -- the assertion of a value of type "list"
    unfoldable pub publish_all : Val → ℤ → List Message → Outcome (ℤ × List Message)
    publish_all val n sent = elim (as_list val) [
      | some list ↦ publish_list list n sent
      | none ↦ fail (errorf (codes "message-gen: unexpected list type: ") (go_type_name val))
    ]

    -- the body of the loop
    unfoldable pub round : ℤ → List Message → Outcome (ℤ × List Message)
    round n sent = do
      val ← wrap (codes "messasge-gen: fail to evaluate message expression: ") (
          eval st.prog (
            insert (codes "id") (of_int (succ_int n))
              (insert (codes "timestamp") (of_text (now sent)) [])))
      if text_eq (val_type_name val) (codes "list")
          then publish_all val n sent
          else (do sent' ← publish_value val sent; ok (n, sent'))

    -- `for n := 0; n <= messageCount; n++`, with fuel for its rounds
    unfoldable pub loop : ℕ → ℤ → List Message → Outcome Progress
    loop zero n sent = ok (record { finished = false; counter = n; sent = sent })
    loop (suc fuel) n sent =
        let rest = round n sent >>= λ (m, sent'). loop fuel (succ_int m) sent' in
        if leb_int n st.count
        then rest
        else ok (record { finished = true; counter = n; sent = sent })
