-- ===== src/Extern/Sample.antt =====
-- One way to meet `Extern`: small stand-ins for the JSON decoder, CEL and structpb, with which the
-- examples run. A program is the expression `true`, `false` or any other, which returns its data.
use streaming_runtime_go.Prelude.{
  Text, codes, text_eq, List, [], ◌∷◌, Dict, Option, none, some, Outcome, ok, fail, errorf, Bool,
  true, false, if◌then◌else◌, length, ◌≡◌, refl, ap, is_empty, pos, NoPanic, ok-NoPanic,
  fail-NoPanic,
}
use streaming_runtime_go.Extern.{Extern, IsDocumented}

mutual
  pub data Tree : Type 0 where
    leaf : Text → Tree
    node : Branches → Tree

  pub data Branches : Type 0 where
    end : Branches
    branch : Text → Tree → Branches → Branches

abbrev branches : Dict Tree → Branches
branches [] = end
branches ((k, v) ∷ m) = branch k v (branches m)

abbrev entries : Branches → Dict Tree
entries end = []
entries (branch k v b) = (k, v) ∷ entries b

entries-branches : (m : Dict Tree) → entries (branches m) ≡ m
entries-branches [] = refl
entries-branches ((k, v) ∷ m) = ap (λ r. (k, v) ∷ r) (entries-branches m)

abbrev as_entries : Tree → Option (Dict Tree)
as_entries (leaf s) = none
as_entries (node b) = some (entries b)

pub data Answer : Type 0 where
  truth : Bool → Answer
  structure : Dict Tree → Answer

pub data Expr : Type 0 where
  constant : Bool → Expr
  data_map : Expr

abbrev answer : Expr → Dict Tree → Answer
answer (constant b) m = truth b
answer data_map m = structure m

abbrev answer_type : Answer → Text
answer_type (truth b) = codes "bool"
answer_type (structure m) = codes "map"

abbrev truth_value : Answer → Option Bool
truth_value (truth b) = some b
truth_value (structure m) = none

abbrev to_tree : Answer → Outcome Tree
to_tree (truth b) = fail (errorf (codes "unsupported type conversion") [])
to_tree (structure m) = ok (node (branches m))

abbrev parse : Text → Expr
parse expr =
    if text_eq expr (codes "true")
    then constant true
    else if text_eq expr (codes "false")
    then constant false
    else data_map

abbrev decode : Text → Outcome (Dict Tree)
decode content =
    if is_empty content
    then fail (errorf (codes "unexpected end of JSON input") [])
    else ok ((codes "data", node (branch (codes "id") (leaf content) end)) ∷ [])

abbrev pub sample : Extern
sample = record {
  Value = Tree;
  of_map = λ m. node (branches m);
  as_map = as_entries;
  value_type_name = λ v. codes "string";
  unmarshal = decode;
  Decl = Text;
  CelEnv = List Text;
  Ast = Text;
  Program = Expr;
  Val = Answer;
  new_map_var = λ v. v;
  new_int_var = λ v. v;
  new_string_var = λ v. v;
  new_env = λ vars. ok vars;
  compile = λ env expr. ok expr;
  new_program = λ env ast. ok (parse ast);
  eval = λ p m. ok (answer p m);
  val_type_name = answer_type;
  as_bool = truth_value;
  Struct = Dict Tree;
  ListValue = List (Dict Tree);
  convert = to_tree;
  as_struct = as_entries;
  new_struct = λ m. ok m;
  struct_as_map = λ s. s;
  new_list = λ l. ok l;
  marshal_list = λ l. ok (length l ∷ []);
  marshal_struct = λ s. ok (length s ∷ []);
  parse_duration = λ s. ok (pos (length s));
  new_client = ok tt;
  add_topic_event_handler = λ pubsub topic route. ok tt;
  add_service_invocation_handler = λ method. ok tt;
}

sample_bool : (v : Answer) → answer_type v ≡ codes "bool" → (b : Bool) × (truth_value v ≡ some b)
sample_bool (truth b) h = (b, refl)
sample_bool (structure m) h = cc

sample_struct :
    (v : Answer) (n : Tree) → to_tree v ≡ ok n → (s : Dict Tree) × (as_entries n ≡ some s)
sample_struct (truth b) n h = cc
sample_struct (structure m) (leaf s) h = cc
sample_struct (structure m) (node b) h = (entries b, refl)

to_tree_calm : (v : Answer) → NoPanic (to_tree v)
to_tree_calm (truth b) = fail-NoPanic _
to_tree_calm (structure m) = ok-NoPanic _

decode_calm : (content : Text) → NoPanic (decode content)
decode_calm [] = fail-NoPanic _
decode_calm (c ∷ s) = ok-NoPanic _

pub sample-IsDocumented : IsDocumented sample
sample-IsDocumented = record {
  bool_value = sample_bool;
  struct_value = sample_struct;
  map_value = λ m. ap some (entries-branches m);
  eval_calm = λ p m. ok-NoPanic _;
  convert_calm = to_tree_calm;
  new_struct_calm = λ m. ok-NoPanic _;
  new_list_calm = λ l. ok-NoPanic _;
  marshal_list_calm = λ l. ok-NoPanic _;
  unmarshal_calm = decode_calm;
  marshal_struct_calm = λ s. ok-NoPanic _;
}
