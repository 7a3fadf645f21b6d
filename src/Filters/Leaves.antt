-- ===== src/Filters/Leaves.antt =====
-- One leaf of a filter tree: `_leaf_to_params` and `_q_leaf` of src/thruk_mcp/filters.py, with the
-- state numbers of src/thruk_mcp/constants.py.
use Prim.Native.String.{◌++◌}
use thruk_mcp.Filters.Values.{
  Scalar, text, int, Value, scalar, items, custom, of_text, of_int, str_scalar, str_value,
}
use thruk_mcp.Prelude.{
  ℕ, String, ◌≡◌, refl, Bool, true, false, Option, none, some, List, [], ◌∷◌, map, ◌==◌,
  if◌then◌else◌,
}
use thruk_mcp.Prelude.Int.{pos}
use thruk_mcp.Prelude.Text.{upper, lower, join, is_digit, to_nat}

-- The fields of every `FIELDS_*` set.
pub data Field : Type 0 where
  name address state host service description message contact : Field
  hostgroup servicegroup custom_var host_custom_var since until : Field

pub data Op : Type 0 where
  eq neq regex op_in gte lte : Op

pub record Leaf : Type 0 where
  pub field : Field
  pub op : Op
  pub value : Value

-- `FilterError`; `not_validated` is the TypeError of a value that validation refuses for the field
pub data Error : Type 0 where
  filter_error not_validated : Error

pub data Result {ℓ} (A : Type ℓ) : Type ℓ where
  err : Error → Result A
  ok : A → Result A

infixl 5 ◌>>=◌
-- an exception passes through what follows
abbrev pub ◌>>=◌ {ℓ κ} : {A : Type ℓ} {B : Type κ} → Result A → (A → Result B) → Result B
err raised >>= _ = err raised
ok value >>= next = next value

-- `'services'`, `'hosts'`, or one of the log contexts
pub data Context : Type 0 where
  hosts services logs : Context

abbrev StateMap : Type 0
StateMap = List (String × ℕ)

-- HOST_STATE_INT and SVC_STATE_INT
unfoldable pub host_states : StateMap
host_states = ("up", 0) ∷ ("down", 1) ∷ ("unreachable", 2) ∷ ("0", 0) ∷ ("1", 1) ∷ ("2", 2) ∷ []

unfoldable pub service_states : StateMap
service_states =
    ("ok", 0)
    ∷ ("warning", 1)
    ∷ ("critical", 2)
    ∷ ("unknown", 3)
    ∷ ("0", 0)
    ∷ ("1", 1)
    ∷ ("2", 2)
    ∷ ("3", 3)
    ∷ []

unfoldable pub find_state : String → StateMap → Option ℕ
find_state k [] = none
find_state k ((j, n) ∷ m) = if j == k then some n else find_state k m

-- `{**_HOST_STATE_MAP, **_SVC_STATE_MAP}`: the second map wins
unfoldable pub find_either : String → Option ℕ
find_either k = elim (find_state k service_states) [
  | some n ↦ some n
  | none ↦ find_state k host_states
]

unfoldable pub state_of : Context → String → Option ℕ
state_of services k = find_state k service_states
state_of hosts k = find_either k
state_of logs k = find_either k

-- `int(value) if str(value).isdigit() else value`
unfoldable pub digits_or_self : Scalar → Value
digits_or_self (text s) = if is_digit s then of_int (pos (to_nat s)) else of_text s
digits_or_self s = scalar s

-- `int_val` of the bracket path; a list is no state name
unfoldable pub state_value : Context → Value → Value
unfolding digits_or_self
state_value ctx (scalar s) = elim (state_of ctx (lower (str_scalar s))) [
  | some n ↦ of_int (pos n)
  | none ↦ digits_or_self s
]
state_value ctx v = v

abbrev pub is_custom : Field → Bool
is_custom custom_var = true
is_custom host_custom_var = true
is_custom _ = false

abbrev pub is_group : Field → Bool
is_group hostgroup = true
is_group servicegroup = true
is_group _ = false

unfoldable pub custom_prefix : Field → String
custom_prefix host_custom_var = "_HOST"
custom_prefix _ = "_"

-- `str(value.get("val", ""))`
abbrev pub custom_val : Option Scalar → String
custom_val none = ""
custom_val (some v) = str_scalar v

unfoldable pub group_column : Context → Field → String
group_column services hostgroup = "host_groups"
group_column _ _ = "groups"

-- `_field_map`
unfoldable pub column : Field → String
column name = "name"
column address = "address"
column state = "state"
column host = "host_name"
column service = "service_description"
column description = "description"
column message = "message"
column contact = "contact_name"
column hostgroup = "hostgroup"
column servicegroup = "servicegroup"
column custom_var = "custom_var"
column host_custom_var = "host_custom_var"
column since = "since"
column until = "until"

abbrev pub Param : Type 0
Param = String × Value

unfoldable pub state_param : Op → Value → Result Param
state_param eq v = ok ("state", v)
state_param neq v = ok ("state[ne]", v)
state_param gte v = ok ("state[gte]", v)
state_param lte v = ok ("state[lte]", v)
state_param _ v = err filter_error

unfoldable pub group_param : Op → String → Value → Result Param
group_param eq base v = ok (base ++ "[gte]", v)
group_param gte base v = ok (base ++ "[gte]", v)
group_param neq base v = ok (base ++ "[notin]", v)
group_param _ base v = err filter_error

-- `re.escape` is the standard library's, and is taken as an argument
module _ (re_escape : String → String) where
  -- `"|".join(re.escape(str(v)) for v in value)`; iterating over a scalar is refused
  unfoldable pub alternatives : Value → Result String
  alternatives (items vs) = ok (join "|" (map (λ v. re_escape (str_scalar v)) vs))
  alternatives _ = err not_validated

  unfoldable pub column_param : Op → String → Value → Result Param
  column_param eq col v = ok (col, v)
  column_param neq col v = ok (col ++ "[ne]", v)
  column_param regex col v = ok (col ++ "[regex]", v)
  column_param gte col v = ok (col ++ "[gte]", v)
  column_param lte col v = ok (col ++ "[lte]", v)
  column_param op_in col v = do any ← alternatives v; ok (col ++ "[regex]", of_text any)

  unfoldable pub custom_param : Field → Value → Result Param
  custom_param f (custom var val) = ok (custom_prefix f ++ upper var, of_text (custom_val val))
  custom_param f _ = err not_validated

  -- `_leaf_to_params`: its dict always has one entry
  unfoldable pub leaf_to_params : Context → Leaf → Result Param
  unfolding state_param group_param column_param custom_param custom_prefix alternatives
  leaf_to_params ctx l = elim l.field [
    | custom_var ↦ custom_param custom_var l.value
    | host_custom_var ↦ custom_param host_custom_var l.value
    | state ↦ state_param l.op (state_value ctx l.value)
    | hostgroup ↦ group_param l.op (group_column ctx hostgroup) l.value
    | servicegroup ↦ group_param l.op (group_column ctx servicegroup) l.value
    | since ↦ ok ("time[gte]", l.value)
    | until ↦ ok ("time[lte]", l.value)
    | f ↦ column_param l.op (column f) l.value
  ]

-- the state map of the q= path
unfoldable pub q_states : Context → StateMap
q_states services = service_states
q_states _ = host_states

-- `state_map.get(str(v).lower(), v)`, written out
unfoldable pub q_state : Context → Scalar → String
unfolding q_states
q_state ctx s = elim (find_state (lower (str_scalar s)) (q_states ctx)) [
  | some n ↦ str_scalar (int (pos n))
  | none ↦ str_scalar s
]

abbrev q_state_value : Context → Value → String
q_state_value ctx (scalar s) = q_state ctx s
q_state_value ctx v = str_value v

-- `(column op "value")`
unfoldable pub quoted : String → String → String → String
quoted col op v = "(" ++ col ++ " " ++ op ++ " \"" ++ v ++ "\")"

-- `"(" + " or ".join(parts) + ")"`
unfoldable pub any_part : (Scalar → String) → Value → Result String
any_part part (items vs) = ok ("(" ++ join " or " (map part vs) ++ ")")
any_part part _ = err not_validated

unfoldable pub q_state_op : Op → String
q_state_op neq = "!="
q_state_op gte = ">="
q_state_op lte = "<="
q_state_op _ = "="

unfoldable pub q_state_leaf : Context → Op → Value → Result String
q_state_leaf ctx op_in v = any_part (λ s. "(state = " ++ q_state ctx s ++ ")") v
q_state_leaf ctx op v = ok ("(state " ++ q_state_op op ++ " " ++ q_state_value ctx v ++ ")")

unfoldable pub q_group_leaf : Op → String → Value → Result String
q_group_leaf op_in col v = any_part (λ s. quoted col ">=" (str_scalar s)) v
q_group_leaf neq col v = ok (quoted col "!=" (str_value v))
q_group_leaf _ col v = ok (quoted col ">=" (str_value v))

unfoldable pub q_column_leaf : Op → String → Value → Result String
q_column_leaf eq col v = ok (quoted col "=" (str_value v))
q_column_leaf neq col v = ok (quoted col "!=" (str_value v))
q_column_leaf regex col v = ok (quoted col "~~" (str_value v))
q_column_leaf gte col v = ok (quoted col ">=" (str_value v))
q_column_leaf lte col v = ok (quoted col "<=" (str_value v))
q_column_leaf op_in col v = any_part (λ s. quoted col "=" (str_scalar s)) v

unfoldable pub q_custom_leaf : Field → Value → Result String
q_custom_leaf f (custom var val) =
    ok ("(" ++ custom_prefix f ++ upper var ++ " = \"" ++ custom_val val ++ "\")")
q_custom_leaf f _ = err not_validated

-- `_q_leaf`
unfoldable pub q_leaf : Context → Leaf → Result String
unfolding any_part q_state_op q_state_leaf q_group_leaf q_column_leaf q_custom_leaf custom_prefix
q_leaf ctx l = elim l.field [
  | custom_var ↦ q_custom_leaf custom_var l.value
  | host_custom_var ↦ q_custom_leaf host_custom_var l.value
  | state ↦ q_state_leaf ctx l.op l.value
  | hostgroup ↦ q_group_leaf l.op (group_column ctx hostgroup) l.value
  | servicegroup ↦ q_group_leaf l.op (group_column ctx servicegroup) l.value
  | since ↦ ok ("(time >= " ++ str_value l.value ++ ")")
  | until ↦ ok ("(time <= " ++ str_value l.value ++ ")")
  | f ↦ q_column_leaf l.op (column f) l.value
]

-- Inversion of a step that succeeded.
pub >>=-eq-ok {ℓ κ} :
    {A : Type ℓ} {B : Type κ} (step : Result A) (next : A → Result B) {y : B}
    → (step >>= next) ≡ ok y
    → (x : A) × (step ≡ ok x) × (next x ≡ ok y)
>>=-eq-ok (err e) next done = cc
>>=-eq-ok (ok x) next done = (x, refl, done)

pub ok_inj {ℓ} : {A : Type ℓ} {a b : A} → ok a ≡ ok b → a ≡ b
ok_inj h = cc

-- The step succeeds, with such a result.
abbrev pub Ensures {ℓ} : {A : Type ℓ} → Result A → (A → Type 0) → Type 0
Ensures (ok a) P = P a
Ensures (err e) P = ⊥

pub ensured {ℓ} :
    {A : Type ℓ} (r : Result A) (P : A → Type 0) → Ensures r P → (a : A) × (r ≡ ok a) × P a
ensured (ok a) P h = (a, refl, h)
ensured (err e) P h = absurd h
