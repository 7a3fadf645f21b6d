-- ===== src/Filters/Validate.antt =====
-- `validate_filter` of src/thruk_mcp/filters.py: the check of a filter as the caller sends it. What
-- `re.compile` accepts is an argument. The depth counts down here, from one more than MAX_DEPTH.
use thruk_mcp.Audit.{
  Json, null, boolean, number, string, list, dict, Items, nil, cons, Fields, get_field,
}
use thruk_mcp.Filters.Leaves.{
  Field, name, address, state, host, service, description, message, contact, hostgroup,
  servicegroup, custom_var, host_custom_var, since, until, Op, eq, neq, regex, op_in, gte, lte,
  is_custom, is_group,
}
use thruk_mcp.Prelude.{
  ℕ, zero, suc, String, ◌==◌, Bool, true, false, not, ◌&&◌, Option, none, some, List, [], ◌∷◌,
  if◌then◌else◌,
}
use thruk_mcp.Prelude.Text.{is_empty}

-- The FilterErrors.
pub data Fault : Type 0 where
  too_deep not_dict bad_type missing_key : Fault
  unknown_field unknown_op group_op null_value : Fault
  bad_list bad_element not_text bad_pattern not_scalar bad_custom bad_var : Fault
  bad_operator no_conditions bad_child : Fault

pub data Checked (A : Type 0) : Type 0 where
  refused : Fault → Checked A
  accepted : A → Checked A

infixl 5 ◌>>=◌
abbrev pub ◌>>=◌ : {A B : Type 0} → Checked A → (A → Checked B) → Checked B
refused e >>= f = refused e
accepted a >>= f = f a

-- `if not b: raise`
unfoldable pub require : Bool → Fault → Checked Unit
require b e = if b then accepted tt else refused e

-- The name of a field.
unfoldable pub field_name : Field → String
field_name name = "name"
field_name address = "address"
field_name state = "state"
field_name host = "host"
field_name service = "service"
field_name description = "description"
field_name message = "message"
field_name contact = "contact"
field_name hostgroup = "hostgroup"
field_name servicegroup = "servicegroup"
field_name custom_var = "custom_var"
field_name host_custom_var = "host_custom_var"
field_name since = "since"
field_name until = "until"

-- the field of that name among those allowed
unfoldable pub field_named : String → List Field → Option Field
unfolding field_name
field_named s [] = none
field_named s (f ∷ l) = let rest = field_named s l in if field_name f == s then some f else rest

-- LEAF_OPS
unfoldable pub op_named : String → Option Op
op_named s =
    if s == "eq"
    then some eq
    else if s == "neq"
    then some neq
    else if s == "regex"
    then some regex
    else if s == "in"
    then some op_in
    else if s == "gte"
    then some gte
    else if s == "lte"
    then some lte
    else none

-- `node[key]`, where the key is wanted
unfoldable pub key_of_leaf : String → Fields → Checked Json
unfolding get_field
key_of_leaf key fs = elim (get_field key fs) [ none ↦ refused missing_key | some v ↦ accepted v ]

unfoldable pub known_field : List Field → Json → Checked Field
unfolding field_named
known_field allowed (string s) = elim (field_named s allowed) [
  | none ↦ refused unknown_field
  | some f ↦ accepted f
]
known_field allowed _ = refused unknown_field

unfoldable pub known_op : Json → Checked Op
unfolding op_named
known_op (string s) = elim (op_named s) [ none ↦ refused unknown_op | some o ↦ accepted o ]
known_op _ = refused unknown_op

-- `_GROUP_FIELDS_ALLOWED_OPS`
unfoldable pub is_group_op : Op → Bool
is_group_op regex = false
is_group_op lte = false
is_group_op _ = true

-- `isinstance(value, (str, int, float))`; a `bool` is an `int`
unfoldable pub is_scalar : Json → Bool
is_scalar (boolean b) = true
is_scalar (number n z) = true
is_scalar (string s) = true
is_scalar _ = false

unfoldable pub all_scalars : Items → Bool
unfolding is_scalar
all_scalars nil = true
all_scalars (cons v l) = is_scalar v && all_scalars l

unfoldable pub not_null : Json → Checked Unit
not_null null = refused null_value
not_null _ = accepted tt

unfoldable pub check_list : Json → Checked Unit
unfolding all_scalars require
check_list (list nil) = refused bad_list
check_list (list (cons v l)) = require (all_scalars (cons v l)) bad_element
check_list _ = refused bad_list

-- the `var` of a custom variable
unfoldable pub check_var : Option Json → Checked Unit
unfolding require
check_var none = refused bad_custom
check_var (some (string s)) = require (not (is_empty s)) bad_var
check_var (some _) = refused bad_var

unfoldable pub check_custom : Json → Checked Unit
unfolding check_var get_field
check_custom (dict fs) = check_var (get_field "var" fs)
check_custom _ = refused bad_custom

-- `if operator not in ("and", "or")`
unfoldable pub check_operator : Json → Checked Unit
unfolding require
check_operator (string s) = require (if s == "and" then true else s == "or") bad_operator
check_operator _ = refused bad_operator

unfoldable pub conditions_of : Json → Checked Items
conditions_of (list (cons c l)) = accepted (cons c l)
conditions_of _ = refused no_conditions

-- the loop over the conditions
unfoldable pub check_each : (Fields → Checked Unit) → Items → Checked Unit
check_each check nil = accepted tt
check_each check (cons (dict fs) l) = do _ ← check fs; check_each check l
check_each check (cons _ l) = refused bad_child

-- `_validate_group`, with the check of a condition
unfoldable pub validate_group : (Fields → Checked Unit) → Fields → Checked Unit
unfolding key_of_leaf check_operator conditions_of check_each
validate_group check fs = do
  operator ← key_of_leaf "operator" fs
  conditions ← key_of_leaf "conditions" fs
  _ ← check_operator operator
  l ← conditions_of conditions
  check_each check l

module _ (compiles : String → Bool) where
  unfoldable pub check_pattern : Json → Checked Unit
  unfolding require
  check_pattern (string s) = require (compiles s) bad_pattern
  check_pattern _ = refused not_text

  -- the value, by the operator
  unfoldable pub check_op : Field → Op → Json → Checked Unit
  unfolding check_list check_pattern is_scalar require
  check_op f op_in v = check_list v
  check_op f regex v = check_pattern v
  check_op f _ v = if is_custom f then accepted tt else require (is_scalar v) not_scalar

  unfoldable pub check_field : Field → Json → Checked Unit
  unfolding check_custom
  check_field f v = if is_custom f then check_custom v else accepted tt

  -- `_validate_leaf`
  unfoldable pub validate_leaf : List Field → Fields → Checked Unit
  unfolding key_of_leaf known_field known_op is_group_op require not_null check_op check_field
  validate_leaf allowed fs = do
    field ← key_of_leaf "field" fs
    op ← key_of_leaf "op" fs
    value ← key_of_leaf "value" fs
    f ← known_field allowed field
    o ← known_op op
    _ ← require (if is_group f then is_group_op o else true) group_op
    _ ← not_null value
    _ ← check_op f o value
    check_field f value

  -- what a node is, by its `type`
  unfoldable pub validate_typed :
      (Fields → Checked Unit) → List Field → Option Json → Fields → Checked Unit
  unfolding validate_leaf validate_group
  validate_typed check allowed (some (string s)) fs =
      if s == "leaf"
      then validate_leaf allowed fs
      else if s == "group"
      then validate_group check fs
      else refused bad_type
  validate_typed check allowed _ fs = refused bad_type

  -- `validate_filter` of a dict, at a depth of `MAX_DEPTH + 1 - left`
  unfoldable pub validate_dict : List Field → ℕ → Fields → Checked Unit
  unfolding validate_typed get_field
  validate_dict allowed zero fs = refused too_deep
  validate_dict allowed (suc left) fs =
      validate_typed (validate_dict allowed left) allowed (get_field "type" fs) fs

  -- `validate_filter`; MAX_DEPTH is 4
  unfoldable pub validate_filter : List Field → Json → Checked Unit
  unfolding validate_dict
  validate_filter allowed (dict fs) = validate_dict allowed 5 fs
  validate_filter allowed _ = refused not_dict
