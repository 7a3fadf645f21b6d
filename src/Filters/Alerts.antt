-- ===== src/Filters/Alerts.antt =====
-- `infer_alert_type_regex` of src/thruk_mcp/filters.py: the alerts that a filter can be about.
use thruk_mcp.Filters.Leaves.{Field, state, Op, eq, op_in, Leaf}
use thruk_mcp.Filters.Values.{Scalar, text, Value, scalar, items}
use thruk_mcp.Filters.{all_of, any_of, Node, leaf, group, Nodes, nil, cons}
use thruk_mcp.Prelude.{
  String, ◌==◌, Bool, true, false, not, ◌&&◌, ◌||◌, Option, none, some, List, [], ◌∷◌,
  if◌then◌else◌,
}
use thruk_mcp.Prelude.Text.{lower}

-- The set `classes`: which of "host", "service" and "ambiguous" it has.
pub record Classes : Type 0 where
  pub host : Bool
  pub service : Bool
  pub ambiguous : Bool

pub data Class : Type 0 where
  a_host a_service unclear : Class

-- `_HOST_ONLY_STATE_NAMES` and `_SVC_ONLY_STATE_NAMES`
unfoldable pub is_host_name : String → Bool
is_host_name s = s == "up" || s == "down" || s == "unreachable"

unfoldable pub is_service_name : String → Bool
is_service_name s = s == "ok" || s == "warning" || s == "critical" || s == "unknown"

-- `_classify`
unfoldable pub classify : Scalar → Class
unfolding is_host_name is_service_name
classify (text s) =
    if is_host_name (lower s)
    then a_host
    else if is_service_name (lower s)
    then a_service
    else unclear
classify _ = unclear

-- `classes.add(...)`
unfoldable pub add_class : Class → Classes → Classes
add_class a_host c = record c { host = true }
add_class a_service c = record c { service = true }
add_class unclear c = record c { ambiguous = true }

unfoldable pub add_items : List Scalar → Classes → Classes
unfolding classify add_class
add_items [] c = c
add_items (v ∷ vs) c = add_items vs (add_class (classify v) c)

-- what a leaf on the state adds
unfoldable pub add_state : Op → Value → Classes → Classes
unfolding add_items classify add_class
add_state eq (scalar v) c = add_class (classify v) c
add_state op_in (items vs) c = add_items vs c
add_state _ _ c = add_class unclear c

abbrev pub is_state : Field → Bool
is_state state = true
is_state _ = false

unfoldable pub walk_leaf : Leaf → Classes → Classes
unfolding add_state
walk_leaf l c = if is_state l.field then add_state l.op l.value c else c

-- `_contains_state`
unfoldable mutual
  pub contains_state : Node → Bool
  contains_state (leaf l) = is_state l.field
  contains_state (group _ cs) = any_contains_state cs

  pub any_contains_state : Nodes → Bool
  any_contains_state nil = false
  any_contains_state (cons c cs) = contains_state c || any_contains_state cs

-- `_walk`
unfoldable mutual
  unfolding walk_leaf add_class

  pub collect : Node → Classes → Classes
  collect (leaf l) c = walk_leaf l c
  collect (group any_of cs) c = if any_contains_state cs then add_class unclear c else c
  collect (group all_of cs) c = collect_all cs c

  pub collect_all : Nodes → Classes → Classes
  collect_all nil c = c
  collect_all (cons n ns) c = collect_all ns (collect n c)

abbrev pub no_classes : Classes
no_classes = record { host = false; service = false; ambiguous = false }

unfoldable pub narrowed : Classes → Option Class
narrowed c =
    if not (c.host || c.service || c.ambiguous) || c.ambiguous
    then none
    else if c.host && not c.service
    then some a_host
    else if c.service && not c.host
    then some a_service
    else none

-- the regex that stands for a kind of alerts
unfoldable pub alert_regex : Class → String
alert_regex a_host = "^HOST ALERT"
alert_regex a_service = "^SERVICE ALERT"
alert_regex unclear = "^(HOST|SERVICE) ALERT"

-- `infer_alert_type_regex`
unfoldable pub infer_alert_type_regex : Option Node → Option String
unfolding collect narrowed alert_regex
infer_alert_type_regex none = none
infer_alert_type_regex (some n) = elim (narrowed (collect n no_classes)) [
  | none ↦ none
  | some k ↦ some (alert_regex k)
]
