-- ===== src/Inventory.antt =====
-- src/thruk_mcp/tools/inventory.py: what its tools do with a filter besides its compilation. A search
-- by a pattern, which ignores the case, is an argument.
pub mod Stripped
pub mod Leaks
mod Tests
use thruk_mcp.Filters.Leaves.{Field, hostgroup, Op, eq, neq, regex, op_in, gte, lte, Leaf}
use thruk_mcp.Filters.Validate.{field_name}
use thruk_mcp.Filters.Values.{Value, scalar, items, custom, str_scalar, str_value}
use thruk_mcp.Filters.{Operator, Node, leaf, group, Nodes, nil, cons}
use thruk_mcp.Ordering.{member}
use thruk_mcp.Prelude.{
  ℕ, ◌-◌, String, ◌==◌, Bool, true, false, not, ◌&&◌, ◌||◌, Option, none, some, List, [], ◌∷◌, ◌++◌,
  map, length, nat_eq, String_discrete, if◌then◌else◌,
}
use thruk_mcp.Prelude.Text.{split, strip, join, is_empty}
use thruk_mcp.Sorting.{keep}

abbrev pub is_on : Field → Leaf → Bool
is_on f l = field_name l.field == field_name f

-- a child that is left stays in its place
unfoldable pub keep_node : Option Node → Nodes → Nodes
keep_node none cs = cs
keep_node (some c) cs = cons c cs

-- an empty group goes, and a group of one child is that child
unfoldable pub regroup : Operator → Nodes → Option Node
regroup o nil = none
regroup o (cons c nil) = some c
regroup o (cons c (cons d cs)) = some (group o (cons c (cons d cs)))

-- `_strip_filter_field`
unfoldable mutual
  unfolding keep_node regroup field_name

  pub strip_filter_field : Field → Node → Option Node
  strip_filter_field f (leaf l) = if is_on f l then none else some (leaf l)
  strip_filter_field f (group o cs) = regroup o (strip_each f cs)

  pub strip_each : Field → Nodes → Nodes
  strip_each f nil = nil
  strip_each f (cons c cs) = keep_node (strip_filter_field f c) (strip_each f cs)

abbrev pub Constraint : Type 0
Constraint = Op × Value

abbrev pub is_hostgroup : Field → Bool
is_hostgroup hostgroup = true
is_hostgroup _ = false

-- `_collect_hostgroup_constraints`
unfoldable mutual
  pub hostgroup_constraints : Node → List Constraint
  hostgroup_constraints (leaf l) = if is_hostgroup l.field then (l.op, l.value) ∷ [] else []
  hostgroup_constraints (group o cs) = constraints_of_each cs

  pub constraints_of_each : Nodes → List Constraint
  constraints_of_each nil = []
  constraints_of_each (cons c cs) = hostgroup_constraints c ++ constraints_of_each cs

unfoldable pub any_member : List String → List String → Bool
unfolding member
any_member [] g = false
any_member (v ∷ vs) g = member String_discrete v g || any_member vs g

-- `{str(v) for v in val} if isinstance(val, list) else {str(val)}`
unfoldable pub allowed_of : Value → List String
unfolding str_scalar str_value
allowed_of (items vs) = map str_scalar vs
allowed_of v = str_value v ∷ []

-- What `thruk_problems` makes of the rows of both queries: those that it keeps, and how many of
-- each it drops, where it warns of any.
pub record Rechecked (R : Type 0) : Type 0 where
  pub hosts : List R
  pub services : List R
  pub leak : Option (ℕ × ℕ)

unfoldable pub leak_of : ℕ → ℕ → Option (ℕ × ℕ)
leak_of h s = if nat_eq h 0 && nat_eq s 0 then none else some (h, s)

-- `re.compile(pattern, re.IGNORECASE).search(text)` is an argument; the groups of a row are the
-- texts of the list that it has, or none.
module _ (search : String → String → Bool) where
  unfoldable pub any_search : String → List String → Bool
  any_search pattern [] = false
  any_search pattern (x ∷ g) = search pattern x || any_search pattern g

  unfoldable pub meets : List String → Constraint → Bool
  unfolding member str_value any_member allowed_of any_search
  meets g (eq, v) = member String_discrete (str_value v) g
  meets g (op_in, v) = any_member (allowed_of v) g
  meets g (neq, v) = not (member String_discrete (str_value v) g)
  meets g (regex, v) = any_search (str_value v) g
  meets g (gte, v) = true
  meets g (lte, v) = true

  -- `_row_matches_hostgroup_constraints`
  unfoldable pub row_matches : List String → List Constraint → Bool
  unfolding meets
  row_matches g [] = true
  row_matches g (c ∷ cs) = meets g c && row_matches g cs

  -- the client-side check, which needs a constraint; `groups` and `host_groups` read the column
  unfoldable pub recheck_rows :
      {R : Type 0}
      → (R → List String)
      → (R → List String)
      → List Constraint
      → List R
      → List R
      → Rechecked R
  unfolding row_matches leak_of keep
  recheck_rows groups host_groups [] hosts services = record {
    hosts = hosts;
    services = services;
    leak = none;
  }
  recheck_rows groups host_groups (c ∷ cs) hosts services =
      let kept_h = keep (λ r. row_matches (groups r) (c ∷ cs)) hosts in
      let kept_s = keep (λ r. row_matches (host_groups r) (c ∷ cs)) services in
      record {
        hosts = kept_h;
        services = kept_s;
        leak = leak_of (length hosts - length kept_h) (length services - length kept_s);
      }

-- `_ensure_columns_param`, on the value of `columns`
unfoldable pub ensure_columns : Option String → String → Option String
unfolding split strip join member
ensure_columns none required = none
ensure_columns (some cur) required =
    let cols = keep (λ c. not (is_empty c)) (map strip (split b',' cur)) in
    if is_empty cur
    then some cur
    else if member String_discrete required cols
    then some cur
    else some (join "," (cols ++ required ∷ []))
