-- ===== src/Filters/Read.antt =====
-- The tree that a filter of the caller stands for, and what `validate_filter` of
-- src/thruk_mcp/filters.py says of it. Of the `val` of a custom variable only its text counts.
use thruk_mcp.Audit.{
  Json, null, boolean, number, string, list, dict, Items, nil, cons, Fields, get_field, str,
}
use thruk_mcp.Filters
use thruk_mcp.Filters.{Operator, all_of, any_of, Node, leaf, group, Nodes}
use thruk_mcp.Filters.Leaves.{Field, Leaf, is_custom}
use thruk_mcp.Filters.Sound.{left, right}
use thruk_mcp.Filters.Validate.{
  Fault, too_deep, not_dict, bad_type, bad_operator, bad_child, bad_custom, not_scalar,
  conditions_of, Checked, refused, accepted, ◌>>=◌, require, key_of_leaf, known_field, known_op,
  is_scalar, all_scalars,
}
use thruk_mcp.Filters.Values.{Scalar, text, int, bool, float, Value, scalar, items, custom}
use thruk_mcp.Prelude.{
  ℕ, zero, suc, String, ◌==◌, ◌≡◌, refl, Bool, true, false, Option, none, some, List, [], ◌∷◌,
  if◌then◌else◌,
}
use thruk_mcp.Prelude.Text.{to_int}

unfoldable pub scalar_of : Json → Checked Scalar
unfolding to_int
scalar_of (boolean b) = accepted (bool b)
scalar_of (number n z) = elim (to_int n) [ some i ↦ accepted (int i) | none ↦ accepted (float n) ]
scalar_of (string s) = accepted (text s)
scalar_of _ = refused not_scalar

unfoldable pub scalars_of : Items → Checked (List Scalar)
unfolding scalar_of
scalars_of nil = accepted []
scalars_of (cons v l) = do s ← scalar_of v; ss ← scalars_of l; accepted (s ∷ ss)

unfoldable pub plain_of : Json → Checked Value
unfolding scalar_of scalars_of
plain_of (list l) = do ss ← scalars_of l; accepted (items ss)
plain_of v = do s ← scalar_of v; accepted (scalar s)

module _ (repr : Json → String) where
  unfoldable pub text_of : Option Json → Option Scalar
  text_of none = none
  text_of (some v) = some (text (str repr v))

  unfoldable pub custom_with : Fields → Option Json → Checked Value
  custom_with fs (some (string s)) = accepted (custom s (text_of (get_field "val" fs)))
  custom_with fs _ = refused bad_custom

  unfoldable pub custom_of : Json → Checked Value
  unfolding custom_with text_of
  custom_of (dict fs) = custom_with fs (get_field "var" fs)
  custom_of _ = refused bad_custom

  unfoldable pub value_of : Field → Json → Checked Value
  unfolding custom_of plain_of
  value_of f v = if is_custom f then custom_of v else plain_of v

  unfoldable pub leaf_of : List Field → Fields → Checked Leaf
  unfolding value_of
  leaf_of allowed fs = do
    field ← key_of_leaf "field" fs
    op ← key_of_leaf "op" fs
    json ← key_of_leaf "value" fs
    f ← known_field allowed field
    o ← known_op op
    v ← value_of f json
    accepted (record { field = f; op = o; value = v })

-- The operator of a group, and the tree of a condition.
unfoldable pub operator_of : Json → Checked Operator
operator_of (string s) =
    if s == "and"
    then accepted all_of
    else if s == "or"
    then accepted any_of
    else refused bad_operator
operator_of _ = refused bad_operator

unfoldable pub nodes_of : (Fields → Checked Node) → Items → Checked Nodes
nodes_of read nil = accepted Filters.nil
nodes_of read (cons (dict fs) l) = do
  n ← read fs
  ns ← nodes_of read l
  accepted (Filters.cons n ns)
nodes_of read (cons _ l) = refused bad_child

unfoldable pub group_of : (Fields → Checked Node) → Fields → Checked Node
unfolding operator_of nodes_of conditions_of
group_of read fs = do
  operator ← key_of_leaf "operator" fs
  conditions ← key_of_leaf "conditions" fs
  o ← operator_of operator
  l ← conditions_of conditions
  ns ← nodes_of read l
  accepted (group o ns)

module _ (repr : Json → String) (allowed : List Field) where
  unfoldable pub typed_node : (Fields → Checked Node) → Option Json → Fields → Checked Node
  unfolding group_of
  typed_node read (some (string s)) fs =
      if s == "leaf"
      then (do l ← leaf_of repr allowed fs; accepted (leaf l))
      else if s == "group"
      then group_of read fs
      else refused bad_type
  typed_node read _ fs = refused bad_type

  unfoldable pub node_of : ℕ → Fields → Checked Node
  unfolding typed_node get_field
  node_of zero fs = refused too_deep
  node_of (suc left) fs = typed_node (node_of left) (get_field "type" fs) fs

  -- The tree that a filter of the caller stands for.
  unfoldable pub tree_of : Json → Checked Node
  unfolding node_of
  tree_of (dict fs) = node_of 5 fs
  tree_of _ = refused not_dict

-- A step that is accepted, and what follows on it.
pub bind-eq-accepted :
    {A B : Type 0} (m : Checked A) (f : A → Checked B) (b : B)
    → (m >>= f) ≡ accepted b
    → (a : A) × (m ≡ accepted a) × (f a ≡ accepted b)
bind-eq-accepted (refused e) f b h = cc
bind-eq-accepted (accepted a) f b h = (a, refl, h)

pub require-holds : (b : Bool) (e : Fault) → require b e ≡ accepted tt → b ≡ true
unfolding require
require-holds true e h = refl
require-holds false e h = cc

pub scalar_of-accepts : (v : Json) → is_scalar v ≡ true → (s : Scalar) × (scalar_of v ≡ accepted s)
unfolding scalar_of is_scalar
scalar_of-accepts null h = cc
scalar_of-accepts (boolean b) h = (bool b, refl)
scalar_of-accepts (number n z) h = go (to_int n)
  where
    go :
        (o : Option _)
        → (s : Scalar) × (elim o [ some i ↦ accepted (int i) | none ↦ accepted (float n) ]
            ≡ accepted s)
    go none = (float n, refl)
    go (some i) = (int i, refl)
scalar_of-accepts (string s) h = (text s, refl)
scalar_of-accepts (list l) h = cc
scalar_of-accepts (dict fs) h = cc

pub scalars_of-accepts :
    (l : Items) → all_scalars l ≡ true → (ss : List Scalar) × (scalars_of l ≡ accepted ss)
unfolding scalars_of all_scalars
scalars_of-accepts nil h = ([], refl)
scalars_of-accepts (cons v l) h =
    let s = scalar_of-accepts v (left (is_scalar v) (all_scalars l) h) in
    let ss = scalars_of-accepts l (right (is_scalar v) (all_scalars l) h) in
    (s.0 ∷ ss.0, rw (s.1, ss.1) refl)
