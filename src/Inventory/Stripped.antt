-- ===== src/Inventory/Stripped.antt =====
-- What the tree that `_strip_filter_field` of src/thruk_mcp/tools/inventory.py leaves means.
use mathlib.Core.Option
use thruk_mcp.Filters.Leaves.{Field, Leaf}
use thruk_mcp.Filters.Meaning.{combine, unit, eval, evals}
use thruk_mcp.Filters.{Operator, all_of, any_of, Node, leaf, group, Nodes, nil, cons}
use thruk_mcp.Inventory.{is_on, keep_node, regroup, strip_filter_field, strip_each}
use thruk_mcp.Prelude.{
  ◌≡◌, refl, sym, ap, ap₂, ◌∙◌, Bool, true, false, Option, none, some, inl, inr, Bool-cases,
  if◌then◌else◌,
}

-- Two readings, of which either may be missing.
abbrev pub join_readings : Operator → Option Bool → Option Bool → Option Bool
join_readings o none r = r
join_readings o (some a) none = some a
join_readings o (some a) (some b) = some (combine o a b)

module _ (holds : Leaf → Bool) (f : Field) where
  -- A tree read as though the leaves on the field were not there; a group without a reading has none.
  unfoldable mutual
    pub skip : Node → Option Bool
    skip (leaf l) = if is_on f l then none else some (holds l)
    skip (group o cs) = skip_each o cs

    pub skip_each : Operator → Nodes → Option Bool
    skip_each o nil = none
    skip_each o (cons c cs) = join_readings o (skip c) (skip_each o cs)

  read_node : Option Node → Option Bool
  read_node none = none
  read_node (some n) = some (eval holds n)

  read_nodes : Operator → Nodes → Option Bool
  read_nodes o nil = none
  read_nodes o (cons c cs) = some (evals holds o (cons c cs))

  combine-unit : (o : Operator) (b : Bool) → combine o b (unit o) ≡ b
  combine-unit all_of true = refl
  combine-unit all_of false = refl
  combine-unit any_of true = refl
  combine-unit any_of false = refl

  read-regroup : (o : Operator) (cs : Nodes) → read_node (regroup o cs) ≡ read_nodes o cs
  unfolding regroup read_node read_nodes eval
  read-regroup o nil = refl
  read-regroup o (cons c nil) = ap some (sym (combine-unit o (eval holds c)))
  read-regroup o (cons c (cons d cs)) = refl

  read-keep_node :
      (o : Operator) (c : Option Node) (cs : Nodes)
      → read_nodes o (keep_node c cs) ≡ join_readings o (read_node c) (read_nodes o cs)
  unfolding keep_node read_node read_nodes eval
  read-keep_node o none cs = refl
  read-keep_node o (some c) nil = ap some (combine-unit o (eval holds c))
  read-keep_node o (some c) (cons d cs) = refl

  mutual
    unfolding strip_filter_field skip read_node read_nodes eval

    read-strip : (n : Node) → read_node (strip_filter_field f n) ≡ skip n
    read-strip (leaf l) = elim (Bool-cases (is_on f l)) [
      | inl e ↦ rw (e) refl
      | inr e ↦ rw (e) refl
    ]
    read-strip (group o cs) = read-regroup o (strip_each f cs) ∙ read-strip_each o cs

    read-strip_each : (o : Operator) (cs : Nodes) → read_nodes o (strip_each f cs) ≡ skip_each o cs
    read-strip_each o nil = refl
    read-strip_each o (cons c cs) =
        read-keep_node o (strip_filter_field f c) (strip_each f cs)
        ∙ ap₂ (join_readings o) (read-strip c) (read-strip_each o cs)

  -- The tree that is left means what the filter does when the leaves on the field are passed over,
  -- and there is none just when the filter has no other leaf.
  pub strip_filter_field-skip :
      (n : Node) → Option.map (eval holds) (strip_filter_field f n) ≡ skip n
  unfolding read_node
  strip_filter_field-skip n = as_map (strip_filter_field f n) ∙ read-strip n
    where
      as_map : (o : Option Node) → Option.map (eval holds) o ≡ read_node o
      as_map none = refl
      as_map (some m) = refl
