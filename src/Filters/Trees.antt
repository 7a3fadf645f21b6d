-- ===== src/Filters/Trees.antt =====
-- What `validate_filter` of src/thruk_mcp/filters.py accepts compiles without a TypeError.
use mathlib.Core.Path.{subst}
use thruk_mcp.Audit.{
  Json, null, boolean, number, string, list, dict, Items, nil, cons, Fields, get_field,
}
use thruk_mcp.Filters.{Node, Nodes, leaf, group, all_of, any_of, Operator, compile_filter}
use thruk_mcp.Filters
use thruk_mcp.Filters.Accepted.{value-IsRead}
use thruk_mcp.Filters.Leaves.{Field, Op, Leaf, Context, is_group}
use thruk_mcp.Filters.Read.{
  operator_of, nodes_of, group_of, typed_node, node_of, tree_of, value_of, leaf_of,
  bind-eq-accepted, require-holds,
}
use thruk_mcp.Filters.Sound.{both, compile_filter-IsTyped}
use thruk_mcp.Filters.Typed.{IsTyped, fits, all_fit, each_fits}
use thruk_mcp.Filters.Validate.{
  bad_type, Checked, refused, accepted, ◌>>=◌, require, group_op, is_group_op, key_of_leaf,
  known_field, known_op, not_null, check_op, validate_leaf, check_operator, conditions_of,
  check_each, validate_group, validate_typed, validate_dict, validate_filter,
}
use thruk_mcp.Filters.Values.{Value}
use thruk_mcp.Prelude.{
  ℕ, zero, suc, String, ◌==◌, ◌≡◌, refl, ap, Bool, true, false, Option, none, some, List, inl, inr,
  arith, Bool-cases, if◌then◌else◌,
}

module _ (compiles : String → Bool) (repr : Json → String) (allowed : List Field) where
  leaf_of-steps :
      (fs : Fields) (field op json : Json) (f : Field) (o : Op) (v : Value)
      → key_of_leaf "field" fs ≡ accepted field
      → key_of_leaf "op" fs ≡ accepted op
      → key_of_leaf "value" fs ≡ accepted json
      → known_field allowed field ≡ accepted f
      → known_op op ≡ accepted o
      → value_of repr f json ≡ accepted v
      → leaf_of repr allowed fs ≡ accepted (record { field = f; op = o; value = v })
  unfolding leaf_of
  leaf_of-steps fs field op json f o v a b c d e g = rw (a, b, c, d, e, g) refl

  leaf-IsRead :
      (fs : Fields)
      → validate_leaf compiles allowed fs ≡ accepted tt
      → (l : Leaf) × (leaf_of repr allowed fs ≡ accepted l)
        × (fits compiles l.field l.op l.value ≡ true)
  unfolding validate_leaf
  leaf-IsRead fs h =
      let a = bind-eq-accepted (key_of_leaf "field" fs) _ tt h in
      let b = bind-eq-accepted (key_of_leaf "op" fs) _ tt a.2 in
      let c = bind-eq-accepted (key_of_leaf "value" fs) _ tt b.2 in
      let d = bind-eq-accepted (known_field allowed a.0) _ tt c.2 in
      let e = bind-eq-accepted (known_op b.0) _ tt d.2 in
      let g =
        bind-eq-accepted (require (if is_group d.0 then is_group_op e.0 else true) group_op) _ tt
          e.2 in
      let n = bind-eq-accepted (not_null c.0) _ tt g.2 in
      let o = bind-eq-accepted (check_op compiles d.0 e.0 c.0) _ tt n.2 in
      let v =
        value-IsRead compiles repr d.0 e.0 c.0
          (require-holds (if is_group d.0 then is_group_op e.0 else true) group_op g.1) o.1 o.2 in
      (
        record { field = d.0; op = e.0; value = v.0 },
        leaf_of-steps fs a.0 b.0 c.0 d.0 e.0 v.0 a.1 b.1 c.1 d.1 e.1 v.1,
        v.2,
      )

operator-IsRead :
    (j : Json) → check_operator j ≡ accepted tt → (o : Operator) × (operator_of j ≡ accepted o)
unfolding check_operator operator_of require
operator-IsRead null h = cc
operator-IsRead (boolean b) h = cc
operator-IsRead (number n z) h = cc
operator-IsRead (string s) h = elim (Bool-cases (s == "and")) [
  | inl e ↦ (all_of, rw (e) refl)
  | inr e ↦ elim (Bool-cases (s == "or")) [
    | inl k ↦ (any_of, rw (e, k) refl)
    | inr k ↦ absurd (neither s e k h)
  ]
]
  where
    neither :
        (s : String)
        → (s == "and") ≡ false
        → (s == "or") ≡ false
        → check_operator (string s) ≡ accepted tt
        → ⊥
    neither s e k = rw (e, k) (λ r. ground (arith, r))
operator-IsRead (list l) h = cc
operator-IsRead (dict fs) h = cc

module _ (compiles : String → Bool) (check : Fields → Checked Unit) (read : Fields → Checked Node)
    (good : (fs : Fields)
      → check fs ≡ accepted tt
      → (n : Node) × (read fs ≡ accepted n) × (all_fit compiles n ≡ true)) where
  -- The nodes that are read, of which none fails.
  abbrev AreRead : Checked Nodes → Type 0
  AreRead r = (ns : Nodes) × (r ≡ accepted ns) × (each_fits compiles ns ≡ true)

  nodes-AreRead : (l : Items) → check_each check l ≡ accepted tt → AreRead (nodes_of read l)
  unfolding check_each nodes_of all_fit
  nodes-AreRead nil h = (Filters.nil, refl, refl)
  nodes-AreRead (cons null l) h = cc
  nodes-AreRead (cons (boolean b) l) h = cc
  nodes-AreRead (cons (number n z) l) h = cc
  nodes-AreRead (cons (string s) l) h = cc
  nodes-AreRead (cons (list k) l) h = cc
  nodes-AreRead (cons (dict fs) l) h =
      let first = bind-eq-accepted (check fs) _ tt h in
      let n = good fs first.1 in
      let ns = nodes-AreRead l first.2 in
      (
        Filters.cons n.0 ns.0,
        rw (n.1, ns.1) refl,
        both (all_fit compiles n.0) (each_fits compiles ns.0) n.2 ns.2,
      )

  -- A list that is not empty has a node.
  group_fits :
      (o : Operator) (c : Json) (l : Items) (ns : Nodes)
      → nodes_of read (cons c l) ≡ accepted ns
      → each_fits compiles ns ≡ true
      → all_fit compiles (group o ns) ≡ true
  unfolding all_fit nodes_of
  group_fits o c l Filters.nil h k = absurd (no_nil c h)
    where
      no_nil : (c : Json) → nodes_of read (cons c l) ≡ accepted Filters.nil → ⊥
      no_nil c h = ground (arith, h)
  group_fits o c l (Filters.cons n ns) h k = k

  -- The node that is read fits.
  abbrev pub IsNode : Checked Node → Type 0
  IsNode r = (n : Node) × (r ≡ accepted n) × (all_fit compiles n ≡ true)

  conditions-IsRead :
      (o : Operator) (j : Json) (l : Items)
      → conditions_of j ≡ accepted l
      → check_each check l ≡ accepted tt
      → IsNode (do k ← conditions_of j; ns ← nodes_of read k; accepted (group o ns))
  unfolding conditions_of
  conditions-IsRead o null l h k = cc
  conditions-IsRead o (boolean b) l h k = cc
  conditions-IsRead o (number n z) l h k = cc
  conditions-IsRead o (string s) l h k = cc
  conditions-IsRead o (dict fs) l h k = cc
  conditions-IsRead o (list nil) l h k = cc
  conditions-IsRead o (list (cons c m)) l h k =
      let same : l ≡ cons c m = cc in
      let ns = nodes-AreRead (cons c m) (subst (λ t. check_each check t ≡ accepted tt) same k) in
      (group o ns.0, rw (ns.1) refl, group_fits o c m ns.0 ns.1 ns.2)

  group_of-steps :
      (fs : Fields) (operator conditions : Json) (o : Operator) (n : Node)
      → key_of_leaf "operator" fs ≡ accepted operator
      → key_of_leaf "conditions" fs ≡ accepted conditions
      → operator_of operator ≡ accepted o
      → (do k ← conditions_of conditions; ns ← nodes_of read k; accepted (group o ns)) ≡ accepted n
      → group_of read fs ≡ accepted n
  unfolding group_of
  group_of-steps fs operator conditions o n a b c d = rw (a, b, c) d

  group-IsNode : (fs : Fields) → validate_group check fs ≡ accepted tt → IsNode (group_of read fs)
  unfolding validate_group
  group-IsNode fs h =
      let a = bind-eq-accepted (key_of_leaf "operator" fs) _ tt h in
      let b = bind-eq-accepted (key_of_leaf "conditions" fs) _ tt a.2 in
      let c = bind-eq-accepted (check_operator a.0) _ tt b.2 in
      let l = bind-eq-accepted (conditions_of b.0) _ tt c.2 in
      let o = operator-IsRead a.0 c.1 in
      let n = conditions-IsRead o.0 b.0 l.0 l.1 l.2 in
      (n.0, group_of-steps fs a.0 b.0 o.0 n.0 a.1 b.1 o.1 n.1, n.2)

  module _ (repr : Json → String) (allowed : List Field) where
    leaf-IsNode :
        (fs : Fields)
        → validate_leaf compiles allowed fs ≡ accepted tt
        → IsNode (do l ← leaf_of repr allowed fs; accepted (leaf l))
    unfolding all_fit
    leaf-IsNode fs h =
        let l = leaf-IsRead compiles repr allowed fs h in
        (leaf l.0, ap (λ r. r >>= (λ x. accepted (leaf x))) l.1, l.2)

    -- the two types of a node
    named_type :
        (fs : Fields) (is_leaf is_grouped : Bool)
        → (if is_leaf
            then validate_leaf compiles allowed fs
            else if is_grouped
            then validate_group check fs
            else refused bad_type)
          ≡ accepted tt
        → IsNode (
            if is_leaf
            then (do l ← leaf_of repr allowed fs; accepted (leaf l))
            else if is_grouped
            then group_of read fs
            else refused bad_type)
    named_type fs true is_grouped h = leaf-IsNode fs h
    named_type fs false true h = group-IsNode fs h
    named_type fs false false h = cc

    typed-IsNode :
        (type : Option Json) (fs : Fields)
        → validate_typed compiles check allowed type fs ≡ accepted tt
        → IsNode (typed_node repr allowed read type fs)
    unfolding validate_typed typed_node
    typed-IsNode none fs h = cc
    typed-IsNode (some null) fs h = cc
    typed-IsNode (some (boolean b)) fs h = cc
    typed-IsNode (some (number n z)) fs h = cc
    typed-IsNode (some (list l)) fs h = cc
    typed-IsNode (some (dict k)) fs h = cc
    typed-IsNode (some (string s)) fs h = named_type fs (s == "leaf") (s == "group") h

module _ (compiles : String → Bool) (repr : Json → String) (allowed : List Field) where
  dict-IsNode :
      (left : ℕ) (fs : Fields)
      → validate_dict compiles allowed left fs ≡ accepted tt
      → (n : Node) × (node_of repr allowed left fs ≡ accepted n) × (all_fit compiles n ≡ true)
  unfolding validate_dict node_of
  dict-IsNode zero fs h = cc
  dict-IsNode (suc left) fs h =
      typed-IsNode compiles (validate_dict compiles allowed left) (node_of repr allowed left)
        (dict-IsNode left) repr allowed (get_field "type" fs) fs h

  accepted-IsNode :
      (j : Json)
      → validate_filter compiles allowed j ≡ accepted tt
      → (n : Node) × (tree_of repr allowed j ≡ accepted n) × (all_fit compiles n ≡ true)
  unfolding validate_filter tree_of
  accepted-IsNode null h = cc
  accepted-IsNode (boolean b) h = cc
  accepted-IsNode (number n z) h = cc
  accepted-IsNode (string s) h = cc
  accepted-IsNode (list l) h = cc
  accepted-IsNode (dict fs) h = dict-IsNode 5 fs h

  -- A filter of the caller that the validation accepts stands for a tree in which every value is of
  -- the type that its field and its operator want, and no group is empty; and its compilation raises
  -- no TypeError, in any context.
  pub validate_filter-IsTyped :
      (re_escape : String → String) (ctx : Context) (j : Json)
      → validate_filter compiles allowed j ≡ accepted tt
      → (n : Node) × (tree_of repr allowed j ≡ accepted n)
        × (all_fit compiles n ≡ true)
        × IsTyped (compile_filter re_escape ctx n)
  validate_filter-IsTyped re_escape ctx j h =
      let n = accepted-IsNode j h in
      (n.0, n.1, n.2, compile_filter-IsTyped compiles re_escape ctx n.0 n.2)
