-- ===== src/Filters/Sound.antt =====
-- `compile_filter` of src/thruk_mcp/filters.py raises no TypeError on a tree whose leaves fit.
use thruk_mcp.Filters.{
  all_of, any_of, Node, leaf, group, Nodes, nil, cons, Params, is_rewritten, eq_leaves, expand_in,
  expand_group_in, expand_all, and_tree_to_params, and_trees_to_params, build_q_expr, build_parts,
  join_parts, or_subtree, or_nodes, has_or, bracket_params, add_q, compile_hybrid, compile_expanded,
  compile_filter, update, assign,
}
use thruk_mcp.Filters.Leaves.{
  Field, name, address, state, host, service, description, message, contact, hostgroup,
  servicegroup, custom_var, host_custom_var, since, until, Op, eq, op_in, neq, regex, gte, lte,
  Leaf, ok, ◌>>=◌, Context, leaf_to_params,
}
use thruk_mcp.Filters.Typed.{
  IsTyped, bind-IsTyped, fits, fits_column, fits_custom, all_fit, each_fits, leaf_to_params-IsTyped,
  q_leaf-IsTyped,
}
use thruk_mcp.Filters.Validate.{is_group_op}
use thruk_mcp.Filters.Values.{Scalar, Value, scalar, items, custom, of_text}
use thruk_mcp.Prelude.{
  String, ◌≡◌, refl, Bool, true, false, ◌&&◌, List, [], ◌∷◌, inl, inr, Bool-cases, arith,
}

pub left : (a b : Bool) → (a && b) ≡ true → a ≡ true
left true b h = refl
left false b h = cc

pub right : (a b : Bool) → (a && b) ≡ true → b ≡ true
right true b h = h
right false b h = cc

pub both : (a b : Bool) → a ≡ true → b ≡ true → (a && b) ≡ true
both true b h k = k
both false b h k = h

module _ (compiles : String → Bool) (re_escape : String → String) (ctx : Context) where
  mutual
    unfolding all_fit and_tree_to_params

    and_tree-IsTyped :
        (n : Node) → all_fit compiles n ≡ true → IsTyped (and_tree_to_params re_escape ctx n)
    and_tree-IsTyped (leaf l) h =
        bind-IsTyped (leaf_to_params re_escape ctx l) (λ p. ok (p ∷ []))
          (leaf_to_params-IsTyped compiles re_escape ctx l h) (λ p. tt)
    and_tree-IsTyped (group o nil) h = cc
    and_tree-IsTyped (group o (cons c cs)) h = and_trees-IsTyped [] (cons c cs) h

    and_trees-IsTyped :
        (ps : Params) (cs : Nodes)
        → each_fits compiles cs ≡ true
        → IsTyped (and_trees_to_params re_escape ctx ps cs)
    and_trees-IsTyped ps nil h = tt
    and_trees-IsTyped ps (cons c cs) h =
        bind-IsTyped (and_tree_to_params re_escape ctx c)
          (λ more. and_trees_to_params re_escape ctx (update ps more) cs)
          (and_tree-IsTyped c (left (all_fit compiles c) (each_fits compiles cs) h))
          (λ more.
            and_trees-IsTyped (update ps more) cs
              (right (all_fit compiles c) (each_fits compiles cs) h))

  mutual
    unfolding all_fit build_q_expr

    q_expr-IsTyped :
        (n : Node) (root : Bool) → all_fit compiles n ≡ true → IsTyped (build_q_expr ctx n root)
    q_expr-IsTyped (leaf l) root h = q_leaf-IsTyped compiles re_escape ctx l h
    q_expr-IsTyped (group o nil) root h = cc
    q_expr-IsTyped (group o (cons c cs)) root h =
        bind-IsTyped (build_parts ctx (cons c cs)) (λ parts. ok (join_parts root o parts))
          (parts-IsTyped (cons c cs) h) (λ parts. tt)

    parts-IsTyped : (cs : Nodes) → each_fits compiles cs ≡ true → IsTyped (build_parts ctx cs)
    parts-IsTyped nil h = tt
    parts-IsTyped (cons c cs) h =
        bind-IsTyped (build_q_expr ctx c false) (λ s. do ss ← build_parts ctx cs; ok (s ∷ ss))
          (q_expr-IsTyped c false (left (all_fit compiles c) (each_fits compiles cs) h))
          (λ s.
            bind-IsTyped (build_parts ctx cs) (λ ss. ok (s ∷ ss))
              (parts-IsTyped cs (right (all_fit compiles c) (each_fits compiles cs) h)) (λ ss. tt))

  bracket_params-IsTyped :
      (cs : Nodes) (ps : Params)
      → each_fits compiles cs ≡ true
      → IsTyped (bracket_params re_escape ctx ps cs)
  unfolding bracket_params all_fit
  bracket_params-IsTyped nil ps h = tt
  bracket_params-IsTyped (cons c cs) ps h =
      elim (has_or c)
        as (λ b. IsTyped (elim b [
          | true ↦ bracket_params re_escape ctx ps cs
          | false ↦ do
            more ← and_tree_to_params re_escape ctx c
            bracket_params re_escape ctx (update ps more) cs
        ])) [
          | true ↦
              bracket_params-IsTyped cs ps (right (all_fit compiles c) (each_fits compiles cs) h)
          | false ↦
              bind-IsTyped (and_tree_to_params re_escape ctx c)
                (λ more. bracket_params re_escape ctx (update ps more) cs)
                (and_tree-IsTyped c (left (all_fit compiles c) (each_fits compiles cs) h))
                (λ more.
                  bracket_params-IsTyped cs (update ps more)
                    (right (all_fit compiles c) (each_fits compiles cs) h))
        ]

  or_nodes-each_fits :
      (cs : Nodes) → each_fits compiles cs ≡ true → each_fits compiles (or_nodes cs) ≡ true
  unfolding or_nodes all_fit
  or_nodes-each_fits nil h = refl
  or_nodes-each_fits (cons c cs) h = ground (arith, h, or_nodes-each_fits cs)

  add_q-IsTyped :
      (ps : Params) (cs : Nodes)
      → each_fits compiles cs ≡ true
      → IsTyped (add_q re_escape ctx ps cs)
  unfolding add_q or_subtree all_fit
  add_q-IsTyped ps nil h = tt
  add_q-IsTyped ps (cons c nil) h =
      bind-IsTyped (build_q_expr ctx c true) (λ q. ok (assign ("q", of_text q) ps))
        (q_expr-IsTyped c true (left (all_fit compiles c) true h)) (λ q. tt)
  add_q-IsTyped ps (cons c (cons d cs)) h =
      bind-IsTyped (build_q_expr ctx (group all_of (cons c (cons d cs))) true)
        (λ q. ok (assign ("q", of_text q) ps))
        (q_expr-IsTyped (group all_of (cons c (cons d cs))) true h) (λ q. tt)

  hybrid-IsTyped :
      (cs : Nodes) → each_fits compiles cs ≡ true → IsTyped (compile_hybrid re_escape ctx cs)
  unfolding compile_hybrid
  hybrid-IsTyped cs h =
      bind-IsTyped (bracket_params re_escape ctx [] cs) (λ ps. add_q re_escape ctx ps (or_nodes cs))
        (bracket_params-IsTyped cs [] h)
        (λ ps. add_q-IsTyped ps (or_nodes cs) (or_nodes-each_fits cs h))

  expanded-IsTyped :
      (n : Node) → all_fit compiles n ≡ true → IsTyped (compile_expanded re_escape ctx n)
  unfolding compile_expanded all_fit
  expanded-IsTyped (leaf l) h = and_tree-IsTyped (leaf l) h
  expanded-IsTyped (group o nil) h = cc
  expanded-IsTyped (group any_of (cons c cs)) h =
      bind-IsTyped (build_q_expr ctx (group any_of (cons c cs)) true)
        (λ q. ok (("q", of_text q) ∷ [])) (q_expr-IsTyped (group any_of (cons c cs)) true h)
        (λ q. tt)
  expanded-IsTyped (group all_of (cons c cs)) h =
      elim (Bool-cases (has_or (group all_of (cons c cs)))) [
        | inl e ↦ rw (e) (hybrid-IsTyped (cons c cs) h)
        | inr e ↦ rw (e) (and_tree-IsTyped (group all_of (cons c cs)) h)
      ]

module _ (compiles : String → Bool) where
  eq_leaves-each_fits :
      (f : Field) (vs : List Scalar)
      → is_rewritten f ≡ true
      → each_fits compiles (eq_leaves f vs) ≡ true
  unfolding eq_leaves all_fit fits fits_column is_group_op
  eq_leaves-each_fits f [] h = refl
  eq_leaves-each_fits state (v ∷ vs) h = eq_leaves-each_fits state vs h
  eq_leaves-each_fits hostgroup (v ∷ vs) h = eq_leaves-each_fits hostgroup vs h
  eq_leaves-each_fits servicegroup (v ∷ vs) h = eq_leaves-each_fits servicegroup vs h
  eq_leaves-each_fits name (v ∷ vs) h = cc
  eq_leaves-each_fits address (v ∷ vs) h = cc
  eq_leaves-each_fits host (v ∷ vs) h = cc
  eq_leaves-each_fits service (v ∷ vs) h = cc
  eq_leaves-each_fits description (v ∷ vs) h = cc
  eq_leaves-each_fits message (v ∷ vs) h = cc
  eq_leaves-each_fits contact (v ∷ vs) h = cc
  eq_leaves-each_fits custom_var (v ∷ vs) h = cc
  eq_leaves-each_fits host_custom_var (v ∷ vs) h = cc
  eq_leaves-each_fits since (v ∷ vs) h = cc
  eq_leaves-each_fits until (v ∷ vs) h = cc

  -- an empty list fits no leaf
  in_empty : (f : Field) → fits compiles f op_in (items []) ≡ true → ⊥
  unfolding fits fits_column fits_custom is_group_op
  in_empty f h = ground (arith, h)

  rewritten-all_fit :
      (f : Field) (vs : List Scalar)
      → is_rewritten f ≡ true
      → fits compiles f op_in (items vs) ≡ true
      → all_fit compiles (group any_of (eq_leaves f vs)) ≡ true
  unfolding eq_leaves all_fit
  rewritten-all_fit f [] e h = absurd (in_empty f h)
  rewritten-all_fit f (v ∷ vs) e h = eq_leaves-each_fits f (v ∷ vs) e

  expand_in-all_fit :
      (l : Leaf)
      → fits compiles l.field l.op l.value ≡ true
      → all_fit compiles (expand_in l l.op l.value) ≡ true
  unfolding expand_in all_fit
  expand_in-all_fit l h = go l.op l.value h
    where
      go :
          (o : Op) (v : Value)
          → fits compiles l.field o v ≡ true
          → all_fit compiles (expand_in (record l { op = o; value = v }) o v) ≡ true
      go op_in (items vs) h = elim (Bool-cases (is_rewritten l.field)) [
        | inl e ↦ rw (e) (rewritten-all_fit l.field vs e h)
        | inr e ↦ rw (e) h
      ]
      go op_in (scalar s) h = h
      go op_in (custom a b) h = h
      go eq v h = h
      go neq v h = h
      go regex v h = h
      go gte v h = h
      go lte v h = h

  mutual
    unfolding expand_group_in all_fit

    expand_group_in-all_fit :
        (n : Node) → all_fit compiles n ≡ true → all_fit compiles (expand_group_in n) ≡ true
    expand_group_in-all_fit (leaf l) h = expand_in-all_fit l h
    expand_group_in-all_fit (group o nil) h = h
    expand_group_in-all_fit (group o (cons c cs)) h = expand_all-each_fits (cons c cs) h

    expand_all-each_fits :
        (cs : Nodes) → each_fits compiles cs ≡ true → each_fits compiles (expand_all cs) ≡ true
    expand_all-each_fits nil h = refl
    expand_all-each_fits (cons c cs) h =
        both (all_fit compiles (expand_group_in c)) (each_fits compiles (expand_all cs))
          (expand_group_in-all_fit c (left (all_fit compiles c) (each_fits compiles cs) h))
          (expand_all-each_fits cs (right (all_fit compiles c) (each_fits compiles cs) h))

  pub compile_filter-IsTyped :
      (re_escape : String → String) (ctx : Context) (n : Node)
      → all_fit compiles n ≡ true
      → IsTyped (compile_filter re_escape ctx n)
  unfolding compile_filter
  compile_filter-IsTyped re_escape ctx n h =
      expanded-IsTyped compiles re_escape ctx (expand_group_in n) (expand_group_in-all_fit n h)
