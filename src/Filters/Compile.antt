-- ===== src/Filters/Compile.antt =====
-- `compile_filter` on every shape of tree: what its parameters accept is what the filter means.
use mathlib.Core.Path.{subst}
use mathlib.Core.List.{lookup}
use thruk_mcp.Filters.Brackets.{
  NoClash, emitted, emitted_all, plain, bracket-plain, bracket-emitted, Matches, all_met,
  all_met-emitted, all_met-emitted_all,
}
use thruk_mcp.Filters.Leaves.{
  Leaf, Result, ok, err, ◌>>=◌, Context, Param, Ensures, ensured, leaf_to_params,
}
use thruk_mcp.Filters.Meaning.{
  eval, evals, denote, eval-expand_group_in, at_root, Reads, Accepts, no_param, bracket, query,
  Leafwise, LeafwiseAll,
}
use thruk_mcp.Filters.Query.{Agrees, IsRoot, KeepsOrs, build_q_expr-Reads, build_q_expr_total}
use thruk_mcp.Filters.Values.{Value, of_text}
use thruk_mcp.Filters.{
  all_of, any_of, Node, leaf, group, Nodes, nil, cons, has_or, any_has_or, Params, or_nodes,
  or_subtree, and_tree_to_params, and_trees_to_params, add_q, compile_hybrid, compile_expanded,
  compile_filter, expand_group_in,
}
use thruk_mcp.OrderedDict
use thruk_mcp.OrderedDict.Laws.{set_item_absent}
use thruk_mcp.Prelude.{
  String, ◌≡◌, ◌≢◌, refl, sym, ap, ◌∙◌, Bool, true, false, ◌&&◌, none, [], ◌∷◌, ◌++◌, arith,
  String_discrete, Bool-cases, inl, inr,
}

and_true : (a : Bool) → a && true ≡ a
and_true a = ground arith

and_assoc : (a b c : Bool) → a && (b && c) ≡ (a && b) && c
and_assoc a b c = ground arith

plain_self : (cs : Nodes) → any_has_or cs ≡ false → plain cs ≡ cs
unfolding has_or plain
plain_self nil h = refl
plain_self (cons c cs) h = ground (arith, plain_self cs)

or_nodes_none : (cs : Nodes) → any_has_or cs ≡ false → or_nodes cs ≡ nil
unfolding has_or or_nodes
or_nodes_none nil h = refl
or_nodes_none (cons c cs) h = ground (arith, or_nodes_none cs)

one_key : (p : Param) → p.0 ≢ "q" → OrderedDict.get String_discrete "q" (p ∷ []) ≡ none
unfolding lookup
one_key p apart = elim (String_discrete "q" p.0) [
  | yes e ↦ absurd (apart (sym e))
  | no ne ↦ ground arith
]

bind_ok : (r : Result Params) → (r >>= λ ps. ok ps) ≡ r
bind_ok (ok ps) = refl
bind_ok (err e) = refl

module _ (P : Leaf → Type 0) where
  Leafwise-plain : (cs : Nodes) → LeafwiseAll P cs → LeafwiseAll P (plain cs)
  unfolding Leafwise plain
  Leafwise-plain nil h = h
  Leafwise-plain (cons c cs) h = elim (Bool-cases (has_or c)) [
    | inl or ↦ rw (or, plain) (Leafwise-plain cs h.1)
    | inr flat ↦ rw (flat, plain) ((h.0, Leafwise-plain cs h.1))
  ]

  Leafwise-or_nodes : (cs : Nodes) → LeafwiseAll P cs → LeafwiseAll P (or_nodes cs)
  unfolding Leafwise or_nodes
  Leafwise-or_nodes nil h = h
  Leafwise-or_nodes (cons c cs) h = elim (Bool-cases (has_or c)) [
    | inl or ↦ rw (or, or_nodes) ((h.0, Leafwise-or_nodes cs h.1))
    | inr flat ↦ rw (flat, or_nodes) (Leafwise-or_nodes cs h.1)
  ]

  Leafwise-or_subtree : (cs : Nodes) → LeafwiseAll P cs → Leafwise P (or_subtree cs)
  unfolding Leafwise or_subtree
  Leafwise-or_subtree nil h = h
  Leafwise-or_subtree (cons c nil) h = h.0
  Leafwise-or_subtree (cons c (cons d cs)) h = h

  module _ (Q : Leaf → Type 0) (weaken : (l : Leaf) → P l → Q l) where
    mutual
      unfolding Leafwise

      Leafwise-map : (n : Node) → Leafwise P n → Leafwise Q n
      Leafwise-map (leaf l) h = weaken l h
      Leafwise-map (group o cs) h = Leafwise_map_all cs h

      Leafwise_map_all : (cs : Nodes) → LeafwiseAll P cs → LeafwiseAll Q cs
      Leafwise_map_all nil h = h
      Leafwise_map_all (cons c cs) h = (Leafwise-map c h.0, Leafwise_map_all cs h.1)

module _ (re_escape : String → String) (ctx : Context) where
  -- The keys of the bracket parameters differ from one another and from `q`: of two entries with one
  -- key the dict would keep the last alone.
  abbrev pub KeysApart : Nodes → Type 0
  KeysApart cs =
      Ensures (emitted_all re_escape ctx cs)
        (λ es. NoClash es × (OrderedDict.get String_discrete "q" es ≡ none))

  -- When the compilation of a tree is faithful: its bracket parameters have keys of their own, and
  -- what goes to q= is no group of one condition, which would stand in parentheses at the root, and
  -- has no OR below an AND, a form that Thruk does not evaluate.
  abbrev pub IsFaithful : Node → Type 0
  IsFaithful (leaf l) = Ensures (leaf_to_params re_escape ctx l) (λ p. p.0 ≢ "q")
  IsFaithful (group any_of cs) = IsRoot (group any_of cs) × KeepsOrs (group any_of cs)
  IsFaithful (group all_of cs) =
      KeysApart (plain cs) × IsRoot (or_subtree (or_nodes cs)) × KeepsOrs (or_subtree (or_nodes cs))

module _ (re_escape : String → String) (ctx : Context) (holds : Leaf → Bool)
    (fragment : String → Bool) (meets : String → Value → Bool) where
  -- Thruk reads a leaf's bracket parameter, and its q= comparison, as the leaf is meant.
  abbrev pub IsRead : Leaf → Type 0
  IsRead l = Matches re_escape ctx holds meets l × Agrees ctx holds fragment l

  Accepts-brackets :
      (ps : Params)
      → OrderedDict.get String_discrete "q" ps ≡ none
      → Accepts fragment meets ps (all_met re_escape ctx holds meets ps)
  unfolding lookup
  Accepts-brackets [] h = no_param
  Accepts-brackets ((k, v) ∷ ps) h =
      bracket k v (λ e. ground arith) (Accepts-brackets ps (ground arith))

  Accepts-query :
      (ps : Params) (s : String) (a : Bool)
      → OrderedDict.get String_discrete "q" ps ≡ none
      → Reads fragment at_root s a
      → Accepts fragment meets
          (ps ++ ("q", of_text s) ∷ [])
          (all_met re_escape ctx holds meets ps && a)
  unfolding lookup
  Accepts-query [] s a h r =
      subst (λ b. Accepts fragment meets (("q", of_text s) ∷ []) b) (and_true a)
        (query s r no_param)
  Accepts-query ((k, v) ∷ ps) s a h r =
      subst (λ b. Accepts fragment meets ((k, v) ∷ (ps ++ ("q", of_text s) ∷ [])) b)
        (and_assoc (meets k v) (all_met re_escape ctx holds meets ps) a)
        (bracket k v (λ e. ground arith) (Accepts-query ps s a (ground arith) r))

  any_has_or-plain : (cs : Nodes) → any_has_or (plain cs) ≡ false
  unfolding has_or plain
  any_has_or-plain nil = refl
  any_has_or-plain (cons c cs) = elim (Bool-cases (has_or c)) [
    | inl or ↦ rw (or, plain) (any_has_or-plain cs)
    | inr flat ↦ rw (flat, plain) (rw flat (any_has_or-plain cs))
  ]

  -- An AND over the children is one over those with no OR and one over the others.
  evals_split :
      (cs : Nodes)
      → evals holds all_of cs ≡ evals holds all_of (plain cs) && evals holds all_of (or_nodes cs)
  unfolding eval plain or_nodes
  evals_split nil = refl
  evals_split (cons c cs) = ground (arith, evals_split cs)

  eval-or_subtree : (cs : Nodes) → eval holds (or_subtree cs) ≡ evals holds all_of cs
  unfolding eval or_subtree
  eval-or_subtree nil = refl
  eval-or_subtree (cons c nil) = ground arith
  eval-or_subtree (cons c (cons d cs)) = refl

  add_q-Accepts :
      (os : Nodes) (es : Params)
      → OrderedDict.get String_discrete "q" es ≡ none
      → IsRoot (or_subtree os)
      → KeepsOrs (or_subtree os)
      → Leafwise (Agrees ctx holds fragment) (or_subtree os)
      → (ps : Params) × (add_q re_escape ctx es os ≡ ok ps)
        × Accepts fragment meets ps (all_met re_escape ctx holds meets es && evals holds all_of os)
  unfolding add_q eval
  add_q-Accepts nil es h root k a = (
    es,
    refl,
    subst (λ b. Accepts fragment meets es b) (sym (and_true _)) (Accepts-brackets es h),
  )
  add_q-Accepts (cons c cs) es h root k a =
      let sub : Node = or_subtree (cons c cs) in
      let (s, built) = build_q_expr_total ctx holds fragment sub true a in
      (
        es ++ ("q", of_text s) ∷ [],
        rw built (ap ok (set_item_absent String_discrete "q" (of_text s) es h)),
        subst
            (λ b.
              Accepts fragment meets (es ++ ("q", of_text s) ∷ [])
                (all_met re_escape ctx holds meets es && b))
            (eval-or_subtree (cons c cs))
            (Accepts-query es s (eval holds sub) h
              (build_q_expr-Reads ctx holds fragment sub s root k a built)),
      )

  compile_hybrid-Accepts :
      (cs : Nodes)
      → LeafwiseAll IsRead cs
      → KeysApart re_escape ctx (plain cs)
      → IsRoot (or_subtree (or_nodes cs))
      → KeepsOrs (or_subtree (or_nodes cs))
      → (ps : Params) × (compile_hybrid re_escape ctx cs ≡ ok ps)
        × Accepts fragment meets ps (evals holds all_of cs)
  unfolding compile_hybrid
  compile_hybrid-Accepts cs h keys root k =
      let ms : LeafwiseAll (Matches re_escape ctx holds meets) (plain cs) =
        Leafwise-plain _ cs (Leafwise_map_all IsRead _ (λ l r. r.0) cs h) in
      let qs : Leafwise (Agrees ctx holds fragment) (or_subtree (or_nodes cs)) =
        Leafwise-or_subtree _ (or_nodes cs)
          (Leafwise-or_nodes _ cs (Leafwise_map_all IsRead _ (λ l r. r.1) cs h)) in
      let (es, e, apart) =
        ensured (emitted_all re_escape ctx (plain cs))
          (λ es. NoClash es × (OrderedDict.get String_discrete "q" es ≡ none)) keys in
      let (ps, added, accepted) = add_q-Accepts (or_nodes cs) es apart.1 root k qs in
      (
        ps,
        rw (bracket-emitted re_escape ctx cs es e apart.0) added,
        subst (λ b. Accepts fragment meets ps b)
            (ap (λ b. b && evals holds all_of (or_nodes cs))
                (all_met-emitted_all re_escape ctx holds meets (plain cs) es (any_has_or-plain cs)
                  ms e)
              ∙ sym (evals_split cs))
            accepted,
      )

  compile_expanded_all :
      (cs : Nodes)
      → has_or (group all_of cs) ≡ false
      → and_tree_to_params re_escape ctx (group all_of cs) ≡ compile_hybrid re_escape ctx cs
  unfolding and_tree_to_params has_or compile_hybrid add_q
  compile_expanded_all cs flat = sym (
      rw (bracket-plain re_escape ctx [] cs, plain_self cs flat, or_nodes_none cs flat)
        (bind_ok (and_trees_to_params re_escape ctx [] cs)))

  compile_expanded-Accepts :
      (n : Node)
      → Leafwise IsRead n
      → IsFaithful re_escape ctx n
      → (ps : Params) × (compile_expanded re_escape ctx n ≡ ok ps)
        × Accepts fragment meets ps (eval holds n)
  unfolding compile_expanded eval Leafwise
  compile_expanded-Accepts (leaf l) h f =
      let (p, e, apart) = ensured (leaf_to_params re_escape ctx l) (λ p. p.0 ≢ "q") f in
      (
        p ∷ [],
        unfold and_tree_to_params in rw e,
        subst (λ b. Accepts fragment meets (p ∷ []) b)
            (all_met-emitted re_escape ctx holds meets (leaf l) (p ∷ []) (unfold has_or in refl)
              (unfold Leafwise in h.0) (unfold emitted in rw e))
            (Accepts-brackets (p ∷ []) (one_key p apart)),
      )
  compile_expanded-Accepts (group any_of cs) h f =
      let n : Node = group any_of cs in
      let qs : Leafwise (Agrees ctx holds fragment) n =
        Leafwise_map_all IsRead _ (λ l r. r.1) cs h in
      let (s, built) = build_q_expr_total ctx holds fragment n true qs in
      (
        ("q", of_text s) ∷ [],
        rw built,
        subst (λ b. Accepts fragment meets (("q", of_text s) ∷ []) b) (and_true _)
            (query s (build_q_expr-Reads ctx holds fragment n s f.0 f.1 qs built) no_param),
      )
  compile_expanded-Accepts (group all_of cs) h f =
      let (ps, e, accepted) = compile_hybrid-Accepts cs h f.0 f.1 f.2 in
      (
        ps,
        elim (Bool-cases (has_or (group all_of cs))) [
          | inl or ↦ rw or e
          | inr flat ↦ rw flat (compile_expanded_all cs flat ∙ e)
        ],
        accepted,
      )

  -- For a tree whose leaves Thruk reads as they are meant, whose bracket parameters have different
  -- keys, and whose q= part is no group of one condition and has no OR below an AND, the compilation
  -- succeeds, and its parameters accept a row exactly when the row meets the filter.
  pub compile_filter-Accepts :
      (n : Node)
      → Leafwise IsRead (expand_group_in n)
      → IsFaithful re_escape ctx (expand_group_in n)
      → (ps : Params) × (compile_filter re_escape ctx n ≡ ok ps)
        × Accepts fragment meets ps (denote holds n)
  unfolding compile_filter
  compile_filter-Accepts n h f =
      let (ps, e, accepted) = compile_expanded-Accepts (expand_group_in n) h f in
      (ps, e, subst (λ b. Accepts fragment meets ps b) (eval-expand_group_in holds n) accepted)
