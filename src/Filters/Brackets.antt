-- ===== src/Filters/Brackets.antt =====
-- The bracket parameters of a tree with no OR: `dict.update` keeps every leaf's parameter as long as
-- no two leaves compile to one key.
use mathlib.Core.Path.{fun_ext}
use mathlib.Core.List.{append_assoc, append-nil, lookup}
use thruk_mcp.Filters.Leaves.{
  Leaf, Result, ok, ◌>>=◌, Context, Param, leaf_to_params, >>=-eq-ok, ok_inj, Ensures, ensured,
}
use thruk_mcp.Filters.Values.{Value}
use thruk_mcp.Filters.Meaning.{eval, evals, Leafwise, LeafwiseAll}
use thruk_mcp.Filters.{
  all_of, any_of, Node, leaf, group, Nodes, nil, cons, has_or, any_has_or, Params, update,
  and_tree_to_params, and_trees_to_params, bracket_params,
}
use thruk_mcp.OrderedDict
use thruk_mcp.OrderedDict.Laws.{IsDict, set_item_absent, get-append}
use thruk_mcp.Prelude.{
  String, ◌≡◌, refl, sym, ap, ap₂, ◌∙◌, Bool, true, false, ◌&&◌, none, [], ◌∷◌, ◌++◌, arith,
  String_discrete, Bool-cases, inl, inr, if◌then◌else◌,
}

abbrev pub NoClash : Params → Type 0
NoClash = IsDict String_discrete

get-middle :
    (k : String) (v : Value) (ps qs : Params)
    → NoClash (ps ++ ((k, v) ∷ qs))
    → OrderedDict.get String_discrete k ps ≡ none
unfolding lookup
get-middle k v [] qs h = refl
get-middle k v ((j, w) ∷ ps) qs h =
    ground (arith, get-middle k v ps qs h.1, get-append String_discrete j ps ((k, v) ∷ qs))

-- With no key in common an update appends.
pub update-append : (ps more : Params) → NoClash (ps ++ more) → update ps more ≡ ps ++ more
unfolding update
update-append ps [] h = sym (append-nil ps)
update-append ps ((k, v) ∷ more) h =
    ap (λ qs. update qs more) (set_item_absent String_discrete k v ps (get-middle k v ps more h))
    ∙ update-append (ps ++ (k, v) ∷ []) more (rw append_assoc h)
    ∙ append_assoc ps ((k, v) ∷ []) more

NoClash-right : (ps qs : Params) → NoClash (ps ++ qs) → NoClash qs
NoClash-right [] qs h = h
NoClash-right (p ∷ ps) qs h = NoClash-right ps qs h.1

NoClash-left : (ps qs : Params) → NoClash (ps ++ qs) → NoClash ps
NoClash-left [] qs h = tt
NoClash-left ((k, v) ∷ ps) qs h =
    (ground (arith, get-append String_discrete k ps qs), NoClash-left ps qs h.1)

-- The children with no OR.
unfoldable pub plain : Nodes → Nodes
plain nil = nil
plain (cons c cs) = let rest = plain cs in if has_or c then rest else cons c rest

module _ (re_escape : String → String) (ctx : Context) where
  -- The parameters of the leaves, one after the other.
  unfoldable mutual
    pub emitted : Node → Result Params
    emitted (leaf l) = do p ← leaf_to_params re_escape ctx l; ok (p ∷ [])
    emitted (group _ cs) = emitted_all cs

    pub emitted_all : Nodes → Result Params
    emitted_all nil = ok []
    emitted_all (cons c cs) = do ps ← emitted c; qs ← emitted_all cs; ok (ps ++ qs)

  emitted_all-cons :
      (c : Node) (cs : Nodes) (es : Params)
      → emitted_all (cons c cs) ≡ ok es
      → (ps : Params) × (qs : Params) × (emitted c ≡ ok ps)
        × (emitted_all cs ≡ ok qs)
        × (ps ++ qs ≡ es)
  unfolding emitted
  emitted_all-cons c cs es e =
      let then_rest : Params → Result Params = λ ps. emitted_all cs >>= λ qs. ok (ps ++ qs) in
      let (ps, first, more) = >>=-eq-ok (emitted c) then_rest e in
      let (qs, rest, joined) = >>=-eq-ok (emitted_all cs) (λ qs. ok (ps ++ qs)) more in
      (ps, qs, first, rest, ok_inj joined)

  -- one round of the loop over the children
  and_tree-step :
      (ps : Params) (c : Node) (cs : Nodes) (first es : Params)
      → and_tree_to_params re_escape ctx c ≡ ok first
      → NoClash (ps ++ first)
      → and_trees_to_params re_escape ctx (ps ++ first) cs ≡ ok (ps ++ es)
      → and_trees_to_params re_escape ctx ps (cons c cs) ≡ ok (ps ++ es)
  unfolding and_tree_to_params
  and_tree-step ps c cs first es e h rest = rw e (rw (update-append ps first h) rest)

  mutual
    unfolding emitted and_tree_to_params

    pub and_tree-emitted :
        (n : Node) (es : Params)
        → emitted n ≡ ok es
        → NoClash es
        → and_tree_to_params re_escape ctx n ≡ ok es
    and_tree-emitted (leaf l) es e h = e
    and_tree-emitted (group o cs) es e h = and_trees-emitted [] cs es e h

    pub and_trees-emitted :
        (ps : Params) (cs : Nodes) (es : Params)
        → emitted_all cs ≡ ok es
        → NoClash (ps ++ es)
        → and_trees_to_params re_escape ctx ps cs ≡ ok (ps ++ es)
    and_trees-emitted ps nil es e h =
        ap ok (sym (ap (λ qs. ps ++ qs) (sym (ok_inj e)) ∙ append-nil ps))
    and_trees-emitted ps (cons c cs) es e h =
        let (first, rest, e₁, e₂, joined) = emitted_all-cons c cs es e in
        let h' : NoClash ((ps ++ first) ++ rest) = rw (append_assoc, joined) h in
        and_tree-step ps c cs first es
          (and_tree-emitted c first e₁
            (NoClash-right ps first (NoClash-left (ps ++ first) rest h')))
          (NoClash-left (ps ++ first) rest h')
          (and_trees-emitted (ps ++ first) cs rest e₂ h'
            ∙ ap ok (append_assoc ps first rest ∙ ap (λ qs. ps ++ qs) joined))

  pub bracket-plain :
      (ps : Params) (cs : Nodes)
      → bracket_params re_escape ctx ps cs ≡ and_trees_to_params re_escape ctx ps (plain cs)
  unfolding bracket_params and_tree_to_params plain
  bracket-plain ps nil = refl
  bracket-plain ps (cons c cs) = elim (Bool-cases (has_or c)) [
    | inl or ↦ rw (or, bracket_params, plain) (bracket-plain ps cs)
    | inr no_or ↦
        rw (no_or, bracket_params, plain)
          (ap (λ (k : Params → Result Params). and_tree_to_params re_escape ctx c >>= k)
            (fun_ext (λ more. bracket-plain (update ps more) cs)))
  ]

  -- The parameters of the children with no OR, when no two of their leaves have one key.
  pub bracket-emitted :
      (cs : Nodes) (es : Params)
      → emitted_all (plain cs) ≡ ok es
      → NoClash es
      → bracket_params re_escape ctx [] cs ≡ ok es
  bracket-emitted cs es e h = bracket-plain [] cs ∙ and_trees-emitted [] (plain cs) es e h

  module _ (holds : Leaf → Bool) (meets : String → Value → Bool) where
    -- A row meets the parameter of a leaf as the leaf is meant.
    abbrev pub Matches : Leaf → Type 0
    Matches l = Ensures (leaf_to_params re_escape ctx l) (λ p. meets p.0 p.1 ≡ holds l)

    Matches-at :
        (l : Leaf) (p : Param)
        → Matches l
        → leaf_to_params re_escape ctx l ≡ ok p
        → meets p.0 p.1 ≡ holds l
    Matches-at l p m e = ground arith

    abbrev pub all_met : Params → Bool
    all_met [] = true
    all_met ((k, v) ∷ ps) = meets k v && all_met ps

    met_single :
        (l : Leaf) (p : Param)
        → Matches l
        → leaf_to_params re_escape ctx l ≡ ok p
        → all_met (p ∷ []) ≡ holds l
    met_single l p m e = ground (arith, Matches-at l p m e)

    all_met-append : (ps qs : Params) → all_met (ps ++ qs) ≡ all_met ps && all_met qs
    all_met-append [] qs = refl
    all_met-append ((k, v) ∷ ps) qs = ground (arith, all_met-append ps qs)

    param_of : (l : Leaf) → Matches l → (p : Param) × (leaf_to_params re_escape ctx l ≡ ok p)
    param_of l m =
        let (p, compiled, _) =
          ensured (leaf_to_params re_escape ctx l) (λ p. meets p.0 p.1 ≡ holds l) m in
        (p, compiled)

    mutual
      unfolding emitted eval has_or Leafwise

      -- A tree with no OR is met when every parameter of its leaves is.
      pub all_met-emitted :
          (n : Node) (es : Params)
          → has_or n ≡ false
          → Leafwise Matches n
          → emitted n ≡ ok es
          → all_met es ≡ eval holds n
      all_met-emitted (leaf l) es flat m e =
          let (p, compiled, single) =
            >>=-eq-ok (leaf_to_params re_escape ctx l) (λ p. ok (p ∷ [])) e in
          ap all_met (sym (ok_inj single)) ∙ met_single l p m compiled
      all_met-emitted (group all_of cs) es flat m e = all_met-emitted_all cs es flat m e
      all_met-emitted (group any_of cs) es flat m e = cc

      pub all_met-emitted_all :
          (cs : Nodes) (es : Params)
          → any_has_or cs ≡ false
          → LeafwiseAll Matches cs
          → emitted_all cs ≡ ok es
          → all_met es ≡ evals holds all_of cs
      all_met-emitted_all nil es flat m e = ap all_met (sym (ok_inj e))
      all_met-emitted_all (cons c cs) es flat m e =
          let (ps, qs, first, rest, joined) = emitted_all-cons c cs es e in
          ap all_met (sym joined)
          ∙ all_met-append ps qs
          ∙ ap₂ (λ a b. a && b) (all_met-emitted c ps (ground arith) m.0 first)
              (all_met-emitted_all cs qs (ground arith) m.1 rest)

      -- Leaves that have a parameter make a tree that has its parameters.
      pub emitted_total : (n : Node) → Leafwise Matches n → (es : Params) × (emitted n ≡ ok es)
      emitted_total (leaf l) m = let (p, compiled) = param_of l m in (p ∷ [], rw compiled)
      emitted_total (group o cs) m = emitted_all_total cs m

      pub emitted_all_total :
          (cs : Nodes) → LeafwiseAll Matches cs → (es : Params) × (emitted_all cs ≡ ok es)
      emitted_all_total nil m = ([], refl)
      emitted_all_total (cons c cs) m =
          let (ps, first) = emitted_total c m.0 in
          let (qs, rest) = emitted_all_total cs m.1 in (ps ++ qs, rw (first, rest))
