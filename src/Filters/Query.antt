-- ===== src/Filters/Query.antt =====
-- The text that `_build_q_expr` writes, read back by the grammar of q= expressions.
use Prim.Native.String.{◌++◌}
use thruk_mcp.Filters.Leaves.{
  Leaf, Result, ok, ◌>>=◌, Context, q_leaf, >>=-eq-ok, ok_inj, Ensures, ensured,
}
use thruk_mcp.Filters.Meaning.{
  combine, unit, eval, evals, fold, Place, at_root, within, Reads, comparison, root_chain,
  nested_and, nested_or, Operands, no_operand, operand, Leafwise, LeafwiseAll,
}
use thruk_mcp.Filters.{
  Operator, all_of, any_of, Node, leaf, group, Nodes, nil, cons, has_or, any_has_or, word,
  join_parts, build_q_expr, build_parts,
}
use thruk_mcp.Prelude.Text.{join}
use thruk_mcp.Prelude.{
  String, ◌≡◌, refl, sym, ap, ◌∙◌, Bool, true, false, ◌||◌, List, [], ◌∷◌, arith,
}
use mathlib.Core.Path.{subst, subst₂}

-- A root with one operand is that operand, which is in parentheses if it is a chain.
abbrev pub Fits : Bool → List String → Type 0
Fits true (s ∷ []) = ⊥
Fits _ _ = Unit

-- A root expression: a leaf, or a group of two operands or more.
abbrev pub IsRoot : Node → Type 0
IsRoot (group o (cons c nil)) = ⊥
IsRoot _ = Unit

-- No OR group stands below an AND group.
unfoldable mutual
  pub KeepsOrs : Node → Type 0
  KeepsOrs (leaf l) = Unit
  KeepsOrs (group all_of cs) = any_has_or cs ≡ false
  KeepsOrs (group any_of cs) = KeepOrs cs

  pub KeepOrs : Nodes → Type 0
  KeepOrs nil = Unit
  KeepOrs (cons c cs) = KeepsOrs c × KeepOrs cs

-- A tree that can be an operand of a chain.
abbrev Nests : Operator → Node → Type 0
Nests all_of n = has_or n ≡ false
Nests any_of n = KeepsOrs n

abbrev NestAll : Operator → Nodes → Type 0
NestAll all_of cs = any_has_or cs ≡ false
NestAll any_of cs = KeepOrs cs

none_of_two : (b c : Bool) → (b || c) ≡ false → (b ≡ false) × (c ≡ false)
none_of_two b c h = ground (arith, h)

NestAll-cons :
    (o : Operator) (c : Node) (cs : Nodes) → NestAll o (cons c cs) → Nests o c × NestAll o cs
unfolding has_or KeepsOrs
NestAll-cons all_of c cs h = none_of_two (has_or c) (any_has_or cs) h
NestAll-cons any_of c cs h = h

KeepsOrs-group : (o : Operator) (cs : Nodes) → KeepsOrs (group o cs) → NestAll o cs
unfolding KeepsOrs
KeepsOrs-group all_of cs h = h
KeepsOrs-group any_of cs h = h

module _ (ctx : Context) where
  -- The parts of a list of children that were built are its first part and the others.
  build_parts-cons :
      (c : Node) (cs : Nodes) (ss : List String)
      → build_parts ctx (cons c cs) ≡ ok ss
      → (t : String) × (ts : List String) × (build_q_expr ctx c false ≡ ok t)
        × (build_parts ctx cs ≡ ok ts)
        × (t ∷ ts ≡ ss)
  unfolding build_q_expr
  build_parts-cons c cs ss e =
      let then_rest : String → Result (List String) =
        λ t. build_parts ctx cs >>= λ ts. ok (t ∷ ts) in
      let (t, first, more) = >>=-eq-ok (build_q_expr ctx c false) then_rest e in
      let (ts, built, joined) = >>=-eq-ok (build_parts ctx cs) (λ ts. ok (t ∷ ts)) more in
      (t, ts, first, built, ok_inj joined)

  length-Fits :
      (c d : Node) (cs : Nodes) (ss : List String)
      → build_parts ctx (cons c (cons d cs)) ≡ ok ss
      → Fits true ss
  length-Fits c d cs ss e =
      let (t, ts, first, built, joined) = build_parts-cons c (cons d cs) ss e in
      let (u, us, second, _, joined') = build_parts-cons d cs ts built in
      subst (λ vs. Fits true vs) (ap (λ vs. t ∷ vs) joined' ∙ joined) tt

  joined_parts :
      (p : Operator) (cs : Nodes) (ss : List String)
      → build_parts ctx cs ≡ ok ss
      → build_q_expr ctx (group p cs) false ≡ ok (join_parts false p ss)
  unfolding build_q_expr
  joined_parts p cs ss e = rw e

  parenthesised :
      (p : Operator) (ss : List String)
      → Fits true ss
      → join_parts false p ss ≡ "(" ++ join (word p) ss ++ ")"
  unfolding join_parts
  parenthesised p [] f = refl
  parenthesised p (s ∷ []) f = absurd f
  parenthesised p (s ∷ t ∷ ss) f = refl

  single_part :
      (o : Operator) (n : Node) (s : String)
      → build_q_expr ctx n false ≡ ok s
      → build_q_expr ctx (group o (cons n nil)) true ≡ ok s
  unfolding build_q_expr join_parts
  single_part o n s e = rw e

  -- A root group whose only condition is a group of several conditions compiles to one expression in
  -- parentheses, although it is at the root.
  pub build_q_expr-wrapped :
      (o p : Operator) (c d : Node) (cs : Nodes) (ss : List String)
      → build_parts ctx (cons c (cons d cs)) ≡ ok ss
      → build_q_expr ctx (group o (cons (group p (cons c (cons d cs))) nil)) true
        ≡ ok ("(" ++ join (word p) ss ++ ")")
  build_q_expr-wrapped o p c d cs ss e = single_part o (group p (cons c (cons d cs))) _ (
      joined_parts p (cons c (cons d cs)) ss e
      ∙ ap ok (parenthesised p ss (length-Fits c d cs ss e)))

module _ (ctx : Context) (holds : Leaf → Bool) (fragment : String → Bool) where
  -- Thruk reads the comparison written for a leaf as the leaf is meant.
  abbrev pub Agrees : Leaf → Type 0
  Agrees l = Ensures (q_leaf ctx l) (λ s. fragment s ≡ holds l)

  Agrees-at : (l : Leaf) (s : String) → Agrees l → q_leaf ctx l ≡ ok s → fragment s ≡ holds l
  Agrees-at l s a e = ground arith

  combine-unit : (o : Operator) (b : Bool) → combine o b (unit o) ≡ b
  combine-unit all_of b = ground arith
  combine-unit any_of b = ground arith

  chain-Reads :
      (o : Operator) {ss : List String} {bs : List Bool}
      → Operands fragment o ss bs
      → Fits true ss
      → Reads fragment at_root (join_parts true o ss) (fold fragment o bs)
  unfolding join_parts
  chain-Reads o no_operand f = root_chain o no_operand
  chain-Reads o (operand r no_operand) f = absurd f
  chain-Reads o (operand r (operand r' rs)) f = root_chain o (operand r (operand r' rs))

  and-Reads :
      (o : Operator) {ss : List String} {bs : List Bool}
      → Operands fragment all_of ss bs
      → (alone : (s : String) (b : Bool)
          → Reads fragment (within all_of) s b
          → Reads fragment (within o) s b)
      → Reads fragment (within o) (join_parts false all_of ss) (fold fragment all_of bs)
  unfolding join_parts
  and-Reads o no_operand alone = nested_and no_operand
  and-Reads o (operand {o = p} {s} {b} r no_operand) alone =
      subst (λ c. Reads fragment (within o) s c) (sym (combine-unit all_of b)) (alone s b r)
  and-Reads o (operand r (operand r' rs)) alone = nested_and (operand r (operand r' rs))

  -- what has a reading below an AND has one below an OR
  lift :
      (o : Operator) (s : String) (b : Bool)
      → Reads fragment (within all_of) s b
      → Reads fragment (within o) s b
  lift o _ _ (comparison s) = comparison s
  lift o _ _ (nested_and rs) = nested_and rs

  or-Reads :
      {ss : List String} {bs : List Bool}
      → Operands fragment any_of ss bs
      → Reads fragment (within any_of) (join_parts false any_of ss) (fold fragment any_of bs)
  unfolding join_parts
  or-Reads no_operand = nested_or no_operand
  or-Reads (operand {o = p} {s} {b} r no_operand) =
      subst (λ c. Reads fragment (within any_of) s c) (sym (combine-unit any_of b)) r
  or-Reads (operand r (operand r' rs)) = nested_or (operand r (operand r' rs))

  leaf-Reads :
      (p : Place) (l : Leaf) (s : String)
      → Agrees l
      → q_leaf ctx l ≡ ok s
      → Reads fragment p s (holds l)
  leaf-Reads p l s a e = subst (λ b. Reads fragment p s b) (Agrees-at l s a e) (comparison s)

  mutual
    unfolding eval Leafwise build_q_expr has_or KeepsOrs

    part-Reads :
        (n : Node) (o : Operator) (s : String)
        → Nests o n
        → Leafwise Agrees n
        → build_q_expr ctx n false ≡ ok s
        → Reads fragment (within o) s (eval holds n)
    part-Reads (leaf l) o s k a e = leaf-Reads (within o) l s a e
    part-Reads (group all_of cs) all_of s k a e =
        let (ss, built, joined) =
          >>=-eq-ok (build_parts ctx cs) (λ ss. ok (join_parts false all_of ss)) e in
        let (bs, rs, folded) = parts-Operands cs all_of ss k a built in
        subst₂ (λ t b. Reads fragment (within all_of) t b) (ok_inj joined) folded
          (and-Reads all_of rs (lift all_of))
    part-Reads (group all_of cs) any_of s k a e =
        let (ss, built, joined) =
          >>=-eq-ok (build_parts ctx cs) (λ ss. ok (join_parts false all_of ss)) e in
        let (bs, rs, folded) = parts-Operands cs all_of ss k a built in
        subst₂ (λ t b. Reads fragment (within any_of) t b) (ok_inj joined) folded
          (and-Reads any_of rs (lift any_of))
    part-Reads (group any_of cs) all_of s k a e = absurd (cc)
    part-Reads (group any_of cs) any_of s k a e =
        let (ss, built, joined) =
          >>=-eq-ok (build_parts ctx cs) (λ ss. ok (join_parts false any_of ss)) e in
        let (bs, rs, folded) = parts-Operands cs any_of ss k a built in
        subst₂ (λ t b. Reads fragment (within any_of) t b) (ok_inj joined) folded (or-Reads rs)

    parts-Operands :
        (cs : Nodes) (o : Operator) (ss : List String)
        → NestAll o cs
        → LeafwiseAll Agrees cs
        → build_parts ctx cs ≡ ok ss
        → (bs : List Bool) × Operands fragment o ss bs × (fold fragment o bs ≡ evals holds o cs)
    parts-Operands nil o ss k a e =
        ([], subst (λ t. Operands fragment o t []) (ok_inj e) no_operand, refl)
    parts-Operands (cons c cs) o ss k a e =
        let (t, ts, first, built, joined) = build_parts-cons ctx c cs ss e in
        let nest = NestAll-cons o c cs k in
        let (bs, rs, folded) = parts-Operands cs o ts nest.1 a.1 built in
        (
          eval holds c ∷ bs,
          subst (λ us. Operands fragment o us (eval holds c ∷ bs)) joined
              (operand (part-Reads c o t nest.0 a.0 first) rs),
          ap (combine o (eval holds c)) folded,
        )

  -- The text that is built for a root expression reads as the tree is meant, with parentheses round
  -- every nested group and none round the root, where no OR stands below an AND.
  pub build_q_expr-Reads :
      (n : Node) (s : String)
      → IsRoot n
      → KeepsOrs n
      → Leafwise Agrees n
      → build_q_expr ctx n true ≡ ok s
      → Reads fragment at_root s (eval holds n)
  unfolding eval Leafwise build_q_expr
  build_q_expr-Reads (leaf l) s r k a e = leaf-Reads at_root l s a e
  build_q_expr-Reads (group o nil) s r k a e =
      subst (λ t. Reads fragment at_root t (unit o)) (ok_inj e) (root_chain o no_operand)
  build_q_expr-Reads (group o (cons c nil)) s r k a e = absurd r
  build_q_expr-Reads (group o (cons c (cons d cs))) s r k a e =
      let kids : Nodes = cons c (cons d cs) in
      let (ss, built, joined) =
        >>=-eq-ok (build_parts ctx kids) (λ ss. ok (join_parts true o ss)) e in
      let (bs, rs, folded) = parts-Operands kids o ss (KeepsOrs-group o kids k) a built in
      subst₂ (λ t b. Reads fragment at_root t b) (ok_inj joined) folded
        (chain-Reads o rs (length-Fits ctx c d cs ss built))

  comparison_of : (l : Leaf) → Agrees l → (s : String) × (q_leaf ctx l ≡ ok s)
  comparison_of l a =
      let (s, written, _) = ensured (q_leaf ctx l) (λ s. fragment s ≡ holds l) a in (s, written)

  mutual
    unfolding Leafwise build_q_expr

    -- Leaves that have a comparison make a tree that has a q= expression.
    pub build_q_expr_total :
        (n : Node) (root : Bool)
        → Leafwise Agrees n
        → (s : String) × (build_q_expr ctx n root ≡ ok s)
    build_q_expr_total (leaf l) root a = comparison_of l a
    build_q_expr_total (group o cs) root a =
        let (ss, built) = build_parts_total cs a in (join_parts root o ss, rw built)

    build_parts_total :
        (cs : Nodes) → LeafwiseAll Agrees cs → (ss : List String) × (build_parts ctx cs ≡ ok ss)
    build_parts_total nil a = ([], refl)
    build_parts_total (cons c cs) a =
        let (s, first) = build_q_expr_total c false a.0 in
        let (ss, rest) = build_parts_total cs a.1 in (s ∷ ss, rw (first, rest))
