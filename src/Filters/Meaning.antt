-- ===== src/Filters/Meaning.antt =====
-- What a filter tree means on one row of Thruk's tables, independently of its compilation, and what
-- the compiled parameters accept. How Thruk reads one bracket parameter (`meets`), one comparison
-- of a q= expression (`fragment`), and whether a row meets a leaf (`holds`), are arguments.
use Prim.Native.String.{◌++◌ as ◌<>◌}
use thruk_mcp.Filters.Leaves.{Field, Op, eq, op_in, Leaf}
use thruk_mcp.Filters.Values.{Scalar, Value, scalar, items, of_text}
use thruk_mcp.Filters.{
  Operator, all_of, any_of, Node, leaf, group, Nodes, nil, cons, is_rewritten, eq_leaves, expand_in,
  expand_group_in, expand_all, Params, word,
}
use thruk_mcp.Prelude.{
  String, ◌≡◌, ◌≢◌, refl, ap₂, Bool, true, false, ◌&&◌, ◌||◌, List, [], ◌∷◌, arith, if◌then◌else◌,
}
use thruk_mcp.Prelude.Text.{join}

abbrev pub combine : Operator → Bool → Bool → Bool
combine all_of a b = a && b
combine any_of a b = a || b

abbrev pub unit : Operator → Bool
unit all_of = true
unit any_of = false

module _ (holds : Leaf → Bool) where
  -- A tree read as it stands.
  unfoldable mutual
    pub eval : Node → Bool
    eval (leaf l) = holds l
    eval (group o cs) = evals o cs

    pub evals : Operator → Nodes → Bool
    evals o nil = unit o
    evals o (cons c cs) = combine o (eval c) (evals o cs)

  -- `in` on a state or a group: one of the listed values is met.
  pub any_holds : Field → List Scalar → Bool
  any_holds f [] = false
  any_holds f (v ∷ vs) = holds (record { field = f; op = eq; value = scalar v }) || any_holds f vs

  leaf_meaning : Leaf → Op → Value → Bool
  leaf_meaning l op_in (items vs) = if is_rewritten l.field then any_holds l.field vs else holds l
  leaf_meaning l _ _ = holds l

  -- The meaning of a filter.
  unfoldable mutual
    unfolding leaf_meaning any_holds

    pub denote : Node → Bool
    denote (leaf l) = leaf_meaning l l.op l.value
    denote (group o cs) = denotes o cs

    pub denotes : Operator → Nodes → Bool
    denotes o nil = unit o
    denotes o (cons c cs) = combine o (denote c) (denotes o cs)

  evals-eq_leaves : (f : Field) (vs : List Scalar) → evals any_of (eq_leaves f vs) ≡ any_holds f vs
  unfolding eval any_holds eq_leaves
  evals-eq_leaves f [] = refl
  evals-eq_leaves f (v ∷ vs) = rw (evals-eq_leaves f vs)

  eval-expand_in : (l : Leaf) (o : Op) (v : Value) → eval (expand_in l o v) ≡ leaf_meaning l o v
  unfolding eval expand_in leaf_meaning
  eval-expand_in l op_in (items vs) = ground (arith, evals-eq_leaves l.field vs)
  eval-expand_in l op_in _ = refl
  eval-expand_in l _ _ = refl

  mutual
    unfolding eval denote expand_group_in

    -- The rewriting of `in` leaves keeps what the tree means.
    pub eval-expand_group_in : (n : Node) → eval (expand_group_in n) ≡ denote n
    eval-expand_group_in (leaf l) = eval-expand_in l l.op l.value
    eval-expand_group_in (group o cs) = evals-expand_all o cs

    evals-expand_all : (o : Operator) (cs : Nodes) → evals o (expand_all cs) ≡ denotes o cs
    evals-expand_all o nil = refl
    evals-expand_all o (cons c cs) =
        ap₂ (combine o) (eval-expand_group_in c) (evals-expand_all o cs)

-- Where an expression of a q= text stands: at the root, or as an operand of a chain.
pub data Place : Type 0 where
  at_root : Place
  within : Operator → Place

-- The reading of a q= text on a row: an operand is a comparison or a chain in parentheses, the
-- operands of a chain are joined by one word, and the root chain has no parentheses of its own. An
-- OR chain as an operand of an AND has no reading: `_compile_hybrid` says that Thruk answers the form
-- `((groups >= X) or (_VAR = Y)) and (state = N)` with nothing, so none of its kind is relied on.
module _ (fragment : String → Bool) where
  abbrev pub fold : Operator → List Bool → Bool
  fold o [] = unit o
  fold o (b ∷ bs) = combine o b (fold o bs)

  mutual
    pub data Reads : Place → String → Bool → Type 0 where
      comparison : {p : Place} (s : String) → Reads p s (fragment s)
      root_chain :
          (o : Operator) {ss : List String} {bs : List Bool}
          → Operands o ss bs
          → Reads at_root (join (word o) ss) (fold o bs)
      nested_and :
          {o : Operator} {ss : List String} {bs : List Bool}
          → Operands all_of ss bs
          → Reads (within o) ("(" <> join (word all_of) ss <> ")") (fold all_of bs)
      nested_or :
          {ss : List String} {bs : List Bool}
          → Operands any_of ss bs
          → Reads (within any_of) ("(" <> join (word any_of) ss <> ")") (fold any_of bs)

    pub data Operands : Operator → List String → List Bool → Type 0 where
      no_operand : {o : Operator} → Operands o [] []
      operand :
          {o : Operator} {s : String} {b : Bool} {ss : List String} {bs : List Bool}
          → Reads (within o) s b
          → Operands o ss bs
          → Operands o (s ∷ ss) (b ∷ bs)

  -- The parameters of a request accept the row with this answer: every bracket parameter is met,
  -- and the text of `q` reads as true.
  module _ (meets : String → Value → Bool) where
    pub data Accepts : Params → Bool → Type 0 where
      no_param : Accepts [] true
      bracket :
          {ps : Params} {b : Bool} (k : String) (v : Value)
          → k ≢ "q"
          → Accepts ps b
          → Accepts ((k, v) ∷ ps) (meets k v && b)
      query :
          {ps : Params} {a b : Bool} (s : String)
          → Reads at_root s a
          → Accepts ps b
          → Accepts (("q", of_text s) ∷ ps) (a && b)

-- A statement about every leaf of a tree.
module _ (P : Leaf → Type 0) where
  unfoldable mutual
    pub Leafwise : Node → Type 0
    Leafwise (leaf l) = P l
    Leafwise (group _ cs) = LeafwiseAll cs

    pub LeafwiseAll : Nodes → Type 0
    LeafwiseAll nil = Unit
    LeafwiseAll (cons c cs) = Leafwise c × LeafwiseAll cs
