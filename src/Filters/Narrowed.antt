-- ===== src/Filters/Narrowed.antt =====
-- What the narrowing of alert queries in src/thruk_mcp/filters.py loses: the rows of the other kind, which
-- do not meet the filter.
use thruk_mcp.Filters.Leaves.{state, host, service, Op, eq, op_in, Leaf}
use thruk_mcp.Filters.Meaning.{eval, evals}
use thruk_mcp.Filters.Values.{Scalar, text, Value, scalar, items}
use thruk_mcp.Filters.{all_of, any_of, Node, leaf, group, Nodes, nil, cons}
use thruk_mcp.Prelude.{
  ◌≡◌, All, refl, Bool, true, false, ◌||◌, ◌⊎◌, inl, inr, List, [], ◌∷◌, arith, Bool-cases,
}
use thruk_mcp.Prelude.Text.{lower}
use thruk_mcp.Filters.Alerts.{
  Classes, Class, a_host, a_service, unclear, classify, add_class, add_items, add_state, walk_leaf,
  collect, collect_all, no_classes,
}

abbrev pub has : Class → Classes → Bool
has a_host c = c.host
has a_service c = c.service
has unclear c = c.ambiguous

abbrev same : Class → Class → Bool
same a_host a_host = true
same a_service a_service = true
same unclear unclear = true
same _ _ = false

-- The set has the one class alone.
abbrev pub IsOnly : Class → Classes → Type 0
IsOnly k c = (has k c ≡ true) × ((j : Class) → same j k ≡ false → has j c ≡ false)

has-add_class : (j k : Class) (c : Classes) → has j (add_class k c) ≡ has j c || same j k
unfolding add_class
has-add_class a_host a_host c = ground arith
has-add_class a_host a_service c = ground arith
has-add_class a_host unclear c = ground arith
has-add_class a_service a_host c = ground arith
has-add_class a_service a_service c = ground arith
has-add_class a_service unclear c = ground arith
has-add_class unclear a_host c = ground arith
has-add_class unclear a_service c = ground arith
has-add_class unclear unclear c = ground arith

has-no_classes : (j : Class) → has j no_classes ≡ false
has-no_classes a_host = refl
has-no_classes a_service = refl
has-no_classes unclear = refl

has-add_items :
    (j : Class) (vs : List Scalar) (c : Classes)
    → has j (add_items vs c) ≡ has j c || has j (add_items vs no_classes)
unfolding add_items
has-add_items j [] c = ground (arith, has-no_classes j)
has-add_items j (v ∷ vs) c = ground (
  arith,
  has-no_classes j,
  has-add_items j vs (add_class (classify v) c),
  has-add_items j vs (add_class (classify v) no_classes),
  has-add_class j (classify v) c,
  has-add_class j (classify v) no_classes,
)

has-add_class_split :
    (j k : Class) (c : Classes) → has j (add_class k c) ≡ has j c || has j (add_class k no_classes)
has-add_class_split j k c =
    ground (arith, has-add_class j k c, has-add_class j k no_classes, has-no_classes j)

has-add_state :
    (j : Class) (o : Op) (v : Value) (c : Classes)
    → has j (add_state o v c) ≡ has j c || has j (add_state o v no_classes)
unfolding add_state
has-add_state j eq (scalar v) c = has-add_class_split j (classify v) c
has-add_state j op_in (items vs) c = has-add_items j vs c
has-add_state j eq _ c = has-add_class_split j unclear c
has-add_state j op_in _ c = has-add_class_split j unclear c
has-add_state j _ _ c = has-add_class_split j unclear c

has-walk_leaf :
    (j : Class) (l : Leaf) (c : Classes)
    → has j (walk_leaf l c) ≡ has j c || has j (walk_leaf l no_classes)
unfolding walk_leaf
has-walk_leaf j l c = ground (arith, has-add_state j l.op l.value c, has-no_classes j)

mutual
  unfolding collect

  has-collect : (j : Class) (n : Node) (c : Classes) → has j (collect n c) ≡ false → has j c ≡ false
  has-collect j (leaf l) c h = ground (arith, has-walk_leaf j l c, h)
  has-collect j (group any_of cs) c h = ground (arith, has-add_class j unclear c, h)
  has-collect j (group all_of cs) c h = has-collect_all j cs c h

  has-collect_all :
      (j : Class) (cs : Nodes) (c : Classes) → has j (collect_all cs c) ≡ false → has j c ≡ false
  has-collect_all j nil c h = h
  has-collect_all j (cons n ns) c h = has-collect j n c (has-collect_all j ns (collect n c) h)

module _ (holds : Leaf → Bool) (k : Class)
    (apart : (l : Leaf) → IsOnly k (walk_leaf l no_classes) → holds l ≡ false) where
  -- A leaf that brings the one class into a set without others does not hold.
  leaf_fails :
      (l : Leaf) (c : Classes) → IsOnly k (walk_leaf l c) → (has k c ≡ true) ⊎ (holds l ≡ false)
  leaf_fails l c only = elim (Bool-cases (has k c)) [
    | inl old ↦ inl old
    | inr new ↦ inr (
        apart l (
          ground (arith, only.0, has-walk_leaf k l c),
          λ j other. ground (arith, only.1 j other, has-walk_leaf j l c),
        ))
  ]

  mutual
    unfolding collect eval

    collect-fails :
        (n : Node) (c : Classes)
        → same unclear k ≡ false
        → IsOnly k (collect n c)
        → (has k c ≡ true) ⊎ (eval holds n ≡ false)
    collect-fails (leaf l) c clear only = leaf_fails l c only
    collect-fails (group any_of cs) c clear only =
        ground (arith, only.0, only.1 unclear clear, has-add_class unclear unclear c)
    collect-fails (group all_of cs) c clear only = collect_all-fails cs c clear only

    collect_all-fails :
        (cs : Nodes) (c : Classes)
        → same unclear k ≡ false
        → IsOnly k (collect_all cs c)
        → (has k c ≡ true) ⊎ (evals holds all_of cs ≡ false)
    collect_all-fails nil c clear only = inl only.0
    collect_all-fails (cons n ns) c clear only =
        elim (collect_all-fails ns (collect n c) clear only) [
          | inl found ↦
              elim (collect-fails n c clear
                (found, λ j other. has-collect_all j ns (collect n c) (only.1 j other))) [
                  | inl old ↦ inl old
                  | inr fails ↦ inr (ground (arith, fails))
                ]
          | inr fails ↦ inr (ground (arith, fails))
        ]

-- A value that names a state of one kind of object alone.
abbrev pub Names : Class → Scalar → Type 0
Names a_host (text s) = (lower s ≡ "up") ⊎ ((lower s ≡ "down") ⊎ (lower s ≡ "unreachable"))
Names a_service (text s) =
    (lower s ≡ "ok") ⊎ ((lower s ≡ "warning") ⊎ ((lower s ≡ "critical") ⊎ (lower s ≡ "unknown")))
Names _ _ = ⊥

abbrev pub Compares : Class → Op → Value → Type 0
Compares k eq (scalar v) = Names k v
Compares k op_in (items vs) = All (Names k) vs
Compares k _ _ = ⊥

-- A leaf that asks for the states of one kind alone: it says that the state is one of them, or that it
-- is in a list of them.
abbrev pub AsksFor : Class → Leaf → Type 0
AsksFor k l = (l.field ≡ state) × Compares k l.op l.value

-- No other class than the one is in the set.
HasNoOther : Class → Classes → Type 0
HasNoOther k c = (j : Class) → same j k ≡ false → has j c ≡ false
