-- ===== src/Filters/Logs.antt =====
-- `extract_log_lookup_fields` of src/thruk_mcp/filters.py: the split of a log filter into the part
-- that /logs can evaluate and the part that needs a lookup in /hosts.
use thruk_mcp.Filters.Leaves.{
  Field, hostgroup, custom_var, Leaf, Result, ok, err, filter_error, ◌>>=◌, >>=-eq-ok, ok_inj,
}
use thruk_mcp.Filters.Meaning.{eval, evals}
use thruk_mcp.Filters.{all_of, any_of, Node, leaf, group, Nodes, nil, cons}
use thruk_mcp.Prelude.{
  ◌≡◌, refl, sym, ap, ap₂, ◌∙◌, Bool, true, false, ◌&&◌, ◌||◌, Option, none, some, arith,
  if◌then◌else◌,
}
use mathlib.Core.Path.{subst}

-- LOG_LOOKUP_FIELDS
abbrev pub is_lookup : Field → Bool
is_lookup hostgroup = true
is_lookup custom_var = true
is_lookup _ = false

-- `_has_lookup`
unfoldable mutual
  pub has_lookup : Node → Bool
  has_lookup (leaf l) = is_lookup l.field
  has_lookup (group _ cs) = any_has_lookup cs

  pub any_has_lookup : Nodes → Bool
  any_has_lookup nil = false
  any_has_lookup (cons c cs) = has_lookup c || any_has_lookup cs

-- `nodes.append(n)`
unfoldable pub append : Nodes → Node → Nodes
append nil n = cons n nil
append (cons c cs) n = cons c (append cs n)

-- The two lists that the walk fills.
pub record Split : Type 0 where
  pub direct : Nodes
  pub lookup : Nodes

-- `_walk`
unfoldable mutual
  pub walk : Node → Split → Result Split
  walk (leaf l) s =
      if is_lookup l.field
      then ok (record s { lookup = append s.lookup (leaf l) })
      else ok (record s { direct = append s.direct (leaf l) })
  walk (group any_of cs) s =
      if any_has_lookup cs
      then err filter_error
      else ok (record s { direct = append s.direct (group any_of cs) })
  walk (group all_of cs) s = walk_all cs s

  pub walk_all : Nodes → Split → Result Split
  walk_all nil s = ok s
  walk_all (cons c cs) s = do t ← walk c s; walk_all cs t

-- `_wrap`
unfoldable pub wrap : Nodes → Option Node
wrap nil = none
wrap (cons c nil) = some c
wrap cs = some (group all_of cs)

unfoldable pub extract_log_lookup_fields : Node → Result (Option Node × Option Node)
extract_log_lookup_fields n = do
  s ← walk n (record { direct = nil; lookup = nil })
  ok (wrap s.direct, wrap s.lookup)

-- The children are leaves that need the lookup.
pub all_lookup : Nodes → Bool
all_lookup nil = true
all_lookup (cons (leaf l) cs) = is_lookup l.field && all_lookup cs
all_lookup (cons (group _ _) cs) = false

module _ (holds : Leaf → Bool) where
  -- A missing part asks for nothing.
  abbrev pub eval_part : Option Node → Bool
  eval_part none = true
  eval_part (some n) = eval holds n

  abbrev both : Split → Bool
  both s = evals holds all_of s.direct && evals holds all_of s.lookup

  evals-append :
      (cs : Nodes) (n : Node)
      → evals holds all_of (append cs n) ≡ evals holds all_of cs && eval holds n
  unfolding eval append
  evals-append nil n = ground arith
  evals-append (cons c cs) n = ground (arith, evals-append cs n)

  eval-wrap : (cs : Nodes) → eval_part (wrap cs) ≡ evals holds all_of cs
  unfolding eval wrap
  eval-wrap nil = refl
  eval-wrap (cons c nil) = ground arith
  eval-wrap (cons c (cons d cs)) = refl

  mutual
    unfolding walk eval

    walk-both : (n : Node) (s t : Split) → walk n s ≡ ok t → both t ≡ both s && eval holds n
    walk-both (leaf l) s t e =
        ground (arith, evals-append s.lookup (leaf l), evals-append s.direct (leaf l))
    walk-both (group any_of cs) s t e = ground (arith, evals-append s.direct (group any_of cs))
    walk-both (group all_of cs) s t e = walk_all-both cs s t e

    walk_all-both :
        (cs : Nodes) (s t : Split) → walk_all cs s ≡ ok t → both t ≡ both s && evals holds all_of cs
    walk_all-both nil s t e = ground arith
    walk_all-both (cons c cs) s t e =
        let (m, first, rest) = >>=-eq-ok (walk c s) (λ m. walk_all cs m) e in
        ground (arith, walk-both c s m first, walk_all-both cs m t rest)

any_has_lookup-append :
    (cs : Nodes) (n : Node) → any_has_lookup (append cs n) ≡ any_has_lookup cs || has_lookup n
unfolding has_lookup append
any_has_lookup-append nil n = ground arith
any_has_lookup-append (cons c cs) n = ground (arith, any_has_lookup-append cs n)

all_lookup-append :
    (cs : Nodes) (l : Leaf) → all_lookup (append cs (leaf l)) ≡ all_lookup cs && is_lookup l.field
unfolding all_lookup append
all_lookup-append nil l = ground arith
all_lookup-append (cons (leaf l') cs) l = ground (arith, all_lookup-append cs l)
all_lookup-append (cons (group o ds) cs) l = refl

-- The lists of a split hold what they are for.
abbrev IsSorted : Split → Type 0
IsSorted s = (any_has_lookup s.direct ≡ false) × (all_lookup s.lookup ≡ true)

mutual
  unfolding walk has_lookup

  walk-IsSorted : (n : Node) (s t : Split) → IsSorted s → walk n s ≡ ok t → IsSorted t
  walk-IsSorted (leaf l) s t h e =
      ground (arith, h, any_has_lookup-append s.direct (leaf l), all_lookup-append s.lookup l)
  walk-IsSorted (group any_of cs) s t h e =
      ground (arith, h, any_has_lookup-append s.direct (group any_of cs))
  walk-IsSorted (group all_of cs) s t h e = walk_all-IsSorted cs s t h e

  walk_all-IsSorted : (cs : Nodes) (s t : Split) → IsSorted s → walk_all cs s ≡ ok t → IsSorted t
  walk_all-IsSorted nil s t h e = ground (arith, h)
  walk_all-IsSorted (cons c cs) s t h e =
      let (m, first, rest) = >>=-eq-ok (walk c s) (λ m. walk_all cs m) e in
      walk_all-IsSorted cs m t (walk-IsSorted c s m h first) rest

-- A part that is missing, or one leaf or an AND of leaves that all need the lookup.
abbrev pub IsLookup : Option Node → Type 0
IsLookup none = Unit
IsLookup (some (leaf l)) = is_lookup l.field ≡ true
IsLookup (some (group any_of cs)) = ⊥
IsLookup (some (group all_of cs)) = all_lookup cs ≡ true

abbrev pub IsDirect : Option Node → Type 0
IsDirect none = Unit
IsDirect (some n) = has_lookup n ≡ false

wrap-IsDirect : (cs : Nodes) → any_has_lookup cs ≡ false → IsDirect (wrap cs)
unfolding wrap has_lookup
wrap-IsDirect nil h = tt
wrap-IsDirect (cons c nil) h = ground arith
wrap-IsDirect (cons c (cons d cs)) h = h

wrap-IsLookup : (cs : Nodes) → all_lookup cs ≡ true → IsLookup (wrap cs)
unfolding wrap all_lookup
wrap-IsLookup nil h = tt
wrap-IsLookup (cons (leaf l) nil) h = ground arith
wrap-IsLookup (cons (group o ds) nil) h = cc
wrap-IsLookup (cons c (cons d cs)) h = h

nothing_yet : IsSorted (record { direct = nil; lookup = nil })
unfolding has_lookup all_lookup
nothing_yet = (refl, refl)

start-both :
    (holds : Leaf → Bool) (n : Node) (s : Split)
    → both holds s ≡ both holds (record { direct = nil; lookup = nil }) && eval holds n
    → eval holds n ≡ both holds s
unfolding eval
start-both holds n s e = sym e

-- When the split succeeds, the filter is the conjunction of its two parts, the direct part holds no
-- field that needs the lookup, and the other holds no other field and no OR.
pub extract_log_lookup_fields-eval :
    (holds : Leaf → Bool) (n : Node) (direct lookup : Option Node)
    → extract_log_lookup_fields n ≡ ok (direct, lookup)
    → (eval holds n ≡ eval_part holds direct && eval_part holds lookup)
      × IsDirect direct
      × IsLookup lookup
unfolding extract_log_lookup_fields
extract_log_lookup_fields-eval holds n direct lookup e =
    let start : Split = record { direct = nil; lookup = nil } in
    let (s, walked, wrapped) =
      >>=-eq-ok (walk n start) (λ s. ok (wrap s.direct, wrap s.lookup)) e in
    let parts = ok_inj wrapped in
    let (d, k) = walk-IsSorted n start s nothing_yet walked in
    (
      start-both holds n s (walk-both holds n start s walked)
          ∙ sym (ap₂ (λ a b. a && b) (eval-wrap holds s.direct) (eval-wrap holds s.lookup))
          ∙ ap (λ (p : Option Node × Option Node). eval_part holds p.0 && eval_part holds p.1)
              parts,
      subst IsDirect (ap (λ (p : Option Node × Option Node). p.0) parts) (wrap-IsDirect s.direct d),
      subst IsLookup (ap (λ (p : Option Node × Option Node). p.1) parts) (wrap-IsLookup s.lookup k),
    )
