-- ===== src/Topology/Clusters.antt =====
-- Where `_attribute_root_causes` of src/thruk_mcp/tools/triage.py puts each affected host.
use mathlib.Core.List.{lookup}
use thruk_mcp.OrderedDict
use thruk_mcp.OrderedDict.Laws.{get-set_item_self, get-set_item_ne}
use thruk_mcp.OrderedDict.{OrderedDict, set_item}
use thruk_mcp.Ordering.{member, text_leb, member-sort_by, member-append, member-keep}
use thruk_mcp.Prelude.{
  String, ◌≡◌, ◌≢◌, refl, sym, ap, ◌∙◌, Bool, true, false, not, ◌&&◌, ◌||◌, Option, none, some,
  List, [], ◌∷◌, ◌++◌, arith, String_discrete, Bool-cases, Option-cases, inl, inr,
}
use thruk_mcp.Sorting.{keep}
use thruk_mcp.Topology.Roots.{itself}
use thruk_mcp.Topology.Tops.{root_of-none}
use thruk_mcp.Topology.{Parents, in_set, add, root_of, cluster, attribute_root_causes}

abbrev pub Clusters : Type 0
Clusters = OrderedDict String (List String)

abbrev pub members : String → Clusters → List String
members root clusters = elim (OrderedDict.get String_discrete root clusters) [
  | none ↦ []
  | some s ↦ s
]

in_set-add :
    (x h : String) (s : List String) → in_set x (add h s) ≡ (in_set x s || in_set x (h ∷ []))
unfolding add member
in_set-add x h s = ground (arith, ap (λ y. member String_discrete y s))

-- one host more in the cluster of a root
joined : String → String → Clusters → Clusters
joined root host clusters =
    set_item String_discrete root (add host (members root clusters)) clusters

abbrev pub is_root : String → Option String → Bool
is_root root none = false
is_root root (some r) = elim (String_discrete r root) [ yes _ ↦ true | no _ ↦ false ]

abbrev pub is_none : Option String → Bool
is_none none = true
is_none (some _) = false

members-joined :
    (root r host x : String) (clusters : Clusters)
    → in_set x (members root (joined r host clusters))
      ≡ (in_set x (members root clusters) || (in_set x (host ∷ []) && is_root root (some r)))
unfolding joined
members-joined root r host x clusters = ground (
  arith,
  get-set_item_self String_discrete r (add host (members r clusters)) clusters,
  get-set_item_ne String_discrete r root (add host (members r clusters)) clusters,
  in_set-add x host (members r clusters),
)

-- a host of the list is the first or a later one
in_cons : (x h : String) (l : List String) → in_set x (h ∷ l) ≡ (in_set x (h ∷ []) || in_set x l)
unfolding member
in_cons x h l = ground arith

one_only : (x h : String) → in_set x (h ∷ []) ≡ true → x ≡ h
unfolding member
one_only x h t = ground (arith, t)

module _ (down : List String) (parents : Parents) where
  -- whether a host belongs to the cluster of a root, or to those without one
  abbrev pub belongs : String → String → Bool
  belongs root x = is_root root (root_of down parents x)

  abbrev pub is_left : String → Bool
  is_left x = is_none (root_of down parents x)

  -- what the first host of the list adds
  first_belongs :
      (root h x : String) (o : Option String)
      → root_of down parents h ≡ o
      → (in_set x (h ∷ []) && is_root root o) ≡ (in_set x (h ∷ []) && belongs root x)
  first_belongs root h x o e = elim (Bool-cases (in_set x (h ∷ []))) [
    | inl here ↦
        ap (λ b. in_set x (h ∷ []) && b)
          (ap (is_root root) (sym e ∙ ap (root_of down parents) (sym (one_only x h here))))
    | inr away ↦ rw (away) refl
  ]

  cluster-none :
      (h : String) (l : List String) (clusters : Clusters) (unattributed : List String)
      → root_of down parents h ≡ none
      → cluster down parents (h ∷ l) clusters unattributed
        ≡ cluster down parents l clusters (unattributed ++ h ∷ [])
  unfolding cluster joined
  cluster-none h l clusters unattributed e =
      ap
        (λ o. elim o [
          | none ↦ cluster down parents l clusters (unattributed ++ h ∷ [])
          | some r ↦ cluster down parents l (joined r h clusters) unattributed
        ])
        e

  cluster-some :
      (h r : String) (l : List String) (clusters : Clusters) (unattributed : List String)
      → root_of down parents h ≡ some r
      → cluster down parents (h ∷ l) clusters unattributed
        ≡ cluster down parents l (joined r h clusters) unattributed
  unfolding cluster joined
  cluster-some h r l clusters unattributed e =
      ap
        (λ o. elim o [
          | none ↦ cluster down parents l clusters (unattributed ++ h ∷ [])
          | some r ↦ cluster down parents l (joined r h clusters) unattributed
        ])
        e

  cluster-members :
      (l : List String) (clusters : Clusters) (unattributed : List String) (root x : String)
      → in_set x (members root (cluster down parents l clusters unattributed).0)
        ≡ (in_set x (members root clusters) || (in_set x l && belongs root x))
  unfolding cluster member
  cluster-members [] clusters unattributed root x = ground arith
  cluster-members (h ∷ l) clusters unattributed root x =
      elim (Option-cases (root_of down parents h)) [
        | inl e ↦
            ap (λ c. in_set x (members root c.0)) (cluster-none h l clusters unattributed e)
            ∙ cluster-members l clusters (unattributed ++ h ∷ []) root x
            ∙ merge_none (in_set x (members root clusters)) (in_set x (h ∷ [])) (in_set x l)
                (belongs root x) (first_belongs root h x none e)
            ∙ ap (λ b. in_set x (members root clusters) || (b && belongs root x))
                (sym (in_cons x h l))
        | inr (r, e) ↦
            ap (λ c. in_set x (members root c.0)) (cluster-some h r l clusters unattributed e)
            ∙ cluster-members l (joined r h clusters) unattributed root x
            ∙ ap (λ b. b || (in_set x l && belongs root x)) (members-joined root r h x clusters)
            ∙ merge_some (in_set x (members root clusters)) (in_set x (h ∷ [])) (in_set x l)
                (belongs root x) (is_root root (some r)) (first_belongs root h x (some r) e)
            ∙ ap (λ b. in_set x (members root clusters) || (b && belongs root x))
                (sym (in_cons x h l))
      ]
    where
      merge_none :
          (a h l b : Bool) → (h && false) ≡ (h && b) → (a || (l && b)) ≡ (a || ((h || l) && b))
      merge_none a h l b e = ground (arith, e)

      merge_some :
          (a h l b r : Bool)
          → (h && r) ≡ (h && b)
          → ((a || (h && r)) || (l && b)) ≡ (a || ((h || l) && b))
      merge_some a h l b r e = ground (arith, e)

  first_left :
      (h x : String) (o : Option String)
      → root_of down parents h ≡ o
      → (in_set x (h ∷ []) && is_none o) ≡ (in_set x (h ∷ []) && is_left x)
  first_left h x o e = elim (Bool-cases (in_set x (h ∷ []))) [
    | inl here ↦
        ap (λ b. in_set x (h ∷ []) && b)
          (ap is_none (sym e ∙ ap (root_of down parents) (sym (one_only x h here))))
    | inr away ↦ rw (away) refl
  ]

  cluster-left :
      (l : List String) (clusters : Clusters) (unattributed : List String) (x : String)
      → in_set x (cluster down parents l clusters unattributed).1
        ≡ (in_set x unattributed || (in_set x l && is_left x))
  unfolding cluster
  cluster-left [] clusters unattributed x =
      member-sort_by String_discrete text_leb x unattributed ∙ ground arith
  cluster-left (h ∷ l) clusters unattributed x = elim (Option-cases (root_of down parents h)) [
    | inl e ↦
        ap (λ c. in_set x c.1) (cluster-none h l clusters unattributed e)
        ∙ cluster-left l clusters (unattributed ++ h ∷ []) x
        ∙ ap (λ b. b || (in_set x l && is_left x))
            (member-append String_discrete x unattributed (h ∷ []))
        ∙ merge (in_set x unattributed) (in_set x (h ∷ [])) (in_set x l) (is_left x)
            (first_left h x none e)
        ∙ ap (λ b. in_set x unattributed || (b && is_left x)) (sym (in_cons x h l))
    | inr (r, e) ↦
        ap (λ c. in_set x c.1) (cluster-some h r l clusters unattributed e)
        ∙ cluster-left l (joined r h clusters) unattributed x
        ∙ skip (in_set x unattributed) (in_set x (h ∷ [])) (in_set x l) (is_left x)
            (first_left h x (some r) e)
        ∙ ap (λ b. in_set x unattributed || (b && is_left x)) (sym (in_cons x h l))
  ]
    where
      merge :
          (a h l b : Bool)
          → (h && true) ≡ (h && b)
          → ((a || h) || (l && b)) ≡ (a || ((h || l) && b))
      merge a h l b e = ground (arith, e)

      skip : (a h l b : Bool) → (h && false) ≡ (h && b) → (a || (l && b)) ≡ (a || ((h || l) && b))
      skip a h l b e = ground (arith, e)

  -- the affected hosts
  in_affected :
      (unreachable : List String) (x : String)
      → in_set x (down ++ keep (λ h. not (in_set h down)) unreachable)
        ≡ (in_set x down || in_set x unreachable)
  in_affected unreachable x = ground (
    arith,
    member-append String_discrete x down (keep (λ h. not (in_set h down)) unreachable),
    member-keep String_discrete (λ h. not (in_set h down)) x unreachable,
  )

  -- An affected host stands in the cluster of its root and in no other, and among the unattributed hosts
  -- just when it has none; no other host stands anywhere.
  pub attribute_root_causes-members :
      (unreachable : List String) (root x : String)
      → (in_set x (members root (attribute_root_causes down parents unreachable).0)
          ≡ ((in_set x down || in_set x unreachable) && is_root root (root_of down parents x)))
        × (in_set x (attribute_root_causes down parents unreachable).1
            ≡ ((in_set x down || in_set x unreachable) && is_none (root_of down parents x)))
  unfolding attribute_root_causes lookup
  attribute_root_causes-members unreachable root x =
      let affected = down ++ keep (λ h. not (in_set h down)) unreachable in
      (
        cluster-members affected [] [] root x
            ∙ ap (λ b. b && belongs root x) (in_affected unreachable x),
        cluster-left affected [] [] x ∙ ap (λ b. b && is_left x) (in_affected unreachable x),
      )

  -- An unattributed host was unreachable, not down.
  pub attribute_root_causes-unattributed :
      (unreachable : List String) (x : String)
      → in_set x (attribute_root_causes down parents unreachable).1 ≡ true
      → (in_set x down ≡ false) × (in_set x unreachable ≡ true)
  attribute_root_causes-unattributed unreachable x h =
      let listed = sym (attribute_root_causes-members unreachable x x).1 ∙ h in
      elim (Option-cases (root_of down parents x)) [
        | inl rootless ↦
            let quiet = root_of-none down parents x x rootless (itself x) in
            (quiet, other_way (in_set x down) (in_set x unreachable) (is_left x) quiet listed)
        | inr (r, rooted) ↦ absurd (
            never_left (in_set x down || in_set x unreachable) (is_left x) (ap is_none rooted)
              listed)
      ]
    where
      other_way : (d u b : Bool) → d ≡ false → ((d || u) && b) ≡ true → u ≡ true
      other_way d u b h e = ground (arith, h, e)

      never_left : (a b : Bool) → b ≡ false → (a && b) ≢ true
      never_left a b h e = ground (arith, h, e)
