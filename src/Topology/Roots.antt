-- ===== src/Topology/Roots.antt =====
-- What `_down_ancestors`, `_has_down_above` and `_root_of` of src/thruk_mcp/tools/triage.py answer.
use mathlib.Core.Path.{subst}
use thruk_mcp.Prelude.{
  ℕ, zero, suc, String, ◌≡◌, refl, sym, ap, ◌∙◌, Bool, true, false, not, none, some, List, [], ◌∷◌,
  arith, if◌then◌else◌, Bool-cases, inl, inr, ◌↔◌,
}
use thruk_mcp.Topology.{
  Parents, in_set, extend, parents_of, climb, search, fuel_for, down_ancestors, has_down_above,
}
use thruk_mcp.Topology.Closing.{climb_complete}
use thruk_mcp.Topology.Walks.{
  climb-ends, climb_sound, climb-old, climb-new, grown, some_injective, none≢some, in_nil, at_head,
  first_or_later, either_part, from_parents,
}

-- A host that the parents lead to from a host, in any number of steps.
pub data Above (parents : Parents) : String → String → Type 0 where
  itself : (h : String) → Above parents h h
  up :
      {h : String} (x p : String)
      → Above parents h x
      → in_set p (parents_of parents x) ≡ true
      → Above parents h p

-- The same, in one step at least.
abbrev pub StrictlyAbove : Parents → String → String → Type 0
StrictlyAbove parents h d =
    (p : String) × (in_set p (parents_of parents h) ≡ true) × Above parents p d

abbrev is_nil : List String → Bool
is_nil [] = true
is_nil (_ ∷ _) = false

module _ (down : List String) (parents : Parents) where
  grown-is_nil :
      (n : String) (out : List String)
      → is_nil out ≡ false
      → is_nil (grown down parents n out) ≡ false
  grown-is_nil n out h = ground (arith, h)

  climb-is_nil :
      (fuel : ℕ) (stack seen out res : List String)
      → is_nil out ≡ false
      → climb down parents fuel stack seen out ≡ some res
      → is_nil res ≡ false
  unfolding climb
  climb-is_nil fuel [] seen out res some_out h =
      ap is_nil (sym (some_injective out res h)) ∙ some_out
  climb-is_nil zero (n ∷ stack) seen out res some_out h = absurd (none≢some h)
  climb-is_nil (suc fuel) (n ∷ stack) seen out res some_out h = elim (Bool-cases (in_set n seen)) [
    | inl old ↦
        climb-is_nil fuel stack seen out res some_out
          (sym (climb-old down parents fuel n stack seen out old) ∙ h)
    | inr new ↦
        climb-is_nil fuel (extend (parents_of parents n) stack) (n ∷ seen)
          (grown down parents n out) res (grown-is_nil n out some_out)
          (sym (climb-new down parents fuel n stack seen out new) ∙ h)
  ]

  -- the search that stops at the first find says whether the walk finds any
  search-climb :
      (fuel : ℕ) (stack seen res : List String)
      → climb down parents fuel stack seen [] ≡ some res
      → search down parents fuel stack seen ≡ some (not (is_nil res))
  unfolding climb search
  search-climb fuel [] seen res h = ap (λ r. some (not (is_nil r))) (some_injective [] res h)
  search-climb zero (n ∷ stack) seen res h = absurd (none≢some h)
  search-climb (suc fuel) (n ∷ stack) seen res h = elim (Bool-cases (in_set n seen)) [
    | inl old ↦ rw (old) (
        search-climb fuel stack seen res
          (sym (climb-old down parents fuel n stack seen [] old) ∙ h))
    | inr new ↦
        let further = sym (climb-new down parents fuel n stack seen [] new) ∙ h in
        elim (Bool-cases (in_set n down)) [
          | inl is_down ↦
              rw (new, is_down)
                (ap (λ b. some (not b))
                  (sym (
                    climb-is_nil fuel (extend (parents_of parents n) stack) (n ∷ seen)
                      (grown down parents n []) res (rw (is_down) refl) further)))
          | inr other ↦
              rw (new, other)
                (search-climb fuel (extend (parents_of parents n) stack) (n ∷ seen) res (
                  ap
                    (λ b.
                      climb down parents fuel (extend (parents_of parents n) stack) (n ∷ seen)
                        (if b then n ∷ [] else []))
                    (sym other)
                  ∙ further))
        ]
  ]

  closed_above :
      (final : List String)
      → ((x p : String)
          → in_set x final ≡ true
          → in_set p (parents_of parents x) ≡ true
          → in_set p final ≡ true)
      → {h d : String} → in_set h final ≡ true
      → Above parents h d
      → in_set d final ≡ true
  closed_above final closed start (itself h) = start
  closed_above final closed start (up x p above t) =
      closed x p (closed_above final closed start above) t

  -- the walk from any stack, with enough fuel
  climbed : (stack : List String) → List String
  climbed stack = elim (climb down parents (fuel_for parents stack) stack [] []) [
    | none ↦ []
    | some out ↦ out
  ]

  climbed-some :
      (stack : List String)
      → climb down parents (fuel_for parents stack) stack [] [] ≡ some (climbed stack)
  unfolding climbed fuel_for
  climbed-some stack =
      let r = climb-ends down parents (fuel_for parents stack) stack [] [] (omega arith) in
      r.1 ∙ ap (λ o. some (elim o [ none ↦ [] | some out ↦ out ])) (sym r.1)

  climbed_sound :
      (stack : List String) (P : String → Type 0)
      → ((x p : String) → P x → in_set p (parents_of parents x) ≡ true → P p)
      → ((x : String) → in_set x stack ≡ true → P x)
      → (d : String) → in_set d (climbed stack) ≡ true
      → P d × (in_set d down ≡ true)
  climbed_sound stack P closed on_stack =
      climb_sound down parents P closed (fuel_for parents stack) stack [] [] (climbed stack)
        on_stack (λ x t. absurd (in_nil x t)) (climbed-some stack)

  climbed_complete :
      (stack : List String) (h d : String)
      → in_set h stack ≡ true
      → Above parents h d
      → in_set d down ≡ true
      → in_set d (climbed stack) ≡ true
  climbed_complete stack h d start above is_down =
      let c =
        climb_complete down parents (fuel_for parents stack) stack [] [] (climbed stack)
          (λ x p s t. absurd (in_nil x s)) (λ x s t. absurd (in_nil x s)) (climbed-some stack) in
      c.found d (closed_above c.final c.closed (c.covers h start) above) is_down

  -- The walk from a host ends with the hosts that are down among itself and all that lie above it, also
  -- where the parents go round in a circle.
  pub down_ancestors-Above :
      (host d : String)
      → (in_set d (down_ancestors down parents host) ≡ true)
        ↔ (Above parents host d × (in_set d down ≡ true))
  unfolding down_ancestors climbed
  down_ancestors-Above host d = (
    climbed_sound (host ∷ []) (Above parents host) (λ x p above t. up x p above t)
        (λ x t. elim (first_or_later x host [] t) [
          | inl same ↦ subst (Above parents host) (sym same) (itself host)
          | inr t ↦ absurd (in_nil x t)
        ])
        d,
    λ h. climbed_complete (host ∷ []) host d (at_head host []) h.0 h.1,
  )

  -- the parents of a host as the stack of the search
  above_stack :
      (host x : String)
      → in_set x (extend (parents_of parents host) []) ≡ true
      → in_set x (parents_of parents host) ≡ true
  above_stack host x t = elim (either_part x (parents_of parents host) [] t) [
    | inl s ↦ s
    | inr s ↦ absurd (in_nil x s)
  ]

  has_down_above-climbed :
      (host : String)
      → has_down_above down parents host
        ≡ not (is_nil (climbed (extend (parents_of parents host) [])))
  unfolding has_down_above
  has_down_above-climbed host =
      let stack = extend (parents_of parents host) [] in
      ap (λ o. elim o [ none ↦ false | some b ↦ b ])
        (search-climb (fuel_for parents stack) stack [] (climbed stack) (climbed-some stack))

  some_found : (l : List String) → not (is_nil l) ≡ true → (d : String) × (in_set d l ≡ true)
  some_found [] h = absurd (cc (h))
  some_found (x ∷ l) h = (x, at_head x l)

  not_nil : (d : String) (l : List String) → in_set d l ≡ true → not (is_nil l) ≡ true
  not_nil d [] h = absurd (in_nil d h)
  not_nil d (x ∷ l) h = refl

  -- The search says of a host whether one that is down lies strictly above it.
  pub has_down_above-StrictlyAbove :
      (host : String)
      → (has_down_above down parents host ≡ true)
        ↔ ((d : String) × StrictlyAbove parents host d × (in_set d down ≡ true))
  has_down_above-StrictlyAbove host =
      let stack = extend (parents_of parents host) [] in
      (
        λ h.
            let f = some_found (climbed stack) (sym (has_down_above-climbed host) ∙ h) in
            let s =
              climbed_sound stack (StrictlyAbove parents host)
                (λ x p above t. (above.0, above.1, up x p above.2 t))
                (λ x t. (x, above_stack host x t, itself x)) f.0 f.1 in
            (f.0, s.0, s.1),
        λ h.
            has_down_above-climbed host
            ∙ not_nil h.0 (climbed stack) (
                climbed_complete stack h.1.0 h.0
                  (from_parents h.1.0 (parents_of parents host) [] h.1.1) h.1.2 h.2),
      )
