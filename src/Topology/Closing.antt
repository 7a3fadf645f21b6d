-- ===== src/Topology/Closing.antt =====
-- The walk over the parents of src/thruk_mcp/tools/triage.py misses no host that is down.
use thruk_mcp.Prelude.{
  ℕ, zero, suc, String, ◌≡◌, sym, ap, ◌∙◌, true, some, List, [], ◌∷◌, arith, Bool-cases, ◌⊎◌, inl,
  inr,
}
use thruk_mcp.Topology.{Parents, in_set, extend, parents_of, climb}
use thruk_mcp.Topology.Walks.{
  at_head, climb-new, climb-old, first_or_later, from_parents, from_stack, grown, grown-in, in_nil,
  later, none≢some, some_injective,
}

-- A set that holds what a search started from and, with a host, its parents; its hosts that are down
-- are all found.
pub record IsClosing (down : List String) (parents : Parents) (stack seen res : List String)
    : Type 0 where
  pub final : List String
  pub keeps : (x : String) → in_set x seen ≡ true → in_set x final ≡ true
  pub covers : (x : String) → in_set x stack ≡ true → in_set x final ≡ true
  pub closed :
      (x p : String)
      → in_set x final ≡ true
      → in_set p (parents_of parents x) ≡ true
      → in_set p final ≡ true
  pub found : (d : String) → in_set d final ≡ true → in_set d down ≡ true → in_set d res ≡ true

module _ (down : List String) (parents : Parents) where
  -- the invariants of the loop: a parent of a host that was seen is on the stack or was seen too
  abbrev Pending : List String → List String → Type 0
  Pending stack seen =
      (x p : String)
      → in_set x seen ≡ true
      → in_set p (parents_of parents x) ≡ true
      → (in_set p seen ≡ true) ⊎ (in_set p stack ≡ true)

  abbrev Noted : List String → List String → Type 0
  Noted seen out = (d : String) → in_set d seen ≡ true → in_set d down ≡ true → in_set d out ≡ true

  Pending-old :
      (n : String) (stack seen : List String)
      → in_set n seen ≡ true
      → Pending (n ∷ stack) seen
      → Pending stack seen
  Pending-old n stack seen old h x p s t = elim (h x p s t) [
    | inl a ↦ inl a
    | inr b ↦ elim (first_or_later p n stack b) [
      | inl same ↦ inl (ap (λ y. in_set y seen) same ∙ old)
      | inr c ↦ inr c
    ]
  ]

  Pending-new :
      (n : String) (stack seen : List String)
      → Pending (n ∷ stack) seen
      → Pending (extend (parents_of parents n) stack) (n ∷ seen)
  Pending-new n stack seen h x p s t = elim (first_or_later x n seen s) [
    | inl same ↦ inr (
        from_parents p (parents_of parents n) stack
          (ap (λ y. in_set p (parents_of parents y)) (sym same) ∙ t))
    | inr old ↦ elim (h x p old t) [
      | inl a ↦ inl (later p n seen a)
      | inr b ↦ elim (first_or_later p n stack b) [
        | inl same ↦ inl (ap (λ y. in_set y (n ∷ seen)) same ∙ at_head n seen)
        | inr c ↦ inr (from_stack p (parents_of parents n) stack c)
      ]
    ]
  ]

  Noted-new :
      (n : String) (seen out : List String)
      → Noted seen out
      → Noted (n ∷ seen) (grown down parents n out)
  Noted-new n seen out h d s t = elim (first_or_later d n seen s) [
    | inl same ↦ rw (same) (grown_down (ap (λ y. in_set y down) (sym same) ∙ t))
    | inr old ↦ grown-in down parents d n out (h d old t)
  ]
    where
      grown_down : in_set n down ≡ true → in_set n (grown down parents n out) ≡ true
      grown_down t = ground (arith, t, at_head n out)

  pub climb_complete :
      (fuel : ℕ) (stack seen out res : List String)
      → Pending stack seen
      → Noted seen out
      → climb down parents fuel stack seen out ≡ some res
      → IsClosing down parents stack seen res
  unfolding climb
  climb_complete fuel [] seen out res pending noted h = record {
    final = seen;
    keeps = λ x s. s;
    covers = λ x s. absurd (in_nil x s);
    closed = λ x p s t. elim (pending x p s t) [ inl a ↦ a | inr b ↦ absurd (in_nil p b) ];
    found = λ d s t. ap (in_set d) (sym (some_injective out res h)) ∙ noted d s t;
  }
  climb_complete zero (n ∷ stack) seen out res pending noted h = absurd (none≢some h)
  climb_complete (suc fuel) (n ∷ stack) seen out res pending noted h =
      elim (Bool-cases (in_set n seen)) [
        | inl old ↦
            let c =
              climb_complete fuel stack seen out res (Pending-old n stack seen old pending) noted
                (sym (climb-old down parents fuel n stack seen out old) ∙ h) in
            record {
              final = c.final;
              keeps = c.keeps;
              covers = λ x s. elim (first_or_later x n stack s) [
                | inl same ↦ ap (λ y. in_set y c.final) same ∙ c.keeps n old
                | inr t ↦ c.covers x t
              ];
              closed = c.closed;
              found = c.found;
            }
        | inr new ↦
            let c =
              climb_complete fuel (extend (parents_of parents n) stack) (n ∷ seen)
                (grown down parents n out) res (Pending-new n stack seen pending)
                (Noted-new n seen out noted)
                (sym (climb-new down parents fuel n stack seen out new) ∙ h) in
            record {
              final = c.final;
              keeps = λ x s. c.keeps x (later x n seen s);
              covers = λ x s. elim (first_or_later x n stack s) [
                | inl same ↦ ap (λ y. in_set y c.final) same ∙ c.keeps n (at_head n seen)
                | inr t ↦ c.covers x (from_stack x (parents_of parents n) stack t)
              ];
              closed = c.closed;
              found = c.found;
            }
      ]
