-- ===== src/Topology/Walks.antt =====
-- The two searches of src/thruk_mcp/tools/triage.py end, and find what lies above a host.
use mathlib.Core.List.{lookup}
use mathlib.Core.Path.{subst}
use thruk_mcp.Ordering.{member}
use thruk_mcp.Prelude.{
  ℕ, zero, suc, ◌+◌, ◌≤◌, String, ◌≡◌, ◌≢◌, refl, sym, ap, ◌∙◌, true, false, ◌||◌, none, some, List,
  [], ◌∷◌, length, arith, String_discrete, if◌then◌else◌, Bool-cases, ◌⊎◌, inl, inr,
}
use thruk_mcp.Topology.{Parents, in_set, extend, parents_of, climb, edges_left}

edges_left-fewer :
    (n : String) (seen : List String) (d : Parents) → edges_left (n ∷ seen) d ≤ edges_left seen d
unfolding edges_left member
edges_left-fewer n seen [] = omega arith
edges_left-fewer n seen ((k, l) ∷ d) = ground (arith, edges_left-fewer n seen d)

-- a host that is seen gives its parents up to the stack
edges_left-seen :
    (n : String) (seen : List String) (d : Parents)
    → member String_discrete n seen ≡ false
    → edges_left (n ∷ seen) d + length (parents_of d n) ≤ edges_left seen d
unfolding edges_left member lookup
edges_left-seen n seen [] h = omega arith
edges_left-seen n seen ((k, l) ∷ d) h = ground (
  arith,
  edges_left-fewer n seen d,
  edges_left-seen n seen d h,
  h,
  ap (λ x. member String_discrete x seen),
)

length-extend : (l stack : List String) → length (extend l stack) ≡ length l + length stack
unfolding extend
length-extend [] stack = omega arith
length-extend (p ∷ l) stack = omega (arith, length-extend l (p ∷ stack))

member-extend :
    (x : String) (l stack : List String)
    → in_set x (extend l stack) ≡ (in_set x l || in_set x stack)
unfolding extend member
member-extend x [] stack = refl
member-extend x (p ∷ l) stack = ground (arith, member-extend x l (p ∷ stack))

pub some_injective : {A : Type 0} (x y : A) → some x ≡ some y → x ≡ y
some_injective x y h = ap (λ o. elim o [ none ↦ x | some z ↦ z ]) h

pub none≢some : {A : Type 0} {x : A} → none ≢ some x
none≢some h = cc (h)

pub later : (x n : String) (l : List String) → in_set x l ≡ true → in_set x (n ∷ l) ≡ true
unfolding member
later x n l h = ground (arith, h)

-- membership in a list with one more
pub first_or_later :
    (x n : String) (l : List String) → in_set x (n ∷ l) ≡ true → (x ≡ n) ⊎ (in_set x l ≡ true)
unfolding member
first_or_later x n l h =
    elim (String_discrete x n)
        as (λ r.
          elim r [ yes _ ↦ true | no _ ↦ in_set x l ] ≡ true → (x ≡ n) ⊎ (in_set x l ≡ true)) [
            | yes same ↦ λ _. inl same
            | no _ ↦ λ t. inr t
          ]
      h

pub at_head : (n : String) (l : List String) → in_set n (n ∷ l) ≡ true
unfolding member
at_head n l = ground arith

pub either_part :
    (x : String) (l stack : List String)
    → in_set x (extend l stack) ≡ true
    → (in_set x l ≡ true) ⊎ (in_set x stack ≡ true)
either_part x l stack h = ground (arith, h, member-extend x l stack)

pub from_parents :
    (x : String) (l stack : List String) → in_set x l ≡ true → in_set x (extend l stack) ≡ true
from_parents x l stack h = ground (arith, h, member-extend x l stack)

pub from_stack :
    (x : String) (l stack : List String) → in_set x stack ≡ true → in_set x (extend l stack) ≡ true
from_stack x l stack h = ground (arith, h, member-extend x l stack)

pub in_nil : (x : String) → in_set x [] ≢ true
unfolding member
in_nil x h = cc (h)

module _ (down : List String) (parents : Parents) where
  abbrev pub grown : String → List String → List String
  grown n out = if in_set n down then n ∷ out else out

  pub climb-old :
      (fuel : ℕ) (n : String) (stack seen out : List String)
      → in_set n seen ≡ true
      → climb down parents (suc fuel) (n ∷ stack) seen out ≡ climb down parents fuel stack seen out
  unfolding climb
  climb-old fuel n stack seen out old = rw (old) refl

  pub climb-new :
      (fuel : ℕ) (n : String) (stack seen out : List String)
      → in_set n seen ≡ false
      → climb down parents (suc fuel) (n ∷ stack) seen out
        ≡ climb down parents fuel (extend (parents_of parents n) stack) (n ∷ seen) (grown n out)
  unfolding climb
  climb-new fuel n stack seen out new = rw (new) refl

  pub grown-in :
      (x n : String) (out : List String) → in_set x out ≡ true → in_set x (grown n out) ≡ true
  grown-in x n out h = ground (arith, h, later x n out h)

  in_grown :
      (x n : String) (out : List String)
      → in_set x (grown n out) ≡ true
      → ((x ≡ n) × (in_set n down ≡ true)) ⊎ (in_set x out ≡ true)
  in_grown x n out h = ground (arith, h, first_or_later x n out)

  pub climb-ends :
      (fuel : ℕ) (stack seen out : List String)
      → edges_left seen parents + length stack ≤ fuel
      → (res : List String) × (climb down parents fuel stack seen out ≡ some res)
  unfolding climb
  climb-ends fuel [] seen out h = (out, refl)
  climb-ends zero (n ∷ stack) seen out h = absurd (omega (arith, h))
  climb-ends (suc fuel) (n ∷ stack) seen out h = elim (Bool-cases (in_set n seen)) [
    | inl old ↦ let r = climb-ends fuel stack seen out (omega (arith, h)) in (r.0, rw (old) r.1)
    | inr new ↦
        let r =
          climb-ends fuel (extend (parents_of parents n) stack) (n ∷ seen)
            (if in_set n down then n ∷ out else out)
            (omega (
              arith,
              h,
              edges_left-seen n seen parents new,
              length-extend (parents_of parents n) stack,
            )) in
        (r.0, rw (new) r.1)
  ]

  -- What the stack and the finds have, and a parent has when its host does, the result has.
  pub climb_sound :
      (P : String → Type 0)
      → ((x p : String) → P x → in_set p (parents_of parents x) ≡ true → P p)
      → (fuel : ℕ) (stack seen out res : List String) → ((x : String) → in_set x stack ≡ true → P x)
      → ((x : String) → in_set x out ≡ true → P x × (in_set x down ≡ true))
      → climb down parents fuel stack seen out ≡ some res
      → (d : String) → in_set d res ≡ true
      → P d × (in_set d down ≡ true)
  unfolding climb
  climb_sound P closed fuel [] seen out res on_stack on_out h d found =
      on_out d (ap (in_set d) (some_injective out res h) ∙ found)
  climb_sound P closed zero (n ∷ stack) seen out res on_stack on_out h d found =
      absurd (none≢some h)
  climb_sound P closed (suc fuel) (n ∷ stack) seen out res on_stack on_out h d found =
      elim (Bool-cases (in_set n seen)) [
        | inl old ↦
            climb_sound P closed fuel stack seen out res (λ x t. on_stack x (later x n stack t))
              on_out (sym (climb-old fuel n stack seen out old) ∙ h) d found
        | inr new ↦
            climb_sound P closed fuel (extend (parents_of parents n) stack) (n ∷ seen) (grown n out)
              res
              (λ x t. elim (either_part x (parents_of parents n) stack t) [
                | inl parent ↦ closed n x (on_stack n (at_head n stack)) parent
                | inr old ↦ on_stack x (later x n stack old)
              ])
              (λ x t. elim (in_grown x n out t) [
                | inl (same, is_down) ↦
                    subst (λ y. P y × (in_set y down ≡ true)) (sym same)
                      (on_stack n (at_head n stack), is_down)
                | inr old ↦ on_out x old
              ])
              (sym (climb-new fuel n stack seen out new) ∙ h) d found
      ]
