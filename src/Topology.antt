-- ===== src/Topology.antt =====
-- src/thruk_mcp/tools/triage.py: the root causes of a storm, from the parents of the hosts. The caches of
-- the two searches are left out, since these depend on nothing that changes.
pub mod Walks
pub mod Closing
pub mod Roots
pub mod Tops
pub mod Clusters
mod Tests
use thruk_mcp.OrderedDict
use thruk_mcp.OrderedDict.{OrderedDict, set_item}
use thruk_mcp.Ordering.{member, text_leb, sort_by}
use thruk_mcp.Prelude.{
  ℕ, zero, suc, ◌+◌, String, Bool, true, false, not, Option, none, some, List, [], ◌∷◌, ◌++◌,
  length, leb, nat_eq, String_discrete, if◌then◌else◌,
}
use thruk_mcp.Sorting.{keep}

abbrev pub Parents : Type 0
Parents = OrderedDict String (List String)

-- `x in s`, of a set as a list
abbrev pub in_set : String → List String → Bool
in_set = member String_discrete

-- `s.add(x)`
unfoldable pub add : String → List String → List String
add x s = if in_set x s then s else x ∷ s

-- `stack.extend(l)`, of a stack whose top is the head
unfoldable pub extend : List String → List String → List String
extend [] stack = stack
extend (p ∷ l) stack = extend l (p ∷ stack)

-- `parents.get(node, [])`
abbrev pub parents_of : Parents → String → List String
parents_of parents node = elim (OrderedDict.get String_discrete node parents) [
  | none ↦ []
  | some l ↦ l
]

module _ (down : List String) (parents : Parents) where
  -- the loop of `_down_ancestors`; none where the fuel runs out
  unfoldable pub climb : ℕ → List String → List String → List String → Option (List String)
  unfolding extend member
  climb fuel [] seen out = some out
  climb zero (node ∷ stack) seen out = none
  climb (suc fuel) (node ∷ stack) seen out =
      let skipped = climb fuel stack seen out in
      let visited =
        climb fuel (extend (parents_of parents node) stack) (node ∷ seen)
          (if in_set node down then node ∷ out else out) in
      if in_set node seen then skipped else visited

  -- the loop of `_has_down_above`
  unfoldable pub search : ℕ → List String → List String → Option Bool
  unfolding extend member
  search fuel [] seen = some false
  search zero (node ∷ stack) seen = none
  search (suc fuel) (node ∷ stack) seen =
      let skipped = search fuel stack seen in
      let visited = search fuel (extend (parents_of parents node) stack) (node ∷ seen) in
      if in_set node seen then skipped else (if in_set node down then some true else visited)

-- the parents of the hosts that have not been seen
unfoldable pub edges_left : List String → Parents → ℕ
edges_left seen [] = 0
edges_left seen ((k, l) ∷ d) =
    (if member String_discrete k seen then 0 else length l) + edges_left seen d

-- a node is pushed once for each host that it is a parent of, and once at the start
unfoldable pub fuel_for : Parents → List String → ℕ
unfolding edges_left
fuel_for parents stack = edges_left [] parents + length stack

-- `tops[0] if tops else sorted(anc)[0]`, and None for no ancestor
unfoldable pub first_of : List String → List String → Option String
first_of (t ∷ _) _ = some t
first_of [] (x ∷ _) = some x
first_of [] [] = none

module _ (down : List String) (parents : Parents) where
  -- `_down_ancestors`
  unfoldable pub down_ancestors : String → List String
  unfolding climb fuel_for
  down_ancestors host = elim (climb down parents (fuel_for parents (host ∷ [])) (host ∷ []) [] []) [
    | none ↦ []
    | some out ↦ out
  ]

  -- `_has_down_above`
  unfoldable pub has_down_above : String → Bool
  unfolding search fuel_for extend
  has_down_above host =
      let stack = extend (parents_of parents host) [] in
      elim (search down parents (fuel_for parents stack) stack []) [ none ↦ false | some b ↦ b ]

  -- `_root_of`
  unfoldable pub root_of : String → Option String
  unfolding down_ancestors has_down_above first_of
  root_of host =
      let anc = down_ancestors host in
      first_of (sort_by text_leb (keep (λ d. not (has_down_above d)) anc)) (sort_by text_leb anc)

  -- the last loop: the clusters by their root, and the hosts without one
  unfoldable pub cluster :
      List String
      → OrderedDict String (List String)
      → List String
      → OrderedDict String (List String) × List String
  unfolding root_of add
  cluster [] clusters unattributed = (clusters, sort_by text_leb unattributed)
  cluster (host ∷ l) clusters unattributed = elim (root_of host) [
    | none ↦ cluster l clusters (unattributed ++ host ∷ [])
    | some root ↦
        cluster l
          (set_item String_discrete root
            (add host
              (elim (OrderedDict.get String_discrete root clusters) [ none ↦ [] | some s ↦ s ]))
            clusters)
          unattributed
  ]

  -- `_attribute_root_causes`, whose loop takes the affected hosts in some order
  unfoldable pub attribute_root_causes :
      List String → OrderedDict String (List String) × List String
  unfolding cluster
  attribute_root_causes unreachable =
      cluster (down ++ keep (λ h. not (in_set h down)) unreachable) [] []

-- `_root_cause_confidence`
unfoldable pub root_cause_confidence : ℕ → String
root_cause_confidence n = if leb 3 n then "high" else if nat_eq n 2 then "medium" else "low"
