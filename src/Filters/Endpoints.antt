-- ===== src/Filters/Endpoints.antt =====
-- What `compile_filter_problems` of src/thruk_mcp/filters.py sets on the endpoints /hosts and /services.
use mathlib.Core.Path.{subst}
use Prim.Native.String.{◌++◌}
use thruk_mcp.Filters.Leaves.{
  Field, name, address, state, host, service, description, message, contact, hostgroup,
  servicegroup, custom_var, host_custom_var, since, until, Op, eq, neq, regex, op_in, gte, lte,
  Leaf, Result, ok, ◌>>=◌, >>=-eq-ok, ok_inj, custom_val,
}
use thruk_mcp.Filters.Problems.{
  problem_state, state_key, custom_setting, group_setting, state_setting, setting_of, apply_setting,
  walk_problems, walk_each, compile_filter_problems,
}
use thruk_mcp.Filters.Values.{Value, scalar, items, custom, of_text}
use thruk_mcp.Filters.{
  all_of, any_of, Node, leaf, group, Nodes, nil, cons, has_or, any_has_or, Params, assign,
}
use thruk_mcp.Prelude.{String, ◌≡◌, refl, sym, false, [], arith}
use thruk_mcp.Prelude.Text.{upper}

-- The value goes to /hosts under the first key and to /services under the second; nothing else changes.
abbrev pub SetsBoth : String → String → Value → Params × Params → Params × Params → Type 0
SetsBoth k j w p q = (q.0 ≡ assign (k, w) p.0) × (q.1 ≡ assign (j, w) p.1)

-- What a leaf does to the two dicts: a custom variable stands under `_VAR` on hosts and `_HOSTVAR` on
-- services, a host group under `groups` and `host_groups`, with `[notin]` for its negation and else
-- `[gte]`, a state under one key of its operator, with its number; other fields do nothing, and a list
-- of states is refused.
abbrev pub SetsVar : Value → Params × Params → Params × Params → Type 0
SetsVar (custom var val) p q =
    SetsBoth ("_" ++ upper var) ("_HOST" ++ upper var) (of_text (custom_val val)) p q
SetsVar _ p q = ⊥

abbrev pub SetsGroup : Op → Value → Params × Params → Params × Params → Type 0
SetsGroup neq v p q = SetsBoth "groups[notin]" "host_groups[notin]" v p q
SetsGroup _ v p q = SetsBoth "groups[gte]" "host_groups[gte]" v p q

abbrev pub SetsState : Op → Value → Params × Params → Params × Params → Type 0
SetsState eq v p q = SetsBoth "state" "state" (problem_state v) p q
SetsState neq v p q = SetsBoth "state[ne]" "state[ne]" (problem_state v) p q
SetsState regex v p q = SetsBoth "state[regex]" "state[regex]" (problem_state v) p q
SetsState gte v p q = SetsBoth "state[gte]" "state[gte]" (problem_state v) p q
SetsState lte v p q = SetsBoth "state[lte]" "state[lte]" (problem_state v) p q
SetsState op_in v p q = ⊥

abbrev pub Sets : Field → Op → Value → Params × Params → Params × Params → Type 0
Sets custom_var o v p q = SetsVar v p q
Sets host_custom_var o v p q = SetsVar v p q
Sets hostgroup o v p q = SetsGroup o v p q
Sets state o v p q = SetsState o v p q
Sets name o v p q = q ≡ p
Sets address o v p q = q ≡ p
Sets host o v p q = q ≡ p
Sets service o v p q = q ≡ p
Sets description o v p q = q ≡ p
Sets message o v p q = q ≡ p
Sets contact o v p q = q ≡ p
Sets servicegroup o v p q = q ≡ p
Sets since o v p q = q ≡ p
Sets until o v p q = q ≡ p

-- The leaves of the tree change the two dicts one after the other, in its order; it has no OR.
mutual
  pub data Changes : Node → Params × Params → Params × Params → Type 0 where
    one : {l : Leaf} {p q : Params × Params} → Sets l.field l.op l.value p q → Changes (leaf l) p q
    every :
        {cs : Nodes} {p q : Params × Params} → ChangesEach cs p q → Changes (group all_of cs) p q

  pub data ChangesEach : Nodes → Params × Params → Params × Params → Type 0 where
    done : {p : Params × Params} → ChangesEach nil p p
    next :
        {c : Node} {cs : Nodes} {p m q : Params × Params}
        → Changes c p m
        → ChangesEach cs m q
        → ChangesEach (cons c cs) p q

both_set :
    (k j : String) (w : Value) (p q : Params × Params)
    → ◌≡◌ {A = Result (Params × Params)} (ok (assign (k, w) p.0, assign (j, w) p.1)) (ok q)
    → SetsBoth k j w p q
both_set k j w p q h = let e = sym (ok_inj h) in (λ i. (e i).0, λ i. (e i).1)

var-SetsVar :
    (v : Value) (p q : Params × Params)
    → (custom_setting v >>= λ s. ok (apply_setting s p)) ≡ ok q
    → SetsVar v p q
unfolding custom_setting apply_setting
var-SetsVar (custom var val) p q h =
    both_set ("_" ++ upper var) ("_HOST" ++ upper var) (of_text (custom_val val)) p q h
var-SetsVar (scalar v) p q h = absurd (ground (arith, h))
var-SetsVar (items vs) p q h = absurd (ground (arith, h))

leaf-Sets :
    (f : Field) (o : Op) (v : Value) (p q : Params × Params)
    → (setting_of (record { field = f; op = o; value = v }) >>= λ s. ok (apply_setting s p)) ≡ ok q
    → Sets f o v p q
unfolding setting_of group_setting state_setting state_key apply_setting
leaf-Sets custom_var o v p q h = var-SetsVar v p q h
leaf-Sets host_custom_var o v p q h = var-SetsVar v p q h
leaf-Sets hostgroup eq v p q h = both_set "groups[gte]" "host_groups[gte]" v p q h
leaf-Sets hostgroup neq v p q h = both_set "groups[notin]" "host_groups[notin]" v p q h
leaf-Sets hostgroup regex v p q h = both_set "groups[gte]" "host_groups[gte]" v p q h
leaf-Sets hostgroup op_in v p q h = both_set "groups[gte]" "host_groups[gte]" v p q h
leaf-Sets hostgroup gte v p q h = both_set "groups[gte]" "host_groups[gte]" v p q h
leaf-Sets hostgroup lte v p q h = both_set "groups[gte]" "host_groups[gte]" v p q h
leaf-Sets state eq v p q h = both_set "state" "state" (problem_state v) p q h
leaf-Sets state neq v p q h = both_set "state[ne]" "state[ne]" (problem_state v) p q h
leaf-Sets state regex v p q h = both_set "state[regex]" "state[regex]" (problem_state v) p q h
leaf-Sets state gte v p q h = both_set "state[gte]" "state[gte]" (problem_state v) p q h
leaf-Sets state lte v p q h = both_set "state[lte]" "state[lte]" (problem_state v) p q h
leaf-Sets state op_in v p q h = absurd (ground (arith, h))
leaf-Sets name o v p q h = sym (ok_inj h)
leaf-Sets address o v p q h = sym (ok_inj h)
leaf-Sets host o v p q h = sym (ok_inj h)
leaf-Sets service o v p q h = sym (ok_inj h)
leaf-Sets description o v p q h = sym (ok_inj h)
leaf-Sets message o v p q h = sym (ok_inj h)
leaf-Sets contact o v p q h = sym (ok_inj h)
leaf-Sets servicegroup o v p q h = sym (ok_inj h)
leaf-Sets since o v p q h = sym (ok_inj h)
leaf-Sets until o v p q h = sym (ok_inj h)

mutual
  unfolding walk_problems

  walk_problems-Changes :
      (n : Node) (p q : Params × Params) → walk_problems n p ≡ ok q → Changes n p q
  walk_problems-Changes (leaf l) p q e = one (leaf-Sets l.field l.op l.value p q e)
  walk_problems-Changes (group any_of cs) p q e = absurd (ground (arith, e))
  walk_problems-Changes (group all_of cs) p q e = every (walk_each-Changes cs p q e)

  walk_each-Changes :
      (cs : Nodes) (p q : Params × Params) → walk_each cs p ≡ ok q → ChangesEach cs p q
  walk_each-Changes nil p q e = subst (λ (r : Params × Params). ChangesEach nil p r) (ok_inj e) done
  walk_each-Changes (cons c cs) p q e =
      let (m, first, others) = >>=-eq-ok (walk_problems c p) (λ m. walk_each cs m) e in
      next (walk_problems-Changes c p m first) (walk_each-Changes cs m q others)

mutual
  unfolding walk_problems has_or

  walk_problems-flat :
      (n : Node) (p q : Params × Params) → walk_problems n p ≡ ok q → has_or n ≡ false
  walk_problems-flat (leaf l) p q e = refl
  walk_problems-flat (group any_of cs) p q e = absurd (ground (arith, e))
  walk_problems-flat (group all_of cs) p q e = walk_each-flat cs p q e

  walk_each-flat :
      (cs : Nodes) (p q : Params × Params) → walk_each cs p ≡ ok q → any_has_or cs ≡ false
  walk_each-flat nil p q e = refl
  walk_each-flat (cons c cs) p q e =
      let (m, first, others) = >>=-eq-ok (walk_problems c p) (λ m. walk_each cs m) e in
      ground (arith, walk_problems-flat c p m first, walk_each-flat cs m q others)

-- When a problems filter compiles, it has no OR, and the two dicts are what its leaves make of two
-- empty ones, in their order: a custom variable is set under `_VAR` on hosts and `_HOSTVAR` on services,
-- a host group under `groups` and `host_groups`, `[notin]` for its negation and else `[gte]`, a state
-- that is no list under the one key of its operator, each with the same value on both endpoints, and
-- a leaf on another field sets nothing.
pub compile_filter_problems-Changes :
    (n : Node) (q : Params × Params)
    → compile_filter_problems n ≡ ok q
    → (has_or n ≡ false) × Changes n ([], []) q
unfolding compile_filter_problems
compile_filter_problems-Changes n q e =
    (walk_problems-flat n ([], []) q e, walk_problems-Changes n ([], []) q e)
