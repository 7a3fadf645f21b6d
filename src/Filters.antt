-- ===== src/Filters.antt =====
-- src/thruk_mcp/filters.py: filter trees and the passes over them. The tree is one that
-- `validate_filter` accepts: node types, fields and operators are data, not texts.
pub mod Values
pub mod Leaves
pub mod Meaning
pub mod Query
pub mod Brackets
pub mod Compile
pub mod Flaws
pub mod Logs
pub mod Alerts
pub mod Narrowed
pub mod Problems
pub mod Endpoints
pub mod Validate
pub mod Typed
pub mod Sound
pub mod Read
pub mod Accepted
pub mod Trees
mod CheckTests
mod Tests
use Prim.Native.String.{◌++◌}
use thruk_mcp.Filters.Leaves.{
  Field, state, hostgroup, servicegroup, custom_var, host_custom_var, Op, eq, op_in, Leaf, Result,
  ok, err, filter_error, ◌>>=◌, Context, Param, is_group, leaf_to_params, q_leaf,
}
use thruk_mcp.Filters.Values.{Scalar, Value, scalar, items, of_text}
use thruk_mcp.Prelude.{
  String, Bool, true, false, ◌||◌, List, [], ◌∷◌, if◌then◌else◌, String_discrete,
}
use thruk_mcp.Prelude.Text.{join}
use thruk_mcp.OrderedDict.{OrderedDict, set_item}

pub data Operator : Type 0 where
  all_of any_of : Operator

mutual
  pub data Node : Type 0 where
    leaf : Leaf → Node
    group : Operator → Nodes → Node

  pub data Nodes : Type 0 where
    nil : Nodes
    cons : Node → Nodes → Nodes

-- `_has_or`
unfoldable mutual
  pub has_or : Node → Bool
  has_or (leaf l) = false
  has_or (group any_of cs) = true
  has_or (group all_of cs) = any_has_or cs

  pub any_has_or : Nodes → Bool
  any_has_or nil = false
  any_has_or (cons c cs) = has_or c || any_has_or cs

-- A dict of query parameters, in insertion order.
abbrev pub Params : Type 0
Params = OrderedDict String Value

-- `params[k] = v`
abbrev pub assign : Param → Params → Params
assign (k, v) ps = set_item String_discrete k v ps

-- `params.update(more)`
unfoldable pub update : Params → Params → Params
update ps [] = ps
update ps (p ∷ more) = update (assign p ps) more

-- `state`, `hostgroup` and `servicegroup` leaves of `in` are rewritten
abbrev pub is_rewritten : Field → Bool
is_rewritten f = is_group f || elim f [ state ↦ true | _ ↦ false ]

unfoldable pub eq_leaves : Field → List Scalar → Nodes
eq_leaves f [] = nil
eq_leaves f (v ∷ vs) =
    cons (leaf (record { field = f; op = eq; value = scalar v })) (eq_leaves f vs)

pub expand_in : Leaf → Op → Value → Node
expand_in l op_in (items vs) =
    if is_rewritten l.field then group any_of (eq_leaves l.field vs) else leaf l
expand_in l _ _ = leaf l

-- `_expand_group_in`
unfoldable mutual
  unfolding expand_in

  pub expand_group_in : Node → Node
  expand_group_in (leaf l) = expand_in l l.op l.value
  expand_group_in (group o cs) = group o (expand_all cs)

  pub expand_all : Nodes → Nodes
  expand_all nil = nil
  expand_all (cons c cs) = cons (expand_group_in c) (expand_all cs)

-- `rewrite_custom_var_to_host_custom_var`
unfoldable pub to_host_field : Field → Field
to_host_field custom_var = host_custom_var
to_host_field f = f

unfoldable mutual
  unfolding to_host_field

  pub rewrite_custom_var : Node → Node
  rewrite_custom_var (leaf l) = leaf (record l { field = to_host_field l.field })
  rewrite_custom_var (group o cs) = group o (rewrite_all cs)

  pub rewrite_all : Nodes → Nodes
  rewrite_all nil = nil
  rewrite_all (cons c cs) = cons (rewrite_custom_var c) (rewrite_all cs)

pub word : Operator → String
word all_of = " and "
word any_of = " or "

-- One part stands as it is; only a root expression goes without its parentheses.
unfoldable pub join_parts : Bool → Operator → List String → String
unfolding word
join_parts root o (s ∷ []) = s
join_parts root o parts = if root then join (word o) parts else "(" ++ join (word o) parts ++ ")"

module _ (re_escape : String → String) (ctx : Context) where
  -- `_and_tree_to_params`
  unfoldable mutual
    pub and_tree_to_params : Node → Result Params
    and_tree_to_params (leaf l) = do p ← leaf_to_params re_escape ctx l; ok (p ∷ [])
    and_tree_to_params (group _ cs) = and_trees_to_params [] cs

    -- the loop over the children, with the dict so far
    pub and_trees_to_params : Params → Nodes → Result Params
    and_trees_to_params ps nil = ok ps
    and_trees_to_params ps (cons c cs) = do
      more ← and_tree_to_params c
      and_trees_to_params (update ps more) cs

-- `_build_q_expr`
module _ (ctx : Context) where
  unfoldable mutual
    unfolding join_parts

    pub build_q_expr : Node → Bool → Result String
    build_q_expr (leaf l) root = q_leaf ctx l
    build_q_expr (group o cs) root = do parts ← build_parts cs; ok (join_parts root o parts)

    pub build_parts : Nodes → Result (List String)
    build_parts nil = ok []
    build_parts (cons c cs) = do s ← build_q_expr c false; ss ← build_parts cs; ok (s ∷ ss)

-- `q_node`: one OR subtree, or the conjunction of several
unfoldable pub or_subtree : Nodes → Node
or_subtree (cons c nil) = c
or_subtree cs = group all_of cs

-- the children of the root AND that hold an OR
unfoldable pub or_nodes : Nodes → Nodes
or_nodes nil = nil
or_nodes (cons c cs) = let rest = or_nodes cs in if has_or c then cons c rest else rest

module _ (re_escape : String → String) (ctx : Context) where
  -- the bracket parameters of the children with no OR
  unfoldable pub bracket_params : Params → Nodes → Result Params
  bracket_params ps nil = ok ps
  bracket_params ps (cons c cs) = elim (has_or c) [
    | true ↦ bracket_params ps cs
    | false ↦ do more ← and_tree_to_params re_escape ctx c; bracket_params (update ps more) cs
  ]

  pub add_q : Params → Nodes → Result Params
  add_q ps nil = ok ps
  add_q ps (cons c cs) = do
    q ← build_q_expr ctx (or_subtree (cons c cs)) true
    ok (assign ("q", of_text q) ps)

  -- `_compile_hybrid`
  unfoldable pub compile_hybrid : Nodes → Result Params
  unfolding add_q
  compile_hybrid cs = do ps ← bracket_params [] cs; add_q ps (or_nodes cs)

  -- what `compile_filter` does with the rewritten tree
  unfoldable pub compile_expanded : Node → Result Params
  compile_expanded (leaf l) = and_tree_to_params re_escape ctx (leaf l)
  compile_expanded (group any_of cs) = do
    q ← build_q_expr ctx (group any_of cs) true
    ok (("q", of_text q) ∷ [])
  compile_expanded (group all_of cs) =
      if has_or (group all_of cs)
      then compile_hybrid cs
      else and_tree_to_params re_escape ctx (group all_of cs)

  -- `compile_filter`
  unfoldable pub compile_filter : Node → Result Params
  unfolding compile_expanded
  compile_filter node = compile_expanded (expand_group_in node)
