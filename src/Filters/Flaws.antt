-- ===== src/Filters/Flaws.antt =====
-- Where the compiled parameters lose part of a filter, for every filter of the shape.
use Prim.Native.String.{◌++◌}
use thruk_mcp.Filters.Leaves.{
  hostgroup, custom_var, state, Op, eq, Leaf, ok, Context, hosts, services, logs, group_column,
  leaf_to_params, q_leaf, find_state, host_states, service_states, find_either, state_of,
  state_value, q_state,
}
use thruk_mcp.Filters.Values.{Scalar, Value, of_text, of_int, str_scalar}
use thruk_mcp.OrderedDict.{set_item}
use thruk_mcp.Filters.{
  all_of, Node, leaf, group, nil, cons, has_or, compile_filter, expand_group_in, expand_in,
  and_tree_to_params, update,
}
use thruk_mcp.Prelude.{ℕ, String, ◌≡◌, refl, [], ◌∷◌, none, some, arith, String_discrete}
use thruk_mcp.Prelude.Int.{pos}
use thruk_mcp.Prelude.Text.{lower}

abbrev pub in_group : Scalar → Node
in_group g = leaf (record { field = hostgroup; op = eq; value = Value.scalar g })

-- Two host groups that are both required compile to the second alone, in every context: the dict
-- has one entry for the column.
pub compile_filter-last_group :
    (re_escape : String → String) (ctx : Context) (a b : Scalar)
    → (k : String) × (compile_filter re_escape ctx
          (group all_of (cons (in_group a) (cons (in_group b) nil)))
        ≡ ok ((k, Value.scalar b) ∷ []))
      × (compile_filter re_escape ctx (in_group b) ≡ ok ((k, Value.scalar b) ∷ []))
unfolding compile_filter expand_group_in expand_in has_or and_tree_to_params leaf_to_params update
    group_column set_item String_discrete
compile_filter-last_group re_escape hosts a b = (_, refl, refl)
compile_filter-last_group re_escape services a b = (_, refl, refl)
compile_filter-last_group re_escape logs a b = (_, refl, refl)

abbrev pub on_custom_var : Op → Value → Leaf
on_custom_var o v = record { field = custom_var; op = o; value = v }

-- The operator of a custom-variable leaf is lost on both paths: `neq` compiles as `eq` does.
pub custom_var-op_lost :
    (re_escape : String → String) (ctx : Context) (o o' : Op) (v : Value)
    → (leaf_to_params re_escape ctx (on_custom_var o v)
        ≡ leaf_to_params re_escape ctx (on_custom_var o' v))
      × (q_leaf ctx (on_custom_var o v) ≡ q_leaf ctx (on_custom_var o' v))
unfolding leaf_to_params q_leaf
custom_var-op_lost re_escape ctx o o' v = (refl, refl)

abbrev pub in_state : String → Leaf
in_state s = record { field = state; op = eq; value = of_text s }

-- In a log context a service state, which the bracket path writes as its number, is left as a name
-- by the q= path, which reads the host states alone.
pub logs_state_unresolved :
    (re_escape : String → String) (s : String) (n : ℕ)
    → find_state (lower s) service_states ≡ some n
    → find_state (lower s) host_states ≡ none
    → (leaf_to_params re_escape logs (in_state s) ≡ ok ("state", of_int (pos n)))
      × (q_leaf logs (in_state s) ≡ ok ("(state " ++ "=" ++ " " ++ s ++ ")"))
unfolding leaf_to_params q_leaf state_value state_of find_either str_scalar q_state
logs_state_unresolved re_escape s n in_services not_in_hosts = (ground arith, ground arith)
