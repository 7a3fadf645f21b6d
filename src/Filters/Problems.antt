-- ===== src/Filters/Problems.antt =====
-- `compile_filter_problems` of src/thruk_mcp/filters.py: one filter for the two endpoints /hosts and
-- /services.
use Prim.Native.String.{◌++◌}
use thruk_mcp.Filters.Leaves.{
  custom_var, host_custom_var, hostgroup, state, Op, eq, neq, regex, op_in, gte, lte, Leaf,
  filter_error, not_validated, Result, ok, err, ◌>>=◌, host_states, service_states, find_state,
  custom_val,
}
use thruk_mcp.Filters.Values.{Value, custom, of_text, of_int, str_value}
use thruk_mcp.Filters.{all_of, any_of, Node, leaf, group, Nodes, nil, cons, Params, assign}
use thruk_mcp.Prelude.{String, Option, none, some, []}
use thruk_mcp.Prelude.Int.{pos}
use thruk_mcp.Prelude.Text.{upper, lower}

-- What a leaf sets: the key on /hosts, the key on /services and the value of both.
pub record Setting : Type 0 where
  pub on_hosts : String
  pub on_services : String
  pub value : Value

-- `_HOST_STATE_MAP.get(raw, _SVC_STATE_MAP.get(raw, value))`
unfoldable pub problem_state : Value → Value
problem_state v =
    let raw = lower (str_value v) in
    elim (find_state raw host_states) [
      | some n ↦ of_int (pos n)
      | none ↦ elim (find_state raw service_states) [ some n ↦ of_int (pos n) | none ↦ v ]
    ]

unfoldable pub state_key : Op → String
state_key neq = "state[ne]"
state_key eq = "state"
state_key regex = "state[regex]"
state_key op_in = "state[in]"
state_key gte = "state[gte]"
state_key lte = "state[lte]"

unfoldable pub custom_setting : Value → Result (Option Setting)
custom_setting (custom var val) = ok (
    some (record {
      on_hosts = "_" ++ upper var;
      on_services = "_HOST" ++ upper var;
      value = of_text (custom_val val);
    }))
custom_setting _ = err not_validated

unfoldable pub group_setting : Op → Value → Result (Option Setting)
group_setting neq v =
    ok (some (record { on_hosts = "groups[notin]"; on_services = "host_groups[notin]"; value = v }))
group_setting _ v =
    ok (some (record { on_hosts = "groups[gte]"; on_services = "host_groups[gte]"; value = v }))

unfoldable pub state_setting : Op → Value → Result (Option Setting)
unfolding problem_state state_key
state_setting op_in v = err filter_error
state_setting o v =
    ok
      (some (record { on_hosts = state_key o; on_services = state_key o; value = problem_state v }))

-- what `_apply` sets; a leaf on another field sets nothing
unfoldable pub setting_of : Leaf → Result (Option Setting)
unfolding custom_setting group_setting state_setting
setting_of l = elim l.field [
  | custom_var ↦ custom_setting l.value
  | host_custom_var ↦ custom_setting l.value
  | hostgroup ↦ group_setting l.op l.value
  | state ↦ state_setting l.op l.value
  | _ ↦ ok none
]

-- `_apply`, on the two dicts
unfoldable pub apply_setting : Option Setting → Params × Params → Params × Params
apply_setting none p = p
apply_setting (some s) (h, v) = (assign (s.on_hosts, s.value) h, assign (s.on_services, s.value) v)

-- `_walk`
unfoldable mutual
  unfolding setting_of apply_setting

  pub walk_problems : Node → Params × Params → Result (Params × Params)
  walk_problems (leaf l) p = do s ← setting_of l; ok (apply_setting s p)
  walk_problems (group any_of cs) p = err filter_error
  walk_problems (group all_of cs) p = walk_each cs p

  pub walk_each : Nodes → Params × Params → Result (Params × Params)
  walk_each nil p = ok p
  walk_each (cons c cs) p = do q ← walk_problems c p; walk_each cs q

-- `compile_filter_problems`
unfoldable pub compile_filter_problems : Node → Result (Params × Params)
unfolding walk_problems
compile_filter_problems n = walk_problems n ([], [])
