-- ===== src/Filters/Tests.antt =====
-- The compiler at concrete filters, and the theorems at inputs that meet their hypotheses.
use thruk_mcp.Filters.Alerts.{is_state}
use thruk_mcp.Filters.Problems.{
  compile_filter_problems, walk_problems, setting_of, apply_setting, group_setting, state_setting,
  problem_state, state_key,
}
use thruk_mcp.Filters.Endpoints.{Changes, compile_filter_problems-Changes}
use mathlib.Core.List.{lookup}
use thruk_mcp.Filters.Brackets.{emitted, plain}
use thruk_mcp.Filters.Compile.{IsRead, IsFaithful, compile_filter-Accepts}
use thruk_mcp.Filters.Flaws.{in_group, compile_filter-last_group}
use thruk_mcp.Filters.Leaves.{
  name, host, state, hostgroup, service, custom_var, eq, neq, op_in, Leaf, ok, hosts, services,
  find_state, host_states, service_states, find_either, state_of, state_value, column, group_column,
  leaf_to_params, q_state, quoted, q_leaf,
}
use thruk_mcp.Filters.Logs.{
  extract_log_lookup_fields, extract_log_lookup_fields-eval, eval_part, IsDirect, IsLookup, walk,
  append, wrap,
}
use thruk_mcp.Filters.Query.{KeepsOrs}
use thruk_mcp.Filters.Meaning.{eval, denote, Accepts, Leafwise}
use thruk_mcp.Filters.Values.{Value, text, items, of_text, of_int, str_scalar, str_value}
use thruk_mcp.Filters.{
  all_of, any_of, Node, leaf, group, nil, cons, has_or, expand_group_in, eq_leaves, Params, update,
  and_tree_to_params, build_q_expr, build_parts, join_parts, or_nodes, or_subtree, bracket_params,
  compile_hybrid, compile_filter,
}
use thruk_mcp.OrderedDict.{set_item}
use thruk_mcp.Prelude.{
  String, ◌≡◌, refl, Bool, true, false, not, ◌&&◌, ◌||◌, none, some, [], ◌∷◌, String_discrete, ◌==◌,
}
use thruk_mcp.Prelude.Int.{pos}
use thruk_mcp.Prelude.Text.{join, lower, upper, show_int}

program : Unit {0}
unfolding compile_filter expand_group_in eq_leaves has_or and_tree_to_params build_q_expr join_parts
    or_nodes or_subtree bracket_params compile_hybrid update set_item String_discrete leaf_to_params
    q_leaf state_value state_of find_either find_state host_states service_states column
    group_column q_state quoted str_scalar str_value join lower upper show_int
program = tt

abbrev kernel : Leaf
kernel = record {
  field = custom_var;
  op = eq;
  value = Value.custom "kernel" (some (text "windows"));
}

abbrev ssh : Leaf
ssh = record { field = service; op = eq; value = of_text "ssh" }

abbrev windows : Leaf
windows = record { field = hostgroup; op = eq; value = of_text "HG_WINDOWS" }

abbrev down : Leaf
down = record { field = state; op = eq; value = of_text "down" }

abbrev named_web : Leaf
named_web = record { field = name; op = eq; value = of_text "web" }

-- the example of `_compile_hybrid`
abbrev hybrid : Node
hybrid =
    group all_of
      (cons (leaf down) (cons (group any_of (cons (leaf windows) (cons (leaf kernel) nil))) nil))

abbrev q_text : String
q_text = "(groups >= \"HG_WINDOWS\") or (_KERNEL = \"windows\")"

compile-hybrid :
    compile_filter (λ s. s) hosts hybrid
    ≡ ok (("state", of_int (pos 1)) ∷ ("q", of_text q_text) ∷ [])
unfolding program
compile-hybrid = refl

-- The form of expression that `_compile_hybrid` avoids, from an AND below the root.
compile-nested :
    compile_filter (λ s. s) hosts (group all_of (cons (leaf named_web) (cons hybrid nil)))
    ≡ ok (
        ("name", of_text "web")
        ∷ ("q", of_text "(state = 1) and ((groups >= \"HG_WINDOWS\") or (_KERNEL = \"windows\"))")
        ∷ [])
unfolding program
compile-nested = refl

compile-in :
    compile_filter
      (λ s. s)
      services
      (leaf (record {
        field = state;
        op = op_in;
        value = items (text "critical" ∷ text "unknown" ∷ []);
      }))
    ≡ ok (("q", of_text "(state = 2) or (state = 3)") ∷ [])
unfolding program
compile-in = refl

-- a row of a host that is down and in HG_WINDOWS
abbrev row_holds : Leaf → Bool
row_holds l = elim l.field [ custom_var ↦ false | _ ↦ true ]

abbrev row_fragment : String → Bool
row_fragment s = s == "(groups >= \"HG_WINDOWS\")" || s == "(state = 1)"

abbrev row_meets : String → Value → Bool
row_meets k v = k == "state" || k == "groups[gte]"

hybrid-IsRead :
    Leafwise (IsRead (λ s. s) hosts row_holds row_fragment row_meets) (expand_group_in hybrid)
unfolding program Leafwise
hybrid-IsRead = ((refl, refl), (((refl, refl), ((refl, refl), tt)), tt))

hybrid-IsFaithful : IsFaithful (λ s. s) hosts (expand_group_in hybrid)
unfolding program plain emitted lookup KeepsOrs
hybrid-IsFaithful = (((refl, tt), refl), tt, (tt, (tt, tt)))

compile_filter-Accepts_example :
    (ps : Params) × (compile_filter (λ s. s) hosts hybrid ≡ ok ps)
    × Accepts row_fragment row_meets ps (denote row_holds hybrid)
compile_filter-Accepts_example =
    compile_filter-Accepts (λ s. s) hosts row_holds row_fragment row_meets hybrid hybrid-IsRead
      hybrid-IsFaithful

compile_filter-last_group_example :
    (k : String) × (compile_filter
        (λ s. s)
        services
        (group all_of (cons (in_group (text "A")) (cons (in_group (text "B")) nil)))
      ≡ ok ((k, of_text "B") ∷ []))
    × (compile_filter (λ s. s) services (in_group (text "B")) ≡ ok ((k, of_text "B") ∷ []))
compile_filter-last_group_example =
    compile_filter-last_group (λ s. s) services (text "A") (text "B")

abbrev not_windows : Value
not_windows = Value.custom "KERNEL" (some (text "windows"))

critical_states :
    (find_state (lower "Critical") service_states ≡ some 2)
    × (find_state (lower "Critical") host_states ≡ none)
unfolding find_state lower service_states host_states
critical_states = (refl, refl)

both_parts :
    build_parts hosts (cons (leaf windows) (cons (leaf kernel) nil))
    ≡ ok ("(groups >= \"HG_WINDOWS\")" ∷ "(_KERNEL = \"windows\")" ∷ [])
unfolding program
both_parts = refl

abbrev log_filter : Node
log_filter = group all_of (cons (leaf windows) (cons (leaf ssh) nil))

log_split : extract_log_lookup_fields log_filter ≡ ok (some (leaf ssh), some (leaf windows))
unfolding extract_log_lookup_fields walk append wrap
log_split = refl

extract_log_lookup_fields-eval_example :
    (eval row_holds log_filter
      ≡ eval_part row_holds (some (leaf ssh)) && eval_part row_holds (some (leaf windows)))
    × IsDirect (some (leaf ssh))
    × IsLookup (some (leaf windows))
extract_log_lookup_fields-eval_example =
    extract_log_lookup_fields-eval row_holds log_filter _ _ log_split

abbrev alerts : Node
alerts = group all_of (
    cons (leaf (record { field = host; op = eq; value = of_text "web" }))
      (cons (leaf (record { field = state; op = eq; value = of_text "Down" })) nil))

-- a row that meets every leaf but those on the state
abbrev but_state : Leaf → Bool
but_state l = not (is_state l.field)

abbrev problems : Node
problems = group all_of (
    cons (leaf (record { field = hostgroup; op = neq; value = of_text "lab" }))
      (cons (leaf (record { field = state; op = eq; value = of_text "Critical" })) nil))

abbrev problem_params : Params × Params
problem_params = (
  ("groups[notin]", of_text "lab") ∷ ("state", of_int (pos 2)) ∷ [],
  ("host_groups[notin]", of_text "lab") ∷ ("state", of_int (pos 2)) ∷ [],
)

problems-compiled : compile_filter_problems problems ≡ ok problem_params
unfolding compile_filter_problems walk_problems setting_of apply_setting group_setting state_setting
    problem_state state_key find_state host_states service_states lower set_item str_value
    str_scalar String_discrete
problems-compiled = refl

compile_filter_problems-Changes_example :
    (has_or problems ≡ false) × Changes problems ([], []) problem_params
compile_filter_problems-Changes_example =
    compile_filter_problems-Changes problems problem_params problems-compiled
