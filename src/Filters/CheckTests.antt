-- ===== src/Filters/CheckTests.antt =====
-- The validation at a filter of the caller, and the theorem at one that it accepts.
use thruk_mcp.Audit.{Json, number, string, list, dict, Items, Fields, done, field, get_field, str}
use thruk_mcp.Audit
use thruk_mcp.Filters.Leaves.{Field, state, hostgroup, custom_var, hosts}
use thruk_mcp.Filters.Read.{tree_of}
use thruk_mcp.Filters.Trees.{validate_filter-IsTyped}
use thruk_mcp.Filters.Typed.{IsTyped, all_fit}
use thruk_mcp.Filters.Validate.{
  accepted, refused, group_op, bad_list, require, field_name, field_named, op_named, key_of_leaf,
  known_field, known_op, is_group_op, is_scalar, all_scalars, not_null, check_list, check_op,
  check_var, check_custom, check_field, check_pattern, validate_leaf, check_operator, conditions_of,
  check_each, validate_group, validate_typed, validate_dict, validate_filter,
}
use thruk_mcp.Filters.{Node, compile_filter}
use thruk_mcp.Prelude.{String, ◌≡◌, refl, Bool, true, List, [], ◌∷◌}

abbrev any_pattern : String → Bool
any_pattern s = true

abbrev same : String → String
same s = s

abbrev plain : Json → String
plain v = "?"

abbrev allowed : List Field
allowed = state ∷ hostgroup ∷ custom_var ∷ []

abbrev leaf_with : String → String → Json → Fields
leaf_with f o v =
    field "type" (string "leaf")
      (field "field" (string f) (field "op" (string o) (field "value" v done)))

abbrev group_with : String → Items → Fields
group_with o l =
    field "type" (string "group") (field "operator" (string o) (field "conditions" (list l) done))

abbrev in_group : Fields
in_group = leaf_with "hostgroup" "eq" (string "web")

abbrev down : Fields
down = leaf_with "state" "in" (list (Audit.cons (number "1" Bool.false) Audit.nil))

abbrev windows : Fields
windows = leaf_with "custom_var" "eq" (dict (field "var" (string "OS") done))

abbrev all_three : Json
all_three = dict (
    group_with "and"
      (Audit.cons (dict in_group) (Audit.cons (dict down) (Audit.cons (dict windows) Audit.nil))))

program : Unit {0}
unfolding validate_filter validate_dict validate_typed validate_group validate_leaf get_field
    key_of_leaf check_operator conditions_of check_each known_field field_named field_name known_op
    op_named is_group_op require not_null check_op check_list all_scalars is_scalar check_pattern
    check_field check_custom check_var
program = tt

is_accepted : validate_filter any_pattern allowed all_three ≡ accepted tt
unfolding program
is_accepted = refl

-- a pattern on a group, an empty list and a fifth group in a group are refused
are_refused :
    (validate_filter any_pattern allowed (dict (leaf_with "hostgroup" "regex" (string "w")))
      ≡ refused group_op)
    × (validate_filter any_pattern allowed (dict (leaf_with "state" "in" (list Audit.nil)))
        ≡ refused bad_list)
unfolding program
are_refused = (refl, refl)

validate_filter-IsTyped_example :
    (n : Node) × (tree_of plain allowed all_three ≡ accepted n)
    × (all_fit any_pattern n ≡ true)
    × IsTyped (compile_filter same hosts n)
validate_filter-IsTyped_example =
    validate_filter-IsTyped any_pattern plain allowed same hosts all_three is_accepted
