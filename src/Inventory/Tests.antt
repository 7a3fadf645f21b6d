-- ===== src/Inventory/Tests.antt =====
-- Witnesses of the inventory tools: two groups, and rows of which one is not in the first.
use mathlib.Core.Option
use thruk_mcp.Filters.Leaves.{Field, hostgroup, servicegroup, eq, Leaf}
use thruk_mcp.Filters.Meaning.{eval}
use thruk_mcp.Filters.Validate.{field_name}
use thruk_mcp.Filters.Values.{of_text, str_value}
use thruk_mcp.Filters.{any_of, Node, leaf, group, nil, cons}
use thruk_mcp.Inventory.Stripped.{skip, strip_filter_field-skip}
use thruk_mcp.Inventory.{
  Constraint, strip_filter_field, ensure_columns, leak_of, meets, row_matches, recheck_rows,
}
use thruk_mcp.Ordering.{member}
use thruk_mcp.Prelude.{String, ◌≡◌, refl, Bool, true, false, some, List, [], ◌∷◌, String_discrete}
use thruk_mcp.Prelude.Text.{split, strip, join, lstrip, rstrip, is_space}
use thruk_mcp.Sorting.{keep}

abbrev on : Field → String → Node
on f s = leaf (record { field = f; op = eq; value = of_text s })

abbrev either : Node
either = group any_of (cons (on hostgroup "web") (cons (on servicegroup "db") nil))

abbrev always : Leaf → Bool
always l = true

-- one child is left, without its group
collapsed : strip_filter_field servicegroup either ≡ some (on hostgroup "web")
unfolding strip_filter_field field_name
collapsed = refl

strip_filter_field-skip_example :
    Option.map (eval always) (strip_filter_field servicegroup either)
    ≡ skip always servicegroup either
strip_filter_field-skip_example = strip_filter_field-skip always servicegroup either

abbrev rows : List (List String)
rows = ("web" ∷ []) ∷ ("db" ∷ []) ∷ []

abbrev itself : List String → List String
itself g = g

abbrev never : String → String → Bool
never pattern s = false

abbrev in_web : List Constraint
in_web = (eq, of_text "web") ∷ []

one_leak : (recheck_rows never itself itself in_web rows []).leak ≡ some (1, 0)
unfolding recheck_rows row_matches meets member str_value String_discrete keep leak_of
one_leak = refl

required : ensure_columns (some "name, state") "groups" ≡ some "name,state,groups"
unfolding ensure_columns split strip lstrip rstrip is_space join keep member String_discrete
required = refl
