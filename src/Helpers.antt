-- ===== src/Helpers.antt =====
-- src/thruk_mcp/helpers.py: durations, state labels and the parameters of a list request.
use Prim.Native.String.{◌++◌ as ◌<>◌}
use thruk_mcp.OrderedDict
use thruk_mcp.OrderedDict.{OrderedDict}
use thruk_mcp.Prelude.{
  ℕ, String, ◌/◌, ◌%◌, Bool, ◌||◌, not, Option, none, some, List, [], ◌∷◌, ◌++◌, nat_eq,
  if◌then◌else◌,
}
use thruk_mcp.Prelude.Int.{ℤ, pos, ℤ_discrete, leb_ℤ, pos_part}
use thruk_mcp.Prelude.Text.{show_nat, show_int, join, is_empty}
use thruk_mcp.Tenants.{split_csv}

abbrev part : Bool → ℕ → String → List String
part shown n unit = if shown then (show_nat n <> unit) ∷ [] else []

positive : ℕ → Bool
positive n = not (nat_eq n 0)

units_text : ℕ → ℕ → ℕ → String
units_text days hours minutes = join " " (
    part (positive days) days "d"
    ++ part (positive hours) hours "h"
    ++ part (positive minutes || not (positive days || positive hours)) minutes "m")

-- `_duration_human` of an integer, by `divmod`
unfoldable pub duration_human : ℤ → String
unfolding units_text positive
duration_human seconds =
    let secs = pos_part seconds in
    units_text (secs / 86400) ((secs % 86400) / 3600) (((secs % 86400) % 3600) / 60)

abbrev pub host_labels : OrderedDict ℤ String
host_labels = (pos 0, "UP") ∷ (pos 1, "DOWN") ∷ (pos 2, "UNREACHABLE") ∷ []

abbrev pub service_labels : OrderedDict ℤ String
service_labels = (pos 0, "OK") ∷ (pos 1, "WARNING") ∷ (pos 2, "CRITICAL") ∷ (pos 3, "UNKNOWN") ∷ []

-- `_format_state_label` of a code or None
unfoldable pub format_state_label : Option ℤ → OrderedDict ℤ String → String
format_state_label none labels = "UNKNOWN(None)"
format_state_label (some s) labels = elim (OrderedDict.get ℤ_discrete s labels) [
  | some label ↦ label
  | none ↦ "UNKNOWN(" <> show_int s <> ")"
]

abbrev non_empty : List String → Option (List String)
non_empty [] = none
non_empty (s ∷ l) = some (s ∷ l)

-- `_backends`
unfoldable pub backends_of : Option String → Option (List String)
unfolding split_csv
backends_of none = none
backends_of (some s) = non_empty (split_csv s)

-- The dict of `_list_params`, by its keys.
pub record ListParams : Type 0 where
  pub limit : ℤ
  pub offset : Option ℤ
  pub sort : Option String
  pub columns : Option String

abbrev text_or_none : Option String → Option String
text_or_none none = none
text_or_none (some s) = if is_empty s then none else some s

-- `max(1, min(limit, max_limit))`
unfoldable pub clamp : ℤ → ℤ → ℤ
clamp limit max_limit =
    let m = if leb_ℤ limit max_limit then limit else max_limit in
    if leb_ℤ m (pos 1) then pos 1 else m

unfoldable pub list_params : ℤ → ℤ → Option String → Option String → Option String → ℤ → ListParams
unfolding clamp
list_params limit offset sort columns default_columns max_limit = record {
  limit = clamp limit max_limit;
  offset = if leb_ℤ offset (pos 0) then none else some offset;
  sort = text_or_none sort;
  columns = text_or_none (elim columns [ none ↦ default_columns | some c ↦ some c ]);
}
