-- ===== src/Commands/Values.antt =====
-- The values that the tools of src/thruk_mcp/tools/commands.py put in a payload and read from a row.
use thruk_mcp.Audit.{
  Json, null, string, list, dict, Items, nil, cons, Fields, field, get_field, truth, str,
}
use thruk_mcp.Audit
use thruk_mcp.Commands.Calls.{Dict}
use thruk_mcp.Prelude.{
  String, ◌==◌, Bool, true, false, Option, none, some, List, [], ◌∷◌, if◌then◌else◌,
}
use thruk_mcp.Prelude.Text.{is_empty}

-- `"1" if b else "0"`
unfoldable pub flag : Bool → Json
flag b = string (if b then "1" else "0")

unfoldable pub elements : Items → List Json
elements nil = []
elements (cons v l) = v ∷ elements l

unfoldable pub items_of : List Json → Items
items_of [] = nil
items_of (v ∷ l) = cons v (items_of l)

-- `raw if isinstance(raw, list) else ([raw] if raw else [])`
unfoldable pub rows_from : Json → List Json
unfolding elements truth
rows_from (list l) = elements l
rows_from v = if truth v then v ∷ [] else []

-- `d.get(key)` of a row; the rows are dicts
unfoldable pub read : String → Json → Json
unfolding get_field
read key (dict fs) = elim (get_field key fs) [ none ↦ null | some v ↦ v ]
read key _ = null

-- `bool(text)` of an argument that may be None
unfoldable pub is_given : Option String → Bool
is_given none = false
is_given (some s) = if is_empty s then false else true

-- an entry of a dict that is there where its argument is given
unfoldable pub entry_if : Option String → String → Dict
unfolding is_given
entry_if none key = []
entry_if (some s) key = if is_empty s then [] else (key, string s) ∷ []

-- `_tool_response`, without the writing of JSON
unfoldable pub put_field : String → Json → Fields → Fields
put_field key v Audit.done = field key v Audit.done
put_field key v (field k w fs) =
    let rest = put_field key v fs in if k == key then field k v fs else field k w rest

unfoldable pub tool_response : Json → List Json → Json
unfolding put_field items_of
tool_response v [] = v
tool_response (dict fs) (w ∷ l) = dict (put_field "_warnings" (list (items_of (w ∷ l))) fs)
tool_response v (w ∷ l) =
    dict (field "data" v (field "_warnings" (list (items_of (w ∷ l))) Audit.done))
