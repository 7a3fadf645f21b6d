-- ===== src/Commands/Targets.antt =====
-- What `thruk_bulk_acknowledge` of src/thruk_mcp/tools/commands.py makes of the rows that it collects:
-- a target of each. The texts of `repr`, and the integer that a float is cut to, are arguments.
use thruk_mcp.Audit
use thruk_mcp.Audit.{Json, boolean, number, string, dict, Fields, get_field, str}
use thruk_mcp.Commands.Values.{read}
use thruk_mcp.Helpers.{host_labels, service_labels}
use thruk_mcp.OrderedDict
use thruk_mcp.OrderedDict.{OrderedDict}
use thruk_mcp.Prelude.{String, Option, none, some, List, [], ◌∷◌, ◌++◌, if◌then◌else◌}
use thruk_mcp.Prelude.Int.{ℤ, pos, negsuc, ℤ_discrete}
use thruk_mcp.Prelude.Text.{to_int}

pub record Target : Type 0 where
  pub host : String
  pub service : Option String
  pub state : String

module _ (repr : Json → String) (float_int : String → ℤ) where
  -- `int(v)`; none is a TypeError or a ValueError
  unfoldable pub int_of : Json → Option ℤ
  int_of (boolean b) = some (pos (if b then 1 else 0))
  int_of (number n _) = elim (to_int n) [ some i ↦ some i | none ↦ some (float_int n) ]
  int_of (string s) = to_int s
  int_of _ = none

  label_or : Option String → String → String
  label_or (some l) text = l
  label_or none text = text

  -- `STATE_STR.get(int(row.get("state", -1)), str(row.get("state", "")))`
  unfoldable pub state_text : OrderedDict ℤ String → Option Json → Option String
  unfolding int_of label_or str
  state_text labels none = some (label_or (OrderedDict.get ℤ_discrete (negsuc 0) labels) "")
  state_text labels (some v) = elim (int_of v) [
    | none ↦ none
    | some i ↦ some (label_or (OrderedDict.get ℤ_discrete i labels) (str repr v))
  ]

  unfoldable pub fields_of : Json → Fields
  fields_of (dict fs) = fs
  fields_of _ = Audit.done

  unfoldable pub host_target : Json → Option Target
  unfolding state_text read fields_of get_field
  host_target h = elim (state_text host_labels (get_field "state" (fields_of h))) [
    | none ↦ none
    | some s ↦ some (record { host = str repr (read "name" h); service = none; state = s })
  ]

  unfoldable pub service_target : Json → Option Target
  unfolding state_text read fields_of get_field
  service_target r = elim (state_text service_labels (get_field "state" (fields_of r))) [
    | none ↦ none
    | some s ↦ some (record {
      host = str repr (read "host_name" r);
      service = some (str repr (read "description" r));
      state = s;
    })
  ]

  -- a loop that makes a target of every row; none is the exception of one
  unfoldable pub targets_of : (Json → Option Target) → List Json → Option (List Target)
  targets_of f [] = some []
  targets_of f (r ∷ l) = elim (f r) [
    | none ↦ none
    | some t ↦ elim (targets_of f l) [ none ↦ none | some ts ↦ some (t ∷ ts) ]
  ]

  unfoldable pub all_targets : List Json → List Json → Option (List Target)
  unfolding targets_of host_target service_target
  all_targets hosts services = elim (targets_of host_target hosts) [
    | none ↦ none
    | some hs ↦ elim (targets_of service_target services) [
      | none ↦ none
      | some ss ↦ some (hs ++ ss)
    ]
  ]
