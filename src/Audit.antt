-- ===== src/Audit.antt =====
-- src/thruk_mcp/audit.py: the record that a write call leaves in the audit log.
pub mod Redacted
mod Tests
use Prim.Native.String.{◌++◌ as ◌<>◌}
use thruk_mcp.Ordering.{member}
use thruk_mcp.Prelude.{
  String, ◌==◌, Bool, true, false, not, Option, none, some, List, [], ◌∷◌, String_discrete,
  if◌then◌else◌,
}
use thruk_mcp.Prelude.Text.{is_empty}

-- The arguments of a call, as `json.loads` gives them. A number stands by its text and by whether it
-- is zero; the keys of a dict are in its order.
mutual
  pub data Json : Type 0 where
    null : Json
    boolean : Bool → Json
    number : String → Bool → Json
    string : String → Json
    list : Items → Json
    dict : Fields → Json

  pub data Items : Type 0 where
    nil : Items
    cons : Json → Items → Items

  pub data Fields : Type 0 where
    done : Fields
    field : String → Json → Fields → Fields

-- `d.get(key)`
unfoldable pub get_field : String → Fields → Option Json
get_field key done = none
get_field key (field k v fs) = let rest = get_field key fs in if k == key then some v else rest

-- `_REDACT`
abbrev pub secret_keys : List String
secret_keys = "api_key" ∷ "password" ∷ "token" ∷ []

unfoldable pub is_secret : String → Bool
unfolding member
is_secret key = member String_discrete key secret_keys

-- `_redact`
unfoldable mutual
  unfolding is_secret

  pub redact : Json → Json
  redact (dict fs) = dict (redact_fields fs)
  redact (list l) = list (redact_items l)
  redact (string s) = string s
  redact (number n z) = number n z
  redact (boolean b) = boolean b
  redact null = null

  pub redact_items : Items → Items
  redact_items nil = nil
  redact_items (cons v l) = cons (redact v) (redact_items l)

  pub redact_fields : Fields → Fields
  redact_fields done = done
  redact_fields (field k v fs) =
      let inner = redact v in
      let rest = redact_fields fs in field k (if is_secret k then string "***" else inner) rest

abbrev pub non_empty_items : Items → Bool
non_empty_items nil = false
non_empty_items (cons _ _) = true

abbrev pub non_empty_fields : Fields → Bool
non_empty_fields done = false
non_empty_fields (field _ _ _) = true

-- `bool(v)`
unfoldable pub truth : Json → Bool
truth null = false
truth (boolean b) = b
truth (number _ is_zero) = not is_zero
truth (string s) = not (is_empty s)
truth (list l) = non_empty_items l
truth (dict fs) = non_empty_fields fs

-- `args.get(key)`, and None where it counts as false
unfoldable pub given : String → Fields → Option Json
unfolding get_field truth
given key args = elim (get_field key args) [
  | none ↦ none
  | some v ↦ if truth v then some v else none
]

pub data Status : Type 0 where
  ok error : Status

pub record AuditRecord : Type 0 where
  pub tool : String
  pub user : String
  pub args : Json
  pub target : Option Json
  pub status : Status
  pub error : Option String

-- The text of a list or a dict is an argument.
module _ (repr : Json → String) where
  -- `str(v)`
  unfoldable pub str : Json → String
  str null = "None"
  str (boolean true) = "True"
  str (boolean false) = "False"
  str (number n _) = n
  str (string s) = s
  str (list l) = repr (list l)
  str (dict fs) = repr (dict fs)

  target_of : Option Json → Option Json → Option Json → Option Json → Option Json
  target_of (some host) (some service) _ _ = some (string (str host <> "/" <> str service))
  target_of (some host) none _ _ = some host
  target_of none _ (some hg) _ = some (string ("hostgroup:" <> str hg))
  target_of none _ none (some sg) = some (string ("servicegroup:" <> str sg))
  target_of none _ none none = none

  -- `_target`
  unfoldable pub target : Fields → Option Json
  unfolding target_of given
  target args =
      target_of (given "host" args) (given "service" args) (given "hostgroup" args)
        (given "servicegroup" args)

  -- `log_call`, without the time; `scrub` masks the secrets of a text
  unfoldable pub log_call :
      (String → String) → String → Fields → String → Status → Option String → AuditRecord
  unfolding redact target
  log_call scrub tool_name arguments user status message = record {
    tool = tool_name;
    user = user;
    args = redact (dict arguments);
    target = target arguments;
    status = status;
    error = elim message [ none ↦ none | some e ↦ if is_empty e then none else some (scrub e) ];
  }
