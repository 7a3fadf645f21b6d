-- ===== src/Server.antt =====
-- src/thruk_mcp/server.py and src/thruk_mcp/tools/base.py: the tools that a server offers, and a call.
pub mod Escape
pub mod Offered
pub mod Calls
pub mod Logged
mod Tests
use thruk_mcp.Audit.{
  Json, null, boolean, number, string, list, dict, Fields, get_field, str, Status, ok, error,
  AuditRecord, log_call,
}
use thruk_mcp.OrderedDict
use thruk_mcp.OrderedDict.{OrderedDict, set_item}
use thruk_mcp.Ordering.{member}
use thruk_mcp.Prelude.{
  String, ◌==◌, Bool, true, false, not, ◌&&◌, ◌||◌, Option, none, some, List, [], ◌∷◌, map,
  String_discrete, if◌then◌else◌,
}
use thruk_mcp.Prelude.Text.{upper, join}
use thruk_mcp.Sorting.{keep}
use thruk_mcp.Tenants.{Config}

-- How a tool function ends: a TypeError, a ThrukError or ValueError, or any other exception.
pub data ToolResult : Type 0 where
  returned : String → ToolResult
  type_error : String → ToolResult
  failed : String → ToolResult
  crashed : String → ToolResult

-- What the caller of `call_tool` gets.
pub data Reply : Type 0 where
  content : String → Reply
  unknown_tool : String → Reply
  invalid_arguments : String → String → Reply
  escaped : String → Reply

-- A tool function changes a world `W` of which the server knows nothing: Thruk's.
abbrev pub Tool : Type 0 → Type 0
Tool W = Fields → W → ToolResult × W

pub record ToolSpec (W : Type 0) : Type 0 where
  pub name : String
  pub fn : Tool W
  pub is_write : Bool

module _ {W : Type 0} where
  -- `{spec.name: spec.fn for spec in TOOL_REGISTRY}`, into a dict
  unfoldable pub dispatch_into :
      List (ToolSpec W) → OrderedDict String (Tool W) → OrderedDict String (Tool W)
  dispatch_into [] d = d
  dispatch_into (s ∷ l) d = dispatch_into l (set_item String_discrete s.name s.fn d)

  abbrev pub dispatch : List (ToolSpec W) → OrderedDict String (Tool W)
  dispatch registry = dispatch_into registry []

  -- `WRITE_TOOLS`
  abbrev pub write_tools : List (ToolSpec W) → List String
  write_tools registry = map (λ s. s.name) (keep (λ s. s.is_write) registry)

  abbrev pub is_write_tool : List (ToolSpec W) → String → Bool
  is_write_tool registry name = member String_discrete name (write_tools registry)

-- `any(...)` over the patterns
unfoldable pub matches_any : (String → String → Bool) → String → List String → Bool
matches_any fnmatch name [] = false
matches_any fnmatch name (p ∷ l) = fnmatch name p || matches_any fnmatch name l

abbrev no_patterns : List String → Bool
no_patterns [] = true
no_patterns (_ ∷ _) = false

-- `fnmatch.fnmatch` is an argument.
module _ {W : Type 0} (fnmatch : String → String → Bool) (cfg : Config) where
  -- the two tests that do not `continue`
  unfoldable pub is_offered : List (ToolSpec W) → String → Bool
  unfolding matches_any
  is_offered registry name =
      not (cfg.read_only && is_write_tool registry name)
      && (no_patterns cfg.enabled_tools || matches_any fnmatch name cfg.enabled_tools)

  -- the loop of `build_server`
  unfoldable pub enable :
      List (ToolSpec W)
      → OrderedDict String (Tool W)
      → OrderedDict String (Tool W)
      → OrderedDict String (Tool W)
  unfolding is_offered
  enable registry [] enabled = enabled
  enable registry ((name, fn) ∷ items) enabled =
      enable registry items
        (if is_offered registry name then set_item String_discrete name fn enabled else enabled)

  abbrev pub enabled_of : List (ToolSpec W) → OrderedDict String (Tool W)
  enabled_of registry = enable registry (dispatch registry) []

-- `method not in {"GET", "HEAD"}`, the other way round
abbrev pub is_read : String → Bool
is_read method = method == "GET" || method == "HEAD"

pub record Server (W : Type 0) : Type 0 where
  pub registry : List (ToolSpec W)
  pub enabled : OrderedDict String (Tool W)
  pub cfg : Config

-- `build_server`
unfoldable pub build_server :
    {W : Type 0} → (String → String → Bool) → Config → List (ToolSpec W) → Server W
unfolding enable dispatch_into
build_server fnmatch cfg registry = record {
  registry = registry;
  enabled = enabled_of fnmatch cfg registry;
  cfg = cfg;
}

-- The text of a list or a dict is an argument.
module _ (repr : Json → String) where
  unfoldable pub method_of : String → Fields → String
  unfolding str get_field
  method_of default arguments =
      upper (elim (get_field "method" arguments) [ none ↦ default | some v ↦ str repr v ])

  -- `_is_auditable_write`
  unfoldable pub is_auditable_write : {W : Type 0} → List (ToolSpec W) → String → Fields → Bool
  unfolding method_of
  is_auditable_write registry name arguments =
      is_write_tool registry name
      || (name == "thruk_query" && not (is_read (method_of "GET" arguments)))

  -- So is the masking of secrets in a text.
  module _ (scrub : String → String) {W : Type 0} where
    -- `_get_cfg(self._cfg) or self._cfg`
    abbrev pub user_of : Server W → Option Config → String
    user_of server bound = elim bound [ none ↦ server.cfg.auth_user | some cfg ↦ cfg.auth_user ]

    -- the record of a call, where one is due
    unfoldable pub audit :
        Server W → Option Config → String → Fields → Status → Option String → List AuditRecord
    unfolding is_auditable_write log_call
    audit server bound name arguments status message =
        if server.cfg.audit_log && is_auditable_write server.registry name arguments
        then log_call repr scrub name arguments (user_of server bound) status message ∷ []
        else []

    -- the ends of the `try`
    unfoldable pub conclude :
        Server W → Option Config → String → Fields → ToolResult → Reply × List AuditRecord
    unfolding audit
    conclude server bound name arguments (returned text) =
        (content text, audit server bound name arguments ok none)
    conclude server bound name arguments (type_error e) =
        (invalid_arguments name e, audit server bound name arguments error (some e))
    conclude server bound name arguments (failed e) = (
      content (scrub (join "" ("Error: " ∷ e ∷ []))),
      audit server bound name arguments error (some e),
    )
    conclude server bound name arguments (crashed e) = (escaped e, [])

    unfoldable pub run_tool :
        Server W → Option Config → String → Fields → ToolResult × W → Reply × List AuditRecord × W
    unfolding conclude
    run_tool server bound name arguments (outcome, world) =
        let c = conclude server bound name arguments outcome in (c.0, c.1, world)

    -- `call_tool`; `bound` is the config of the request, where one is bound
    unfoldable pub call_tool :
        Server W → Option Config → String → Fields → W → Reply × List AuditRecord × W
    unfolding run_tool
    call_tool server bound name arguments world =
        elim (OrderedDict.get String_discrete name server.enabled) [
          | none ↦ (unknown_tool name, [], world)
          | some fn ↦ run_tool server bound name arguments (fn arguments world)
        ]
