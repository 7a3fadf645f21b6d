-- ===== src/Server/Tests.antt =====
-- Witnesses and tests of the dispatch: a server with the tool for any request and one that writes.
use mathlib.Core.List.{lookup}
use thruk_mcp.Audit.{Json, AuditRecord, null, string, Fields, done, field, get_field, truth, str}
use thruk_mcp.Helpers.{backends_of}
use thruk_mcp.OrderedDict
use thruk_mcp.OrderedDict.{set_item}
use thruk_mcp.Ordering.{member}
use thruk_mcp.Prelude.{
  ℕ, ◌+◌, String, ◌≡◌, refl, Bool, true, false, none, some, List, [], ◌∷◌, All, String_discrete,
  ◌⊎◌, inl, inr, if◌then◌else◌,
}
use thruk_mcp.Prelude.Text.{upper, begins_with, contains}
use thruk_mcp.Server.Calls.{IsHarmless, call_tool-Preserves}
use thruk_mcp.Server.Escape.Guards.{IsGuarded, plan_of-IsGuarded}
use thruk_mcp.Server.Escape.{
  RestRequest, Response, payload, Arguments, Refusal, send, plan_of, path_plan, query, query_path,
  refuse_method, validate_rest_path, has_prefix, names_custom_variables, request_of,
  chosen_backends, bind, only_known, thruk_query,
}
use thruk_mcp.Server.Logged.{
  IsLogged, call_tool-logs, query_names, thruk_query-logs, thruk_query-Preserves,
}
use thruk_mcp.Server.{
  returned, Reply, escaped, ToolSpec, dispatch_into, is_offered, is_read, enable, matches_any,
  Server, build_server, is_auditable_write, call_tool, method_of,
}
use thruk_mcp.Sorting.{keep}
use thruk_mcp.Tenants.{Config}

abbrev config : Bool → Config
config read_only = record {
  base_url = "https://thruk";
  api_key = "k";
  auth_user = "ops";
  verify_ssl = true;
  timeout = 30;
  default_backends = [];
  read_only = read_only;
  enabled_tools = [];
  audit_log = true;
  max_concurrent = 10;
  max_connections = 10;
  max_keepalive_connections = 5;
}

abbrev no_text : Json → String
no_text v = ""

abbrev same_text : String → String
same_text s = s

abbrev never : String → String → Bool
never name pattern = false

-- a Thruk that counts what is written
abbrev answer_to : RestRequest → ℕ → Response × ℕ
answer_to r n = (payload null, (if is_read r.method then n else n + 1))

abbrev show_refusal : Refusal → String
show_refusal r = "refused"

abbrev show_payload : Bool → Json → String
show_payload warned j = "done"

abbrev registry : Bool → List (ToolSpec ℕ)
registry read_only =
    record {
      name = "thruk_query";
      fn = thruk_query no_text answer_to show_refusal show_payload read_only;
      is_write = false;
    }
    ∷ record { name = "thruk_recheck_host"; fn = λ args n. (returned "ok", n + 1); is_write = true }
    ∷ []

abbrev post : Fields
post = field "path" (string "/downtimes") (field "method" (string "post") done)

quiet : (r : RestRequest) (n : ℕ) → is_read r.method ≡ true → (answer_to r n).1 ≡ n
quiet r n h = rw (h) refl

registry-IsHarmless : All IsHarmless (registry true)
registry-IsHarmless =
    (inr (thruk_query-Preserves no_text answer_to show_refusal show_payload quiet), (inl refl, tt))

call_tool-Preserves_example :
    (call_tool no_text same_text
      (build_server never (config true) (registry true))
      none
      "thruk_query"
      post
      3).2
    ≡ 3
call_tool-Preserves_example =
    call_tool-Preserves no_text same_text never (config true) (registry true) none "thruk_query"
      post 3 refl registry-IsHarmless

abbrev server : Server ℕ
server = build_server never (config false) (registry false)

abbrev arguments : Arguments
arguments = record {
  path = string "/downtimes";
  method = string "post";
  params = null;
  body = null;
  backends = null;
}

abbrev sent : RestRequest
sent = record { method = "POST"; path = "/downtimes"; params = null; body = null; backends = none }

planned : plan_of no_text query false arguments ≡ send sent false
unfolding plan_of path_plan query_path refuse_method validate_rest_path has_prefix
    names_custom_variables request_of chosen_backends member String_discrete upper begins_with
    contains truth backends_of
planned = refl

bound : bind query_names "GET" post ≡ some arguments
unfolding bind only_known get_field member String_discrete
bound = refl

plan_of-IsGuarded_example : IsGuarded false arguments sent
plan_of-IsGuarded_example = plan_of-IsGuarded no_text query false arguments sent false planned

there :
    OrderedDict.get String_discrete "thruk_query" server.enabled
    ≡ some (thruk_query no_text answer_to show_refusal show_payload false)
unfolding build_server enable dispatch_into is_offered matches_any set_item lookup member keep
    String_discrete
there = refl

auditable : is_auditable_write no_text (registry false) "thruk_query" post ≡ true
unfolding is_auditable_write method_of get_field str upper member keep String_discrete
auditable = refl

abbrev called : Reply × List AuditRecord × ℕ
called = call_tool no_text same_text server none "thruk_query" post 3

call_tool-logs_example :
    ((e : String) × (called.0 ≡ escaped e) × (called.1 ≡ []))
    ⊎ IsLogged "thruk_query" "ops" post called.1
unfolding build_server
call_tool-logs_example =
    call_tool-logs no_text same_text server none "thruk_query" post 3
      (thruk_query no_text answer_to show_refusal show_payload false) refl there auditable

thruk_query-logs_example :
    ((e : String) × (called.0 ≡ escaped e) × (called.1 ≡ []))
    ⊎ IsLogged "thruk_query" "ops" post called.1
unfolding build_server
thruk_query-logs_example =
    thruk_query-logs no_text answer_to show_refusal show_payload same_text server none post 3 false
      arguments sent false refl there bound planned refl
