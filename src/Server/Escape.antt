-- ===== src/Server/Escape.antt =====
-- src/thruk_mcp/tools/escape.py: the tools that send a request as the caller writes it.
pub mod Guards
use thruk_mcp.Audit.{
  Json, null, boolean, number, string, list, dict, Fields, done, field, get_field, truth, str,
}
use thruk_mcp.Helpers.{backends_of}
use thruk_mcp.Ordering.{member}
use thruk_mcp.Prelude.{
  String, ◌==◌, Bool, true, false, not, ◌&&◌, ◌||◌, Option, none, some, List, [], ◌∷◌,
  String_discrete, if◌then◌else◌,
}
use thruk_mcp.Prelude.Text.{upper, begins_with, contains}
use thruk_mcp.Server.{ToolResult, returned, type_error, failed, crashed, Tool, is_read}

-- `_ALLOWED_METHODS`
abbrev pub allowed_methods : List String
allowed_methods = "GET" ∷ "HEAD" ∷ "POST" ∷ "PUT" ∷ "PATCH" ∷ "DELETE" ∷ []

-- `_REST_PATH_PREFIXES`
abbrev pub path_prefixes : List String
path_prefixes =
    "/hosts" ∷ "/services" ∷ "/hostgroups" ∷ "/servicegroups" ∷ "/contacts" ∷ "/contactgroups"
    ∷ "/timeperiods" ∷ "/commands" ∷ "/downtimes" ∷ "/comments" ∷ "/logs" ∷ "/sites"
    ∷ "/processinfo" ∷ "/system" ∷ "/thruk" ∷ []

-- The errors that are answered without a request, with what their texts are made of.
pub data Refusal : Type 0 where
  bad_method : String → Refusal
  read_only : String → Refusal
  not_rooted : String → Refusal
  dotted : String → Refusal
  unknown_prefix : String → Refusal

unfoldable pub has_prefix : String → List String → Bool
has_prefix path [] = false
has_prefix path (p ∷ l) = begins_with p path || has_prefix path l

-- `_validate_rest_path`
unfoldable pub validate_rest_path : String → Option Refusal
unfolding has_prefix
validate_rest_path path =
    if not (begins_with "/" path)
    then some (not_rooted path)
    else if contains ".." path
    then some (dotted path)
    else if not (has_prefix path path_prefixes)
    then some (unknown_prefix path)
    else none

-- the checks of the method in front of either tool's request
unfoldable pub refuse_method : Bool → String → Option Refusal
unfolding member
refuse_method is_read_only method =
    let method_upper = upper method in
    if not (member String_discrete method_upper allowed_methods)
    then some (bad_method method)
    else if is_read_only && not (is_read method_upper)
    then some (read_only method_upper)
    else none

pub record RestRequest : Type 0 where
  pub method : String
  pub path : String
  pub params : Json
  pub body : Json
  pub backends : Option (List String)

-- What a tool does with its arguments: an exception of Python, an answer, or a request. Of a request,
-- the flag says whether the answer gets the warning about custom variables.
pub data Plan : Type 0 where
  crash : String → Plan
  refuse : Refusal → Plan
  send : RestRequest → Bool → Plan

-- The two tools of the file.
pub data EscapeTool : Type 0 where
  query background : EscapeTool

-- the arguments of one call, with the defaults for those that are not given
pub record Arguments : Type 0 where
  pub path : Json
  pub method : Json
  pub params : Json
  pub body : Json
  pub backends : Json

abbrev pub or_default : Json → Option Json → Json
or_default d none = d
or_default d (some v) = v

-- the names that are given are all parameters
unfoldable pub only_known : List String → Fields → Bool
only_known names done = true
only_known names (field k v fs) = member String_discrete k names && only_known names fs

-- `fn(**arguments)`; none is the TypeError for a name too many, or for no path
unfoldable pub bind : List String → String → Fields → Option Arguments
unfolding get_field only_known
bind names default_method args =
    if only_known names args
    then elim (get_field "path" args) [
      | none ↦ none
      | some path ↦ some (record {
        path = path;
        method = or_default (string default_method) (get_field "method" args);
        params = or_default null (get_field "params" args);
        body = or_default null (get_field "data" args);
        backends = or_default null (get_field "backends" args);
      })
    ]
    else none

-- `_backends(backends)`; `split` of anything but a text is an AttributeError
unfoldable pub chosen_backends : Json → Option (Option (List String))
unfolding backends_of
chosen_backends null = some none
chosen_backends (string s) = some (backends_of (some s))
chosen_backends _ = none

-- the end of either tool, when no check refuses the call
unfoldable pub request_of : Arguments → String → String → Bool → Plan
unfolding chosen_backends
request_of a method path warned = elim (chosen_backends a.backends) [
  | none ↦ crash "AttributeError"
  | some backends ↦
      send
        (record {
          method = upper method;
          path = path;
          params = a.params;
          body = a.body;
          backends = backends;
        })
        warned
]

-- the body of `thruk_run_background_query` behind the check of the method
unfoldable pub background_path : String → Arguments → Plan
unfolding validate_rest_path request_of
background_path method a = elim a.path [
  | string path ↦ elim (validate_rest_path path) [
    | some r ↦ refuse r
    | none ↦ request_of a method path false
  ]
  | _ ↦ crash "AttributeError"
]

-- The text of a list or a dict is an argument.
module _ (repr : Json → String) where
  -- `"custom_variables" in str((params or {}).get("q", ""))`; none is an AttributeError
  unfoldable pub names_custom_variables : Json → Option Bool
  unfolding truth get_field str contains
  names_custom_variables (dict fs) =
      some (elim (get_field "q" fs) [
        | none ↦ false
        | some v ↦ contains "custom_variables" (str repr v)
      ])
  names_custom_variables v = if truth v then none else some false

  -- the body of `thruk_query` behind the check of the method
  unfoldable pub query_path : String → Arguments → Plan
  unfolding validate_rest_path names_custom_variables request_of
  query_path method a = elim a.path [
    | string path ↦ elim (validate_rest_path path) [
      | some r ↦ refuse r
      | none ↦ elim (names_custom_variables a.params) [
        | none ↦ crash "AttributeError"
        | some warned ↦ request_of a method path warned
      ]
    ]
    | _ ↦ crash "AttributeError"
  ]

  unfoldable pub path_plan : EscapeTool → String → Arguments → Plan
  unfolding query_path background_path
  path_plan query method a = query_path method a
  path_plan background method a = background_path method a

  -- the body of either tool up to the request
  unfoldable pub plan_of : EscapeTool → Bool → Arguments → Plan
  unfolding refuse_method path_plan
  plan_of tool is_read_only a = elim a.method [
    | string method ↦ elim (refuse_method is_read_only method) [
      | some r ↦ refuse r
      | none ↦ path_plan tool method a
    ]
    | _ ↦ crash "AttributeError"
  ]

-- What the client's `request` ends with: a payload, a ThrukError, or another exception.
pub data Response : Type 0 where
  payload : Json → Response
  thruk_error : String → Response
  broken : String → Response

-- The client, and the text of an answer, are arguments.
module _ {W : Type 0} (repr : Json → String) (request : RestRequest → W → Response × W) where
  module _ (show_refusal : Refusal → String) (tool_response : Bool → Json → String) where
    answer : Bool → Response → ToolResult
    answer warned (payload j) = returned (tool_response warned j)
    answer warned (thruk_error e) = failed e
    answer warned (broken e) = crashed e

    answered : Bool → Response × W → ToolResult × W
    answered warned (r, world) = (answer warned r, world)

    unfoldable pub carry_out : Plan → W → ToolResult × W
    unfolding answered answer
    carry_out (crash e) world = (crashed e, world)
    carry_out (refuse r) world = (returned (show_refusal r), world)
    carry_out (send r warned) world = answered warned (request r world)

    -- `thruk_query`, as the dispatch calls it
    unfoldable pub thruk_query : Bool → Tool W
    unfolding bind plan_of carry_out
    thruk_query is_read_only args world =
        elim (bind ("path" ∷ "method" ∷ "params" ∷ "data" ∷ "backends" ∷ []) "GET" args) [
          | none ↦ (type_error "thruk_query", world)
          | some a ↦ carry_out (plan_of repr query is_read_only a) world
        ]

    -- `thruk_run_background_query`, where `request` is the client's `run_background` with the time-out
    unfoldable pub thruk_run_background_query : Bool → Tool W
    unfolding bind plan_of carry_out
    thruk_run_background_query is_read_only args world =
        elim (bind ("path" ∷ "method" ∷ "params" ∷ "data" ∷ "backends" ∷ "poll_timeout" ∷ []) "POST"
          args) [
            | none ↦ (type_error "thruk_run_background_query", world)
            | some a ↦ carry_out (plan_of repr background is_read_only a) world
          ]
