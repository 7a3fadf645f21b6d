-- ===== src/Tenants.antt =====
-- src/thruk_mcp/config.py and src/thruk_mcp/multitenant.py: the config of one request, from the
-- server's own and the request's headers.
pub mod Clients
pub mod Valid
pub mod Middleware
mod Tests
use thruk_mcp.OrderedDict
use thruk_mcp.OrderedDict.{OrderedDict, set_item}
use thruk_mcp.Prelude.{
  ℕ, String, Bool, true, false, Option, none, some, List, [], ◌∷◌, nat_eq, if◌then◌else◌,
  String_discrete,
}
use thruk_mcp.Prelude.Text.{strip, rstrip, split, join, lower, is_empty}

-- The fields of a config. The timeout is only passed on, and stands in milliseconds.
pub record Config : Type 0 where
  pub base_url : String
  pub api_key : String
  pub auth_user : String
  pub verify_ssl : Bool
  pub timeout : ℕ
  pub default_backends : List String
  pub read_only : Bool
  pub enabled_tools : List String
  pub audit_log : Bool
  pub max_concurrent : ℕ
  pub max_connections : ℕ
  pub max_keepalive_connections : ℕ

unfoldable pub stripped : List String → List String
stripped [] = []
stripped (p ∷ l) = let rest = stripped l in if is_empty (strip p) then rest else strip p ∷ rest

-- `_split_csv`; 44 is the comma
unfoldable pub split_csv : String → List String
unfolding stripped
split_csv raw = stripped (split 44 raw)

-- `(headers.get(name) or "").strip()`
unfoldable pub header : String → OrderedDict String String → String
header name headers =
    strip (elim (OrderedDict.get String_discrete name headers) [ none ↦ "" | some v ↦ v ])

-- what a header that is not blank overrides
abbrev override {ℓ} : {A : Type ℓ} → String → (String → A) → A → A
override value f old = if is_empty value then old else f value

-- the config with the overrides of the headers
unfoldable pub derived : Config → OrderedDict String String → Config
unfolding split_csv header
derived base headers = record base {
  api_key = header "x-thruk-auth-key" headers;
  base_url = override (header "x-thruk-base-url" headers) (rstrip (λ c. nat_eq c 47)) base.base_url;
  auth_user = override (header "x-thruk-auth-user" headers) (λ s. s) base.auth_user;
  default_backends = override (header "x-thruk-backends" headers) split_csv base.default_backends;
}

-- `from_headers`; none is its ValueError
unfoldable pub from_headers : Config → OrderedDict String String → Option Config
unfolding header derived
from_headers base headers =
    if is_empty (header "x-thruk-auth-key" headers) then none else some (derived base headers)

-- `_lower_headers`: the values of one name, in any case, joined in the order they come in
unfoldable pub lower_headers :
    List (String × String) → OrderedDict String String → OrderedDict String String
lower_headers [] out = out
lower_headers ((raw_name, value) ∷ raw) out =
    let name = lower raw_name in
    lower_headers raw (
      set_item String_discrete name
        (elim (OrderedDict.get String_discrete name out) [
          | none ↦ value
          | some old ↦ join ", " (old ∷ value ∷ [])
        ])
        out)
