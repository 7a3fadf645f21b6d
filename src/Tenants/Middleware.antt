-- ===== src/Tenants/Middleware.antt =====
-- `HeaderAuthMiddleware` of src/thruk_mcp/multitenant.py, and what it and `from_headers` of
-- src/thruk_mcp/config.py promise.
use thruk_mcp.OrderedDict.{OrderedDict, Result, ok, ◌>>=◌}
use thruk_mcp.Prelude.{
  ℕ, String, ◌==◌, ◌≡◌, ◌≢◌, eq_iff, refl, true, false, none, some, List, [], ◌∷◌, arith,
  if◌then◌else◌, ◌⊎◌, inl, inr, Bool-cases,
}
use thruk_mcp.Prelude.Text.{is_empty}
use thruk_mcp.Tenants.Clients.{ClientKey, ThrukClient, ClientCache, init, get, IsValid}
use thruk_mcp.Tenants.Valid.{Serves, get-Serves, init-IsValid}
use thruk_mcp.Tenants.{Config, header, derived, from_headers, lower_headers}

-- The fields that no header changes.
pub record Inherits (base cfg : Config) : Type 0 where
  pub verify_ssl : cfg.verify_ssl ≡ base.verify_ssl
  pub timeout : cfg.timeout ≡ base.timeout
  pub read_only : cfg.read_only ≡ base.read_only
  pub enabled_tools : cfg.enabled_tools ≡ base.enabled_tools
  pub audit_log : cfg.audit_log ≡ base.audit_log
  pub max_concurrent : cfg.max_concurrent ≡ base.max_concurrent
  pub max_connections : cfg.max_connections ≡ base.max_connections
  pub max_keepalive_connections : cfg.max_keepalive_connections ≡ base.max_keepalive_connections

-- A request's own key: the config has it, and it is not blank.
pub record IsOwn (base : Config) (headers : OrderedDict String String) (cfg : Config) : Type 0 where
  pub inherits : Inherits base cfg
  pub own_key : cfg.api_key ≡ header "x-thruk-auth-key" headers
  pub has_key : is_empty cfg.api_key ≡ false

-- Headers give a config just when the key among them is not blank; that config has this key, and
-- takes every security setting from the server's.
pub from_headers-IsOwn :
    (base : Config) (headers : OrderedDict String String)
    → ((from_headers base headers ≡ none) × (is_empty (header "x-thruk-auth-key" headers) ≡ true))
      ⊎ ((cfg : Config) × (from_headers base headers ≡ some cfg) × IsOwn base headers cfg)
unfolding from_headers derived
from_headers-IsOwn base headers = elim (Bool-cases (is_empty (header "x-thruk-auth-key" headers))) [
  | inl blank ↦ inl (rw blank refl, blank)
  | inr given ↦ inr (
    derived base headers,
    rw given refl,
    record {
      inherits = record {
        verify_ssl = refl;
        timeout = refl;
        read_only = refl;
        enabled_tools = refl;
        audit_log = refl;
        max_concurrent = refl;
        max_connections = refl;
        max_keepalive_connections = refl;
      };
      own_key = refl;
      has_key = given;
    },
  )
]

-- What the middleware does with a call: hands on one that is not of HTTP, answers 401, or binds a
-- config and a client to the request.
pub data Handled : Type 0 where
  passed : Handled
  unauthorized : Handled
  bound : Config → ThrukClient → Handled

module _ (dec : Discrete ClientKey) (base : Config) where
  -- `__call__`, of a scope's type and its raw headers
  unfoldable pub handle :
      String → List (String × String) → ClientCache → Result (ClientCache × Handled)
  handle type raw p =
      if type == "http"
      then elim (from_headers base (lower_headers raw [])) [
        | none ↦ ok (p, unauthorized)
        | some cfg ↦ (do (p', client) ← get dec cfg p; ok (p', bound cfg client))
      ]
      else ok (p, passed)

  -- What holds of the result of a call: only one that is not of HTTP is passed on as it is; a bound
  -- request is of HTTP and has the config of its own headers and a client for it; a call that binds
  -- nothing leaves the cache as it was.
  abbrev pub IsSafe : String → List (String × String) → ClientCache → ClientCache → Handled → Type 0
  IsSafe type raw p p' passed = (p' ≡ p) × (type ≢ "http")
  IsSafe type raw p p' unauthorized =
      (p' ≡ p)
      × (type ≡ "http")
      × (is_empty (header "x-thruk-auth-key" (lower_headers raw [])) ≡ true)
  IsSafe type raw p p' (bound cfg client) =
      (type ≡ "http") × IsOwn base (lower_headers raw []) cfg × Serves dec cfg p' client

  is_http : (type : String) → (type == "http") ≡ true → type ≡ "http"
  is_http type h = ground (arith, h, eq_iff type "http")

  is_other : (type : String) → (type == "http") ≡ false → type ≢ "http"
  is_other type h e = ground (arith, h, e, eq_iff type "http")

  -- Whatever the type and the headers of a call, with a valid cache the middleware does not fail and
  -- leaves a valid cache. It passes a call on as it is only when that is not of HTTP. A request that it
  -- binds has a config with the key of its own headers and the server's security settings, and a client
  -- made for the same client key that is not closed; one it rejects has a blank key or none, and
  -- changes nothing.
  pub handle-IsSafe :
      (type : String) (raw : List (String × String)) (p : ClientCache)
      → IsValid dec p
      → (p' : ClientCache) × (reply : Handled) × (handle type raw p ≡ ok (p', reply))
        × IsValid dec p'
        × IsSafe type raw p p' reply
  unfolding handle
  handle-IsSafe type raw p v = elim (Bool-cases (type == "http")) [
    | inr other ↦ (p, passed, rw other refl, v, (refl, is_other type other))
    | inl http ↦ elim (from_headers-IsOwn base (lower_headers raw [])) [
      | inl (rejected, blank) ↦
          (p, unauthorized, rw (http, rejected) refl, v, (refl, is_http type http, blank))
      | inr (cfg, accepted, own) ↦
          let (p', client, served, serves) = get-Serves dec cfg p v in
          (
            p',
            bound cfg client,
            ground (arith, http, accepted, served),
            serves.valid,
            (is_http type http, own, serves),
          )
    ]
  ]

  -- the calls of a server, one after the other; what each gives is left out
  unfoldable pub handle_all :
      List (String × List (String × String)) → ClientCache → Result ClientCache
  handle_all [] p = ok p
  handle_all ((type, raw) ∷ calls) p = do (p', _) ← handle type raw p; handle_all calls p'

  handle_all-IsValid :
      (calls : List (String × List (String × String))) (p : ClientCache)
      → IsValid dec p
      → (p' : ClientCache) × (handle_all calls p ≡ ok p') × IsValid dec p'
  unfolding handle_all
  handle_all-IsValid [] p v = (p, refl, v)
  handle_all-IsValid ((type, raw) ∷ calls) p v =
      let (p₁, reply, handled, v₁, safe) = handle-IsSafe type raw p v in
      let (p₂, rest, v₂) = handle_all-IsValid calls p₁ v₁ in (p₂, rw handled rest, v₂)

  -- Whatever the calls, from an empty cache of any size asked for, no call fails, and the cache that is
  -- left is within its bound and has every client made so far once or has closed it once.
  pub handle_all-IsValid-init :
      (calls : List (String × List (String × String))) (maxsize : ℕ)
      → (p : ClientCache) × (handle_all calls (init maxsize) ≡ ok p) × IsValid dec p
  handle_all-IsValid-init calls maxsize =
      handle_all-IsValid calls (init maxsize) (init-IsValid dec maxsize)
