-- ===== src/Tenants/Tests.antt =====
-- Witnesses and tests of the header-based configs and the client cache.
use native.Mathlib.Decide.{ℕ_discrete}
use thruk_mcp.OrderedDict.{ok}
use thruk_mcp.Prelude.{String, ◌≡◌, refl, true, List, [], ◌∷◌, String_discrete}
use thruk_mcp.Prelude.Text.{strip, split}
use thruk_mcp.Tenants.Clients.{ClientKey, ClientCache, init, IsValid}
use thruk_mcp.Tenants.Valid.{init-IsValid}
use thruk_mcp.Tenants.Middleware.{
  Handled, handle, IsSafe, handle-IsSafe, handle_all, handle_all-IsValid-init,
}
use thruk_mcp.Tenants.{Config, split_csv, stripped}

abbrev key_discrete : Discrete ClientKey
key_discrete = hlevel (String_discrete, ℕ_discrete)

abbrev server : Config
server = record {
  base_url = "http://localhost/thruk";
  api_key = "";
  auth_user = "";
  verify_ssl = true;
  timeout = 30000;
  default_backends = [];
  read_only = true;
  enabled_tools = [];
  audit_log = true;
  max_concurrent = 0;
  max_connections = 20;
  max_keepalive_connections = 10;
}

abbrev raw : List (String × String)
raw = ("X-Thruk-Auth-Key", " secret ") ∷ ("X-Thruk-Backends", "paris, lyon") ∷ []

handle-IsSafe_example :
    (p' : ClientCache) × (reply : Handled) × (handle key_discrete server "http" raw (init 1)
      ≡ ok (p', reply))
    × IsValid key_discrete p'
    × IsSafe key_discrete server "http" raw (init 1) p' reply
handle-IsSafe_example =
    handle-IsSafe key_discrete server "http" raw (init 1) (init-IsValid key_discrete 1)

handle_all-IsValid-init_example :
    (p : ClientCache) × (handle_all key_discrete server
        (("http", raw) ∷ ("lifespan", []) ∷ ("http", []) ∷ [])
        (init 0)
      ≡ ok p)
    × IsValid key_discrete p
handle_all-IsValid-init_example =
    handle_all-IsValid-init key_discrete server
      (("http", raw) ∷ ("lifespan", []) ∷ ("http", []) ∷ []) 0

backends-split : split_csv "paris, lyon,," ≡ "paris" ∷ "lyon" ∷ []
unfolding split_csv stripped split strip
backends-split = refl
