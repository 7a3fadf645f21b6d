-- ===== src/Tenants/Clients.antt =====
-- `ClientCache` and the middleware of src/thruk_mcp/multitenant.py. The lock is held over the whole
-- body of `get` but for the closing of the evicted clients, so that a call is one step. A client has
-- a number, the count of those made before it, which stands for the object's identity.
use thruk_mcp.OrderedDict
use thruk_mcp.OrderedDict.{OrderedDict, Result, ok, ◌>>=◌, move_to_end, set_item}
use thruk_mcp.OrderedDict.Laws.{IsDict}
use thruk_mcp.Prelude.{
  ℕ, suc, ◌+◌, ◌≤◌, ◌<◌, String, ◌≡◌, Bool, none, some, List, [], ◌∷◌, ◌++◌, ltb, nat_eq, length,
  if◌then◌else◌, All,
}
use thruk_mcp.Tenants.{Config}

abbrev pub ClientKey : Type 0
ClientKey = String × String × String × Bool × ℕ × List String × ℕ × ℕ

-- `_client_key`
unfoldable pub client_key : Config → ClientKey
client_key cfg = (
  cfg.base_url, cfg.api_key, cfg.auth_user, cfg.verify_ssl, cfg.timeout, cfg.default_backends,
  cfg.max_connections, cfg.max_keepalive_connections,
)

pub record ThrukClient : Type 0 where
  pub number : ℕ
  pub config : Config

abbrev pub Clients : Type 0
Clients = OrderedDict ClientKey ThrukClient

-- The cache, the count of the clients made and those closed.
pub record ClientCache : Type 0 where
  pub maxsize : ℕ
  pub clients : Clients
  pub made : ℕ
  pub closed : List ThrukClient

-- `max(1, maxsize)`
unfoldable pub init : ℕ → ClientCache
init maxsize = record {
  maxsize = if ltb maxsize 1 then 1 else maxsize;
  clients = [];
  made = 0;
  closed = [];
}

-- `while len(self._clients) > self._maxsize`: the clients that stay and the evicted ones
unfoldable pub evict : ℕ → Clients → Clients × List ThrukClient
evict maxsize [] = ([], [])
evict maxsize ((k, old) ∷ d) =
    let (kept, evicted) = evict maxsize d in
    if ltb maxsize (length ((k, old) ∷ d)) then (kept, old ∷ evicted) else ((k, old) ∷ d, [])

unfoldable pub values : Clients → List ThrukClient
values [] = []
values ((k, c) ∷ d) = c ∷ values d

-- `aclose_all`
unfoldable pub aclose_all : ClientCache → ClientCache
unfolding values
aclose_all p = record p { clients = []; closed = p.closed ++ values p.clients }

-- how often a client is among some, in the cache and out of it
unfoldable pub count : ℕ → List ThrukClient → ℕ
count i [] = 0
count i (c ∷ l) = (if nat_eq c.number i then 1 else 0) + count i l

unfoldable pub count_in : ℕ → Clients → ℕ
count_in i [] = 0
count_in i ((k, c) ∷ d) = (if nat_eq c.number i then 1 else 0) + count_in i d

abbrev pub IsKeyed : Clients → Type 0
IsKeyed d = All (λ e. client_key e.1.config ≡ e.0) d

module _ (dec : Discrete ClientKey) where
  -- a miss of `get`
  unfoldable pub make : Config → ClientCache → ClientCache × ThrukClient
  unfolding client_key evict
  make cfg p =
      let client : ThrukClient = record { number = p.made; config = cfg } in
      let (kept, evicted) = evict p.maxsize (set_item dec (client_key cfg) client p.clients) in
      (record p { clients = kept; made = suc p.made; closed = p.closed ++ evicted }, client)

  -- `get`
  unfoldable pub get : Config → ClientCache → Result (ClientCache × ThrukClient)
  unfolding client_key make
  get cfg p = elim (OrderedDict.get dec (client_key cfg) p.clients) [
    | some client ↦ (do
      clients ← move_to_end dec (client_key cfg) p.clients
      ok (record p { clients = clients }, client))
    | none ↦ ok (make cfg p)
  ]

  -- The cache is within its bound, has each client under the key of its config, and every client made
  -- so far is in the cache once or closed once, and not both.
  pub record IsValid (p : ClientCache) : Type 0 where
    pub positive : 0 < p.maxsize
    pub bounded : length p.clients ≤ p.maxsize
    pub distinct : IsDict dec p.clients
    pub keyed : IsKeyed p.clients
    pub once : (i : ℕ) → count_in i p.clients + count i p.closed ≡ (if ltb i p.made then 1 else 0)
