-- ===== src/Tenants/Valid.antt =====
-- Every call keeps the client cache valid, and what a `get` of it promises: `ClientCache` of
-- src/thruk_mcp/multitenant.py.
use mathlib.Core.List.{lookup}
use thruk_mcp.OrderedDict
use thruk_mcp.OrderedDict.{OrderedDict, Result, ok, key_error, ◌>>=◌, remove, move_to_end, set_item}
use thruk_mcp.OrderedDict.Laws.{
  IsDict, get-remove_self, length-remove, IsDict-remove, IsDict-concat, set_item_absent,
  get-concat_self,
}
use thruk_mcp.Prelude.{
  ℕ, ◌+◌, ◌≤◌, ◌<◌, ◌≡◌, refl, none, some, List, [], ◌∷◌, ◌++◌, arith, nat_eq, length,
  length-append, if◌then◌else◌, Option-cases, inl, inr, All-append,
}
use thruk_mcp.Tenants.Clients.{
  ClientKey, client_key, ThrukClient, Clients, ClientCache, init, evict, values, aclose_all, make,
  get, count, count_in, IsKeyed, IsValid,
}
use thruk_mcp.Tenants.{Config}

module _ (dec : Discrete ClientKey) where
  count-append : (i : ℕ) (l m : List ThrukClient) → count i (l ++ m) ≡ count i l + count i m
  unfolding count
  count-append i [] m = omega arith
  count-append i (c ∷ l) m = omega (arith, count-append i l m)

  count_in-concat :
      (i : ℕ) (k : ClientKey) (c : ThrukClient) (d : Clients)
      → count_in i (d ++ (k, c) ∷ []) ≡ count_in i d + (if nat_eq c.number i then 1 else 0)
  unfolding count_in
  count_in-concat i k c [] = omega arith
  count_in-concat i k c ((j, b) ∷ d) = omega (arith, count_in-concat i k c d)

  count_in-remove :
      (i : ℕ) (k : ClientKey) (c : ThrukClient) (d : Clients)
      → OrderedDict.get dec k d ≡ some c
      → count_in i (remove dec k d) + (if nat_eq c.number i then 1 else 0) ≡ count_in i d
  unfolding count_in lookup remove
  count_in-remove i k c [] h = cc
  count_in-remove i k c ((j, b) ∷ d) h = ground (arith, h, count_in-remove i k c d)

  count-values : (i : ℕ) (d : Clients) → count i (values d) ≡ count_in i d
  unfolding count count_in values
  count-values i [] = refl
  count-values i ((k, c) ∷ d) = omega (arith, count-values i d)

  count-evict :
      (i m : ℕ) (d : Clients) → count_in i (evict m d).0 + count i (evict m d).1 ≡ count_in i d
  unfolding count count_in evict
  count-evict i m [] = refl
  count-evict i m ((k, c) ∷ d) = ground (arith, count-evict i m d)

  length-evict : (m : ℕ) (d : Clients) → length (evict m d).0 ≤ m
  unfolding evict
  length-evict m [] = omega arith
  length-evict m ((k, c) ∷ d) = ground (arith, length-evict m d)

  evict-IsDict : (m : ℕ) (d : Clients) → IsDict dec d → IsDict dec (evict m d).0
  unfolding evict
  evict-IsDict m [] h = tt
  evict-IsDict m ((k, c) ∷ d) h = ground (arith, evict-IsDict m d h.1)

  evict-IsKeyed : (m : ℕ) (d : Clients) → IsKeyed d → IsKeyed (evict m d).0
  unfolding evict
  evict-IsKeyed m [] h = tt
  evict-IsKeyed m ((k, c) ∷ d) h = ground (arith, evict-IsKeyed m d h.1)

  remove-IsKeyed : (k : ClientKey) (d : Clients) → IsKeyed d → IsKeyed (remove dec k d)
  unfolding remove
  remove-IsKeyed k [] h = tt
  remove-IsKeyed k ((j, c) ∷ d) h = ground (arith, h.0, remove-IsKeyed k d h.1)

  get-IsKeyed :
      (k : ClientKey) (c : ThrukClient) (d : Clients)
      → IsKeyed d
      → OrderedDict.get dec k d ≡ some c
      → client_key c.config ≡ k
  unfolding lookup
  get-IsKeyed k c [] h found = cc
  get-IsKeyed k c ((j, b) ∷ d) h found = ground (arith, h.0, dec j k, get-IsKeyed k c d h.1)

  -- eviction from the front never reaches the client that was put at the end
  get-evict_last :
      (m : ℕ) (k : ClientKey) (c : ThrukClient) (d : Clients)
      → 0 < m
      → OrderedDict.get dec k d ≡ none
      → OrderedDict.get dec k (evict m (d ++ (k, c) ∷ [])).0 ≡ some c
  unfolding evict lookup
  get-evict_last m k c [] positive h = ground (arith, positive)
  get-evict_last m k c ((j, b) ∷ d) positive h =
      ground (arith, get-evict_last m k c d positive, get-concat_self dec k c d)

  pub init-IsValid : (maxsize : ℕ) → IsValid dec (init maxsize)
  unfolding init count count_in
  init-IsValid maxsize = record {
    positive = ground arith;
    bounded = omega arith;
    distinct = tt;
    keyed = tt;
    once = λ i. ground arith;
  }

  pub aclose_all-IsValid : (p : ClientCache) → IsValid dec p → IsValid dec (aclose_all p)
  unfolding aclose_all count_in
  aclose_all-IsValid p v = record {
    positive = v.positive;
    bounded = omega arith;
    distinct = tt;
    keyed = tt;
    once = λ i.
        ground
          (arith, count-append i p.closed (values p.clients), count-values i p.clients, v.once i);
  }

  -- What a `get` promises of the cache it leaves and of the client it returns.
  pub record Serves (cfg : Config) (p : ClientCache) (client : ThrukClient) : Type 0 where
    pub valid : IsValid dec p
    pub own_key : client_key client.config ≡ client_key cfg
    pub cached : OrderedDict.get dec (client_key cfg) p.clients ≡ some client
    pub not_closed : count client.number p.closed ≡ 0

  count_in-get :
      (k : ClientKey) (c : ThrukClient) (d : Clients)
      → OrderedDict.get dec k d ≡ some c
      → 1 ≤ count_in c.number d
  unfolding lookup count_in
  count_in-get k c [] h = cc
  count_in-get k c ((j, b) ∷ d) h = ground (arith, h, dec j k, count_in-get k c d)

  not_closed_of_cached :
      (k : ClientKey) (c : ThrukClient) (p : ClientCache)
      → IsValid dec p
      → OrderedDict.get dec k p.clients ≡ some c
      → count c.number p.closed ≡ 0
  not_closed_of_cached k c p v found =
      ground (arith, v.once c.number, count_in-get k c p.clients found)

  make-IsValid :
      (cfg : Config) (p : ClientCache)
      → IsValid dec p
      → OrderedDict.get dec (client_key cfg) p.clients ≡ none
      → IsValid dec (make dec cfg p).0
  unfolding make
  make-IsValid cfg p v absent =
      let k = client_key cfg in
      let c : ThrukClient = record { number = p.made; config = cfg } in
      let d = p.clients ++ (k, c) ∷ [] in
      rw (set_item_absent dec k c p.clients absent) (record {
        positive = v.positive;
        bounded = length-evict p.maxsize d;
        distinct = evict-IsDict p.maxsize d (IsDict-concat dec k c p.clients v.distinct absent);
        keyed = evict-IsKeyed p.maxsize d (
            All-append (λ e. client_key e.1.config ≡ e.0) p.clients ((k, c) ∷ []) v.keyed
              (refl, tt));
        once = λ i. ground (
          arith,
          count-append i p.closed (evict p.maxsize d).1,
          count-evict i p.maxsize d,
          count_in-concat i k c p.clients,
          v.once i,
        );
      })

  -- a hit, which moves the client to the end
  moved : Config → ThrukClient → ClientCache → ClientCache
  moved cfg c p = record p {
    clients = remove dec (client_key cfg) p.clients ++ (client_key cfg, c) ∷ [];
  }

  moved-IsValid :
      (cfg : Config) (c : ThrukClient) (p : ClientCache)
      → IsValid dec p
      → OrderedDict.get dec (client_key cfg) p.clients ≡ some c
      → IsValid dec (moved cfg c p)
  unfolding moved
  moved-IsValid cfg c p v found =
      let k = client_key cfg in
      let rest = remove dec k p.clients in
      let gone = get-remove_self dec k p.clients v.distinct in
      record {
        positive = v.positive;
        bounded = omega (
          arith,
          v.bounded,
          length-append rest ((k, c) ∷ []),
          length-remove dec k p.clients c found,
        );
        distinct = IsDict-concat dec k c rest (IsDict-remove dec k p.clients v.distinct) gone;
        keyed =
            All-append (λ e. client_key e.1.config ≡ e.0) rest ((k, c) ∷ [])
              (remove-IsKeyed k p.clients v.keyed) (get-IsKeyed k c p.clients v.keyed found, tt);
        once = λ i.
            ground
              (arith, count_in-concat i k c rest, count_in-remove i k c p.clients found, v.once i);
      }

  -- On a valid cache `get` succeeds and leaves a valid cache, and the client it returns was made for a
  -- config of the same key, is in the cache, and is none of those that have been closed.
  pub get-Serves :
      (cfg : Config) (p : ClientCache)
      → IsValid dec p
      → (p' : ClientCache) × (client : ThrukClient) × (get dec cfg p ≡ ok (p', client))
        × Serves cfg p' client
  unfolding get make move_to_end moved
  get-Serves cfg p v = elim (Option-cases (OrderedDict.get dec (client_key cfg) p.clients)) [
    | inl absent ↦
        let c : ThrukClient = record { number = p.made; config = cfg } in
        let valid = make-IsValid cfg p v absent in
        let cached : OrderedDict.get dec (client_key cfg) (make dec cfg p).0.clients ≡ some c =
          rw (set_item_absent dec (client_key cfg) c p.clients absent)
            (get-evict_last p.maxsize (client_key cfg) c p.clients v.positive absent) in
        (
          (make dec cfg p).0,
          c,
          ground (arith, absent),
          record {
            valid = valid;
            own_key = refl;
            cached = cached;
            not_closed = not_closed_of_cached (client_key cfg) c (make dec cfg p).0 valid cached;
          },
        )
    | inr (c, found) ↦
        let valid = moved-IsValid cfg c p v found in
        let cached =
          get-concat_self dec (client_key cfg) c (remove dec (client_key cfg) p.clients)
            (get-remove_self dec (client_key cfg) p.clients v.distinct) in
        (
          moved cfg c p,
          c,
          ground (arith, found),
          record {
            valid = valid;
            own_key = get-IsKeyed (client_key cfg) c p.clients v.keyed found;
            cached = cached;
            not_closed = not_closed_of_cached (client_key cfg) c (moved cfg c p) valid cached;
          },
        )
  ]
