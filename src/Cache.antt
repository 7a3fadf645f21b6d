-- ===== src/Cache.antt =====
-- src/thruk_mcp/cache.py: the TTL cache of the Thruk client. Each method holds the lock over its
-- whole body, so a method is one step. The clock is the argument `now`, in the unit of the TTLs.
pub mod Steps
pub mod History
mod Tests
use thruk_mcp.OrderedDict
use thruk_mcp.OrderedDict.{
  OrderedDict, Result, ok, ◌>>=◌, popitem_first, remove, move_to_end, set_item,
}
use thruk_mcp.Prelude.{ℕ, ◌+◌, Option, none, some, [], leb, length, if◌then◌else◌}

pub record TtlCache {ℓ} (K V : Type ℓ) : Type ℓ where
  pub default_ttl : ℕ
  pub maxsize : ℕ
  -- a key's expiry time and value
  pub store : OrderedDict K (ℕ × V)

module _ {ℓ} {K V : Type ℓ} where
  abbrev pub init : ℕ → ℕ → TtlCache K V
  init default_ttl maxsize = record { default_ttl = default_ttl; maxsize = maxsize; store = [] }

  abbrev pub clear : TtlCache K V → TtlCache K V
  clear c = record c { store = [] }

  abbrev pub len : TtlCache K V → ℕ
  len c = length c.store

module _ {ℓ} {K V : Type ℓ} (dec : Discrete K) where
  unfoldable pub get : K → ℕ → TtlCache K V → Result (TtlCache K V × Option V)
  get key now c = elim (OrderedDict.get dec key c.store) [
    | none ↦ ok (c, none)
    | some (expires_at, value) ↦
        if leb expires_at now
        then ok (record c { store = remove dec key c.store }, none)
        else (do store ← move_to_end dec key c.store; ok (record c { store = store }, some value))
  ]

  -- the `if`/`elif` of `set`: the entries before the assignment
  unfoldable pub make_room : K → TtlCache K V → Result (OrderedDict K (ℕ × V))
  make_room key c = elim (OrderedDict.get dec key c.store) [
    | some _ ↦ move_to_end dec key c.store
    | none ↦
        if leb c.maxsize (length c.store)
        then (do (_, rest) ← popitem_first c.store; ok rest)
        else ok c.store
  ]

  unfoldable pub set : K → V → Option ℕ → ℕ → TtlCache K V → Result (TtlCache K V)
  unfolding make_room
  set key value ttl now c = do
    let lifetime : ℕ = elim ttl [ none ↦ c.default_ttl | some t ↦ t ]
    store ← make_room key c
    ok (record c { store = set_item dec key (now + lifetime, value) store })
