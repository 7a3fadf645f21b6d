-- ===== src/Cache/Steps.antt =====
-- Closed forms of `get` and `set` on a valid cache, and the invariant that they keep.
use mathlib.Core.List.{lookup}
use thruk_mcp.Cache.{TtlCache, get, make_room, set}
use thruk_mcp.OrderedDict
use thruk_mcp.OrderedDict.Laws.{
  IsDict, get-remove_self, length-remove, IsDict-remove, IsDict-concat, set_item_absent,
  set_item_last,
}
use thruk_mcp.OrderedDict.{OrderedDict, ok, popitem_first, remove, move_to_end, set_item}
use thruk_mcp.Prelude.{
  ℕ, ◌+◌, ◌≤◌, ◌<◌, ◌≡◌, refl, Option, none, some, [], ◌∷◌, ◌++◌, arith, leb, length, length-append,
  if◌then◌else◌, Option-cases, inl, inr,
}

-- The store is a dict of at most `maxsize` entries, and there is room for one.
pub record IsValid {ℓ} {K V : Type ℓ} (dec : Discrete K) (c : TtlCache K V) : Type ℓ where
  pub positive : 0 < c.maxsize
  pub bounded : length c.store ≤ c.maxsize
  pub distinct : IsDict dec c.store

module _ {ℓ} {K V : Type ℓ} (dec : Discrete K) where
  -- what `get` leaves in the store
  abbrev pub after_get : K → ℕ → OrderedDict K (ℕ × V) → OrderedDict K (ℕ × V)
  after_get key now d = elim (OrderedDict.get dec key d) [
    | none ↦ d
    | some (expires_at, value) ↦
        if leb expires_at now
        then remove dec key d
        else remove dec key d ++ (key, (expires_at, value)) ∷ []
  ]

  -- what `get` answers
  abbrev pub answer : K → ℕ → OrderedDict K (ℕ × V) → Option V
  answer key now d = elim (OrderedDict.get dec key d) [
    | none ↦ none
    | some (expires_at, value) ↦ if leb expires_at now then none else some value
  ]

  abbrev pub behind_head : OrderedDict K (ℕ × V) → OrderedDict K (ℕ × V)
  behind_head [] = []
  behind_head (e ∷ d) = d

  -- the entries that `set` keeps: a new key in a full cache costs the head
  abbrev pub kept : K → TtlCache K V → OrderedDict K (ℕ × V)
  kept key c = elim (OrderedDict.get dec key c.store) [
    | some _ ↦ remove dec key c.store
    | none ↦ if leb c.maxsize (length c.store) then behind_head c.store else c.store
  ]

  abbrev pub lifetime : Option ℕ → TtlCache K V → ℕ
  lifetime ttl c = elim ttl [ none ↦ c.default_ttl | some t ↦ t ]

  abbrev pub after_set : K → V → Option ℕ → ℕ → TtlCache K V → TtlCache K V
  after_set key value ttl now c = record c {
    store = kept key c ++ (key, (now + lifetime ttl c, value)) ∷ [];
  }

  pub get-after_get :
      (key : K) (now : ℕ) (c : TtlCache K V)
      → get dec key now c
        ≡ ok (record c { store = after_get key now c.store }, answer key now c.store)
  unfolding get move_to_end
  get-after_get key now c = ground arith

  get-behind_head :
      (key : K) (d : OrderedDict K (ℕ × V))
      → OrderedDict.get dec key d ≡ none
      → OrderedDict.get dec key (behind_head d) ≡ none
  unfolding lookup
  get-behind_head key [] h = h
  get-behind_head key (e ∷ d) h = ground arith

  pub kept_absent :
      (key : K) (c : TtlCache K V) → IsValid dec c → OrderedDict.get dec key (kept key c) ≡ none
  kept_absent key c v =
      ground (arith, get-remove_self dec key c.store v.distinct, get-behind_head key c.store)

  popitem-behind_head :
      (d : OrderedDict K (ℕ × V))
      → 0 < length d
      → (e : K × (ℕ × V)) × (popitem_first d ≡ ok (e, behind_head d))
  unfolding popitem_first
  popitem-behind_head [] h = absurd (omega arith)
  popitem-behind_head (e ∷ d) h = (e, refl)

  -- On a valid cache no step of `set` raises: a full store has a head to evict.
  make_room-kept :
      (key : K) (c : TtlCache K V)
      → IsValid dec c
      → OrderedDict.get dec key c.store ≡ none
      → make_room dec key c ≡ ok (kept key c)
  unfolding make_room
  make_room-kept key c v absent = ground (arith, popitem-behind_head c.store)

  pub set-after_set :
      (key : K) (value : V) (ttl : Option ℕ) (now : ℕ) (c : TtlCache K V)
      → IsValid dec c
      → set dec key value ttl now c ≡ ok (after_set key value ttl now c)
  unfolding set make_room move_to_end
  set-after_set key value ttl now c v = elim (Option-cases (OrderedDict.get dec key c.store)) [
    | inl absent ↦ ground (
      arith,
      make_room-kept key c v absent,
      kept_absent key c v,
      set_item_absent dec key (now + lifetime ttl c, value) (kept key c),
    )
    | inr (w, found) ↦ ground (
      arith,
      kept_absent key c v,
      set_item_last dec key (now + lifetime ttl c, value) w (remove dec key c.store),
    )
  ]

  IsDict-behind_head : (d : OrderedDict K (ℕ × V)) → IsDict dec d → IsDict dec (behind_head d)
  IsDict-behind_head [] h = h
  IsDict-behind_head (e ∷ d) h = h.1

  kept-IsDict : (key : K) (c : TtlCache K V) → IsValid dec c → IsDict dec (kept key c)
  kept-IsDict key c v = ground (
    arith,
    v.distinct,
    IsDict-remove dec key c.store v.distinct,
    IsDict-behind_head c.store v.distinct,
  )

  length-behind_head :
      (d : OrderedDict K (ℕ × V)) → 0 < length d → length (behind_head d) + 1 ≡ length d
  length-behind_head [] h = absurd (omega arith)
  length-behind_head (e ∷ d) h = omega arith

  kept_room : (key : K) (c : TtlCache K V) → IsValid dec c → length (kept key c) < c.maxsize
  kept_room key c v = elim (Option-cases (OrderedDict.get dec key c.store)) [
    | inl absent ↦ ground (arith, v.positive, v.bounded, length-behind_head c.store)
    | inr (w, found) ↦ ground (arith, v.bounded, length-remove dec key c.store w found)
  ]

  pub after_set-IsValid :
      (key : K) (value : V) (ttl : Option ℕ) (now : ℕ) (c : TtlCache K V)
      → IsValid dec c
      → IsValid dec (after_set key value ttl now c)
  after_set-IsValid key value ttl now c v = record {
    positive = v.positive;
    bounded = omega (
      arith,
      kept_room key c v,
      length-append (kept key c) ((key, (now + lifetime ttl c, value)) ∷ []),
    );
    distinct = IsDict-concat dec key _ (kept key c) (kept-IsDict key c v) (kept_absent key c v);
  }

  after_get-IsDict :
      (key : K) (now : ℕ) (d : OrderedDict K (ℕ × V))
      → IsDict dec d
      → IsDict dec (after_get key now d)
  after_get-IsDict key now d h = elim (Option-cases (OrderedDict.get dec key d)) [
    | inl absent ↦ ground (arith, h)
    | inr (w, found) ↦ ground (
      arith,
      IsDict-remove dec key d h,
      IsDict-concat dec key w (remove dec key d) (IsDict-remove dec key d h)
          (get-remove_self dec key d h),
    )
  ]

  length-after_get :
      (key : K) (now : ℕ) (d : OrderedDict K (ℕ × V)) → length (after_get key now d) ≤ length d
  length-after_get key now d = elim (Option-cases (OrderedDict.get dec key d)) [
    | inl absent ↦ ground arith
    | inr (w, found) ↦
        ground
          (arith, length-remove dec key d w found, length-append (remove dec key d) ((key, w) ∷ []))
  ]

  pub after_get-IsValid :
      (key : K) (now : ℕ) (c : TtlCache K V)
      → IsValid dec c
      → IsValid dec (record c { store = after_get key now c.store })
  after_get-IsValid key now c v = record {
    positive = v.positive;
    bounded = omega (arith, v.bounded, length-after_get key now c.store);
    distinct = after_get-IsDict key now c.store v.distinct;
  }
