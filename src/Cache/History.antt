-- ===== src/Cache/History.antt =====
-- Runs of the cache against the log of its calls: what a `get` may answer, and what it must.
use mathlib.Core.List.{lookup}
use thruk_mcp.Cache.Steps.{
  IsValid, behind_head, kept, after_get, answer, lifetime, after_set, get-after_get, set-after_set,
  after_set-IsValid, after_get-IsValid, kept_absent,
}
use thruk_mcp.Cache.{TtlCache, init, clear, get, make_room, set}
use thruk_mcp.OrderedDict
use thruk_mcp.OrderedDict.Laws.{
  IsDict, get-remove_ne, get-remove_self, get-concat_self, get-concat_ne,
}
use thruk_mcp.OrderedDict.{OrderedDict, Result, ok, ◌>>=◌, popitem_first, remove}
use thruk_mcp.Prelude.{
  ℕ, ◌+◌, ◌≤◌, ◌<◌, ◌≡◌, ◌≢◌, refl, Option, none, some, List, [], ◌∷◌, arith, leb, ltb, length,
  if◌then◌else◌, Option-cases, inl, inr,
}

-- A call with the clock's value when it is made.
pub data Call {ℓ} (K V : Type ℓ) : Type ℓ where
  getting : K → ℕ → Call K V
  setting : K → V → Option ℕ → ℕ → Call K V
  clearing : Call K V

module _ {ℓ} {K V : Type ℓ} (dec : Discrete K) where
  unfoldable pub step : Call K V → TtlCache K V → Result (TtlCache K V)
  step (getting k now) c = do (c', _) ← get dec k now c; ok c'
  step (setting k v ttl now) c = set dec k v ttl now c
  step clearing c = ok (clear c)

  -- The calls of a log, oldest last, from an empty cache.
  unfoldable pub run : ℕ → ℕ → List (Call K V) → Result (TtlCache K V)
  run default_ttl maxsize [] = ok (init default_ttl maxsize)
  run default_ttl maxsize (call ∷ log) = do c ← run default_ttl maxsize log; step call c

  -- The expiry and the value of the last `set` of a key since the last `clear`.
  unfoldable pub latest : ℕ → K → List (Call K V) → Option (ℕ × V)
  latest default_ttl key [] = none
  latest default_ttl key (getting _ _ ∷ log) = latest default_ttl key log
  latest default_ttl key (setting k v ttl now ∷ log) = elim (dec k key) [
    | yes _ ↦ some (now + elim ttl [ none ↦ default_ttl | some t ↦ t ], v)
    | no _ ↦ latest default_ttl key log
  ]
  latest default_ttl key (clearing ∷ log) = none

  -- The cache is valid, has its first settings, and holds only entries that are the latest ones.
  pub record Reflects (default_ttl maxsize : ℕ) (log : List (Call K V)) (c : TtlCache K V)
      : Type ℓ where
    pub valid : IsValid dec c
    pub ttl : c.default_ttl ≡ default_ttl
    pub size : c.maxsize ≡ maxsize
    pub latest_only :
        (k : K) (e : ℕ × V)
        → OrderedDict.get dec k c.store ≡ some e
        → latest default_ttl k log ≡ some e

  get-after_get-some :
      (q k : K) (now : ℕ) (d : OrderedDict K (ℕ × V)) (e : ℕ × V)
      → IsDict dec d
      → OrderedDict.get dec q (after_get dec k now d) ≡ some e
      → OrderedDict.get dec q d ≡ some e
  get-after_get-some q k now d e h s = elim (Option-cases (OrderedDict.get dec k d)) [
    | inl absent ↦ ground (arith, s)
    | inr (w, found) ↦ ground (
      arith,
      dec q k,
      get-remove_self dec k d h,
      get-remove_ne dec k q d,
      get-concat_self dec k w (remove dec k d),
      get-concat_ne dec k q w (remove dec k d),
    )
  ]

  get-behind_head-some :
      (q : K) (d : OrderedDict K (ℕ × V)) (e : ℕ × V)
      → IsDict dec d
      → OrderedDict.get dec q (behind_head dec d) ≡ some e
      → OrderedDict.get dec q d ≡ some e
  unfolding lookup
  get-behind_head-some q [] e h s = s
  get-behind_head-some q ((k, w) ∷ d) e h s = ground (arith, dec q k)

  get-kept-some :
      (q k : K) (c : TtlCache K V) (e : ℕ × V)
      → IsValid dec c
      → OrderedDict.get dec q (kept dec k c) ≡ some e
      → OrderedDict.get dec q c.store ≡ some e
  get-kept-some q k c e v s = ground (
    arith,
    dec q k,
    kept_absent dec k c v,
    get-remove_ne dec k q c.store,
    get-behind_head-some q c.store e v.distinct,
  )

  setting-Reflects :
      (dttl msize : ℕ) (log : List (Call K V)) (c : TtlCache K V) (k : K) (v : V) (ttl : Option ℕ)
      (now : ℕ)
      → Reflects dttl msize log c
      → Reflects dttl msize (setting k v ttl now ∷ log) (after_set dec k v ttl now c)
  unfolding latest
  setting-Reflects dttl msize log c k v ttl now r = record {
    valid = after_set-IsValid dec k v ttl now c r.valid;
    ttl = r.ttl;
    size = r.size;
    latest_only = λ q e s.
        let new : ℕ × V = (now + lifetime dec ttl c, v) in
        ground (
          arith,
          dec k q,
          r.ttl,
          get-concat_self dec k new (kept dec k c),
          get-concat_ne dec k q new (kept dec k c),
          kept_absent dec k c r.valid,
          get-kept-some q k c e r.valid,
          r.latest_only q e,
        );
  }

  getting-Reflects :
      (dttl msize : ℕ) (log : List (Call K V)) (c : TtlCache K V) (k : K) (now : ℕ)
      → Reflects dttl msize log c
      → Reflects dttl msize (getting k now ∷ log) (record c { store = after_get dec k now c.store })
  unfolding latest
  getting-Reflects dttl msize log c k now r = record {
    valid = after_get-IsValid dec k now c r.valid;
    ttl = r.ttl;
    size = r.size;
    latest_only =
        λ q e s. r.latest_only q e (get-after_get-some q k now c.store e r.valid.distinct s);
  }

  run-Reflects :
      (dttl msize : ℕ) (log : List (Call K V))
      → 0 < msize
      → (c : TtlCache K V) × (run dttl msize log ≡ ok c) × Reflects dttl msize log c
  unfolding run step latest lookup
  run-Reflects dttl msize [] h = (
    init dttl msize,
    refl,
    record {
      valid = record { positive = h; bounded = omega arith; distinct = tt };
      ttl = refl;
      size = refl;
      latest_only = λ k e s. s;
    },
  )
  run-Reflects dttl msize (getting k now ∷ log) h =
      let (c, ran, r) = run-Reflects dttl msize log h in
      (
        record c { store = after_get dec k now c.store },
        rw ran (rw get-after_get),
        getting-Reflects dttl msize log c k now r,
      )
  run-Reflects dttl msize (setting k v ttl now ∷ log) h =
      let (c, ran, r) = run-Reflects dttl msize log h in
      (
        after_set dec k v ttl now c,
        rw ran (set-after_set dec k v ttl now c r.valid),
        setting-Reflects dttl msize log c k v ttl now r,
      )
  run-Reflects dttl msize (clearing ∷ log) h =
      let (c, ran, r) = run-Reflects dttl msize log h in
      (
        clear c,
        rw ran,
        record {
          valid = record { positive = r.valid.positive; bounded = omega arith; distinct = tt };
          ttl = r.ttl;
          size = r.size;
          latest_only = λ k e s. absurd (none-ne-some s);
        },
      )
    where
      none-ne-some : {e : ℕ × V} → none ≡ some e → ⊥
      none-ne-some s = cc

  answer_fresh :
      (dttl msize : ℕ) (log : List (Call K V)) (c c' : TtlCache K V) (k : K) (now : ℕ) (v : V)
      → Reflects dttl msize log c
      → get dec k now c ≡ ok (c', some v)
      → (expires : ℕ) × (latest dttl k log ≡ some (expires, v)) × (now < expires)
  answer_fresh dttl msize log c c' k now v r g =
      elim (Option-cases (OrderedDict.get dec k c.store)) [
        | inl absent ↦ absurd (ground (arith, get-after_get dec k now c))
        | inr ((expires, w), found) ↦ (
          expires,
          ground (arith, get-after_get dec k now c, r.latest_only k (expires, w) found),
          ground (arith, get-after_get dec k now c),
        )
      ]

  -- Whatever the calls, a cache with room for one entry raises no KeyError and holds at most
  -- `maxsize` entries; and what a `get` then answers is the value of the last `set` of that key since
  -- the last `clear`, whose lifetime has not passed.
  pub run_never_stale :
      (dttl msize : ℕ) (log : List (Call K V))
      → 0 < msize
      → (c : TtlCache K V) × (run dttl msize log ≡ ok c)
        × (length c.store ≤ msize)
        × ((key : K) (now : ℕ) (c' : TtlCache K V) (v : V)
            → get dec key now c ≡ ok (c', some v)
            → (expires : ℕ) × (latest dttl key log ≡ some (expires, v)) × (now < expires))
  run_never_stale dttl msize log h =
      let (c, ran, r) = run-Reflects dttl msize log h in
      (
        c,
        ran,
        omega (arith, r.valid.bounded, r.size),
        λ key now c' v g. answer_fresh dttl msize log c c' key now v r g,
      )

  -- On a valid cache `set` succeeds, and a `get` of the key at time `later` then returns the value
  -- exactly while `later` is before the expiry time, and None from then on.
  pub get-set_self :
      (c : TtlCache K V) (key : K) (v : V) (ttl : Option ℕ) (now later : ℕ)
      → IsValid dec c
      → (c' : TtlCache K V) × (c'' : TtlCache K V) × (set dec key v ttl now c ≡ ok c')
        × (get dec key later c'
            ≡ ok (c'', if ltb later (now + lifetime dec ttl c) then some v else none))
  get-set_self c key v ttl now later h =
      let c' : TtlCache K V = after_set dec key v ttl now c in
      (
        c',
        record c' { store = after_get dec key later c'.store },
        set-after_set dec key v ttl now c h,
        ground (
          arith,
          get-after_get dec key later c',
          get-concat_self dec key (now + lifetime dec ttl c, v) (kept dec key c)
              (kept_absent dec key c h),
        ),
      )

  -- The key that a `set` evicts: the head's, when the key is new and the store full.
  abbrev pub evicted : K → TtlCache K V → Option K
  evicted key c = elim (OrderedDict.get dec key c.store) [
    | some _ ↦ none
    | none ↦
        if leb c.maxsize (length c.store)
        then elim c.store [ [] ↦ none | e ∷ _ ↦ some e.0 ]
        else none
  ]

  get-behind_head_ne :
      (q : K) (d : OrderedDict K (ℕ × V))
      → elim d [ [] ↦ none | e ∷ _ ↦ some e.0 ] ≢ some q
      → OrderedDict.get dec q (behind_head dec d) ≡ OrderedDict.get dec q d
  unfolding lookup
  get-behind_head_ne q [] ne = refl
  get-behind_head_ne q ((k, w) ∷ d) ne = ground (arith, dec q k)

  get-kept_ne :
      (q k : K) (c : TtlCache K V)
      → q ≢ k
      → evicted k c ≢ some q
      → OrderedDict.get dec q (kept dec k c) ≡ OrderedDict.get dec q c.store
  get-kept_ne q k c ne stays = elim (Option-cases (OrderedDict.get dec k c.store)) [
    | inl absent ↦ ground (arith, get-behind_head_ne q c.store)
    | inr (w, found) ↦ ground (arith, get-remove_ne dec k q c.store ne)
  ]

  -- On a valid cache a `set` of one key leaves what a `get` of another key answers, unless that key
  -- is the one evicted: the head of the order, when the cache is full and the key that is set is new.
  pub get-set_ne :
      (c : TtlCache K V) (key q : K) (v : V) (ttl : Option ℕ) (now later : ℕ)
      → IsValid dec c
      → q ≢ key
      → evicted key c ≢ some q
      → (c' c₁ c₂ : TtlCache K V) × (reply : Option V) × (set dec key v ttl now c ≡ ok c')
        × (get dec q later c ≡ ok (c₁, reply))
        × (get dec q later c' ≡ ok (c₂, reply))
  get-set_ne c key q v ttl now later h ne stays =
      let c' : TtlCache K V = after_set dec key v ttl now c in
      (
        c',
        record c { store = after_get dec q later c.store },
        record c' { store = after_get dec q later c'.store },
        answer dec q later c.store,
        set-after_set dec key v ttl now c h,
        get-after_get dec q later c,
        ground (
          arith,
          get-after_get dec q later c',
          get-concat_ne dec key q (now + lifetime dec ttl c, v) (kept dec key c) ne,
          get-kept_ne q key c ne stays,
        ),
      )

-- With no room at all the first `set` raises the KeyError of `popitem` on an empty dict.
pub set-maxsize_zero {ℓ} :
    {K V : Type ℓ} (dec : Discrete K) (dttl now : ℕ) (key : K) (v : V) (ttl : Option ℕ)
    → set dec key v ttl now (init dttl 0) ≡ Result.key_error
unfolding set make_room popitem_first lookup
set-maxsize_zero dec dttl now key v ttl = refl
