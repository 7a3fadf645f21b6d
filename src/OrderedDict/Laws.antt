-- ===== src/OrderedDict/Laws.antt =====
-- What a key reads after each operation on an ordered dict, and how many entries there are.
use mathlib.Core.List.{lookup}
use thruk_mcp.Prelude.{◌+◌, ◌≡◌, refl, ◌≢◌, none, some, [], ◌∷◌, ◌++◌, arith, length}
use thruk_mcp.OrderedDict.{OrderedDict, get, remove, set_item}

module _ {ℓ} {K V : Type ℓ} (dec : Discrete K) where
  -- No key stands twice in the dict.
  abbrev pub IsDict : OrderedDict K V → Type ℓ
  IsDict [] = Unit
  IsDict ((k, v) ∷ d) = (get dec k d ≡ none) × IsDict d

  pub get-append :
      (k : K) (d e : OrderedDict K V)
      → get dec k (d ++ e) ≡ elim (get dec k d) [ none ↦ get dec k e | some v ↦ some v ]
  unfolding lookup
  get-append k [] e = refl
  get-append k ((j, v) ∷ d) e = ground (arith, get-append k d e)

  pub get-remove_ne :
      (k q : K) (d : OrderedDict K V) → q ≢ k → get dec q (remove dec k d) ≡ get dec q d
  unfolding lookup remove
  get-remove_ne k q [] h = refl
  get-remove_ne k q ((j, v) ∷ d) h = ground (arith, get-remove_ne k q d)

  pub get-remove_self : (k : K) (d : OrderedDict K V) → IsDict d → get dec k (remove dec k d) ≡ none
  unfolding lookup remove
  get-remove_self k [] h = refl
  get-remove_self k ((j, v) ∷ d) h = ground (arith, get-remove_self k d)

  pub remove_absent : (k : K) (d : OrderedDict K V) → get dec k d ≡ none → remove dec k d ≡ d
  unfolding lookup remove
  remove_absent k [] h = refl
  remove_absent k ((j, v) ∷ d) h = ground (arith, remove_absent k d)

  pub length-remove :
      (k : K) (d : OrderedDict K V) (v : V)
      → get dec k d ≡ some v
      → length (remove dec k d) + 1 ≡ length d
  unfolding lookup remove
  length-remove k [] v h = cc
  length-remove k ((j, w) ∷ d) v h = ground (arith, length-remove k d v)

  pub IsDict-remove : (k : K) (d : OrderedDict K V) → IsDict d → IsDict (remove dec k d)
  unfolding lookup remove
  IsDict-remove k [] h = h
  IsDict-remove k ((j, v) ∷ d) h = ground (arith, IsDict-remove k d h.1, get-remove_ne k j d)

  pub IsDict-concat :
      (k : K) (v : V) (d : OrderedDict K V)
      → IsDict d
      → get dec k d ≡ none
      → IsDict (d ++ (k, v) ∷ [])
  unfolding lookup
  IsDict-concat k v [] h absent = (refl, tt)
  IsDict-concat k v ((j, w) ∷ d) h absent =
      ground (arith, IsDict-concat k v d h.1, get-append j d ((k, v) ∷ []))

  -- Assigning a new key appends it.
  pub set_item_absent :
      (k : K) (v : V) (d : OrderedDict K V)
      → get dec k d ≡ none
      → set_item dec k v d ≡ d ++ (k, v) ∷ []
  unfolding lookup set_item
  set_item_absent k v [] h = refl
  set_item_absent k v ((j, w) ∷ d) h = ground (arith, set_item_absent k v d)

  -- Assigning the key that stands last replaces its value there.
  pub set_item_last :
      (k : K) (v w : V) (d : OrderedDict K V)
      → get dec k d ≡ none
      → set_item dec k v (d ++ (k, w) ∷ []) ≡ d ++ (k, v) ∷ []
  unfolding lookup set_item
  set_item_last k v w [] h = ground arith
  set_item_last k v w ((j, u) ∷ d) h = ground (arith, set_item_last k v w d)

  -- What stands last is read by its key.
  pub get-concat_self :
      (k : K) (v : V) (d : OrderedDict K V)
      → get dec k d ≡ none
      → get dec k (d ++ (k, v) ∷ []) ≡ some v
  unfolding lookup
  get-concat_self k v d h = ground (arith, get-append k d ((k, v) ∷ []))

  pub get-concat_ne :
      (k q : K) (v : V) (d : OrderedDict K V) → q ≢ k → get dec q (d ++ (k, v) ∷ []) ≡ get dec q d
  unfolding lookup
  get-concat_ne k q v d h = ground (arith, get-append q d ((k, v) ∷ []))

  pub get-set_item_self :
      (k : K) (v : V) (d : OrderedDict K V) → get dec k (set_item dec k v d) ≡ some v
  unfolding lookup set_item
  get-set_item_self k v [] = ground arith
  get-set_item_self k v ((j, w) ∷ d) = ground (arith, get-set_item_self k v d)

  pub get-set_item_ne :
      (k q : K) (v : V) (d : OrderedDict K V) → q ≢ k → get dec q (set_item dec k v d) ≡ get dec q d
  unfolding lookup set_item
  get-set_item_ne k q v [] h = ground arith
  get-set_item_ne k q v ((j, w) ∷ d) h = ground (arith, get-set_item_ne k q v d)

  pub IsDict-set_item :
      (k : K) (v : V) (d : OrderedDict K V) → IsDict d → IsDict (set_item dec k v d)
  unfolding lookup set_item
  IsDict-set_item k v [] h = (refl, tt)
  IsDict-set_item k v ((j, w) ∷ d) h =
      ground (arith, IsDict-set_item k v d h.1, get-set_item_ne k j v d, h)
