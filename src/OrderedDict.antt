-- ===== src/OrderedDict.antt =====
-- `collections.OrderedDict`, which cache.py and multitenant.py use: the entries in the dict's
-- order, first the head that `popitem(last=False)` takes, last the end that `move_to_end` fills.
pub mod Laws
use mathlib.Core.List.{erase_p, lookup}
use thruk_mcp.Prelude.{Option, none, some, List, [], ◌∷◌, ◌++◌, map}

-- What a call returns, or the KeyError that it raises.
pub data Result {ℓ} (A : Type ℓ) : Type ℓ where
  ok : A → Result A
  key_error : Result A

infixl 5 ◌>>=◌
abbrev pub ◌>>=◌ {ℓ κ} : {A : Type ℓ} {B : Type κ} → Result A → (A → Result B) → Result B
ok a >>= f = f a
key_error >>= f = key_error

abbrev pub OrderedDict {ℓ κ} : Type ℓ → Type κ → Type (ℓ ⊔ κ)
OrderedDict K V = List (K × V)

module _ {ℓ} {K V : Type ℓ} where
  abbrev pub keys : OrderedDict K V → List K
  keys = map (λ e. e.0)

  -- `d.popitem(last=False)`; an empty dict raises
  unfoldable pub popitem_first : OrderedDict K V → Result ((K × V) × OrderedDict K V)
  popitem_first [] = key_error
  popitem_first (e ∷ d) = ok (e, d)

module _ {ℓ} {K V : Type ℓ} (dec : Discrete K) where
  -- `d.get(k)`
  abbrev pub get : K → OrderedDict K V → Option V
  get = lookup dec

  -- `d.pop(k, None)`
  unfoldable pub remove : K → OrderedDict K V → OrderedDict K V
  remove k = erase_p (λ e. dec e.0 k)

  -- `d.move_to_end(k)`
  unfoldable pub move_to_end : K → OrderedDict K V → Result (OrderedDict K V)
  move_to_end k d = elim (get k d) [ none ↦ key_error | some v ↦ ok (remove k d ++ (k, v) ∷ []) ]

  -- `d[k] = v`: an old key keeps its place, a new one goes to the end
  unfoldable pub set_item : K → V → OrderedDict K V → OrderedDict K V
  set_item k v [] = (k, v) ∷ []
  set_item k v ((j, w) ∷ d) = elim (dec j k) [ yes _ ↦ (j, v) ∷ d | no _ ↦ (j, w) ∷ set_item k v d ]
