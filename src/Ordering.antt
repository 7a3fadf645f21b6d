-- ===== src/Ordering.antt =====
-- `sorted` of texts and of sets of them, and the dicts that count: `d[k] = d.get(k, 0) + 1`.
use Prim.Native.Char.{code}
use mathlib.Core.List.{lookup}
use thruk_mcp.OrderedDict
use thruk_mcp.OrderedDict.{OrderedDict, set_item}
use thruk_mcp.OrderedDict.Laws.{IsDict, IsDict-set_item, get-set_item_self, get-set_item_ne}
use thruk_mcp.Prelude.{
  ℕ, String, ◌+◌, ◌≡◌, refl, ap, ◌∙◌, Bool, true, false, not, ◌&&◌, ◌||◌, none, some, List, [], ◌∷◌,
  ◌++◌, map, arith, ltb, nat_eq, length, All, if◌then◌else◌,
}
use thruk_mcp.Sorting.{keep}

-- `s <= t` for texts, which compares character by character
unfoldable pub text_leb : String → String → Bool
text_leb String.[] t = true
text_leb (String.◌∷◌ c s) String.[] = false
text_leb (String.◌∷◌ c s) (String.◌∷◌ d t) =
    let rest = text_leb s t in
    if ltb (code c) (code d) then true else if nat_eq (code c) (code d) then rest else false

-- tuples: the second parts count where the first are equal
abbrev pub pair_leb : String × String → String × String → Bool
pair_leb (a, b) (c, d) =
    if text_leb a c then (if text_leb c a then text_leb b d else true) else false

module _ {A : Type 0} (le : A → A → Bool) where
  unfoldable pub insert_by : A → List A → List A
  insert_by x [] = x ∷ []
  insert_by x (y ∷ l) = let rest = insert_by x l in if le x y then x ∷ y ∷ l else y ∷ rest

  -- `sorted(l)`
  unfoldable pub sort_by : List A → List A
  unfolding insert_by
  sort_by [] = []
  sort_by (x ∷ l) = insert_by x (sort_by l)

module _ {A : Type 0} (dec : Discrete A) where
  -- `x in l`
  unfoldable pub member : A → List A → Bool
  member x [] = false
  member x (y ∷ l) = elim (dec x y) [ yes _ ↦ true | no _ ↦ member x l ]

  member-insert_by :
      (le : A → A → Bool) (x y : A) (l : List A) → member x (insert_by le y l) ≡ member x (y ∷ l)
  unfolding member insert_by
  member-insert_by le x y [] = refl
  member-insert_by le x y (z ∷ l) = ground (arith, member-insert_by le x y l)

  pub member-sort_by :
      (le : A → A → Bool) (x : A) (l : List A) → member x (sort_by le l) ≡ member x l
  unfolding member sort_by
  member-sort_by le x [] = refl
  member-sort_by le x (y ∷ l) =
      ground (arith, member-insert_by le x y (sort_by le l), member-sort_by le x l)

  -- how often an element stands in a list
  unfoldable pub occurrences : A → List A → ℕ
  occurrences x [] = 0
  occurrences x (y ∷ l) = elim (dec x y) [ yes _ ↦ 1 + occurrences x l | no _ ↦ occurrences x l ]

  -- `d.get(k, 0)`
  abbrev pub count_of : A → OrderedDict A ℕ → ℕ
  count_of k d = elim (OrderedDict.get dec k d) [ none ↦ 0 | some n ↦ n ]

  -- a loop that counts every element
  unfoldable pub tally : List A → OrderedDict A ℕ → OrderedDict A ℕ
  tally [] d = d
  tally (x ∷ l) d = tally l (set_item dec x (count_of x d + 1) d)

  pub count_of-tally :
      (k : A) (l : List A) (d : OrderedDict A ℕ)
      → count_of k (tally l d) ≡ occurrences k l + count_of k d
  unfolding tally occurrences
  count_of-tally k [] d = omega arith
  count_of-tally k (x ∷ l) d = ground (
    arith,
    count_of-tally k l (set_item dec x (count_of x d + 1) d),
    get-set_item_self dec x (count_of x d + 1) d,
    get-set_item_ne dec x k (count_of x d + 1) d,
  )

-- a stable partition before the order: the elements that pass the test come first
abbrev pub first_leb : {A : Type 0} → (A → Bool) → (A → A → Bool) → A → A → Bool
first_leb p le x y = if p x then (if p y then le x y else true) else (if p y then false else le x y)

module _ {A : Type 0} (p : A → Bool) (le : A → A → Bool) where
  insert_by-All :
      (b : Bool) (x : A) (l : List A)
      → p x ≡ b
      → All (λ y. p y ≡ b) l
      → All (λ y. p y ≡ b) (insert_by (first_leb p le) x l)
  unfolding insert_by
  insert_by-All b x [] h all = (h, tt)
  insert_by-All b x (y ∷ l) h all = ground (arith, h, all, insert_by-All b x l h all.1)

  sort_by-keep-All :
      (b : Bool) (q : A → Bool) (l : List A)
      → ((x : A) → q x ≡ true → p x ≡ b)
      → All (λ y. p y ≡ b) (sort_by (first_leb p le) (keep q l))
  unfolding sort_by keep
  sort_by-keep-All b q [] h = tt
  sort_by-keep-All b q (x ∷ l) h = ground (
    arith,
    h x,
    sort_by-keep-All b q l h,
    insert_by-All b x (sort_by (first_leb p le) (keep q l)),
  )

  insert_by-first :
      (x : A) (l m : List A)
      → p x ≡ true
      → All (λ y. p y ≡ false) m
      → insert_by (first_leb p le) x (l ++ m) ≡ insert_by (first_leb p le) x l ++ m
  unfolding insert_by
  insert_by-first x [] [] h all = refl
  insert_by-first x [] (z ∷ m) h all = ground (arith, h, all.0)
  insert_by-first x (y ∷ l) m h all = ground (arith, insert_by-first x l m h all)

  insert_by-rest :
      (x : A) (l m : List A)
      → p x ≡ false
      → All (λ y. p y ≡ true) l
      → insert_by (first_leb p le) x (l ++ m) ≡ l ++ insert_by (first_leb p le) x m
  unfolding insert_by
  insert_by-rest x [] m h all = refl
  insert_by-rest x (y ∷ l) m h all = ground (arith, insert_by-rest x l m h all.1, h, all.0)

  -- The sorted list is the sorted elements that pass, and behind them those that do not.
  pub sort_by-first :
      (l : List A)
      → sort_by (first_leb p le) l
        ≡ sort_by (first_leb p le) (keep p l) ++ sort_by (first_leb p le) (keep (λ y. not (p y)) l)
  unfolding sort_by keep
  sort_by-first [] = refl
  sort_by-first (x ∷ l) = ground (
    arith,
    sort_by-first l,
    insert_by-first x (sort_by (first_leb p le) (keep p l))
        (sort_by (first_leb p le) (keep (λ y. not (p y)) l)),
    insert_by-rest x (sort_by (first_leb p le) (keep p l))
        (sort_by (first_leb p le) (keep (λ y. not (p y)) l)),
    sort_by-keep-All false (λ y. not (p y)) l (λ y t. ground (arith, t)),
    sort_by-keep-All true p l (λ y t. t),
  )

module _ {A : Type 0} (le : A → A → Bool) where
  length-insert_by : (x : A) (l : List A) → length (insert_by le x l) ≡ 1 + length l
  unfolding insert_by
  length-insert_by x [] = omega arith
  length-insert_by x (y ∷ l) = ground (arith, length-insert_by x l)

  pub length-sort_by : (l : List A) → length (sort_by le l) ≡ length l
  unfolding sort_by
  length-sort_by [] = refl
  length-sort_by (x ∷ l) = omega (arith, length-insert_by x (sort_by le l), length-sort_by l)

module _ {K V : Type 0} (dec : Discrete K) (le : K → K → Bool) where
  -- `dict(sorted(d.items()))`, whose keys differ
  abbrev pub sort_items : OrderedDict K V → OrderedDict K V
  sort_items = sort_by (λ a b. le a.0 b.0)

  get-insert_by :
      (k : K) (e : K × V) (d : OrderedDict K V)
      → OrderedDict.get dec e.0 d ≡ none
      → OrderedDict.get dec k (insert_by (λ a b. le a.0 b.0) e d) ≡ OrderedDict.get dec k (e ∷ d)
  unfolding insert_by lookup
  get-insert_by k e [] h = refl
  get-insert_by k (i, v) ((j, w) ∷ d) h = ground (arith, get-insert_by k (i, v) d, h)

  pub get-sort_items :
      (k : K) (d : OrderedDict K V)
      → IsDict dec d
      → OrderedDict.get dec k (sort_items d) ≡ OrderedDict.get dec k d
  unfolding sort_by lookup
  get-sort_items k [] h = refl
  get-sort_items k ((j, w) ∷ d) h = ground (
    arith,
    get-insert_by k (j, w) (sort_items d),
    get-sort_items j d h.1,
    get-sort_items k d h.1,
    h.0,
  )

module _ {A : Type 0} (dec : Discrete A) where
  IsDict-tally : (l : List A) (d : OrderedDict A ℕ) → IsDict dec d → IsDict dec (tally dec l d)
  unfolding tally
  IsDict-tally [] d h = h
  IsDict-tally (x ∷ l) d h =
      IsDict-tally l (set_item dec x (count_of dec x d + 1) d)
        (IsDict-set_item dec x (count_of dec x d + 1) d h)

  -- A sorted table of counts has how often each element stands in the list.
  pub count_of-sort_items :
      (le : A → A → Bool) (k : A) (l : List A)
      → count_of dec k (sort_items dec le (tally dec l [])) ≡ occurrences dec k l
  unfolding lookup
  count_of-sort_items le k l =
      ap (λ o. elim o [ none ↦ 0 | some n ↦ n ])
        (get-sort_items dec le k (tally dec l []) (IsDict-tally l [] tt))
      ∙ omega (arith, count_of-tally dec k l [])

  occurrences-insert_by :
      {B : Type 0} (le : B → B → Bool) (f : B → A) (k : A) (x : B) (l : List B)
      → occurrences dec k (map f (insert_by le x l)) ≡ occurrences dec k (map f (x ∷ l))
  unfolding occurrences insert_by
  occurrences-insert_by le f k x [] = refl
  occurrences-insert_by le f k x (y ∷ l) = ground (arith, occurrences-insert_by le f k x l)

  pub occurrences-sort_by :
      {B : Type 0} (le : B → B → Bool) (f : B → A) (k : A) (l : List B)
      → occurrences dec k (map f (sort_by le l)) ≡ occurrences dec k (map f l)
  unfolding occurrences sort_by
  occurrences-sort_by le f k [] = refl
  occurrences-sort_by le f k (x ∷ l) =
      ground (arith, occurrences-insert_by le f k x (sort_by le l), occurrences-sort_by le f k l)

pub member-append :
    {A : Type 0} (dec : Discrete A) (x : A) (l m : List A)
    → member dec x (l ++ m) ≡ (member dec x l || member dec x m)
unfolding member
member-append dec x [] m = refl
member-append dec x (y ∷ l) m = ground (arith, member-append dec x l m)

pub member-keep :
    {A : Type 0} (dec : Discrete A) (p : A → Bool) (x : A) (l : List A)
    → member dec x (keep p l) ≡ (p x && member dec x l)
unfolding member keep
member-keep dec p x [] = ground arith
member-keep dec p x (y ∷ l) = ground (arith, member-keep dec p x l, ap p)
