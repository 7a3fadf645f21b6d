-- ===== src/Sorting.antt =====
-- `sorted` and `list.sort` by an integer key, which are stable, and lists filtered by a test.
use thruk_mcp.Prelude.{
  ◌+◌, ◌≡◌, refl, ap, Bool, true, false, not, List, [], ◌∷◌, ◌++◌, arith, All, length,
  if◌then◌else◌,
}
use thruk_mcp.Prelude.Int.{ℤ, ◌≤ℤ◌, leb_ℤ}

-- `rows.sort(key=key)`, which is stable: an element goes before the first one whose key is not less
unfoldable pub insert {ℓ} : {A : Type ℓ} → (A → ℤ) → A → List A → List A
insert key x [] = x ∷ []
insert key x (y ∷ l) =
    let rest = insert key x l in if leb_ℤ (key x) (key y) then x ∷ y ∷ l else y ∷ rest

unfoldable pub sort {ℓ} : {A : Type ℓ} → (A → ℤ) → List A → List A
unfolding insert
sort key [] = []
sort key (x ∷ l) = insert key x (sort key l)

-- The elements come in the order of their keys.
abbrev pub IsSorted {ℓ} : {A : Type ℓ} → (A → ℤ) → List A → Type 0
IsSorted key [] = Unit
IsSorted key (x ∷ l) = All (λ y. key x ≤ℤ key y) l × IsSorted key l

module _ {ℓ} {A : Type ℓ} (key : A → ℤ) where
  insert-All :
      (t : ℤ) (x : A) (l : List A)
      → t ≤ℤ key x
      → All (λ y. t ≤ℤ key y) l
      → All (λ y. t ≤ℤ key y) (insert key x l)
  unfolding insert
  insert-All t x [] h all = (h, tt)
  insert-All t x (y ∷ l) h all = ground (arith, insert-All t x l h all.1, all)

  All-trans : (s t : ℤ) (l : List A) → s ≤ℤ t → All (λ y. t ≤ℤ key y) l → All (λ y. s ≤ℤ key y) l
  All-trans s t [] h all = tt
  All-trans s t (y ∷ l) h all = (omega (arith, all.0), All-trans s t l h all.1)

  insert-IsSorted : (x : A) (l : List A) → IsSorted key l → IsSorted key (insert key x l)
  unfolding insert
  insert-IsSorted x [] h = (tt, tt)
  insert-IsSorted x (y ∷ l) h =
      ground
        (arith, h, insert-IsSorted x l h.1, insert-All (key y) x l, All-trans (key x) (key y) l)

  pub sort-IsSorted : (l : List A) → IsSorted key (sort key l)
  unfolding sort
  sort-IsSorted [] = tt
  sort-IsSorted (x ∷ l) = insert-IsSorted x (sort key l) (sort-IsSorted l)

-- `[x for x in l if test(x)]`
unfoldable pub keep {ℓ} : {A : Type ℓ} → (A → Bool) → List A → List A
keep test [] = []
keep test (x ∷ l) = let rest = keep test l in if test x then x ∷ rest else rest

module _ {A : Type 0} where
  pub keep-append : (p : A → Bool) (l m : List A) → keep p (l ++ m) ≡ keep p l ++ keep p m
  unfolding keep
  keep-append p [] m = refl
  keep-append p (x ∷ l) m = ground (arith, keep-append p l m)

  pub keep_all : (l : List A) → keep (λ x. true) l ≡ l
  unfolding keep
  keep_all [] = refl
  keep_all (x ∷ l) = ap (λ t. x ∷ t) (keep_all l)

  -- what is kept passes the test
  pub keep_holds : (p : A → Bool) (l : List A) → All (λ x. p x ≡ true) (keep p l)
  unfolding keep
  keep_holds p [] = tt
  keep_holds p (x ∷ l) = ground (arith, keep_holds p l)

  -- a test splits a list
  pub length-keep :
      (p : A → Bool) (l : List A) → length (keep p l) + length (keep (λ x. not (p x)) l) ≡ length l
  unfolding keep
  length-keep p [] = omega arith
  length-keep p (x ∷ l) = ground (arith, length-keep p l)

  -- the stricter of two tests is enough
  pub keep-keep :
      (p q : A → Bool) (l : List A)
      → ((x : A) → p x ≡ true → q x ≡ true)
      → keep p (keep q l) ≡ keep p l
  unfolding keep
  keep-keep p q [] h = refl
  keep-keep p q (x ∷ l) h = ground (arith, h x, keep-keep p q l h)

  pub keep_comm : (p q : A → Bool) (l : List A) → keep p (keep q l) ≡ keep q (keep p l)
  unfolding keep
  keep_comm p q [] = refl
  keep_comm p q (x ∷ l) = ground (arith, keep_comm p q l)

module _ {A : Type 0} (key : A → ℤ) where
  insert_below : (x : A) (l : List A) → All (λ y. key x ≤ℤ key y) l → insert key x l ≡ x ∷ l
  unfolding insert
  insert_below x [] h = refl
  insert_below x (y ∷ l) h = ground (arith, h.0)

  keep-All :
      (t : ℤ) (p : A → Bool) (l : List A)
      → All (λ y. t ≤ℤ key y) l
      → All (λ y. t ≤ℤ key y) (keep p l)
  unfolding keep
  keep-All t p [] h = tt
  keep-All t p (x ∷ l) h = ground (arith, h.0, keep-All t p l h.1)

  keep-insert :
      (p : A → Bool) (x : A) (l : List A)
      → IsSorted key l
      → keep p (insert key x l) ≡ (if p x then insert key x (keep p l) else keep p l)
  unfolding keep insert
  keep-insert p x [] h = ground arith
  keep-insert p x (y ∷ l) h = ground (
    arith,
    keep-insert p x l h.1,
    insert_below x (keep p l),
    keep-All (key x) p l,
    All-trans key (key x) (key y) l,
    h.0,
  )

  -- Filtering and sorting can change places.
  pub keep-sort : (p : A → Bool) (l : List A) → keep p (sort key l) ≡ sort key (keep p l)
  unfolding keep sort
  keep-sort p [] = refl
  keep-sort p (x ∷ l) =
      ground (arith, keep-insert p x (sort key l) (sort-IsSorted key l), keep-sort p l)

  abbrev pub up_to : ℤ → A → Bool
  up_to t x = leb_ℤ (key x) t

  keep_above :
      (t : ℤ) (l : List A) (u : ℤ)
      → All (λ y. u ≤ℤ key y) l
      → leb_ℤ u t ≡ false
      → keep (up_to t) l ≡ []
  unfolding keep
  keep_above t [] u h above = refl
  keep_above t (x ∷ l) u h above = ground (arith, h.0, keep_above t l u h.1 above)

  -- A sorted list is its part up to a time and its part after it.
  pub sorted_split :
      (t : ℤ) (l : List A) → IsSorted key l → l ≡ keep (up_to t) l ++ keep (λ x. not (up_to t x)) l
  unfolding keep
  sorted_split t [] h = refl
  sorted_split t (x ∷ l) h = ground (arith, sorted_split t l h.1, keep_above t l (key x) h.0)
