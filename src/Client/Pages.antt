-- ===== src/Client/Pages.antt =====
-- `get_all` of src/thruk_mcp/client.py: the pages of a list endpoint, one after the other.
use thruk_mcp.Prelude.{
  ℕ, zero, suc, ◌+◌, ◌-◌, ◌≤◌, ◌<◌, String, ◌≡◌, refl, sym, ap, ◌∙◌, Bool, true, false, List, [],
  ◌∷◌, ◌++◌, arith, leb, ltb, length, take, drop, if◌then◌else◌, length-take, take_all, take_short,
  take-take, take-drop, drop-drop,
}

-- What a `get` of one page gives.
pub data Page {ℓ} (R : Type ℓ) : Type ℓ where
  rows : List R → Page R
  not_rows : Page R
  failed : String → Page R

-- How the generator ends: it is through, or the ThrukError of a request leaves it.
pub data Ending : Type 0 where
  finished : Ending
  raised : String → Ending

-- The rows yielded, their count and whether the generator returns.
pub record Yielded {ℓ} (R : Type ℓ) : Type ℓ where
  pub out : List R
  pub yielded : ℕ
  pub returns : Bool

module _ {R : Type 0} (page_size hard_limit : ℕ) where
  -- `for row in page`
  unfoldable pub yield_rows : List R → ℕ → Yielded R
  yield_rows [] yielded = record { out = []; yielded = yielded; returns = false }
  yield_rows (row ∷ page) yielded =
      let rest = yield_rows page (yielded + 1) in
      if leb hard_limit (yielded + 1)
      then record { out = row ∷ []; yielded = yielded + 1; returns = true }
      else record rest { out = row ∷ rest.out }

  -- `while yielded < hard_limit`; a round that goes on has yielded a row, so that `hard_limit` rounds
  -- are enough
  unfoldable pub pages : (ℕ → ℕ → Page R) → ℕ → ℕ → ℕ → List R × Ending
  unfolding yield_rows
  pages get zero offset yielded = ([], finished)
  pages get (suc fuel) offset yielded = elim (ltb yielded hard_limit) [
    | false ↦ ([], finished)
    | true ↦ elim (get page_size offset) [
      | failed e ↦ ([], raised e)
      | not_rows ↦ ([], finished)
      | rows [] ↦ ([], finished)
      | rows (row ∷ page) ↦
          let y = yield_rows (row ∷ page) yielded in
          let (out, ending) = pages get fuel (offset + page_size) y.yielded in
          if y.returns
          then (y.out, finished)
          else if ltb (length (row ∷ page)) page_size
          then (y.out, finished)
          else (y.out ++ out, ending)
    ]
  ]

  -- `get_all`
  unfoldable pub get_all : (ℕ → ℕ → Page R) → ℕ → List R × Ending
  unfolding pages take
  get_all get offset = pages get hard_limit offset 0

  yield_rows-take :
      (page : List R) (yielded n : ℕ)
      → hard_limit ≡ yielded + suc n
      → ((yield_rows page yielded).out ≡ take (suc n) page)
        × ((yield_rows page yielded).returns ≡ leb (suc n) (length page))
        × ((yield_rows page yielded).returns ≡ false
            → (yield_rows page yielded).yielded ≡ yielded + length page)
  unfolding yield_rows take
  yield_rows-take [] yielded n h = ground arith
  yield_rows-take (row ∷ page) yielded zero h = ground (arith, h)
  yield_rows-take (row ∷ page) yielded (suc n) h =
      ground (arith, h, yield_rows-take page (yielded + 1) n (omega (arith, h)))

  cut_short : (p d : List R) (n : ℕ) → p ≡ take page_size d → n ≤ length p → take n p ≡ take n d
  cut_short p d n e le =
      rw e (take-take n page_size d (omega (arith, le, ap length e, length-take page_size d)))

  last_page :
      (p d : List R) (n : ℕ)
      → p ≡ take page_size d
      → length p < page_size
      → length p < n
      → take n p ≡ take n d
  last_page p d n e short lt =
      ap (take n) (e ∙ take_short page_size d (omega (arith, ap length e, short)))

  full_page :
      (p all : List R) (offset n : ℕ)
      → p ≡ take page_size (drop offset all)
      → page_size ≤ n
      → p ++ take (n - page_size) (drop (offset + page_size) all) ≡ take n (drop offset all)
  full_page p all offset n e le =
      rw (e, sym (drop-drop page_size offset all))
        (take-drop page_size (n - page_size) (drop offset all)
          ∙ ap (λ k. take k (drop offset all)) (omega (arith, le)))

  pages-round :
      (get : ℕ → ℕ → Page R) (all page : List R) (fuel offset yielded n : ℕ)
      → page ≡ take page_size (drop offset all)
      → get page_size offset ≡ rows page
      → 0 < page_size
      → hard_limit ≡ yielded + suc n
      → n ≤ fuel
      → ((o y k : ℕ)
          → hard_limit ≡ y + k
          → k ≤ fuel
          → pages get fuel o y ≡ (take k (drop o all), finished))
      → pages get (suc fuel) offset yielded ≡ (take (suc n) (drop offset all), finished)
  unfolding pages take
  pages-round get all [] fuel offset yielded n is_page got positive h le later =
      ground
        (arith, h, got, take_short page_size (drop offset all), take_all (suc n) (drop offset all))
  pages-round get all (row ∷ page) fuel offset yielded n is_page got positive h le later =
      let d = drop offset all in
      let y = yield_rows-take (row ∷ page) yielded n h in
      let size = length-take page_size d in
      let rest =
        later (offset + page_size) (yield_rows (row ∷ page) yielded).yielded (suc n - page_size) in
      ground (
        arith,
        h,
        got,
        y,
        size,
        ap length is_page,
        cut_short (row ∷ page) d (suc n) is_page,
        last_page (row ∷ page) d (suc n) is_page,
        take_all (suc n) (row ∷ page),
        full_page (row ∷ page) all offset (suc n) is_page,
        rest,
      )

  pages-take :
      (get : ℕ → ℕ → Page R) (all : List R)
      → ((limit offset : ℕ) → get limit offset ≡ rows (take limit (drop offset all)))
      → 0 < page_size
      → (fuel offset yielded n : ℕ) → hard_limit ≡ yielded + n
      → n ≤ fuel
      → pages get fuel offset yielded ≡ (take n (drop offset all), finished)
  unfolding pages take
  pages-take get all served positive zero offset yielded zero h le = refl
  pages-take get all served positive zero offset yielded (suc n) h le = absurd (omega (arith, le))
  pages-take get all served positive (suc fuel) offset yielded zero h le = ground (arith, h)
  pages-take get all served positive (suc fuel) offset yielded (suc n) h le =
      pages-round get all (take page_size (drop offset all)) fuel offset yielded n refl
        (served page_size offset) positive h (omega (arith, le))
        (λ o y k e less. pages-take get all served positive fuel o y k e less)

  -- From a server that answers a limit and an offset with that part of a list, `get_all` yields, in
  -- order, the rows of the list from the offset on, `hard_limit` of them at most, and ends without an
  -- error; the condition is that a page has room for a row.
  pub get_all-take :
      (get : ℕ → ℕ → Page R) (all : List R) (offset : ℕ)
      → ((limit o : ℕ) → get limit o ≡ rows (take limit (drop o all)))
      → 0 < page_size
      → get_all get offset ≡ (take hard_limit (drop offset all), finished)
  unfolding get_all
  get_all-take get all offset served positive =
      pages-take get all served positive hard_limit offset 0 hard_limit (omega arith) (omega arith)
