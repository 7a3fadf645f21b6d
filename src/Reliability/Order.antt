-- ===== src/Reliability/Order.antt =====
-- The order of the incidents of one object, and the one that is still open.
use thruk_mcp.Prelude.{
  ◌≡◌, refl, Bool, true, false, ◌||◌, Option, none, some, List, [], ◌∷◌, ◌++◌, arith, All,
  if◌then◌else◌, append_assoc, append-nil,
}
use thruk_mcp.Prelude.Int.{ℤ, pos, ◌≤ℤ◌}
use thruk_mcp.Reliability.Rows.{Row, LogRow, relevant_rows, time_of, relevant_rows-IsSorted}
use thruk_mcp.Sorting.{IsSorted}
use thruk_mcp.Reliability.Downtime.{is_problem, ends_down, scanned}
use thruk_mcp.Reliability.{
  Incident, incident, scan_row, scan, close_scan, incidents_of_rows, extract_incidents,
}

-- No incident starts before the last one has ended or ends before it has started, none comes after
-- one that is open, and an incident is marked as ongoing just when it has no end.
unfoldable pub IsChain : ℤ → List Incident → Type 0
IsChain from [] = Unit
IsChain from (i ∷ l) = (from ≤ℤ i.start) × elim i.end [
  | none ↦ (i.ongoing ≡ true) × (l ≡ [])
  | some end ↦ (i.ongoing ≡ false) × (i.start ≤ℤ end) × IsChain end l
]

-- `any(inc["ongoing"] for inc in incidents)`
unfoldable pub any_ongoing : List Incident → Bool
any_ongoing [] = false
any_ongoing (i ∷ l) = i.ongoing || any_ongoing l

any_ongoing-concat : (l m : List Incident) → any_ongoing (l ++ m) ≡ any_ongoing l || any_ongoing m
unfolding any_ongoing
any_ongoing-concat [] m = refl
any_ongoing-concat (i ∷ l) m = ground (arith, any_ongoing-concat l m)

-- No row is before the start of the window, where it has one.
abbrev pub IsWithin : Option ℤ → List Row → Type 0
IsWithin none rows = Unit
IsWithin (some ws) rows = All (λ q. ws ≤ℤ time_of q) rows

-- The rows come at `p` or later, in order.
abbrev pub IsFrom : ℤ → List Row → Type 0
IsFrom p [] = Unit
IsFrom p (r ∷ rows) = (p ≤ℤ r.0) × IsFrom r.0 rows

IsFrom-sorted :
    (p : ℤ) (rows : List Row)
    → All (λ q. p ≤ℤ time_of q) rows
    → IsSorted time_of rows
    → IsFrom p rows
IsFrom-sorted p [] above sorted = tt
IsFrom-sorted p (r ∷ rows) above sorted = (above.0, IsFrom-sorted r.0 rows sorted.0 sorted.1)

-- the start of the open incident, if one is, lies between the two times
abbrev Opened : ℤ → Option ℤ → ℤ → Type 0
Opened from none p = Unit
Opened from (some start) p = (from ≤ℤ start) × (start ≤ℤ p)

is_open : Option ℤ → Bool
is_open none = false
is_open (some start) = true

module _ (window_start : Option ℤ) (window_end : ℤ) where
  rest_of : List Row → Option ℤ → List Incident
  rest_of rows o =
      close_scan window_start window_end (scan window_start window_end rows (scanned [] o))

  -- the incidents found so far stay at the front
  scan-accumulates :
      (rows : List Row) (l : List Incident) (o : Option ℤ)
      → close_scan window_start window_end (scan window_start window_end rows (scanned l o))
        ≡ l ++ rest_of rows o
  unfolding scan close_scan scan_row rest_of
  scan-accumulates [] l none = ground (arith, append-nil l)
  scan-accumulates [] l (some start) = refl
  scan-accumulates ((t, state) ∷ rows) l none =
      ground (arith, scan-accumulates rows l none, scan-accumulates rows l (some t))
  scan-accumulates ((t, state) ∷ rows) l (some start) =
      let i = incident start (some t) window_end in
      ground (
        arith,
        scan-accumulates rows l (some start),
        scan-accumulates rows (l ++ i ∷ []) none,
        scan-accumulates rows (i ∷ []) none,
        append_assoc l (i ∷ []) (rest_of rows none),
      )

  rest_of-IsChain :
      (rows : List Row) (o : Option ℤ) (from p : ℤ)
      → from ≤ℤ p
      → Opened from o p
      → IsFrom p rows
      → IsChain from (rest_of rows o) × (any_ongoing (rest_of rows o) ≡ ends_down (is_open o) rows)
  unfolding scan close_scan scan_row rest_of IsChain any_ongoing incident is_open ends_down
  rest_of-IsChain [] none from p le h later = (tt, refl)
  rest_of-IsChain [] (some start) from p le h later = ((h.0, (refl, refl)), refl)
  rest_of-IsChain ((t, state) ∷ rows) none from p le h later = ground (
    arith,
    later,
    rest_of-IsChain rows none from t (omega (arith, le, later.0)) tt later.1,
    rest_of-IsChain rows (some t) from t,
  )
  rest_of-IsChain ((t, state) ∷ rows) (some start) from p le h later = ground (
    arith,
    h,
    later,
    rest_of-IsChain rows (some start) from t,
    scan-accumulates rows (incident start (some t) window_end ∷ []) none,
    rest_of-IsChain rows none t t (omega arith) tt later.1,
  )

incidents_of_rows-ongoing :
    (window_start : Option ℤ) (window_end : ℤ) (rows : List Row)
    → IsSorted time_of rows
    → any_ongoing (incidents_of_rows window_start window_end rows) ≡ ends_down false rows
unfolding incidents_of_rows scan close_scan scan_row rest_of any_ongoing incident is_open ends_down
incidents_of_rows-ongoing none window_end [] sorted = refl
incidents_of_rows-ongoing (some ws) window_end [] sorted = refl
incidents_of_rows-ongoing none window_end ((t, state) ∷ rows) sorted =
    let later = IsFrom-sorted t rows sorted.0 sorted.1 in
    ground (
      arith,
      (rest_of-IsChain none window_end rows none t t (omega arith) tt later).1,
      (rest_of-IsChain none window_end rows (some t) t t (omega arith) (omega arith, omega arith)
          later).1,
    )
incidents_of_rows-ongoing (some ws) window_end ((t, state) ∷ rows) sorted =
    let later = IsFrom-sorted t rows sorted.0 sorted.1 in
    ground (
      arith,
      (rest_of-IsChain (some ws) window_end rows none t t (omega arith) tt later).1,
      (rest_of-IsChain (some ws) window_end rows (some t) t t (omega arith)
          (omega arith, omega arith) later).1,
      scan-accumulates (some ws) window_end rows (incident ws (some t) window_end ∷ []) none,
    )

incidents_of_rows-IsChain :
    (window_start : Option ℤ) (window_end : ℤ) (rows : List Row)
    → IsSorted time_of rows
    → IsWithin window_start rows
    → (from : ℤ) × (IsChain from (incidents_of_rows window_start window_end rows)
        × (any_ongoing (incidents_of_rows window_start window_end rows) ≡ ends_down false rows))
unfolding incidents_of_rows scan close_scan scan_row rest_of IsChain any_ongoing incident is_open
    ends_down
incidents_of_rows-IsChain none window_end [] sorted in_window = (pos 0, (tt, refl))
incidents_of_rows-IsChain (some ws) window_end [] sorted in_window = (pos 0, (tt, refl))
incidents_of_rows-IsChain none window_end ((t, state) ∷ rows) sorted in_window =
    let later = IsFrom-sorted t rows sorted.0 sorted.1 in
    (
      t,
      ground (
        arith,
        rest_of-IsChain none window_end rows none t t (omega arith) tt later,
        rest_of-IsChain none window_end rows (some t) t t (omega arith) (omega arith, omega arith)
            later,
      ),
    )
incidents_of_rows-IsChain (some ws) window_end ((t, state) ∷ rows) sorted in_window =
    let later = IsFrom-sorted t rows sorted.0 sorted.1 in
    (
      (if is_problem (t, state) then t else ws),
      ground (
        arith,
        rest_of-IsChain (some ws) window_end rows none t t (omega arith) tt later,
        rest_of-IsChain (some ws) window_end rows (some t) t t (omega arith)
            (omega arith, omega arith) later,
        in_window.0,
        scan-accumulates (some ws) window_end rows (incident ws (some t) window_end ∷ []) none,
      ),
    )

-- An incident is ongoing just when the last row that counts is a problem.
pub extract_incidents-ongoing :
    (window_start : Option ℤ) (window_end : ℤ) (entries : List LogRow)
    → any_ongoing (extract_incidents window_start window_end entries)
      ≡ ends_down false (relevant_rows entries)
unfolding extract_incidents
extract_incidents-ongoing window_start window_end entries =
    incidents_of_rows-ongoing window_start window_end (relevant_rows entries)
      (relevant_rows-IsSorted entries)

-- Where no row that counts is before the start of the window, the incidents of one object stand in the
-- order of time and do not overlap, none ends before it has started, an incident is marked as ongoing
-- just when it has no end, none comes after such a one, and there is such a one just when the last row
-- that counts is a problem.
pub extract_incidents-IsChain :
    (window_start : Option ℤ) (window_end : ℤ) (entries : List LogRow)
    → IsWithin window_start (relevant_rows entries)
    → (from : ℤ) × (IsChain from (extract_incidents window_start window_end entries)
        × (any_ongoing (extract_incidents window_start window_end entries)
            ≡ ends_down false (relevant_rows entries)))
unfolding extract_incidents
extract_incidents-IsChain window_start window_end entries in_window =
    incidents_of_rows-IsChain window_start window_end (relevant_rows entries)
      (relevant_rows-IsSorted entries) in_window
