-- ===== src/Reliability/Downtime.antt =====
-- The incidents against the rows they come from: the time an object is down, and the order of its
-- incidents.
use thruk_mcp.Prelude.{
  ℕ, ◌+◌, ◌≡◌, refl, Bool, true, false, Option, none, some, List, [], ◌∷◌, ◌++◌, arith, All, nat_eq,
  if◌then◌else◌,
}
use thruk_mcp.Prelude.Int.{ℤ, pos_part, neg_part, ◌≤ℤ◌}
use thruk_mcp.Reliability.Rows.{Row, LogRow, relevant_rows, time_of, relevant_rows-IsSorted}
use thruk_mcp.Sorting.{IsSorted}
use thruk_mcp.Reliability.{
  elapsed, Incident, incident, Scan, scan_row, scan, close_scan, incidents_of_rows,
  extract_incidents,
}

-- A row is a problem when its state is not zero.
abbrev pub is_problem : Row → Bool
is_problem (t, state) = if nat_eq (pos_part state + neg_part state) 0 then false else true

-- The seconds for which the last row seen is a problem, up to the end of the window; the argument is
-- the time of that row while it is one.
unfoldable pub integral : Option ℤ → List Row → ℤ → ℕ
integral none [] window_end = 0
integral (some p) [] window_end = elapsed p window_end
integral none (r ∷ rows) window_end =
    integral (if is_problem r then some r.0 else none) rows window_end
integral (some p) (r ∷ rows) window_end =
    elapsed p r.0 + integral (if is_problem r then some r.0 else none) rows window_end

-- The seconds from the start of the window to a first row that is a recovery.
abbrev pub leading_seconds : Option ℤ → List Row → ℕ
leading_seconds none rows = 0
leading_seconds (some ws) [] = 0
leading_seconds (some ws) (r ∷ rows) = if is_problem r then 0 else elapsed ws r.0

-- whether the last row is a problem, with the answer for no row at all
unfoldable pub ends_down : Bool → List Row → Bool
ends_down b [] = b
ends_down b (r ∷ rows) = ends_down (is_problem r) rows

abbrev pub seconds : List Incident → ℕ
seconds [] = 0
seconds (i ∷ l) = i.duration_seconds + seconds l

seconds-concat :
    (l : List Incident) (i : Incident) → seconds (l ++ i ∷ []) ≡ seconds l + i.duration_seconds
seconds-concat [] i = omega arith
seconds-concat (j ∷ l) i = omega (arith, seconds-concat l i)

-- The rows from `p` on are in order and within the window.
abbrev pub IsWithin : ℤ → ℤ → List Row → Type 0
IsWithin p window_end [] = p ≤ℤ window_end
IsWithin p window_end (r ∷ rows) = (p ≤ℤ r.0) × IsWithin r.0 window_end rows

-- The state of the scan after a row at `p`: the start of the open incident, if one is.
abbrev pub since : Option ℤ → ℤ → ℕ
since none p = 0
since (some start) p = elapsed start p

abbrev pub IsBefore : Option ℤ → ℤ → Type 0
IsBefore none p = Unit
IsBefore (some start) p = start ≤ℤ p

abbrev pub at_last : Option ℤ → ℤ → Option ℤ
at_last none p = none
at_last (some start) p = some p

abbrev pub scanned : List Incident → Option ℤ → Scan
scanned l open_since = record { incidents = l; open_since = open_since; first = false }

IsWithin-sorted :
    (p window_end : ℤ) (rows : List Row)
    → p ≤ℤ window_end
    → All (λ q. p ≤ℤ time_of q) rows
    → IsSorted time_of rows
    → All (λ (q : Row). q.0 ≤ℤ window_end) rows
    → IsWithin p window_end rows
IsWithin-sorted p window_end [] h above sorted within = h
IsWithin-sorted p window_end (r ∷ rows) h above sorted within =
    (above.0, IsWithin-sorted r.0 window_end rows within.0 sorted.0 sorted.1 within.1)

module _ (window_start : Option ℤ) (window_end : ℤ) where
  seconds-scan :
      (rows : List Row) (l : List Incident) (o : Option ℤ) (p : ℤ)
      → IsBefore o p
      → IsWithin p window_end rows
      → seconds
          (close_scan window_start window_end (scan window_start window_end rows (scanned l o)))
        ≡ seconds l + since o p + integral (at_last o p) rows window_end
  unfolding scan close_scan scan_row integral incident
  seconds-scan [] l none p le h = ground arith
  seconds-scan [] l (some start) p le h =
      ground (arith, seconds-concat l (incident start none window_end))
  seconds-scan ((t, state) ∷ rows) l none p le h =
      ground
        (arith, seconds-scan rows l none t tt h.1, seconds-scan rows l (some t) t (omega arith) h.1)
  seconds-scan ((t, state) ∷ rows) l (some start) p le h = ground (
    arith,
    h.0,
    seconds-concat l (incident start (some t) window_end),
    seconds-scan rows l (some start) t (omega (arith, le, h.0)) h.1,
    seconds-scan rows (l ++ incident start (some t) window_end ∷ []) none t tt h.1,
  )

seconds-incidents_of_rows :
    (window_start : Option ℤ) (window_end : ℤ) (rows : List Row)
    → IsSorted time_of rows
    → All (λ (q : Row). q.0 ≤ℤ window_end) rows
    → seconds (incidents_of_rows window_start window_end rows)
      ≡ leading_seconds window_start rows + integral none rows window_end
unfolding incidents_of_rows scan close_scan scan_row integral incident
seconds-incidents_of_rows none window_end [] sorted within = refl
seconds-incidents_of_rows (some ws) window_end [] sorted within = refl
seconds-incidents_of_rows none window_end ((t, state) ∷ rows) sorted within =
    let w = IsWithin-sorted t window_end rows within.0 sorted.0 sorted.1 within.1 in
    ground (
      arith,
      seconds-scan none window_end rows [] none t tt w,
      seconds-scan none window_end rows [] (some t) t (omega arith) w,
    )
seconds-incidents_of_rows (some ws) window_end ((t, state) ∷ rows) sorted within =
    let w = IsWithin-sorted t window_end rows within.0 sorted.0 sorted.1 within.1 in
    ground (
      arith,
      seconds-scan (some ws) window_end rows (incident ws (some t) window_end ∷ []) none t tt w,
      seconds-scan (some ws) window_end rows [] (some t) t (omega arith) w,
    )

-- The durations of the incidents add up to the time for which the last row seen is a problem, from
-- the first row to the end of the window, and the time before a first row that is a recovery. The
-- condition is that no row is later than the end of the window.
pub seconds-extract_incidents :
    (window_start : Option ℤ) (window_end : ℤ) (entries : List LogRow)
    → All (λ (q : Row). q.0 ≤ℤ window_end) (relevant_rows entries)
    → seconds (extract_incidents window_start window_end entries)
      ≡ leading_seconds window_start (relevant_rows entries)
        + integral none (relevant_rows entries) window_end
unfolding extract_incidents
seconds-extract_incidents window_start window_end entries within =
    seconds-incidents_of_rows window_start window_end (relevant_rows entries)
      (relevant_rows-IsSorted entries) within
