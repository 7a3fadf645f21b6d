-- ===== src/Reliability.antt =====
-- src/thruk_mcp/reliability.py: one object's log rows reduced to incidents and their metrics.
pub mod Rows
pub mod Downtime
pub mod Order
pub mod Summary
mod Tests
use thruk_mcp.Prelude.{
  ℕ, ◌+◌, ◌-◌, ◌*◌, ◌/◌, ◌%◌, Bool, true, false, not, ◌&&◌, ◌||◌, Option, none, some, List, [], ◌∷◌,
  ◌++◌, ltb, nat_eq, length, if◌then◌else◌,
}
use thruk_mcp.Prelude.Int.{ℤ, pos, pos_part, neg_part, leb_ℤ}
use thruk_mcp.Reliability.Rows.{Row, LogRow, relevant_rows}

-- `max(0, b - a)`
abbrev pub elapsed : ℤ → ℤ → ℕ
elapsed a b = (pos_part b + neg_part a) - (pos_part a + neg_part b)

pub record Incident : Type 0 where
  pub start : ℤ
  pub end : Option ℤ
  pub ongoing : Bool
  pub duration_seconds : ℕ

-- `_incident`
unfoldable pub incident : ℤ → Option ℤ → ℤ → Incident
incident start none window_end = record {
  start = start;
  end = none;
  ongoing = true;
  duration_seconds = elapsed start window_end;
}
incident start (some end) window_end = record {
  start = start;
  end = some end;
  ongoing = false;
  duration_seconds = elapsed start end;
}

-- The loop's variables; `start` is set exactly while `in_incident`, so one field has both.
pub record Scan : Type 0 where
  pub incidents : List Incident
  pub open_since : Option ℤ
  pub first : Bool

-- one round of the loop
module _ (window_start : Option ℤ) (window_end : ℤ) where
  problem : ℤ → Scan → Scan
  problem t s = elim s.open_since [
    | none ↦ record s { open_since = some t; first = false }
    | some _ ↦ record s { first = false }
  ]

  -- a leading recovery closes an incident that began before the window
  leading : ℤ → Scan → Scan
  leading t s = elim window_start [
    | none ↦ record s { first = false }
    | some ws ↦
        if s.first
        then record s {
          incidents = s.incidents ++ incident ws (some t) window_end ∷ [];
          first = false;
        }
        else s
  ]

  recovery : ℤ → Scan → Scan
  recovery t s = elim s.open_since [
    | none ↦ leading t s
    | some start ↦ record s {
      incidents = s.incidents ++ incident start (some t) window_end ∷ [];
      open_since = none;
      first = false;
    }
  ]

  unfoldable pub scan_row : Row → Scan → Scan
  unfolding problem leading recovery
  scan_row (t, state) s =
      if nat_eq (pos_part state + neg_part state) 0 then recovery t s else problem t s

  unfoldable pub scan : List Row → Scan → Scan
  scan [] s = s
  scan (r ∷ rows) s = scan rows (scan_row r s)

  -- an unrecovered incident
  unfoldable pub close_scan : Scan → List Incident
  close_scan s = elim s.open_since [
    | none ↦ s.incidents
    | some start ↦ s.incidents ++ incident start none window_end ∷ []
  ]

  unfoldable pub incidents_of_rows : List Row → List Incident
  unfolding scan close_scan
  incidents_of_rows rows =
      close_scan (scan rows (record { incidents = []; open_since = none; first = true }))

  -- `extract_incidents`
  unfoldable pub extract_incidents : List LogRow → List Incident
  unfolding incidents_of_rows
  extract_incidents entries = incidents_of_rows (relevant_rows entries)
