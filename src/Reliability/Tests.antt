-- ===== src/Reliability/Tests.antt =====
-- Witnesses and tests of the reliability metrics: a host whose alerts come out of order.
use thruk_mcp.Prelude.{
  ℕ, String, ◌≡◌, refl, ap, ◌<◌, true, false, none, some, List, [], ◌∷◌, arith, length, ◌≤◌, ◌+◌,
  All,
}
use thruk_mcp.Prelude.Int.{ℤ, pos, ◌≤ℤ◌}
use thruk_mcp.Prelude.Text.{strip, upper, to_int}
use thruk_mcp.Reliability.Rows.{
  text, int, LogRow, Row, relevant_rows, rows_of, row_of, is_hard, is_alert, coerce_int,
}
use thruk_mcp.Sorting.{sort, insert}
use thruk_mcp.Reliability.Downtime.{integral, leading_seconds, ends_down}
use thruk_mcp.Reliability.Order.{IsChain, IsWithin, any_ongoing, extract_incidents-IsChain}
use thruk_mcp.Reliability.Summary.{
  summarize_reliability, summary_of, recovered, ended_seconds, ended_count, longest, mttr, mtbf,
  round_div, gaps, sum, starts, IsBelow, IsRounded, IsMeanGap, summarize_reliability-downtime,
  summary_of-means,
}
use thruk_mcp.Reliability.{
  Incident, incident, extract_incidents, incidents_of_rows, scan, scan_row, close_scan,
}

abbrev alert : String → ℤ → ℤ → LogRow
alert state_type time state = record {
  type = text "HOST ALERT";
  state_type = text state_type;
  time = int time;
  state = int state;
}

abbrev entries : List LogRow
entries =
    alert "HARD" (pos 30) (pos 1)
    ∷ alert "HARD" (pos 10) (pos 0)
    ∷ alert " hard " (pos 50) (pos 0)
    ∷ alert "SOFT" (pos 60) (pos 1)
    ∷ alert "HARD" (pos 80) (pos 2)
    ∷ alert "HARD" (pos 85) (pos 1)
    ∷ []

entries-rows :
    relevant_rows entries
    ≡ (pos 10, pos 0) ∷ (pos 30, pos 1) ∷ (pos 50, pos 0) ∷ (pos 80, pos 2) ∷ (pos 85, pos 1) ∷ []
unfolding relevant_rows rows_of row_of sort insert is_hard is_alert coerce_int strip upper to_int
entries-rows = refl

abbrev rows : List Row
rows = (pos 10, pos 0) ∷ (pos 30, pos 1) ∷ (pos 50, pos 0) ∷ (pos 80, pos 2) ∷ (pos 85, pos 1) ∷ []

abbrev found : List Incident
found =
    incident (pos 0) (some (pos 10)) (pos 100)
    ∷ incident (pos 30) (some (pos 50)) (pos 100)
    ∷ incident (pos 80) none (pos 100)
    ∷ []

extracted : extract_incidents (some (pos 0)) (pos 100) entries ≡ found
unfolding extract_incidents incidents_of_rows scan scan_row close_scan incident
extracted = ap (incidents_of_rows (some (pos 0)) (pos 100)) entries-rows

summarized : summary_of found ≡ record {
  incidents = 3;
  mttr_seconds = some 15;
  mtbf_seconds = some 40;
  total_downtime_seconds = 50;
  longest_incident_seconds = 20;
  ongoing = true;
}
unfolding summary_of recovered longest mttr mtbf round_div gaps sum starts sort insert any_ongoing
    incident
summarized = refl

entries-within : All (λ (q : Row). q.0 ≤ℤ pos 100) (relevant_rows entries)
entries-within =
    rw entries-rows (omega arith, (omega arith, (omega arith, (omega arith, (omega arith, tt)))))

entries-IsWithin : IsWithin (some (pos 0)) (relevant_rows entries)
entries-IsWithin =
    rw entries-rows (omega arith, (omega arith, (omega arith, (omega arith, (omega arith, tt)))))

extract_incidents-IsChain_example :
    (from : ℤ) × (IsChain from (extract_incidents (some (pos 0)) (pos 100) entries)
      × (any_ongoing (extract_incidents (some (pos 0)) (pos 100) entries)
          ≡ ends_down false (relevant_rows entries)))
extract_incidents-IsChain_example =
    extract_incidents-IsChain (some (pos 0)) (pos 100) entries entries-IsWithin

summarize_reliability-downtime_example :
    ((summarize_reliability (some (pos 0)) (pos 100) entries).total_downtime_seconds
      ≡ leading_seconds (some (pos 0)) (relevant_rows entries)
        + integral none (relevant_rows entries) (pos 100))
    × ((summarize_reliability (some (pos 0)) (pos 100) entries).ongoing
        ≡ ends_down false (relevant_rows entries))
    × IsBelow
        (summarize_reliability (some (pos 0)) (pos 100) entries).longest_incident_seconds
        (extract_incidents (some (pos 0)) (pos 100) entries)
    × ((summarize_reliability (some (pos 0)) (pos 100) entries).longest_incident_seconds
        ≤ (summarize_reliability (some (pos 0)) (pos 100) entries).total_downtime_seconds)
summarize_reliability-downtime_example =
    summarize_reliability-downtime (some (pos 0)) (pos 100) entries entries-within

two_recovered : 0 < ended_count found
unfolding incident
two_recovered = omega arith

summary_of-means_example :
    ((m : ℕ) × ((summary_of found).mttr_seconds ≡ some m)
      × IsRounded m (ended_seconds found) (ended_count found))
    × ((m : ℕ) × ((summary_of found).mtbf_seconds ≡ some m)
        × IsMeanGap (starts found) (length found) m)
summary_of-means_example = summary_of-means found two_recovered (omega arith)
