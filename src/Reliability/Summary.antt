-- ===== src/Reliability/Summary.antt =====
-- `summarize_reliability` of src/thruk_mcp/reliability.py: the metrics of one object.
use mathlib.Core.Path.{subst₂}
use native.Mathlib.Nat.{div-add-mod', mod-lt, add-mul}
use thruk_mcp.Prelude.{
  ℕ, suc, ◌+◌, ◌*◌, ◌/◌, ◌%◌, ◌≤◌, ◌<◌, ◌≡◌, refl, ◌∙◌, Bool, false, Option, none, some, List, [],
  ◌∷◌, map, arith, All, ltb, nat_eq, length, length-map, if◌then◌else◌,
}
use thruk_mcp.Prelude.Int.{ℤ, ◌≤ℤ◌}
use thruk_mcp.Reliability.Rows.{Row, LogRow, relevant_rows}
use thruk_mcp.Sorting.{sort, insert, IsSorted, sort-IsSorted}
use thruk_mcp.Reliability.Downtime.{
  seconds, integral, leading_seconds, ends_down, seconds-extract_incidents,
}
use thruk_mcp.Reliability.Order.{any_ongoing, extract_incidents-ongoing}
use thruk_mcp.Reliability.{elapsed, Incident, extract_incidents}

-- `round(a / b)`: to the nearest integer, a half to the even one
unfoldable pub round_div : ℕ → ℕ → ℕ
round_div a b =
    let q = a / b in
    let r = a % b in
    if ltb (2 * r) b
    then q
    else if ltb b (2 * r)
    then q + 1
    else if nat_eq (q % 2) 0
    then q
    else q + 1

unfoldable pub recovered : List Incident → List Incident
recovered [] = []
recovered (i ∷ l) = let rest = recovered l in if i.ongoing then rest else i ∷ rest

-- `max(..., default=0)`
unfoldable pub longest : List Incident → ℕ
longest [] = 0
longest (i ∷ l) =
    let rest = longest l in if ltb rest i.duration_seconds then i.duration_seconds else rest

-- The differences of neighbours; they are sorted, so that none is negative.
unfoldable pub gaps : List ℤ → List ℕ
gaps [] = []
gaps (a ∷ []) = []
gaps (a ∷ b ∷ l) = elapsed a b ∷ gaps (b ∷ l)

unfoldable pub sum : List ℕ → ℕ
sum [] = 0
sum (n ∷ l) = n + sum l

abbrev itself : ℤ → ℤ
itself t = t

unfoldable pub starts : List Incident → List ℤ
unfolding sort
starts l = sort itself (map (λ i. i.start) l)

unfoldable pub mttr : List Incident → Option ℕ
unfolding round_div
mttr [] = none
mttr (i ∷ l) = some (round_div (seconds (i ∷ l)) (length (i ∷ l)))

unfoldable pub mtbf : List Incident → Option ℕ
unfolding round_div gaps sum starts
mtbf l =
    if ltb (length l) 2
    then none
    else some (round_div (sum (gaps (starts l))) (length (gaps (starts l))))

pub record Reliability : Type 0 where
  pub incidents : ℕ
  pub mttr_seconds : Option ℕ
  pub mtbf_seconds : Option ℕ
  pub total_downtime_seconds : ℕ
  pub longest_incident_seconds : ℕ
  pub ongoing : Bool

unfoldable pub summary_of : List Incident → Reliability
unfolding recovered mttr mtbf longest any_ongoing
summary_of l = record {
  incidents = length l;
  mttr_seconds = mttr (recovered l);
  mtbf_seconds = mtbf l;
  total_downtime_seconds = seconds l;
  longest_incident_seconds = longest l;
  ongoing = any_ongoing l;
}

-- `summarize_reliability`
unfoldable pub summarize_reliability : Option ℤ → ℤ → List LogRow → Reliability
unfolding extract_incidents summary_of
summarize_reliability window_start window_end entries =
    summary_of (extract_incidents window_start window_end entries)

length-insert : (t : ℤ) (l : List ℤ) → length (insert itself t l) ≡ suc (length l)
unfolding insert
length-insert t [] = refl
length-insert t (u ∷ l) = ground (arith, length-insert t l)

length-sort : (l : List ℤ) → length (sort itself l) ≡ length l
unfolding sort
length-sort [] = refl
length-sort (t ∷ l) = omega (arith, length-insert t (sort itself l), length-sort l)

-- the last element, from a first one on
abbrev pub last : ℤ → List ℤ → ℤ
last a [] = a
last a (b ∷ l) = last b l

length-gaps : (a : ℤ) (l : List ℤ) → length (gaps (a ∷ l)) ≡ length l
unfolding gaps
length-gaps a [] = refl
length-gaps a (b ∷ l) = omega (arith, length-gaps b l)

last_after : (a : ℤ) (l : List ℤ) → IsSorted itself (a ∷ l) → a ≤ℤ last a l
last_after a [] h = omega arith
last_after a (b ∷ l) h = omega (arith, h.0.0, last_after b l h.1)

sum-gaps :
    (a : ℤ) (l : List ℤ) → IsSorted itself (a ∷ l) → sum (gaps (a ∷ l)) ≡ elapsed a (last a l)
unfolding gaps sum
sum-gaps a [] h = omega arith
sum-gaps a (b ∷ l) h = omega (arith, h.0.0, sum-gaps b l h.1, last_after b l h.1)

-- The result is within a half of the quotient.
abbrev pub IsRounded : ℕ → ℕ → ℕ → Type 0
IsRounded q a b = (2 * (q * b) ≤ 2 * a + b) × (2 * a ≤ 2 * (q * b) + b)

round_div-IsRounded : (a b : ℕ) → 0 < b → IsRounded (round_div a b) a b
unfolding round_div
round_div-IsRounded a b h = ground (arith, div-add-mod' a b, mod-lt a h, add-mul (a / b) 1 b)

mttr-IsMean :
    (l : List Incident)
    → 0 < length l
    → (m : ℕ) × (mttr l ≡ some m) × IsRounded m (seconds l) (length l)
unfolding mttr
mttr-IsMean [] h = absurd (omega arith)
mttr-IsMean (i ∷ l) h = (
  round_div (seconds (i ∷ l)) (length (i ∷ l)),
  refl,
  round_div-IsRounded (seconds (i ∷ l)) (length (i ∷ l)) (omega arith),
)

-- The mean time between the starts, over the distance of the first and the last of them.
abbrev pub IsMeanGap : List ℤ → ℕ → ℕ → Type 0
IsMeanGap [] n m = ⊥
IsMeanGap (a ∷ l) n m = (suc (length l) ≡ n) × IsRounded m (elapsed a (last a l)) (length l)

mean_gap :
    (l : List ℤ) (n : ℕ)
    → length l ≡ n
    → 2 ≤ n
    → IsSorted itself l
    → IsMeanGap l n (round_div (sum (gaps l)) (length (gaps l)))
mean_gap [] n e h sorted = omega arith
mean_gap (a ∷ l) n e h sorted = (
  e,
  rw (sum-gaps a l sorted, length-gaps a l)
      (round_div-IsRounded (elapsed a (last a l)) (length l) (omega (arith, e, h))),
)

length-starts : (l : List Incident) → length (starts l) ≡ length l
unfolding starts
length-starts l = length-sort (map (λ i. i.start) l) ∙ length-map (λ i. i.start) l

starts-IsSorted : (l : List Incident) → IsSorted itself (starts l)
unfolding starts
starts-IsSorted l = sort-IsSorted itself (map (λ i. i.start) l)

mtbf-IsMeanGap :
    (l : List Incident)
    → 2 ≤ length l
    → (m : ℕ) × (mtbf l ≡ some m) × IsMeanGap (starts l) (length l) m
unfolding mtbf
mtbf-IsMeanGap l h = (
  round_div (sum (gaps (starts l))) (length (gaps (starts l))),
  ground (arith, h),
  mean_gap (starts l) (length l) (length-starts l) h (starts-IsSorted l),
)

abbrev pub IsBelow : ℕ → List Incident → Type 0
IsBelow n l = All (λ i. i.duration_seconds ≤ n) l

IsBelow-mono : (m n : ℕ) (l : List Incident) → m ≤ n → IsBelow m l → IsBelow n l
IsBelow-mono m n [] le h = tt
IsBelow-mono m n (i ∷ l) le h = (omega (arith, h.0), IsBelow-mono m n l le h.1)

longest-bounds : (l : List Incident) → (longest l ≤ seconds l) × IsBelow (longest l) l
unfolding longest
longest-bounds [] = (omega arith, tt)
longest-bounds (i ∷ l) =
    let below = IsBelow-mono (longest l) i.duration_seconds l in
    ground (arith, longest-bounds l, below)

-- Of the metrics of one object, the total downtime is the time for which the last row seen is a
-- problem plus that before a leading recovery, `ongoing` says whether the last row is a problem, and
-- no incident is longer than the longest one, which is not longer than the total. The condition is
-- that no row is later than the end of the window.
pub summarize_reliability-downtime :
    (window_start : Option ℤ) (window_end : ℤ) (entries : List LogRow)
    → All (λ (q : Row). q.0 ≤ℤ window_end) (relevant_rows entries)
    → ((summarize_reliability window_start window_end entries).total_downtime_seconds
        ≡ leading_seconds window_start (relevant_rows entries)
          + integral none (relevant_rows entries) window_end)
      × ((summarize_reliability window_start window_end entries).ongoing
          ≡ ends_down false (relevant_rows entries))
      × IsBelow
          (summarize_reliability window_start window_end entries).longest_incident_seconds
          (extract_incidents window_start window_end entries)
      × ((summarize_reliability window_start window_end entries).longest_incident_seconds
          ≤ (summarize_reliability window_start window_end entries).total_downtime_seconds)
unfolding summarize_reliability summary_of
summarize_reliability-downtime window_start window_end entries within =
    let l = extract_incidents window_start window_end entries in
    (
      seconds-extract_incidents window_start window_end entries within,
      extract_incidents-ongoing window_start window_end entries,
      (longest-bounds l).1,
      (longest-bounds l).0,
    )

-- The incidents that have an end: their whole duration, and how many they are.
abbrev pub ended_seconds : List Incident → ℕ
ended_seconds [] = 0
ended_seconds (i ∷ l) = if i.ongoing then ended_seconds l else i.duration_seconds + ended_seconds l

abbrev pub ended_count : List Incident → ℕ
ended_count [] = 0
ended_count (i ∷ l) = if i.ongoing then ended_count l else suc (ended_count l)

recovered-ended :
    (l : List Incident)
    → (seconds (recovered l) ≡ ended_seconds l) × (length (recovered l) ≡ ended_count l)
unfolding recovered
recovered-ended [] = (refl, refl)
recovered-ended (i ∷ l) = ground (arith, recovered-ended l)

-- The mean time to recovery is the mean duration of the incidents that have an end, and the mean
-- time between failures is the distance of the first and the last start over the number of the
-- incidents less one, each rounded to within a half; the conditions are that an incident has an end,
-- and that there are two.
pub summary_of-means :
    (l : List Incident)
    → 0 < ended_count l
    → 2 ≤ length l
    → ((m : ℕ) × ((summary_of l).mttr_seconds ≡ some m)
        × IsRounded m (ended_seconds l) (ended_count l))
      × ((m : ℕ) × ((summary_of l).mtbf_seconds ≡ some m) × IsMeanGap (starts l) (length l) m)
unfolding summary_of
summary_of-means l some_end two =
    let (sum_ended, counted) = recovered-ended l in
    let (m, found, rounded) = mttr-IsMean (recovered l) (omega (arith, counted, some_end)) in
    ((m, found, subst₂ (IsRounded m) sum_ended counted rounded), mtbf-IsMeanGap l two)
