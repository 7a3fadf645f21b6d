-- ===== src/Perfdata/Proximity.antt =====
-- `proximity_percent` of src/thruk_mcp/perfdata.py: how near a value is to an alert. The percentage is
-- held as the fraction that is multiplied by 100.
use thruk_mcp.Perfdata.{Bound, at, Range, parse_range, is_breach, bound_leb, leb_bound}
use thruk_mcp.Prelude.{
  ◌+◌, ◌≤◌, String, ◌≡◌, refl, ap, ◌∙◌, Bool, true, false, Option, none, some, arith, if◌then◌else◌,
  Bool-cases, inl, inr,
}
use thruk_mcp.Prelude.Int.{ℤ, pos, ◌-ℤ◌, leb_ℤ, ltb_ℤ, pos_part, neg_part, sub-parts}

abbrev pub absolute : ℤ → ℤ
absolute n = pos (pos_part n + neg_part n)

-- `span`: the width of a range, or the size of its one finite bound
unfoldable pub span_of : Bound → Bound → ℤ
span_of (at l) (at h) = h -ℤ l
span_of _ (at h) = absolute h
span_of (at l) _ = absolute l
span_of _ _ = pos 0

unfoldable pub min_ℤ : ℤ → ℤ → ℤ
min_ℤ a b = if leb_ℤ a b then a else b

-- the distance to the nearest bound, from within the range
unfoldable pub safe_distance : ℤ → Bound → Bound → Option ℤ
unfolding min_ℤ
safe_distance v (at l) (at h) = some (min_ℤ (v -ℤ l) (h -ℤ v))
safe_distance v (at l) _ = some (v -ℤ l)
safe_distance v _ (at h) = some (h -ℤ v)
safe_distance v _ _ = none

-- the distance to the alert range, from outside of it; beyond an infinite bound there is no value
unfoldable pub outer_distance : ℤ → Bound → Bound → Option ℤ
outer_distance v (at l) (at h) = some (if ltb_ℤ v l then l -ℤ v else v -ℤ h)
outer_distance v (at l) _ = some (l -ℤ v)
outer_distance v _ (at h) = some (v -ℤ h)
outer_distance v _ _ = none

-- the last lines: no percentage for a range without width, and none below zero
unfoldable pub percentage : Option ℤ → ℤ → Option (ℤ × ℤ)
percentage none span = none
percentage (some dist) span =
    if leb_ℤ span (pos 0) then none else some ((if leb_ℤ (pos 0) dist then dist else pos 0), span)

unfoldable pub proximity_of : ℤ → Range → Option (ℤ × ℤ)
unfolding is_breach percentage safe_distance outer_distance span_of
proximity_of v r =
    if is_breach v r
    then some (pos 0, pos 1)
    else percentage
        (if r.alert_inside then outer_distance v r.low r.high else safe_distance v r.low r.high)
        (span_of r.low r.high)

-- `proximity_percent`
unfoldable pub proximity_percent : (String → Option ℤ) → Option ℤ → Option String → Option (ℤ × ℤ)
unfolding parse_range proximity_of
proximity_percent to_float none spec = none
proximity_percent to_float (some v) none = none
proximity_percent to_float (some v) (some spec) = elim (parse_range to_float spec) [
  | none ↦ none
  | some r ↦ proximity_of v r
]

halved :
    (v l h : ℤ)
    → leb_ℤ l v ≡ true
    → leb_ℤ v h ≡ true
    → pos_part (min_ℤ (v -ℤ l) (h -ℤ v)) + pos_part (min_ℤ (v -ℤ l) (h -ℤ v)) ≤ pos_part (h -ℤ l)
unfolding min_ℤ
halved v l h a b = ground (arith, a, b, sub-parts v l, sub-parts h v, sub-parts h l)

abbrev pub safe : ℤ → ℤ → Range
safe l h = record { low = at l; high = at h; alert_inside = false }

-- A fraction between 0 and a half.
abbrev pub IsHalf : ℤ → ℤ → Type 0
IsHalf d t = (neg_part d ≡ 0) × (pos_part d + pos_part d ≤ pos_part t)

percentage-IsHalf :
    (m s : ℤ)
    → pos_part m + pos_part m ≤ pos_part s
    → leb_ℤ s (pos 0) ≡ false
    → (d : ℤ) × (t : ℤ) × (percentage (some m) s ≡ some (d, t)) × IsHalf d t
unfolding percentage
percentage-IsHalf m s half wide = (
  (if leb_ℤ (pos 0) m then m else pos 0),
  s,
  rw (wide) refl,
  (ground (arith, half), ground (arith, half)),
)

wide_span : (l h : ℤ) → ltb_ℤ l h ≡ true → leb_ℤ (h -ℤ l) (pos 0) ≡ false
wide_span l h t = ground (arith, t, sub-parts h l)

within : (v l h : ℤ) → is_breach v (safe l h) ≡ false → (leb_ℤ l v ≡ true) × (leb_ℤ v h ≡ true)
unfolding is_breach bound_leb leb_bound
within v l h t = ground (arith, t)

-- Of a range with two bounds, the lower below the upper, that alerts outside of it, there is a percentage,
-- which is never below 0 nor above 50.
pub proximity_of-IsHalf :
    (v l h : ℤ)
    → ltb_ℤ l h ≡ true
    → (d : ℤ) × (t : ℤ) × (proximity_of v (safe l h) ≡ some (d, t)) × IsHalf d t
unfolding proximity_of safe_distance span_of
proximity_of-IsHalf v l h below = elim (Bool-cases (is_breach v (safe l h))) [
  | inl breached ↦ (pos 0, pos 1, by_breach true breached, (refl, omega arith))
  | inr fine ↦
      let w = within v l h fine in
      let p =
        percentage-IsHalf (min_ℤ (v -ℤ l) (h -ℤ v)) (h -ℤ l) (halved v l h w.0 w.1)
          (wide_span l h below) in
      (p.0, p.1, by_breach false fine ∙ p.2, p.3)
]
  where
    by_breach :
        (b : Bool)
        → is_breach v (safe l h) ≡ b
        → proximity_of v (safe l h) ≡ (
            if b then some (pos 0, pos 1) else percentage (some (min_ℤ (v -ℤ l) (h -ℤ v))) (h -ℤ l))
    by_breach b q =
        ap
          (λ x.
            if x then some (pos 0, pos 1) else percentage (some (min_ℤ (v -ℤ l) (h -ℤ v))) (h -ℤ l))
          q
