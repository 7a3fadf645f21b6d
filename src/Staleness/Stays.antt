-- ===== src/Staleness/Stays.antt =====
-- How the classes of src/thruk_mcp/tools/triage.py depend on the time and on the limits.
use thruk_mcp.Prelude.{◌≡◌, Bool, true, false, not, ◌||◌, Option, none, some, arith}
use thruk_mcp.Prelude.Int.{ℤ, pos, ◌-ℤ◌, ltb_ℤ, ◌≤ℤ◌, ℤ_discrete, sub-parts}
use thruk_mcp.Staleness.{
  Check, Limits, Reason, sum_ℤ, age_of, is_older, is_slow, is_stale, is_stale_passive,
  classify_check,
}

sub_mono : (a b c d : ℤ) → a ≤ℤ c → d ≤ℤ b → (a -ℤ b) ≤ℤ (c -ℤ d)
sub_mono a b c d h k = omega (arith, h, k, sub-parts a b, sub-parts c d)

le_refl : (a : ℤ) → a ≤ℤ a
le_refl a = omega arith

sum_mono : (a b c d : ℤ) → a ≤ℤ c → b ≤ℤ d → sum_ℤ a b ≤ℤ sum_ℤ c d
sum_mono a b c d h k =
    sub_mono a (pos 0 -ℤ b) c (pos 0 -ℤ d) h (sub_mono (pos 0) d (pos 0) b (le_refl (pos 0)) k)

ltb_mono : (a b c d : ℤ) → c ≤ℤ a → b ≤ℤ d → ltb_ℤ a b ≡ true → ltb_ℤ c d ≡ true
ltb_mono a b c d h k t = ground (arith, h, k, t)

-- Limits that are as strict as others in every respect.
pub record AreStricter (strict loose : Limits) : Type 0 where
  pub scaled : (n : ℤ) → strict.scaled n ≤ℤ loose.scaled n
  pub latency : strict.latency_threshold ≤ℤ loose.latency_threshold
  pub grace : strict.grace ≤ℤ loose.grace
  pub passive : strict.passive_max_age ≤ℤ loose.passive_max_age
  pub disabled : (not loose.include_disabled || strict.include_disabled) ≡ true

is_older_mono :
    (now later : ℤ) (c : Check) (high low : ℤ)
    → now ≤ℤ later
    → low ≤ℤ high
    → is_older (age_of now c) high ≡ true
    → is_older (age_of later c) low ≡ true
unfolding age_of is_older
is_older_mono now later c high low h k t =
    elim (ℤ_discrete c.last_check (pos 0))
        as (λ d.
          is_older (elim d [ yes _ ↦ none | no _ ↦ some (now -ℤ c.last_check) ]) high ≡ true
          → is_older (elim d [ yes _ ↦ none | no _ ↦ some (later -ℤ c.last_check) ]) low ≡ true) [
            | yes _ ↦ λ e. e
            | no _ ↦
                ltb_mono high (now -ℤ c.last_check) low (later -ℤ c.last_check) k
                  (sub_mono now c.last_check later c.last_check h (le_refl c.last_check))
          ]
      t

abbrev pub is_reported : Option Reason → Bool
is_reported none = false
is_reported (some _) = true

module _ (now later : ℤ) (strict loose : Limits) (c : Check) (h : now ≤ℤ later)
    (s : AreStricter strict loose) where
  is_stale_mono : is_stale now loose c ≡ true → is_stale later strict c ≡ true
  unfolding is_stale
  is_stale_mono t = ground (
    arith,
    t,
    is_older_mono now later c (sum_ℤ (loose.scaled c.interval) loose.grace)
        (sum_ℤ (strict.scaled c.interval) strict.grace) h
        (sum_mono (strict.scaled c.interval) strict.grace (loose.scaled c.interval) loose.grace
          (s.scaled c.interval) s.grace),
  )

  is_stale_passive_mono :
      is_stale_passive now loose c ≡ true → is_stale_passive later strict c ≡ true
  unfolding is_stale_passive
  is_stale_passive_mono =
      is_older_mono now later c (sum_ℤ loose.passive_max_age loose.grace)
        (sum_ℤ strict.passive_max_age strict.grace) h
        (sum_mono strict.passive_max_age strict.grace loose.passive_max_age loose.grace s.passive
          s.grace)

  is_slow_mono : is_slow loose c ≡ true → is_slow strict c ≡ true
  unfolding is_slow
  is_slow_mono =
      ltb_mono loose.latency_threshold c.latency strict.latency_threshold c.latency s.latency
        (le_refl c.latency)

  reported :
      is_reported (classify_check now loose c) ≡ true
      → is_reported (classify_check later strict c) ≡ true
  unfolding classify_check
  reported t = ground (arith, t, is_stale_mono, is_stale_passive_mono, is_slow_mono, s.disabled)

-- A check that is reported is still reported at any later time and under limits as strict in every
-- respect, while its row does not change.
pub classify_check-stays :
    (now later : ℤ) (strict loose : Limits) (c : Check)
    → now ≤ℤ later
    → AreStricter strict loose
    → is_reported (classify_check now loose c) ≡ true
    → is_reported (classify_check later strict c) ≡ true
classify_check-stays now later strict loose c h s = reported now later strict loose c h s
