-- ===== src/Staleness.antt =====
-- `_classify_check` of src/thruk_mcp/tools/triage.py: which checks run late, or not at all.
pub mod Reasons
pub mod Stays
mod Tests
use thruk_mcp.Prelude.{
  ℕ, zero, suc, ◌+◌, ◌*◌, ◌≤◌, ◌<◌, String, ◌≡◌, ◌≢◌, refl, sym, ap, ◌∙◌, Bool, true, false, not,
  ◌&&◌, ◌||◌, Option, none, some, ltb, arith, if◌then◌else◌, ◌⊎◌, inl, inr,
}
use thruk_mcp.Prelude.Int.{ℤ, pos, negsuc, ◌-ℤ◌, ltb_ℤ, ◌≤ℤ◌, ℤ_discrete}

-- The columns that the class depends on. Latencies are integers of one unit; `interval` is
-- `int(check_interval * 60)`, in seconds.
pub record Check : Type 0 where
  pub is_passive : Bool
  pub active_enabled : Bool
  pub has_been_checked : Bool
  pub last_check : ℤ
  pub latency : ℤ
  pub interval : ℤ

-- `scaled n` is `n * staleness_factor`, in whole seconds rounded down: an age, which is whole, is above
-- the product just when it is above this number.
pub record Limits : Type 0 where
  pub scaled : ℤ → ℤ
  pub latency_threshold : ℤ
  pub grace : ℤ
  pub passive_max_age : ℤ
  pub include_disabled : Bool

pub data Reason : Type 0 where
  never_checked disabled stale stale_passive high_latency : Reason

-- the sum of two integers
abbrev pub sum_ℤ : ℤ → ℤ → ℤ
sum_ℤ a b = a -ℤ (pos 0 -ℤ b)

-- `age_s`: none for a check without a time
unfoldable pub age_of : ℤ → Check → Option ℤ
age_of now c = elim (ℤ_discrete c.last_check (pos 0)) [
  | yes _ ↦ none
  | no _ ↦ some (now -ℤ c.last_check)
]

-- `age_s is not None and age_s > limit`
unfoldable pub is_older : Option ℤ → ℤ → Bool
is_older none limit = false
is_older (some age) limit = ltb_ℤ limit age

unfoldable pub is_slow : Limits → Check → Bool
is_slow l c = ltb_ℤ l.latency_threshold c.latency

unfoldable pub is_stale : ℤ → Limits → Check → Bool
unfolding is_older age_of
is_stale now l c =
    ltb_ℤ (pos 0) c.interval && is_older (age_of now c) (sum_ℤ (l.scaled c.interval) l.grace)

unfoldable pub is_stale_passive : ℤ → Limits → Check → Bool
unfolding is_older age_of
is_stale_passive now l c = is_older (age_of now c) (sum_ℤ l.passive_max_age l.grace)

unfoldable pub classify_check : ℤ → Limits → Check → Option Reason
unfolding is_stale is_stale_passive is_slow
classify_check now l c =
    if not c.has_been_checked
    then some never_checked
    else if c.is_passive
    then (if is_stale_passive now l c
        then some stale_passive
        else if is_slow l c
        then some high_latency
        else none)
    else if not c.active_enabled
    then (if l.include_disabled then some disabled else none)
    else if is_stale now l c
    then some stale
    else if is_slow l c
    then some high_latency
    else none
