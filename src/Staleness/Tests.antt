-- ===== src/Staleness/Tests.antt =====
-- Witnesses and tests of the classes: a check that is late by its interval, and a passive one.
use native.Mathlib.Decide.{ℕ_discrete}
use thruk_mcp.Prelude.{ℕ, ◌*◌, ◌≡◌, ◌↔◌, refl, true, false, some}
use thruk_mcp.Prelude.Int.{pos, ◌-ℤ◌, ℤ_discrete, pos_part}
use thruk_mcp.Staleness.Reasons.{HasReason, classify_check-HasReason}
use thruk_mcp.Staleness.{
  Check, Limits, stale, classify_check, is_stale, is_stale_passive, is_slow, is_older, age_of,
}

abbrev late : Check
late = record {
  is_passive = false;
  active_enabled = true;
  has_been_checked = true;
  last_check = pos 100;
  latency = pos 0;
  interval = pos 300;
}

-- limits with a factor
abbrev times : ℕ → Limits
times factor = record {
  scaled = λ n. pos (pos_part n * factor);
  latency_threshold = pos 60;
  grace = pos 30;
  passive_max_age = pos 3600;
  include_disabled = false;
}

stale_late : classify_check (pos 1100) (times 3) late ≡ some stale
unfolding classify_check is_stale is_stale_passive is_slow is_older age_of ℤ_discrete ℕ_discrete
    ◌-ℤ◌
stale_late = refl

classify_check-HasReason_example :
    (classify_check (pos 1100) (times 3) late ≡ some stale)
    ↔ HasReason (pos 1100) (times 3) late stale
classify_check-HasReason_example = classify_check-HasReason (pos 1100) late (times 3) stale
