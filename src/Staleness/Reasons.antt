-- ===== src/Staleness/Reasons.antt =====
-- For which reason `_classify_check` of src/thruk_mcp/tools/triage.py reports a check.
use thruk_mcp.Prelude.{
  ◌≡◌, ◌≢◌, ◌↔◌, Bool, true, false, ◌&&◌, ◌⊎◌, inl, inr, Bool-cases, none, some, arith,
}
use thruk_mcp.Prelude.Int.{ℤ, pos, ◌-ℤ◌, ltb_ℤ, ◌≤ℤ◌, ℤ_discrete}
use thruk_mcp.Staleness.{
  Check, Limits, Reason, never_checked, disabled, stale, stale_passive, high_latency, sum_ℤ, age_of,
  is_older, is_slow, is_stale, is_stale_passive, classify_check,
}

-- strictly less
abbrev pub IsLess : ℤ → ℤ → Type 0
IsLess a b = ¬ (b ≤ℤ a)

-- A check has a time, and that lies back by more than the limit.
abbrev pub IsOlder : ℤ → Check → ℤ → Type 0
IsOlder now c limit = (c.last_check ≢ pos 0) × IsLess limit (now -ℤ c.last_check)

-- An active check with an interval, which is exceeded with its factor and the grace.
abbrev pub IsLate : ℤ → Limits → Check → Type 0
IsLate now l c = IsLess (pos 0) c.interval × IsOlder now c (sum_ℤ (l.scaled c.interval) l.grace)

abbrev pub IsLatePassive : ℤ → Limits → Check → Type 0
IsLatePassive now l c = IsOlder now c (sum_ℤ l.passive_max_age l.grace)

abbrev pub IsSlow : Limits → Check → Type 0
IsSlow l c = IsLess l.latency_threshold c.latency

-- What the row of a check says for each of the reasons. The latency is the last of them: it counts
-- only where no other does, and not for an active check that is switched off.
abbrev pub HasReason : ℤ → Limits → Check → Reason → Type 0
HasReason now l c never_checked = c.has_been_checked ≡ false
HasReason now l c disabled =
    (c.has_been_checked ≡ true)
    × (c.is_passive ≡ false)
    × (c.active_enabled ≡ false)
    × (l.include_disabled ≡ true)
HasReason now l c stale =
    (c.has_been_checked ≡ true)
    × (c.is_passive ≡ false)
    × (c.active_enabled ≡ true)
    × IsLate now l c
HasReason now l c stale_passive =
    (c.has_been_checked ≡ true) × (c.is_passive ≡ true) × IsLatePassive now l c
HasReason now l c high_latency =
    (c.has_been_checked ≡ true)
    × IsSlow l c
    × (((c.is_passive ≡ true) × ¬ IsLatePassive now l c)
        ⊎ ((c.is_passive ≡ false) × (c.active_enabled ≡ true) × ¬ IsLate now l c))

less : (a b : ℤ) → (ltb_ℤ a b ≡ true) ↔ IsLess a b
less a b = (
  λ h k. ground (arith, h, k),
  λ h. elim (Bool-cases (ltb_ℤ a b)) [ inl e ↦ e | inr e ↦ absurd (h (ground (arith, e))) ],
)

module _ (now : ℤ) (c : Check) where
  older : (limit : ℤ) → (is_older (age_of now c) limit ≡ true) ↔ IsOlder now c limit
  unfolding age_of is_older
  older limit =
      elim (ℤ_discrete c.last_check (pos 0))
        as (λ d.
          (is_older (elim d [ yes _ ↦ none | no _ ↦ some (now -ℤ c.last_check) ]) limit ≡ true)
          ↔ IsOlder now c limit) [
            | yes e ↦ (λ h. absurd (cc), λ h. absurd (h.0 e))
            | no ne ↦ let l = less limit (now -ℤ c.last_check) in (λ h. (ne, l.0 h), λ h. l.1 h.1)
          ]

  both : (a b : Bool) → (a && b) ≡ true → (a ≡ true) × (b ≡ true)
  both a b h = ground (arith, h)

  both_true : (a b : Bool) → a ≡ true → b ≡ true → (a && b) ≡ true
  both_true a b h k = ground (arith, h, k)

  fails : {P : Type 0} (b : Bool) → (b ≡ true) ↔ P → b ≡ false → ¬ P
  fails b f e p = let t = f.1 p in ground (arith, t, e)

  holds_not : {P : Type 0} (b : Bool) → (b ≡ true) ↔ P → ¬ P → b ≡ false
  holds_not b f n = elim (Bool-cases b) [ inl e ↦ absurd (n (f.0 e)) | inr e ↦ e ]

  module _ (l : Limits) where
    late : (is_stale now l c ≡ true) ↔ IsLate now l c
    unfolding is_stale
    late =
        let limit : ℤ = sum_ℤ (l.scaled c.interval) l.grace in
        let i = less (pos 0) c.interval in
        let o = older limit in
        (
          λ h.
              let p = both (ltb_ℤ (pos 0) c.interval) (is_older (age_of now c) limit) h in
              (i.0 p.0, o.0 p.1),
          λ h.
              both_true (ltb_ℤ (pos 0) c.interval) (is_older (age_of now c) limit) (i.1 h.0)
                (o.1 h.1),
        )

    late_passive : (is_stale_passive now l c ≡ true) ↔ IsLatePassive now l c
    unfolding is_stale_passive
    late_passive = older (sum_ℤ l.passive_max_age l.grace)

    slow : (is_slow l c ≡ true) ↔ IsSlow l c
    unfolding is_slow
    slow = less l.latency_threshold c.latency

    stale_if :
        classify_check now l c ≡ some stale
        → (c.has_been_checked ≡ true)
          × (c.is_passive ≡ false)
          × (c.active_enabled ≡ true)
          × (is_stale now l c ≡ true)
    unfolding classify_check
    stale_if e = ground (arith, e)

    passive_if :
        classify_check now l c ≡ some stale_passive
        → (c.has_been_checked ≡ true) × (c.is_passive ≡ true) × (is_stale_passive now l c ≡ true)
    unfolding classify_check
    passive_if e = ground (arith, e)

    slow_if :
        classify_check now l c ≡ some high_latency
        → (c.has_been_checked ≡ true)
          × (is_slow l c ≡ true)
          × (((c.is_passive ≡ true) × (is_stale_passive now l c ≡ false))
              ⊎ ((c.is_passive ≡ false) × (c.active_enabled ≡ true) × (is_stale now l c ≡ false)))
    unfolding classify_check
    slow_if e = elim (Bool-cases c.is_passive) [
      | inl p ↦ (ground (arith, e), ground (arith, e), inl (p, ground (arith, e, p)))
      | inr a ↦ (
        ground (arith, e),
        ground (arith, e),
        inr (a, ground (arith, e, a), ground (arith, e, a)),
      )
    ]

    -- A check is reported for a reason exactly when its row has that reason: an active check is stale
    -- when it is switched on, has an interval above 0 and a time, and its age is above the interval
    -- times the factor plus the grace; a passive one when its age is above its limit plus the grace;
    -- the latency counts only behind these; and a check that never ran is always reported.
    pub classify_check-HasReason :
        (r : Reason) → (classify_check now l c ≡ some r) ↔ HasReason now l c r
    unfolding classify_check
    classify_check-HasReason never_checked = (λ e. ground (arith, e), λ h. ground (arith, h))
    classify_check-HasReason disabled =
        (λ e. ground (arith, e), λ h. ground (arith, h.0, h.1, h.2, h.3))
    classify_check-HasReason stale = (
      λ e. let b = stale_if e in (b.0, b.1, b.2, late.0 b.3),
      λ h. let s = late.1 h.3 in ground (arith, h.0, h.1, h.2, s),
    )
    classify_check-HasReason stale_passive = (
      λ e. let b = passive_if e in (b.0, b.1, late_passive.0 b.2),
      λ h. let s = late_passive.1 h.2 in ground (arith, h.0, h.1, s),
    )
    classify_check-HasReason high_latency = (
      λ e.
          let b = slow_if e in
          (
            b.0,
            slow.0 b.1,
            elim b.2 [
              | inl p ↦ inl (p.0, fails (is_stale_passive now l c) late_passive p.1)
              | inr a ↦ inr (a.0, a.1, fails (is_stale now l c) late a.2)
            ],
          ),
      λ h.
          let s = slow.1 h.1 in
          elim h.2 [
            | inl p ↦
                let n = holds_not (is_stale_passive now l c) late_passive p.1 in
                ground (arith, h.0, s, p.0, n)
            | inr a ↦
                let n = holds_not (is_stale now l c) late a.2 in ground (arith, h.0, s, a.0, a.1, n)
          ],
    )
