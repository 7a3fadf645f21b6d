-- ===== src/Perfdata/Tests.antt =====
-- Witnesses and tests of the ranges, with numerals of tally marks behind a sign.
use Prim.Native.Char.{code}
use thruk_mcp.Perfdata.Proximity.{
  safe, IsHalf, proximity_of, percentage, safe_distance, span_of, min_ℤ, proximity_of-IsHalf,
}
use thruk_mcp.Perfdata.Shown.{
  strip_solid, plain_solid, all_codes, is_plain, IsNumeral, low_bound, high_bound, show_range,
  parse_range-show_range,
}
use thruk_mcp.Perfdata.{
  num_of, is_integer, parse_range, is_breach, breaches_range, bound_leb, leb_bound, parse_bounds,
  range_of, range_bound, split_colon, split_at_sign,
}
use thruk_mcp.Prelude.{
  ℕ, zero, suc, String, ◌==◌, ◌≡◌, refl, ap, ◌∙◌, true, false, Option, none, some, arith, eq_iff,
  nat_eq, if◌then◌else◌, Bool-cases, inl, inr,
}
use thruk_mcp.Prelude.Int.{ℤ, pos, negsuc, ◌-ℤ◌}
use thruk_mcp.Prelude.Text.{is_empty, is_digit, to_int, is_space, strip, lstrip, rstrip}

tallies : ℕ → String
tallies zero = ""
tallies (suc n) = String.◌∷◌ "i" (tallies n)

tally_of : ℤ → String
tally_of (pos n) = String.◌∷◌ "p" (tallies n)
tally_of (negsuc n) = String.◌∷◌ "n" (tallies n)

how_many : String → ℕ
how_many String.[] = 0
how_many (String.◌∷◌ c s) = suc (how_many s)

read_tally : String → Option ℤ
read_tally String.[] = none
read_tally (String.◌∷◌ c s) =
    if nat_eq (code c) b'p' then some (pos (how_many s)) else some (negsuc (how_many s))

how_many-tallies : (n : ℕ) → how_many (tallies n) ≡ n
unfolding how_many tallies
how_many-tallies zero = refl
how_many-tallies (suc n) = ap (λ k. suc k) (how_many-tallies n)

plain_tallies : (n : ℕ) → all_codes is_plain (tallies n) ≡ true
unfolding tallies is_plain is_space
plain_tallies zero = refl
plain_tallies (suc n) = plain_tallies n

first_code : String → ℕ
first_code String.[] = 0
first_code (String.◌∷◌ c s) = code c

no_tilde : (n : ℤ) → tally_of n ≡ "~" → ⊥
unfolding tally_of first_code
no_tilde (pos n) h = let e : 112 ≡ 126 = ap first_code h in omega (arith, e)
no_tilde (negsuc n) h = let e : 110 ≡ 126 = ap first_code h in omega (arith, e)

tally_plain : (n : ℤ) → all_codes is_plain (tally_of n) ≡ true
unfolding tally_of is_plain is_space
tally_plain (pos n) = plain_tallies n
tally_plain (negsuc n) = plain_tallies n

-- a token that is no integer is left to `float`
read_solid :
    (t : String)
    → all_codes is_plain t ≡ true
    → is_empty t ≡ false
    → is_integer t ≡ false
    → num_of read_tally t ≡ read_tally t
unfolding num_of
read_solid t plain filled other =
    ap (λ s. if is_empty s then none else if is_integer s then to_int s else read_tally s)
      (strip_solid t (plain_solid t plain))
    ∙ rw (filled, other) refl

tally_of-IsNumeral : IsNumeral read_tally tally_of
unfolding tally_of read_tally is_integer is_digit
tally_of-IsNumeral = record {
  reads = reads;
  plain = tally_plain;
  filled = filled;
  finite = λ n. elim (Bool-cases (tally_of n == "~")) [
    | inl same ↦ absurd (no_tilde n ((eq_iff (tally_of n) "~").0 same))
    | inr other ↦ other
  ];
}
  where
    filled : (n : ℤ) → is_empty (tally_of n) ≡ false
    filled (pos n) = refl
    filled (negsuc n) = refl

    other : (n : ℤ) → is_integer (tally_of n) ≡ false
    other (pos n) = refl
    other (negsuc n) = refl

    value : (n : ℤ) → read_tally (tally_of n) ≡ some n
    value (pos n) = ap (λ k. some (pos k)) (how_many-tallies n)
    value (negsuc n) = ap (λ k. some (negsuc k)) (how_many-tallies n)

    reads : (n : ℤ) → num_of read_tally (tally_of n) ≡ some n
    reads n = read_solid (tally_of n) (tally_plain n) (filled n) (other n) ∙ value n

parse_range-show_range_example :
    (parse_range read_tally (show_range read_tally tally_of true (some (pos 1)) none)
      ≡ some
          (record { low = low_bound (some (pos 1)); high = high_bound none; alert_inside = true }))
    × (breaches_range read_tally
          (some (pos 2))
          (some (show_range read_tally tally_of true (some (pos 1)) none))
        ≡ is_breach (pos 2) (record {
          low = low_bound (some (pos 1));
          high = high_bound none;
          alert_inside = true;
        }))
parse_range-show_range_example =
    parse_range-show_range read_tally tally_of tally_of-IsNumeral true (some (pos 1)) none (pos 2)

-- a bound alone is an upper one, and a value at it is fine
at_bound : breaches_range read_tally (some (pos 2)) (some " pii ") ≡ false
unfolding breaches_range parse_range parse_bounds range_of range_bound split_colon split_at_sign
    is_breach bound_leb leb_bound read_tally how_many num_of is_integer is_digit strip lstrip rstrip
    is_space
at_bound = refl

proximity_of-IsHalf_example :
    (d : ℤ) × (t : ℤ) × (proximity_of (pos 8) (safe (pos 0) (pos 10)) ≡ some (d, t)) × IsHalf d t
proximity_of-IsHalf_example = proximity_of-IsHalf (pos 8) (pos 0) (pos 10) refl

-- at the bound the percentage is 0, although nothing is breached
at_edge :
    (is_breach (pos 10) (safe (pos 0) (pos 10)) ≡ false)
    × (proximity_of (pos 10) (safe (pos 0) (pos 10)) ≡ some (pos 0, pos 10))
unfolding is_breach bound_leb leb_bound proximity_of percentage safe_distance span_of min_ℤ ◌-ℤ◌
at_edge = (refl, refl)
