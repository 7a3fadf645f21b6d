-- ===== src/Perfdata.antt =====
-- src/thruk_mcp/perfdata.py: the threshold ranges of the plugin guidelines. The numbers are
-- integers here; `float(token)`, which may raise, is an argument.
pub mod Shown
pub mod Proximity
mod Tests
use Prim.Native.Char.{code}
use Prim.Native.String.{◌++◌}
use thruk_mcp.Prelude.{
  ℕ, String, ◌==◌, Bool, true, false, not, ◌&&◌, ◌||◌, Option, none, some, nat_eq, if◌then◌else◌,
}
use thruk_mcp.Prelude.Int.{ℤ, pos, leb_ℤ, ltb_ℤ}
use thruk_mcp.Prelude.Text.{strip, is_empty, is_digit, to_int}

-- A float that bounds a range.
pub data Bound : Type 0 where
  below_all : Bound
  at : ℤ → Bound
  above_all : Bound

-- `(low, high, alert_inside)`
pub record Range : Type 0 where
  pub low : Bound
  pub high : Bound
  pub alert_inside : Bool

-- what `split(":", 1)` gives where there is a colon
unfoldable pub split_colon : String → Option (String × String)
split_colon String.[] = none
split_colon (String.◌∷◌ c s) =
    let rest = split_colon s in
    if nat_eq (code c) b':'
    then some (String.[], s)
    else elim rest [ none ↦ none | some p ↦ some (String.◌∷◌ c p.0, p.1) ]

-- `spec.startswith("@")` and `spec[1:]`
unfoldable pub split_at_sign : String → Bool × String
split_at_sign String.[] = (false, String.[])
split_at_sign (String.◌∷◌ c s) = if nat_eq (code c) b'@' then (true, s) else (false, String.◌∷◌ c s)

-- `re.fullmatch(r"[-+]?\d+", token)`
unfoldable pub is_integer : String → Bool
is_integer String.[] = false
is_integer (String.◌∷◌ c s) =
    if nat_eq (code c) b'-' || nat_eq (code c) b'+' then is_digit s else is_digit (String.◌∷◌ c s)

-- `_num`
unfoldable pub num_of : (String → Option ℤ) → String → Option ℤ
unfolding is_integer
num_of to_float token =
    let t : String = strip token in
    if is_empty t then none else if is_integer t then to_int t else to_float t

module _ (to_float : String → Option ℤ) where
  -- `_range_bound`
  unfoldable pub range_bound : String → Bound → Bound → Option Bound
  unfolding strip
  range_bound token empty tilde =
      let t : String = strip token in
      if is_empty t
      then some empty
      else if t == "~"
      then some tilde
      else elim (num_of to_float t) [ none ↦ none | some n ↦ some (at n) ]

  -- the range of two bounds that could be read
  unfoldable pub range_of : Option Bound → Option Bound → Bool → Option Range
  range_of (some low) (some high) inside =
      some (record { low = low; high = high; alert_inside = inside })
  range_of _ _ inside = none

  unfoldable pub parse_bounds : Bool → String → Option Range
  unfolding range_of range_bound split_colon
  parse_bounds inside spec = elim (split_colon spec) [
    | some (start, end) ↦
        range_of (range_bound start (at (pos 0)) below_all) (range_bound end above_all above_all)
          inside
    | none ↦ range_of (some (at (pos 0))) (range_bound spec above_all above_all) inside
  ]

  -- `parse_range` of a text
  unfoldable pub parse_range : String → Option Range
  unfolding parse_bounds range_of range_bound split_colon split_at_sign strip
  parse_range spec =
      let s : String = strip spec in
      if is_empty s then none else parse_bounds (split_at_sign s).0 (split_at_sign s).1

-- `low <= value`, and the like
unfoldable pub bound_leb : Bound → ℤ → Bool
bound_leb below_all v = true
bound_leb (at n) v = leb_ℤ n v
bound_leb above_all v = false

unfoldable pub leb_bound : ℤ → Bound → Bool
leb_bound v below_all = false
leb_bound v (at n) = leb_ℤ v n
leb_bound v above_all = true

-- the last lines of `breaches_range`; `value < low` is `not low <= value`
unfoldable pub is_breach : ℤ → Range → Bool
unfolding bound_leb leb_bound
is_breach v r =
    if r.alert_inside
    then bound_leb r.low v && leb_bound v r.high
    else not (bound_leb r.low v) || not (leb_bound v r.high)

-- `breaches_range`, of a value and a text or None
unfoldable pub breaches_range : (String → Option ℤ) → Option ℤ → Option String → Bool
unfolding parse_range is_breach
breaches_range to_float none spec = false
breaches_range to_float (some v) none = false
breaches_range to_float (some v) (some spec) = elim (parse_range to_float spec) [
  | none ↦ false
  | some r ↦ is_breach v r
]
