-- ===== src/Perfdata/Shown.antt =====
-- The ranges that `parse_range` of src/thruk_mcp/perfdata.py reads from their own notation.
use Prim.Native.Char.{code}
use thruk_mcp.Perfdata.{
  num_of, Bound, below_all, at, above_all, Range, split_colon, split_at_sign, range_bound, range_of,
  parse_bounds, parse_range, is_breach, breaches_range,
}
use thruk_mcp.Prelude.{
  ℕ, String, ◌==◌, ◌≡◌, refl, ap, ap₂, ◌∙◌, Bool, true, false, not, ◌&&◌, Option, none, some,
  nat_eq, arith, if◌then◌else◌,
}
use thruk_mcp.Prelude.Int.{ℤ, pos}
use thruk_mcp.Prelude.Text.{strip, lstrip, rstrip, is_space, is_empty, keep_unless}

-- every character passes a test
abbrev pub all_codes : (ℕ → Bool) → String → Bool
all_codes p String.[] = true
all_codes p (String.◌∷◌ c s) = p (code c) && all_codes p s

-- neither white space nor one of the signs of the notation
unfoldable pub is_plain : ℕ → Bool
is_plain c = not (is_space c) && not (nat_eq c b':') && not (nat_eq c b'@')

lstrip_solid : (s : String) → all_codes (λ c. not (is_space c)) s ≡ true → lstrip is_space s ≡ s
unfolding lstrip
lstrip_solid String.[] h = refl
lstrip_solid (String.◌∷◌ c s) h = ground (arith, h)

keep_solid :
    (c : _) (s : String)
    → is_space (code c) ≡ false
    → keep_unless (is_space (code c)) c s ≡ String.◌∷◌ c s
keep_solid c String.[] h = rw (h) refl
keep_solid c (String.◌∷◌ d s) h = refl

rstrip_solid : (s : String) → all_codes (λ c. not (is_space c)) s ≡ true → rstrip is_space s ≡ s
unfolding rstrip
rstrip_solid String.[] h = refl
rstrip_solid (String.◌∷◌ c s) h =
    ap (keep_unless (is_space (code c)) c) (rstrip_solid s (ground (arith, h)))
    ∙ keep_solid c s (ground (arith, h))

pub strip_solid : (s : String) → all_codes (λ c. not (is_space c)) s ≡ true → strip s ≡ s
unfolding strip
strip_solid s h = rw (lstrip_solid s h) (rstrip_solid s h)

-- one text before another
unfoldable pub before : String → String → String
before String.[] t = t
before (String.◌∷◌ c s) t = String.◌∷◌ c (before s t)

all_codes-before :
    (p : ℕ → Bool) (s t : String) → all_codes p (before s t) ≡ (all_codes p s && all_codes p t)
unfolding before
all_codes-before p String.[] t = refl
all_codes-before p (String.◌∷◌ c s) t = ground (arith, all_codes-before p s t)

split_colon-before :
    (a b : String)
    → all_codes is_plain a ≡ true
    → split_colon (before a (before ":" b)) ≡ some (a, b)
unfolding split_colon is_plain before
split_colon-before String.[] b h = refl
split_colon-before (String.◌∷◌ c a) b h = ground (arith, h, split_colon-before a b)

pub plain_solid :
    (s : String) → all_codes is_plain s ≡ true → all_codes (λ c. not (is_space c)) s ≡ true
unfolding is_plain
plain_solid String.[] h = refl
plain_solid (String.◌∷◌ c s) h = ground (arith, h, plain_solid s)

-- A bound that a range can have below, and one above: none is the infinite one.
abbrev pub low_bound : Option ℤ → Bound
low_bound none = below_all
low_bound (some n) = at n

abbrev pub high_bound : Option ℤ → Bound
high_bound none = above_all
high_bound (some n) = at n

-- A numeral is a text of plain characters that is not the sign of infinity, and reads as its number.
pub record IsNumeral (to_float : String → Option ℤ) (show : ℤ → String) : Type 0 where
  pub reads : (n : ℤ) → num_of to_float (show n) ≡ some n
  pub plain : (n : ℤ) → all_codes is_plain (show n) ≡ true
  pub filled : (n : ℤ) → is_empty (show n) ≡ false
  pub finite : (n : ℤ) → (show n == "~") ≡ false

module _ (to_float : String → Option ℤ) (show : ℤ → String) where
  abbrev pub show_low : Option ℤ → String
  show_low none = "~"
  show_low (some n) = show n

  abbrev pub show_high : Option ℤ → String
  show_high none = ""
  show_high (some n) = show n

  -- the notation of a range
  abbrev pub show_range : Bool → Option ℤ → Option ℤ → String
  show_range inside low high =
      before (if inside then "@" else "") (before (show_low low) (before ":" (show_high high)))

  number_read :
      IsNumeral to_float show
      → (n : ℤ) (empty tilde : Bound) → range_bound to_float (show n) empty tilde ≡ some (at n)
  unfolding range_bound
  number_read h n empty tilde =
      rw
        (strip_solid (show n) (plain_solid (show n) (h.plain n)), h.filled n, h.finite n, h.reads n)
        refl

  low_read :
      IsNumeral to_float show
      → (low : Option ℤ)
      → range_bound to_float (show_low low) (at (pos 0)) below_all ≡ some (low_bound low)
  unfolding range_bound strip lstrip rstrip
  low_read h none = refl
  low_read h (some n) = number_read h n (at (pos 0)) below_all

  high_read :
      IsNumeral to_float show
      → (high : Option ℤ)
      → range_bound to_float (show_high high) above_all above_all ≡ some (high_bound high)
  unfolding range_bound strip lstrip rstrip
  high_read h none = refl
  high_read h (some n) = number_read h n above_all above_all

  low_plain : IsNumeral to_float show → (low : Option ℤ) → all_codes is_plain (show_low low) ≡ true
  unfolding is_plain is_space
  low_plain h none = refl
  low_plain h (some n) = h.plain n

  high_plain :
      IsNumeral to_float show → (high : Option ℤ) → all_codes is_plain (show_high high) ≡ true
  high_plain h none = refl
  high_plain h (some n) = h.plain n

  bounds_read :
      IsNumeral to_float show
      → (inside : Bool) (low high : Option ℤ)
      → parse_bounds to_float inside (before (show_low low) (before ":" (show_high high)))
        ≡ some (record { low = low_bound low; high = high_bound high; alert_inside = inside })
  unfolding parse_bounds range_of
  bounds_read h inside low high =
      ap
        (λ o. elim o [
          | some (start, end) ↦
              range_of to_float (range_bound to_float start (at (pos 0)) below_all)
                (range_bound to_float end above_all above_all) inside
          | none ↦
              range_of to_float (some (at (pos 0)))
                (range_bound to_float (before (show_low low) (before ":" (show_high high)))
                  above_all above_all)
                inside
        ])
        (split_colon-before (show_low low) (show_high high) (low_plain h low))
      ∙ ap₂ (λ x y. range_of to_float x y inside) (low_read h low) (high_read h high)

no_sign :
    (a b : String)
    → all_codes is_plain a ≡ true
    → split_at_sign (before a (before ":" b)) ≡ (false, before a (before ":" b))
unfolding split_at_sign before is_plain
no_sign String.[] b h = refl
no_sign (String.◌∷◌ c a) b h = ground (arith, h)

not_empty : (a b : String) → is_empty (before a (before ":" b)) ≡ false
unfolding before
not_empty String.[] b = refl
not_empty (String.◌∷◌ c a) b = refl

abbrev is_solid : String → Bool
is_solid = all_codes (λ c. not (is_space c))

solid-before : (s t : String) → is_solid s ≡ true → is_solid t ≡ true → is_solid (before s t) ≡ true
solid-before s t h k = ground (arith, h, k, all_codes-before (λ c. not (is_space c)) s t)

sign_solid : (inside : Bool) → is_solid (if inside then "@" else "") ≡ true
unfolding is_space
sign_solid true = refl
sign_solid false = refl

colon_solid : is_solid ":" ≡ true
unfolding is_space
colon_solid = refl

signed : (rest : String) → split_at_sign (before "@" rest) ≡ (true, rest)
unfolding split_at_sign before
signed rest = refl

signed_empty : (a b : String) → is_empty (before "@" (before a (before ":" b))) ≡ false
unfolding before
signed_empty a b = refl

unsigned :
    (a b : String)
    → all_codes is_plain a ≡ true
    → split_at_sign (before "" (before a (before ":" b))) ≡ (false, before a (before ":" b))
unfolding before
unsigned a b h = no_sign a b h

unsigned_empty : (a b : String) → is_empty (before "" (before a (before ":" b))) ≡ false
unfolding before
unsigned_empty a b = not_empty a b

range_read :
    (to_float : String → Option ℤ) (spec rest : String) (inside : Bool) (r : Range)
    → is_solid spec ≡ true
    → is_empty spec ≡ false
    → split_at_sign spec ≡ (inside, rest)
    → parse_bounds to_float inside rest ≡ some r
    → parse_range to_float spec ≡ some r
unfolding parse_range
range_read to_float spec rest inside r solid filled sign read =
    ap
      (λ s.
        if is_empty s then none else parse_bounds to_float (split_at_sign s).0 (split_at_sign s).1)
      (strip_solid spec solid)
    ∙ ap
        (λ b.
          if b then none else parse_bounds to_float (split_at_sign spec).0 (split_at_sign spec).1)
        filled
    ∙ ap (λ p. parse_bounds to_float p.0 p.1) sign
    ∙ read

module _ (to_float : String → Option ℤ) (show : ℤ → String) where
  solid_range :
      IsNumeral to_float show
      → (inside : Bool) (low high : Option ℤ)
      → is_solid (show_range to_float show inside low high) ≡ true
  solid_range h inside low high =
      solid-before (if inside then "@" else "")
        (before (show_low to_float show low) (before ":" (show_high to_float show high)))
        (sign_solid inside)
        (solid-before (show_low to_float show low) (before ":" (show_high to_float show high))
          (plain_solid (show_low to_float show low) (low_plain to_float show h low))
          (solid-before ":" (show_high to_float show high) colon_solid
            (plain_solid (show_high to_float show high) (high_plain to_float show h high))))

  -- A range is read from its own notation, where the numbers have numerals that read as them, and a
  -- value breaches that text just when it breaches the range.
  pub parse_range-show_range :
      IsNumeral to_float show
      → (inside : Bool) (low high : Option ℤ) (value : ℤ)
      → (parse_range to_float (show_range to_float show inside low high)
          ≡ some (record { low = low_bound low; high = high_bound high; alert_inside = inside }))
        × (breaches_range to_float (some value) (some (show_range to_float show inside low high))
            ≡ is_breach value
                (record { low = low_bound low; high = high_bound high; alert_inside = inside }))
  unfolding breaches_range
  parse_range-show_range h inside low high value =
      let read = parsed inside in
      (read, ap (λ o. elim o [ none ↦ false | some r ↦ is_breach value r ]) read)
    where
      parsed :
          (inside : Bool)
          → parse_range to_float (show_range to_float show inside low high)
            ≡ some (record { low = low_bound low; high = high_bound high; alert_inside = inside })
      parsed true =
          range_read to_float (show_range to_float show true low high)
            (before (show_low to_float show low) (before ":" (show_high to_float show high))) true
            (record { low = low_bound low; high = high_bound high; alert_inside = true })
            (solid_range h true low high)
            (signed_empty (show_low to_float show low) (show_high to_float show high))
            (signed
              (before (show_low to_float show low) (before ":" (show_high to_float show high))))
            (bounds_read to_float show h true low high)
      parsed false =
          range_read to_float (show_range to_float show false low high)
            (before (show_low to_float show low) (before ":" (show_high to_float show high))) false
            (record { low = low_bound low; high = high_bound high; alert_inside = false })
            (solid_range h false low high)
            (unsigned_empty (show_low to_float show low) (show_high to_float show high))
            (unsigned (show_low to_float show low) (show_high to_float show high)
              (low_plain to_float show h low))
            (bounds_read to_float show h false low high)
