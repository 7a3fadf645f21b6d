-- ===== src/Commands/Quote.antt =====
-- `_seg` of src/thruk_mcp/helpers.py: the percent-encoding of one segment of a path, which is
-- `urllib.parse.quote` with no safe characters; and the paths of the commands.
use Prim.Native.Char.{Char, code}
use thruk_mcp.Prelude.{
  ℕ, zero, suc, ◌+◌, ◌-◌, ◌*◌, ◌/◌, ◌%◌, ◌<◌, String, ◌≡◌, refl, sym, ap, ap₂, ◌∙◌, Bool, true,
  false, not, ◌&&◌, ◌||◌, List, [], ◌∷◌, ◌++◌, arith, All, leb, ltb, nat_eq, inl, inr,
  if◌then◌else◌, Bool-cases,
}
use mathlib.Core.Bool.{true≢false}

abbrev between : ℕ → ℕ → ℕ → Bool
between lo hi c = leb lo c && leb c hi

-- letters, digits, `_`, `.`, `-` and `~`
unfoldable pub is_unreserved : ℕ → Bool
is_unreserved c =
    between 65 90 c
    || between 97 122 c
    || between 48 57 c
    || nat_eq c b'_'
    || nat_eq c b'.'
    || nat_eq c b'-'
    || nat_eq c b'~'

-- the bytes of a character in UTF-8
unfoldable pub utf8 : ℕ → List ℕ
utf8 c =
    if ltb c 128
    then c ∷ []
    else if ltb c 2048
    then (192 + c / 64) ∷ (128 + c % 64) ∷ []
    else if ltb c 65536
    then (224 + c / 4096) ∷ (128 + (c / 64) % 64) ∷ (128 + c % 64) ∷ []
    else (240 + (c / 262144) % 8)
      ∷ (128 + (c / 4096) % 64)
      ∷ (128 + (c / 64) % 64)
      ∷ (128 + c % 64)
      ∷ []

unfoldable pub utf8_of : String → List ℕ
utf8_of String.[] = []
utf8_of (String.◌∷◌ c s) = utf8 (code c) ++ utf8_of s

-- the character at a place
unfoldable pub nth : String → ℕ → Char
nth String.[] n = "0"
nth (String.◌∷◌ c s) zero = c
nth (String.◌∷◌ c s) (suc n) = nth s n

unfoldable pub hex : ℕ → Char
unfolding nth
hex d = nth "0123456789ABCDEF" d

-- the number of a hexadecimal digit
unfoldable hex_value : ℕ → ℕ
hex_value c = if between 48 57 c then c - 48 else if between 65 70 c then c - 55 else 0

-- `%XY` for every byte
unfoldable pub escape : List ℕ → String → String
unfolding hex
escape [] s = s
escape (b ∷ bytes) s =
    String.◌∷◌ "%" (String.◌∷◌ (hex (b / 16)) (String.◌∷◌ (hex (b % 16)) (escape bytes s)))

-- `_seg`
unfoldable pub seg : String → String
unfolding escape utf8 is_unreserved
seg String.[] = String.[]
seg (String.◌∷◌ c s) =
    let rest = seg s in
    if is_unreserved (code c) then String.◌∷◌ c rest else escape (utf8 (code c)) rest

-- What a server reads from a percent-encoded segment: its bytes.
unfoldable mutual
  unfolding utf8 hex_value

  pub unquote : String → List ℕ
  unquote String.[] = []
  unquote (String.◌∷◌ c s) = elim (nat_eq (code c) b'%') [
    | true ↦ first_digit s
    | false ↦ utf8 (code c) ++ unquote s
  ]

  first_digit : String → List ℕ
  first_digit String.[] = []
  first_digit (String.◌∷◌ x s) = second_digit (hex_value (code x)) s

  second_digit : ℕ → String → List ℕ
  second_digit h String.[] = []
  second_digit h (String.◌∷◌ y s) = (h * 16 + hex_value (code y)) ∷ unquote s

-- A test that holds below a bound, which computes.
abbrev all_below : (ℕ → Bool) → ℕ → Bool
all_below p zero = true
all_below p (suc n) = p n && all_below p n

all_below_lem : (p : ℕ → Bool) (n d : ℕ) → all_below p n ≡ true → d < n → p d ≡ true
all_below_lem p zero d all h = absurd (omega (arith, h))
all_below_lem p (suc n) d all h = ground (arith, all, h, all_below_lem p n d)

hex_value-hex_lem : all_below (λ k. nat_eq (hex_value (code (hex k))) k) 16 ≡ true
unfolding hex_value hex nth
hex_value-hex_lem = refl

hex_value-hex : (d : ℕ) → d < 16 → hex_value (code (hex d)) ≡ d
hex_value-hex d h =
    ground
      (arith, all_below_lem (λ k. nat_eq (hex_value (code (hex k))) k) 16 d hex_value-hex_lem h)

-- `d` is not a character of the text.
unfoldable pub is_free : ℕ → String → Bool
is_free d String.[] = true
is_free d (String.◌∷◌ c s) = not (nat_eq (code c) d) && is_free d s

nth-is_free :
    (d : ℕ) (s : String) (n : ℕ)
    → is_free d "0" ≡ true
    → is_free d s ≡ true
    → nat_eq (code (nth s n)) d ≡ false
unfolding nth is_free
nth-is_free d String.[] n zero_free h = ground (arith, zero_free)
nth-is_free d (String.◌∷◌ c s) zero zero_free h = ground (arith, h)
nth-is_free d (String.◌∷◌ c s) (suc n) zero_free h = ground (arith, h, nth-is_free d s n zero_free)

hex-is_free : (n : ℕ) → nat_eq (code (hex n)) b'/' ≡ false
unfolding hex is_free
hex-is_free n = nth-is_free b'/' "0123456789ABCDEF" n refl refl

escape-is_free :
    (bytes : List ℕ) (s : String) → is_free b'/' s ≡ true → is_free b'/' (escape bytes s) ≡ true
unfolding escape is_free
escape-is_free [] s h = h
escape-is_free (b ∷ bytes) s h =
    ground (arith, hex-is_free (b / 16), hex-is_free (b % 16), escape-is_free bytes s h)

nat_eq→≡ : (c d : ℕ) → nat_eq c d ≡ true → c ≡ d
nat_eq→≡ c d h = ground arith

unreserved_ne : (d c : ℕ) → is_unreserved d ≡ false → is_unreserved c ≡ true → nat_eq c d ≡ false
unreserved_ne d c reserved h = elim (Bool-cases (nat_eq c d)) [
  | inl e ↦ absurd (true≢false (sym h ∙ ap is_unreserved (nat_eq→≡ c d e) ∙ reserved))
  | inr e ↦ e
]

-- No slash of a name is left in its segment.
pub seg-is_free : (s : String) → is_free b'/' (seg s) ≡ true
unfolding seg is_free is_unreserved
seg-is_free String.[] = refl
seg-is_free (String.◌∷◌ c s) = elim (Bool-cases (is_unreserved (code c))) [
  | inl e ↦ rw (e, unreserved_ne b'/' (code c) refl e, seg-is_free s)
  | inr e ↦ rw (e, escape-is_free (utf8 (code c)) (seg s) (seg-is_free s))
]

-- Every element is a byte.
abbrev AreBytes : List ℕ → Type 0
AreBytes = All (λ b. b < 256)

utf8-AreBytes : (c : ℕ) → AreBytes (utf8 c)
unfolding utf8
utf8-AreBytes c = ground arith

unquote-escape :
    (bytes : List ℕ) (s : String) → AreBytes bytes → unquote (escape bytes s) ≡ bytes ++ unquote s
unfolding unquote escape
unquote-escape [] s h = refl
unquote-escape (b ∷ bytes) s h =
    ap₂ (λ n l. n ∷ l)
      (ap₂ (λ m n. m * 16 + n) (hex_value-hex (b / 16) (omega (arith, h.0)))
          (hex_value-hex (b % 16) (omega arith))
        ∙ omega arith)
      (unquote-escape bytes s h.1)

unquote_plain :
    (c : Char) (s : String)
    → nat_eq (code c) b'%' ≡ false
    → unquote (String.◌∷◌ c s) ≡ utf8 (code c) ++ unquote s
unfolding unquote
unquote_plain c s h = ground (arith, h)

-- A server reads a name's own bytes from its segment.
pub unquote-seg : (s : String) → unquote (seg s) ≡ utf8_of s
unfolding unquote seg is_unreserved utf8_of
unquote-seg String.[] = refl
unquote-seg (String.◌∷◌ c s) = elim (Bool-cases (is_unreserved (code c))) [
  | inl e ↦ rw (e) (
      unquote_plain c (seg s) (unreserved_ne b'%' (code c) refl e)
      ∙ ap (λ l. utf8 (code c) ++ l) (unquote-seg s))
  | inr e ↦ rw (e, unquote-escape (utf8 (code c)) (seg s) (utf8-AreBytes (code c)), unquote-seg s)
]
