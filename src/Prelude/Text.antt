-- ===== src/Prelude/Text.antt =====
-- The `str` methods that the program uses, over native texts. Case and digits are those of ASCII,
-- and white space is that of Latin-1; other characters are left as they are.
use Prim.Native.Char.{Char, code}
use Prim.Native.Nat.{ℕ, zero, suc, ◌+◌, ◌-◌, ◌*◌, ◌/◌, ◌%◌}
use Prim.Native.String.{String, ◌++◌, char_at}
use mathlib.Core.Bool.{Bool, true, false, ◌&&◌, ◌||◌}
use mathlib.Core.Option
use mathlib.Core.Option.{Option, none, some}
use mathlib.Core.List.{List}
use thruk_mcp.Prelude.Int.{ℤ, pos, negsuc}
use thruk_mcp.Prelude.Tests.{ltb, leb, nat_eq, if◌then◌else◌}

abbrev between : ℕ → ℕ → ℕ → Bool
between lo hi c = leb lo c && leb c hi

upper_char : Char → Char
upper_char c =
    if between 97 122 (code c) then char_at "ABCDEFGHIJKLMNOPQRSTUVWXYZ" (code c - 97) else c

lower_char : Char → Char
lower_char c =
    if between 65 90 (code c) then char_at "abcdefghijklmnopqrstuvwxyz" (code c - 65) else c

-- `s.upper()`
unfoldable pub upper : String → String
unfolding upper_char
upper String.[] = String.[]
upper (String.◌∷◌ c s) = String.◌∷◌ (upper_char c) (upper s)

-- `s.lower()`
unfoldable pub lower : String → String
unfolding lower_char
lower String.[] = String.[]
lower (String.◌∷◌ c s) = String.◌∷◌ (lower_char c) (lower s)

unfoldable pub is_space : ℕ → Bool
is_space c = between 9 13 c || between 28 32 c || nat_eq c 133 || nat_eq c 160

unfoldable pub lstrip : (ℕ → Bool) → String → String
lstrip p String.[] = String.[]
lstrip p (String.◌∷◌ c s) = let rest = lstrip p s in if p (code c) then rest else String.◌∷◌ c s

-- puts a character before what is left of the text behind it
abbrev pub keep_unless : Bool → Char → String → String
keep_unless b c String.[] = if b then String.[] else String.◌∷◌ c String.[]
keep_unless b c (String.◌∷◌ d s) = String.◌∷◌ c (String.◌∷◌ d s)

unfoldable pub rstrip : (ℕ → Bool) → String → String
rstrip p String.[] = String.[]
rstrip p (String.◌∷◌ c s) = keep_unless (p (code c)) c (rstrip p s)

-- `s.strip()`
unfoldable pub strip : String → String
unfolding lstrip rstrip is_space
strip s = rstrip is_space (lstrip is_space s)

abbrev pub push_head : Char → List String → List String
push_head c List.[] = List.◌∷◌ (String.◌∷◌ c String.[]) List.[]
push_head c (List.◌∷◌ w ws) = List.◌∷◌ (String.◌∷◌ c w) ws

-- `s.split(d)` for a separator of one character
unfoldable pub split : ℕ → String → List String
split d String.[] = List.◌∷◌ String.[] List.[]
split d (String.◌∷◌ c s) =
    let rest = split d s in if nat_eq (code c) d then List.◌∷◌ String.[] rest else push_head c rest

-- `sep.join(parts)`
unfoldable pub join : String → List String → String
join sep List.[] = String.[]
join sep (List.◌∷◌ s List.[]) = s
join sep (List.◌∷◌ s (List.◌∷◌ t ts)) = s ++ sep ++ join sep (List.◌∷◌ t ts)

abbrev pub is_empty : String → Bool
is_empty String.[] = true
is_empty (String.◌∷◌ _ _) = false

all_digits : String → Bool
all_digits String.[] = true
all_digits (String.◌∷◌ c s) = between 48 57 (code c) && all_digits s

-- `s.isdigit()`
unfoldable pub is_digit : String → Bool
unfolding all_digits
is_digit String.[] = false
is_digit (String.◌∷◌ c s) = all_digits (String.◌∷◌ c s)

digits_value : ℕ → String → ℕ
digits_value acc String.[] = acc
digits_value acc (String.◌∷◌ c s) = digits_value (acc * 10 + (code c - 48)) s

-- `int(s)` of a text of digits
unfoldable pub to_nat : String → ℕ
unfolding digits_value
to_nat s = digits_value 0 s

digit : ℕ → String
digit d = String.◌∷◌ (char_at "0123456789" d) String.[]

show_below : ℕ → ℕ → String
show_below zero n = String.[]
show_below (suc fuel) n =
    let front : String = show_below fuel (n / 10) in
    if ltb n 10 then digit n else front ++ digit (n % 10)

-- `str(n)`; a number has fewer digits than `n + 1`
unfoldable pub show_nat : ℕ → String
unfolding show_below digit
show_nat n = show_below (suc n) n

unfoldable pub show_int : ℤ → String
unfolding show_nat
show_int (pos n) = show_nat n
show_int (negsuc n) = "-" ++ show_nat (suc n)

-- the digits of `int(s)`, where one `_` may stand between two digits
int_digits : Bool → ℕ → String → Option ℕ
int_digits after_digit acc String.[] = if after_digit then some acc else none
int_digits after_digit acc (String.◌∷◌ c s) =
    let next = int_digits true (acc * 10 + (code c - 48)) s in
    if between 48 57 (code c)
    then next
    else (let rest = int_digits false acc s in
        if after_digit && nat_eq (code c) b'_' then rest else none)

negate : ℕ → ℤ
negate zero = pos zero
negate (suc n) = negsuc n

signed_int : String → Option ℤ
signed_int String.[] = none
signed_int (String.◌∷◌ c s) =
    if nat_eq (code c) b'-'
    then Option.map negate (int_digits false 0 s)
    else if nat_eq (code c) b'+'
    then Option.map pos (int_digits false 0 s)
    else Option.map pos (int_digits false 0 (String.◌∷◌ c s))

-- `int(s)` of a text; `none` is its ValueError
unfoldable pub to_int : String → Option ℤ
unfolding strip signed_int int_digits negate
to_int s = signed_int (strip s)

-- `s.startswith(needle)`
unfoldable pub begins_with : String → String → Bool
begins_with String.[] s = true
begins_with (String.◌∷◌ c needle) String.[] = false
begins_with (String.◌∷◌ c needle) (String.◌∷◌ d s) =
    nat_eq (code c) (code d) && begins_with needle s

-- `needle in s`
unfoldable pub contains : String → String → Bool
unfolding begins_with
contains needle String.[] = is_empty needle
contains needle (String.◌∷◌ c s) = begins_with needle (String.◌∷◌ c s) || contains needle s
