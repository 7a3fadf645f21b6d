-- ===== src/Filters/Values.antt =====
-- The values of a filter leaf and of a query parameter, and how Python writes them as text.
use Prim.Native.Char.{Char, code}
use Prim.Native.String.{◌++◌}
use thruk_mcp.Prelude.{
  ℕ, String, ◌≡◌, refl, Bool, true, false, not, ◌&&◌, ◌||◌, Option, none, some, List, [], ◌∷◌, map,
  nat_eq, if◌then◌else◌,
}
use thruk_mcp.Prelude.Int.{ℤ}
use thruk_mcp.Prelude.Text.{join, show_int}

-- `str | int | float`, and `bool`, which is an `int`. A float is held by its `repr`.
pub data Scalar : Type 0 where
  text : String → Scalar
  int : ℤ → Scalar
  bool : Bool → Scalar
  float : String → Scalar

-- What a validated leaf holds: a scalar, the list of `in`, or the dict of a custom variable with
-- its `var` and, if it is there, its `val`.
pub data Value : Type 0 where
  scalar : Scalar → Value
  items : List Scalar → Value
  custom : String → Option Scalar → Value

abbrev pub of_text : String → Value
of_text s = scalar (text s)

abbrev pub of_int : ℤ → Value
of_int n = scalar (int n)

-- `str(value)` of a scalar
unfoldable pub str_scalar : Scalar → String
unfolding show_int
str_scalar (text s) = s
str_scalar (int n) = show_int n
str_scalar (bool true) = "True"
str_scalar (bool false) = "False"
str_scalar (float r) = r

has_code : ℕ → String → Bool
has_code n String.[] = false
has_code n (String.◌∷◌ c s) = nat_eq (code c) n || has_code n s

escape_char : ℕ → Char → String
escape_char q c =
    if nat_eq (code c) q || nat_eq (code c) b'\\'
    then String.◌∷◌ (code_backslash) (String.◌∷◌ c String.[])
    else if nat_eq (code c) b'\n'
    then "\\n"
    else if nat_eq (code c) b'\r'
    then "\\r"
    else if nat_eq (code c) b'\t'
    then "\\t"
    else String.◌∷◌ c String.[]
  where
    code_backslash : Char
    code_backslash = "\\"

escape_text : ℕ → String → String
escape_text q String.[] = String.[]
escape_text q (String.◌∷◌ c s) = escape_char q c ++ escape_text q s

-- `repr(s)`: single quotes, or double ones around a text that has only single quotes
repr_text : String → String
repr_text s =
    if has_code b'\'' s && not (has_code b'"' s)
    then "\"" ++ escape_text b'"' s ++ "\""
    else "'" ++ escape_text b'\'' s ++ "'"

repr_scalar : Scalar → String
repr_scalar (text s) = repr_text s
repr_scalar (int n) = str_scalar (int n)
repr_scalar (bool b) = str_scalar (bool b)
repr_scalar (float r) = r

-- `str(value)` of the value of a leaf that is not a custom variable
unfoldable pub str_value : Value → String
unfolding str_scalar repr_scalar repr_text escape_text escape_char has_code
str_value (scalar s) = str_scalar s
str_value (items vs) = "[" ++ join ", " (map repr_scalar vs) ++ "]"
str_value (custom var none) = "{'var': " ++ repr_text var ++ "}"
str_value (custom var (some val)) =
    "{'var': " ++ repr_text var ++ ", 'val': " ++ repr_scalar val ++ "}"

repr_list : str_value (items (text "a" ∷ text "it's" ∷ bool true ∷ [])) ≡ "['a', \"it's\", True]"
unfolding str_value join
repr_list = refl
