-- ===== src/Reliability/Rows.antt =====
-- The rows of /logs that count: `_is_hard`, `_coerce_int` and `_relevant_rows` of
-- src/thruk_mcp/reliability.py.
use thruk_mcp.Prelude.{
  String, Bool, true, false, ◌&&◌, ◌||◌, Option, none, some, List, [], ◌∷◌, ◌==◌, if◌then◌else◌,
  nat_eq,
}
use thruk_mcp.Prelude.Int.{ℤ, pos}
use thruk_mcp.Sorting.{sort, IsSorted, sort-IsSorted}
use thruk_mcp.Prelude.Text.{strip, upper, to_int}

-- A value of a log row. A float is held by its integer part, and `other` is a list or a dict.
pub data Cell : Type 0 where
  absent other : Cell
  text : String → Cell
  int : ℤ → Cell
  bool : Bool → Cell
  float : ℤ → Cell

pub record LogRow : Type 0 where
  pub type : Cell
  pub state_type : Cell
  pub time : Cell
  pub state : Cell

-- `_is_hard`
unfoldable pub is_hard : Cell → Bool
is_hard (text s) = upper (strip s) == "HARD"
is_hard (bool _) = false
is_hard (int (pos n)) = nat_eq n 1
is_hard _ = false

-- `_coerce_int`
unfoldable pub coerce_int : Cell → Option ℤ
coerce_int (text s) = to_int s
coerce_int (int n) = some n
coerce_int (bool true) = some (pos 1)
coerce_int (bool false) = some (pos 0)
coerce_int (float n) = some n
coerce_int _ = none

-- `str(entry.get("type", "")).strip().upper() in _ALERT_TYPES`; only a text can be one of them
unfoldable pub is_alert : Cell → Bool
is_alert (text s) = let t = upper (strip s) in t == "HOST ALERT" || t == "SERVICE ALERT"
is_alert _ = false

-- the time and the state of a row
abbrev pub Row : Type 0
Row = ℤ × ℤ

abbrev paired : Option ℤ → Option ℤ → Option Row
paired (some t) (some s) = some (t, s)
paired _ _ = none

-- what the loop keeps of one entry
unfoldable pub row_of : LogRow → Option Row
unfolding is_alert is_hard coerce_int
row_of entry =
    if is_alert entry.type && is_hard entry.state_type
    then paired (coerce_int entry.time) (coerce_int entry.state)
    else none

unfoldable pub rows_of : List LogRow → List Row
unfolding row_of
rows_of [] = []
rows_of (e ∷ entries) =
    let rest = rows_of entries in elim (row_of e) [ none ↦ rest | some r ↦ r ∷ rest ]

abbrev pub time_of : Row → ℤ
time_of r = r.0

-- `_relevant_rows`
unfoldable pub relevant_rows : List LogRow → List Row
unfolding rows_of sort
relevant_rows entries = sort time_of (rows_of entries)

pub relevant_rows-IsSorted : (entries : List LogRow) → IsSorted time_of (relevant_rows entries)
unfolding relevant_rows
relevant_rows-IsSorted entries = sort-IsSorted time_of (rows_of entries)
