-- ===== src/History/Entries.antt =====
-- The rows of /logs as src/thruk_mcp/tools/history.py reads them: their categories and markers.
use Prim.Native.Char.{code}
use Prim.Native.String.{String}
use thruk_mcp.Prelude.{
  ℕ, Bool, true, false, not, ◌&&◌, ◌||◌, Option, none, some, leb, nat_eq, if◌then◌else◌,
}
use thruk_mcp.Prelude.Int.{ℤ, negsuc}
use thruk_mcp.Prelude.Text.{upper, strip, contains}
use thruk_mcp.Reliability.Rows.{Cell, text, coerce_int}

-- A row: `int(r.get("time") or 0)`, the texts with `or ""`, and the state, a number or a text.
pub record Entry : Type 0 where
  pub time : ℤ
  pub host : String
  pub service : String
  pub type : String
  pub state : Cell
  pub state_type : String
  pub plugin_output : String
  pub message : String

abbrev pub time_of : Entry → ℤ
time_of e = e.time

pub data Category : Type 0 where
  state_change notification downtime flap ack other : Category

-- `_classify_timeline_type`
unfoldable pub category_of : String → Category
category_of type =
    let t : String = upper (strip type) in
    if contains "DOWNTIME ALERT" t
    then downtime
    else if contains "FLAPPING ALERT" t
    then flap
    else if contains "ACKNOWLEDGE ALERT" t
    then ack
    else if contains "NOTIFICATION" t
    then notification
    else if contains "ALERT" t
    then state_change
    else other

pub data Marker : Type 0 where
  started stopped cancelled expired : Marker

-- `\w`, of ASCII
is_word : ℕ → Bool
is_word c =
    (leb 48 c && leb c 57) || (leb 65 c && leb c 90) || (leb 97 c && leb c 122) || nat_eq c 95

-- what follows does not go on with the word
ends_word : String → Bool
ends_word String.[] = true
ends_word (String.◌∷◌ c s) = not (is_word (code c))

-- the rest of a text behind a word that it starts with
behind : String → String → Option String
behind String.[] s = some s
behind (String.◌∷◌ c w) String.[] = none
behind (String.◌∷◌ c w) (String.◌∷◌ d s) =
    let rest = behind w s in if nat_eq (code c) (code d) then rest else none

starts_word : String → String → Bool
starts_word w s = elim (behind w s) [ none ↦ false | some rest ↦ ends_word rest ]

marker_here : String → Option Marker
marker_here s =
    if starts_word "STARTED" s
    then some started
    else if starts_word "STOPPED" s
    then some stopped
    else if starts_word "CANCELLED" s
    then some cancelled
    else if starts_word "EXPIRED" s
    then some expired
    else none

-- `_TIMELINE_DETAIL_RE.search`: the first marker that stands as a word, in capitals; `after_word` says
-- that a letter of a word stands before
search_marker : Bool → String → Option Marker
search_marker after_word String.[] = none
search_marker after_word (String.◌∷◌ c s) =
    let rest = search_marker (is_word (code c)) s in
    if after_word
    then rest
    else elim (marker_here (String.◌∷◌ c s)) [ some m ↦ some m | none ↦ rest ]

unfoldable pub find_marker : String → Option Marker
unfolding search_marker marker_here starts_word behind ends_word is_word
find_marker s = search_marker false (upper s)

-- `str(state or "")`; a number has no marker
abbrev cell_text : Cell → String
cell_text (text s) = s
cell_text _ = ""

-- `_timeline_detail`
unfoldable pub detail_of : Entry → Option Marker
unfolding find_marker
detail_of e = elim (find_marker (cell_text e.state)) [
  | some m ↦ some m
  | none ↦ elim (find_marker e.plugin_output) [ some m ↦ some m | none ↦ find_marker e.message ]
]

-- `int(entry.get("state", -1))`, and -1 where that raises
unfoldable pub state_code : Cell → ℤ
unfolding coerce_int
state_code c = elim (coerce_int c) [ none ↦ negsuc 0 | some n ↦ n ]
