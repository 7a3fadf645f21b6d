-- ===== src/History.antt =====
-- src/thruk_mcp/tools/history.py: the state of every object at a time, replayed from the log rows.
pub mod Entries
pub mod Replay
pub mod Snapshot
pub mod Diff
pub mod Changes
pub mod Reported
pub mod Window
mod Tests
use thruk_mcp.History.Entries.{
  Entry, time_of, Category, state_change, downtime, ack, category_of, Marker, started, detail_of,
  state_code,
}
use thruk_mcp.OrderedDict
use thruk_mcp.OrderedDict.{OrderedDict, set_item}
use thruk_mcp.Prelude.{
  String, Bool, true, false, not, Option, none, some, List, [], ◌∷◌, if◌then◌else◌,
}
use thruk_mcp.Prelude.Int.{ℤ, pos, ℤ_discrete, leb_ℤ}
use thruk_mcp.Prelude.Text.{upper, is_empty}
use thruk_mcp.Sorting.{sort, keep, up_to}

-- What is known of one host or service.
pub record Known : Type 0 where
  pub state : Option ℤ
  pub state_type : Option String
  pub since : Option ℤ
  pub in_downtime : Bool
  pub acknowledged : Bool
  pub plugin_output : Option String

-- the record that `setdefault` puts in
unfoldable pub blank : Known
blank = record {
  state = none;
  state_type = none;
  since = none;
  in_downtime = false;
  acknowledged = false;
  plugin_output = none;
}

-- `text or None`
abbrev pub or_none : String → Option String
or_none s = if is_empty s then none else some s

abbrev pub has_state : Known → ℤ → Bool
has_state k s = elim k.state [
  | none ↦ false
  | some t ↦ elim (ℤ_discrete s t) [ yes _ ↦ true | no _ ↦ false ]
]

-- the branches of the loop's body
unfoldable pub change_state : Entry → Known → Known
unfolding state_code
change_state e k =
    let s = state_code e.state in
    record {
      state = some s;
      state_type = or_none (upper e.state_type);
      since = if has_state k s then k.since else some e.time;
      in_downtime = k.in_downtime;
      acknowledged = elim (ℤ_discrete s (pos 0)) [ yes _ ↦ false | no _ ↦ k.acknowledged ];
      plugin_output = or_none e.plugin_output;
    }

unfoldable pub set_downtime : Option Marker → Known → Known
set_downtime none k = k
set_downtime (some started) k = record k { in_downtime = true }
set_downtime (some _) k = record k { in_downtime = false }

-- no marker counts as a start
unfoldable pub set_ack : Option Marker → Known → Known
set_ack none k = record k { acknowledged = true }
set_ack (some started) k = record k { acknowledged = true }
set_ack (some _) k = record k { acknowledged = false }

unfoldable pub apply_as : Category → Entry → Known → Known
unfolding change_state set_downtime set_ack detail_of
apply_as state_change e k = change_state e k
apply_as downtime e k = set_downtime (detail_of e) k
apply_as ack e k = set_ack (detail_of e) k
apply_as _ e k = k

unfoldable pub apply : Entry → Known → Known
unfolding apply_as category_of
apply e k = apply_as (category_of e.type) e k

-- the host, and the service or the empty text
abbrev pub Key : Type 0
Key = String × String

abbrev pub entry_key : Entry → Key
entry_key e = (e.host, e.service)

abbrev pub States : Type 0
States = OrderedDict Key Known

module _ (dec : Discrete Key) where
  abbrev pub known : Key → States → Known
  known key d = elim (OrderedDict.get dec key d) [ none ↦ blank | some k ↦ k ]

  -- one round of the loop; the record is changed where it stands
  unfoldable pub replay_one : Entry → States → States
  unfolding apply
  replay_one e d = set_item dec (entry_key e) (apply e (known (entry_key e) d)) d

  unfoldable pub replay : List Entry → States → States
  replay [] d = d
  replay (e ∷ entries) d = replay entries (replay_one e d)

  -- `_reconstruct_state_at`
  unfoldable pub reconstruct_state_at : List Entry → ℤ → States
  unfolding replay
  reconstruct_state_at rows at_epoch = replay (sort time_of (keep (up_to time_of at_epoch) rows)) []
