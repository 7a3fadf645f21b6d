-- ===== src/History/Tests.antt =====
-- Witnesses and tests of the replay: a host that goes down, is acknowledged and recovers, and a service.
use thruk_mcp.History.Changes.{find_change}
use thruk_mcp.History.Reported.{Tells, diff_states-Tells}
use thruk_mcp.History.Diff.{diff_states}
use thruk_mcp.History.Entries.{Entry, time_of, category_of, find_marker, detail_of, state_code}
use thruk_mcp.History.Replay.{life, own, get-reconstruct_state_at}
use thruk_mcp.History.Snapshot.{
  StateObject, state_snapshot, snapshot_summary, state_snapshot-problems_first,
}
use thruk_mcp.History.Window.{diff_states-quiet}
use thruk_mcp.History.{
  Known, Key, States, known, blank, replay, replay_one, reconstruct_state_at, apply, apply_as,
  change_state, set_ack, set_downtime,
}
use mathlib.Core.List.{lookup}
use native.Mathlib.Decide.{ℕ_discrete}
use thruk_mcp.OrderedDict
use thruk_mcp.OrderedDict.{set_item}
use thruk_mcp.Prelude.{
  String, ◌+◌, ◌≡◌, refl, true, false, none, some, List, [], ◌∷◌, ◌++◌, length, String_discrete,
  arith,
}
use thruk_mcp.Prelude.Int.{ℤ, pos, ℤ_discrete}
use thruk_mcp.Prelude.Text.{upper, strip, contains, begins_with}
use thruk_mcp.Reliability.Rows.{int, coerce_int}
use thruk_mcp.Sorting.{sort, insert, keep, up_to}

abbrev key_discrete : Discrete Key
key_discrete = hlevel String_discrete

abbrev row : ℤ → String → String → String → ℤ → Entry
row time host service type state = record {
  time = time;
  host = host;
  service = service;
  type = type;
  state = int state;
  state_type = "hard";
  plugin_output = "";
  message = "";
}

abbrev rows : List Entry
rows =
    row (pos 40) "web" "" "HOST ALERT" (pos 0)
    ∷ row (pos 10) "web" "" "HOST ALERT" (pos 1)
    ∷ row (pos 20) "web" "" "ACKNOWLEDGE ALERT" (pos 1)
    ∷ row (pos 25) "web" "http" "SERVICE ALERT" (pos 2)
    ∷ []

get-reconstruct_state_at_example :
    OrderedDict.get key_discrete ("web", "") (reconstruct_state_at key_discrete rows (pos 30))
    ≡ life
        (sort time_of (keep (up_to time_of (pos 30)) (keep (own key_discrete ("web", "")) rows)))
        none
get-reconstruct_state_at_example = get-reconstruct_state_at key_discrete rows (pos 30) ("web", "")

abbrev down : Known
down = record {
  state = some (pos 1);
  state_type = some "HARD";
  since = some (pos 10);
  in_downtime = false;
  acknowledged = true;
  plugin_output = none;
}

abbrev up : Known
up = record down { state = some (pos 0); acknowledged = false }

abbrev before : States
before = (("web", ""), down) ∷ (("db", ""), up) ∷ []

abbrev after : States
after = (("web", ""), up) ∷ (("db", "sql"), down) ∷ (("db", ""), up) ∷ []

abbrev show_time : ℤ → String
show_time t = "then"

state_snapshot-problems_first_example :
    ((rest : List StateObject) × ((state_snapshot show_time (pos 70) after false).0
        ≡ (state_snapshot show_time (pos 70) after true).0 ++ rest)
      × (length rest ≡ (snapshot_summary after).ok))
    × (length (state_snapshot show_time (pos 70) after true).0 ≡ (snapshot_summary after).problems)
    × ((snapshot_summary after).ok + (snapshot_summary after).problems
        ≡ (snapshot_summary after).total)
state_snapshot-problems_first_example = state_snapshot-problems_first show_time (pos 70) after

diff_states-Tells_example :
    Tells
      ("web", "")
      (known key_discrete ("web", "") before)
      (known key_discrete ("web", "") after)
      (find_change key_discrete ("web", "") (diff_states key_discrete before after).0)
diff_states-Tells_example = diff_states-Tells key_discrete before after ("web", "")

diff_states-quiet_example :
    find_change key_discrete
      ("web", "http")
      (diff_states key_discrete
        (reconstruct_state_at key_discrete rows (pos 30))
        (reconstruct_state_at key_discrete rows (pos 50))).0
    ≡ none
unfolding keep String_discrete
diff_states-quiet_example =
    diff_states-quiet key_discrete rows (pos 30) (pos 50) ("web", "http") (omega arith) refl

replayed :
    reconstruct_state_at key_discrete rows (pos 30)
    ≡ (("web", ""), down)
      ∷ (
        ("web", "http"),
        record down { state = some (pos 2); since = some (pos 25); acknowledged = false },
      )
      ∷ []
unfolding reconstruct_state_at replay replay_one apply apply_as change_state set_ack detail_of
    find_marker state_code coerce_int category_of set_item sort insert keep blank upper strip
    contains lookup String_discrete ℤ_discrete set_downtime ℕ_discrete begins_with
replayed = refl
