-- ===== src/History/Diff.antt =====
-- src/thruk_mcp/tools/history.py: what changed between two reconstructed states, `_diff_states`.
use thruk_mcp.History.Snapshot.{label_of, is_problem}
use thruk_mcp.History.{Known, Key, States, known, or_none}
use thruk_mcp.OrderedDict.{OrderedDict, keys}
use thruk_mcp.Ordering.{text_leb, pair_leb, sort_by, member, tally, sort_items}
use thruk_mcp.Prelude.{
  ℕ, String, Bool, true, false, not, ◌&&◌, ◌||◌, Option, none, some, List, [], ◌∷◌, ◌++◌, map,
  length, String_discrete, if◌then◌else◌,
}
use thruk_mcp.Prelude.Int.{ℤ, ℤ_discrete}
use thruk_mcp.Sorting.{keep}

-- One object that moved; a pair is what was before and what is after.
pub record Change : Type 0 where
  pub host : String
  pub service : Option String
  pub category : String
  pub states : Option (String × String)
  pub in_downtime : Option (Bool × Bool)
  pub acknowledged : Option (Bool × Bool)

unfoldable pub state_differs : Option ℤ → Option ℤ → Bool
state_differs none none = false
state_differs none (some _) = true
state_differs (some _) none = true
state_differs (some s) (some t) = elim (ℤ_discrete s t) [ yes _ ↦ false | no _ ↦ true ]

unfoldable pub flag_differs : Bool → Bool → Bool
flag_differs b a = if b then not a else a

-- `category`, of what moved and of whether there was and is a problem
unfoldable pub move_category : Bool → Bool → Bool → Bool → String
move_category state_moved dt_moved was is =
    if state_moved
    then (if not was && is
        then "new_problem"
        else if was && not is
        then "recovered"
        else "state_changed")
    else if dt_moved
    then "downtime_changed"
    else "ack_changed"

abbrev pub moved {ℓ} : {A : Type ℓ} → Bool → A → Option A
moved b x = if b then some x else none

-- one round of the loop: None where it goes on without a change
unfoldable pub change_of : Key → Known → Known → Option Change
unfolding move_category state_differs flag_differs label_of is_problem
change_of (host, svc) b a =
    let state_moved = state_differs b.state a.state in
    let dt_moved = flag_differs b.in_downtime a.in_downtime in
    let ack_moved = flag_differs b.acknowledged a.acknowledged in
    moved (state_moved || dt_moved || ack_moved) (record {
      host = host;
      service = or_none svc;
      category = move_category state_moved dt_moved (is_problem b) (is_problem a);
      states = moved state_moved (label_of (host, svc) b, label_of (host, svc) a);
      in_downtime = moved dt_moved (b.in_downtime, a.in_downtime);
      acknowledged = moved ack_moved (b.acknowledged, a.acknowledged);
    })

abbrev pub cons_some {ℓ} : {A : Type ℓ} → Option A → List A → List A
cons_some none l = l
cons_some (some x) l = x ∷ l

pub record DiffSummary : Type 0 where
  pub changed : ℕ
  pub by_category : OrderedDict String ℕ

module _ (dec : Discrete Key) where
  unfoldable pub changes_at : States → States → List Key → List Change
  unfolding change_of
  changes_at before after [] = []
  changes_at before after (key ∷ l) =
      cons_some (change_of key (known dec key before) (known dec key after))
        (changes_at before after l)

  -- `before.keys() | after.keys()`
  abbrev pub key_union : States → States → List Key
  key_union before after =
      keys before ++ keep (λ key. not (member dec key (keys before))) (keys after)

  unfoldable pub diff_summary : List Change → DiffSummary
  diff_summary changes = record {
    changed = length changes;
    by_category =
        sort_items String_discrete text_leb
          (tally String_discrete (map (λ c. c.category) changes) []);
  }

  -- `_diff_states`
  unfoldable pub diff_states : States → States → List Change × DiffSummary
  unfolding changes_at diff_summary
  diff_states before after =
      let changes = changes_at before after (sort_by pair_leb (key_union before after)) in
      (changes, diff_summary changes)
