-- ===== src/History/Snapshot.antt =====
-- src/thruk_mcp/tools/history.py: the list of objects and the summary of a reconstructed state.
use mathlib.Core.List.{map-append}
use thruk_mcp.Helpers.{format_state_label, duration_human, host_labels, service_labels}
use thruk_mcp.History.{Known, Key, States, or_none}
use thruk_mcp.OrderedDict.{OrderedDict}
use thruk_mcp.Ordering.{
  text_leb, pair_leb, first_leb, sort_by, sort_by-first, length-sort_by, tally, sort_items,
  count_of, occurrences, count_of-sort_items, occurrences-sort_by,
}
use thruk_mcp.Prelude.{
  ℕ, String, ◌+◌, ◌-◌, ◌≡◌, refl, sym, ap, ◌∙◌, Bool, true, false, not, ◌||◌, Option, none, some,
  List, [], ◌∷◌, ◌++◌, map, arith, length, length-map, String_discrete, if◌then◌else◌,
}
use thruk_mcp.Prelude.Int.{ℤ, pos, ◌-ℤ◌, leb_ℤ, ℤ_discrete}
use thruk_mcp.Prelude.Text.{is_empty}
use thruk_mcp.Sorting.{keep, keep_all, length-keep}

-- the labels of a host's or a service's states, by the text of the service
unfoldable pub label_of : Key → Known → String
unfolding format_state_label
label_of (host, svc) k =
    format_state_label k.state (if is_empty svc then host_labels else service_labels)

unfoldable pub is_problem : Known → Bool
is_problem k = elim k.state [ none ↦ false | some s ↦ not (leb_ℤ s (pos 0)) ]

pub record StateObject : Type 0 where
  pub host : String
  pub service : Option String
  pub state : String
  pub state_type : Option String
  pub since : Option String
  pub since_human : Option String
  pub in_downtime : Bool
  pub acknowledged : Bool
  pub plugin_output : Option String

pub record Summary : Type 0 where
  pub total : ℕ
  pub ok : ℕ
  pub problems : ℕ
  pub by_state : OrderedDict String ℕ

-- `f(since) if since else None`
abbrev when_set : (ℤ → String) → Option ℤ → Option String
when_set f none = none
when_set f (some t) = elim (ℤ_discrete t (pos 0)) [ yes _ ↦ none | no _ ↦ some (f t) ]

-- the test and the order of the items
abbrev pub troubled : Key × Known → Bool
troubled item = is_problem item.1

abbrev pub item_leb : Key × Known → Key × Known → Bool
item_leb = first_leb troubled (λ a b. pair_leb a.0 b.0)

abbrev pub labels : States → List String
labels = map (λ item. label_of item.0 item.1)

unfoldable pub snapshot_summary : States → Summary
unfolding is_problem
snapshot_summary state =
    let problems = length (keep troubled state) in
    record {
      total = length state;
      ok = length state - problems;
      problems = problems;
      by_state = sort_items String_discrete text_leb (tally String_discrete (labels state) []);
    }

-- `_ts` and the clock are arguments.
module _ (ts : ℤ → String) (now : ℤ) where
  unfoldable pub state_object : Key × Known → StateObject
  unfolding label_of duration_human
  state_object ((host, svc), rec) = record {
    host = host;
    service = or_none svc;
    state = label_of (host, svc) rec;
    state_type = rec.state_type;
    since = when_set ts rec.since;
    since_human = when_set (λ t. duration_human (now -ℤ t)) rec.since;
    in_downtime = rec.in_downtime;
    acknowledged = rec.acknowledged;
    plugin_output = rec.plugin_output;
  }

  -- `_state_snapshot`
  unfoldable pub state_snapshot : States → Bool → List StateObject × Summary
  unfolding snapshot_summary state_object
  state_snapshot state problems_only = (
    map state_object (sort_by item_leb (keep (λ item. not problems_only || troubled item) state)),
    snapshot_summary state,
  )

  listed :
      (p : Key × Known → Bool) (d : States)
      → length (map state_object (sort_by item_leb (keep p d))) ≡ length (keep p d)
  listed p d =
      length-map state_object (sort_by item_leb (keep p d)) ∙ length-sort_by item_leb (keep p d)

  -- The list of all objects is the list of the problems, as many as the summary says, and behind it
  -- the other objects, as many as it says are fine; together they are as many as its total.
  pub state_snapshot-problems_first :
      (d : States)
      → ((rest : List StateObject) × ((state_snapshot d false).0
            ≡ (state_snapshot d true).0 ++ rest)
          × (length rest ≡ (snapshot_summary d).ok))
        × (length (state_snapshot d true).0 ≡ (snapshot_summary d).problems)
        × ((snapshot_summary d).ok + (snapshot_summary d).problems ≡ (snapshot_summary d).total)
  unfolding state_snapshot snapshot_summary
  state_snapshot-problems_first d =
      let quiet = keep (λ item. not (troubled item)) d in
      (
        (
          map state_object (sort_by item_leb quiet),
          ap (λ l. map state_object (sort_by item_leb l)) (keep_all d)
              ∙ ap (map state_object) (sort_by-first troubled (λ a b. pair_leb a.0 b.0) d)
              ∙ map-append state_object (sort_by item_leb (keep troubled d))
                  (sort_by item_leb quiet),
          omega (arith, listed (λ item. not (troubled item)) d, length-keep troubled d),
        ),
        listed troubled d,
        omega (arith, length-keep troubled d),
      )

  -- The summary counts each label as often as an object of the whole list has it.
  pub state_snapshot-by_state :
      (d : States) (label : String)
      → count_of String_discrete label (snapshot_summary d).by_state
        ≡ occurrences String_discrete label (map (λ o. o.state) (state_snapshot d false).0)
  unfolding state_snapshot snapshot_summary state_object
  state_snapshot-by_state d label =
      count_of-sort_items String_discrete text_leb label (labels d)
      ∙ sym (occurrences-sort_by String_discrete item_leb (λ item. label_of item.0 item.1) label d)
      ∙ ap
          (λ l.
            occurrences String_discrete label
              (map (λ item. label_of item.0 item.1) (sort_by item_leb l)))
          (sym (keep_all d))
      ∙ ap (occurrences String_discrete label)
          (sym (map_objects (sort_by item_leb (keep (λ item. true) d))))
    where
      map_objects : (l : States) → map (λ o. o.state) (map state_object l) ≡ labels l
      map_objects [] = refl
      map_objects (x ∷ l) = ap (λ t. label_of x.0 x.1 ∷ t) (map_objects l)
