-- ===== src/History/Replay.antt =====
-- The replay of the log, object by object and in two halves: `_reconstruct_state_at` of
-- src/thruk_mcp/tools/history.py.
use mathlib.Core.List.{lookup}
use thruk_mcp.History.Entries.{Entry, time_of}
use thruk_mcp.History.{
  Known, blank, apply, Key, entry_key, States, known, replay_one, replay, reconstruct_state_at,
}
use thruk_mcp.OrderedDict
use thruk_mcp.OrderedDict.{set_item}
use thruk_mcp.OrderedDict.Laws.{get-set_item_self, get-set_item_ne}
use thruk_mcp.Prelude.{
  ◌≡◌, refl, ap, ◌∙◌, Bool, true, false, not, Option, none, some, List, [], ◌∷◌, ◌++◌, arith,
  if◌then◌else◌,
}
use thruk_mcp.Prelude.Int.{ℤ, ◌≤ℤ◌}
use thruk_mcp.Sorting.{
  sort, sort-IsSorted, keep, keep-sort, keep-keep, keep_comm, up_to, sorted_split,
}

-- One object, through its own rows.
unfoldable pub life : List Entry → Option Known → Option Known
life [] o = o
life (e ∷ l) o = life l (some (apply e (elim o [ none ↦ blank | some k ↦ k ])))

module _ (dec : Discrete Key) where
  abbrev pub own : Key → Entry → Bool
  own key e = elim (dec key (entry_key e)) [ yes _ ↦ true | no _ ↦ false ]

  -- what one row makes of one object
  step : Key → Entry → Option Known → Option Known
  step key e o = if own key e then some (apply e (elim o [ none ↦ blank | some k ↦ k ])) else o

  get-replay_one :
      (key : Key) (e : Entry) (d : States)
      → OrderedDict.get dec key (replay_one dec e d) ≡ step key e (OrderedDict.get dec key d)
  unfolding replay_one step
  get-replay_one key e d =
      elim (dec key (entry_key e))
        as (λ r.
          OrderedDict.get dec key
            (set_item dec (entry_key e) (apply e (known dec (entry_key e) d)) d)
          ≡ (if elim r [ yes _ ↦ true | no _ ↦ false ]
              then some (apply e (elim (OrderedDict.get dec key d) [ none ↦ blank | some k ↦ k ]))
              else OrderedDict.get dec key d)) [
                | yes same ↦
                    rw (same)
                      (get-set_item_self dec (entry_key e) (apply e (known dec (entry_key e) d)) d)
                | no other ↦
                    get-set_item_ne dec (entry_key e) key (apply e (known dec (entry_key e) d)) d
                      other
              ]

  life-own :
      (key : Key) (e : Entry) (l : List Entry) (o : Option Known)
      → life (keep (own key) l) (step key e o) ≡ life (keep (own key) (e ∷ l)) o
  unfolding keep life step
  life-own key e l o = ground (arith)

  pub get-replay :
      (key : Key) (l : List Entry) (d : States)
      → OrderedDict.get dec key (replay dec l d)
        ≡ life (keep (own key) l) (OrderedDict.get dec key d)
  unfolding replay replay_one keep life
  get-replay key [] d = refl
  get-replay key (e ∷ l) d =
      get-replay key l (replay_one dec e d)
      ∙ ap (life (keep (own key) l)) (get-replay_one key e d)
      ∙ life-own key e l (OrderedDict.get dec key d)

  replay-append :
      (l m : List Entry) (d : States) → replay dec (l ++ m) d ≡ replay dec m (replay dec l d)
  unfolding replay
  replay-append [] m d = refl
  replay-append (e ∷ l) m d = replay-append l m (replay_one dec e d)

  -- What the replay says of one object is what its own rows up to the time say, taken in the order of
  -- their times; there is no record of an object without such rows.
  pub get-reconstruct_state_at :
      (rows : List Entry) (at : ℤ) (key : Key)
      → OrderedDict.get dec key (reconstruct_state_at dec rows at)
        ≡ life (sort time_of (keep (up_to time_of at) (keep (own key) rows))) none
  unfolding reconstruct_state_at lookup
  get-reconstruct_state_at rows at key =
      get-replay key (sort time_of (keep (up_to time_of at) rows)) []
      ∙ ap (λ l. life l none)
          (keep-sort time_of (own key) (keep (up_to time_of at) rows)
            ∙ ap (sort time_of) (keep_comm (own key) (up_to time_of at) rows))

  -- The states at a later time are those at an earlier one with the rows in between replayed, in the
  -- order of their times.
  pub reconstruct_state_at-later :
      (rows : List Entry) (at later : ℤ)
      → at ≤ℤ later
      → reconstruct_state_at dec rows later
        ≡ replay dec
            (sort time_of (keep (λ e. not (up_to time_of at e)) (keep (up_to time_of later) rows)))
            (reconstruct_state_at dec rows at)
  unfolding reconstruct_state_at
  reconstruct_state_at-later rows at later h =
      let seen = keep (up_to time_of later) rows in
      ap (λ l. replay dec l [])
        (sorted_split time_of at (sort time_of seen) (sort-IsSorted time_of seen))
      ∙ replay-append (keep (up_to time_of at) (sort time_of seen))
          (keep (λ e. not (up_to time_of at e)) (sort time_of seen)) []
      ∙ rw
          (
            keep-sort time_of (up_to time_of at) seen,
            keep-sort time_of (λ e. not (up_to time_of at e)) seen,
            keep-keep (up_to time_of at) (up_to time_of later) rows (λ e early. up_to_mono e early),
          )
          refl
    where
      up_to_mono : (e : Entry) → up_to time_of at e ≡ true → up_to time_of later e ≡ true
      up_to_mono e early = ground (arith, h, early)
