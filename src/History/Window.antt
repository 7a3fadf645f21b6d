-- ===== src/History/Window.antt =====
-- The difference of the states at two times, as `thruk_state_diff` of src/thruk_mcp/tools/history.py
-- makes it from one list of rows.
use thruk_mcp.History.Changes.{find_change, change_of-same, diff_states-change_of}
use thruk_mcp.History.Diff.{change_of, diff_states}
use thruk_mcp.History.Entries.{Entry, time_of}
use thruk_mcp.History.Replay.{own, life, get-replay, reconstruct_state_at-later}
use thruk_mcp.History.{blank, Key, known, reconstruct_state_at}
use thruk_mcp.OrderedDict
use thruk_mcp.Prelude.{◌≡◌, ap, ◌∙◌, not, none, some, List, []}
use thruk_mcp.Prelude.Int.{ℤ, ◌≤ℤ◌}
use thruk_mcp.Sorting.{sort, keep, keep-sort, up_to}

-- the rows after one time and up to a later one
abbrev pub between : ℤ → ℤ → List Entry → List Entry
between at later rows = keep (λ e. not (up_to time_of at e)) (keep (up_to time_of later) rows)

module _ (dec : Discrete Key) where
  get-later :
      (rows : List Entry) (at later : ℤ) (key : Key)
      → at ≤ℤ later
      → keep (own dec key) (between at later rows) ≡ []
      → OrderedDict.get dec key (reconstruct_state_at dec rows later)
        ≡ OrderedDict.get dec key (reconstruct_state_at dec rows at)
  unfolding life sort
  get-later rows at later key h quiet =
      ap (OrderedDict.get dec key) (reconstruct_state_at-later dec rows at later h)
      ∙ get-replay dec key (sort time_of (between at later rows)) (reconstruct_state_at dec rows at)
      ∙ ap (λ l. life l (OrderedDict.get dec key (reconstruct_state_at dec rows at)))
          (keep-sort time_of (own dec key) (between at later rows) ∙ ap (sort time_of) quiet)

  -- An object without a row of its own after the first time and up to the second is not among the
  -- changes.
  pub diff_states-quiet :
      (rows : List Entry) (at later : ℤ) (key : Key)
      → at ≤ℤ later
      → keep (own dec key) (between at later rows) ≡ []
      → find_change dec key
          (diff_states dec
            (reconstruct_state_at dec rows at)
            (reconstruct_state_at dec rows later)).0
        ≡ none
  diff_states-quiet rows at later key h quiet =
      diff_states-change_of dec (reconstruct_state_at dec rows at)
        (reconstruct_state_at dec rows later) key
      ∙ ap
          (λ o.
            change_of key (known dec key (reconstruct_state_at dec rows at))
              (elim o [ none ↦ blank | some k ↦ k ]))
          (get-later rows at later key h quiet)
      ∙ change_of-same key (known dec key (reconstruct_state_at dec rows at))
