-- ===== src/Inventory/Leaks.antt =====
-- The rows that `thruk_problems` of src/thruk_mcp/tools/inventory.py keeps, and its warning.
use thruk_mcp.Inventory.{Constraint, row_matches, leak_of, recheck_rows}
use thruk_mcp.Prelude.{
  ℕ, ◌+◌, ◌-◌, String, ◌≡◌, refl, sym, ap₂, Bool, not, List, [], ◌∷◌, arith, length,
}
use thruk_mcp.Sorting.{keep, keep_all, length-keep}

difference : (a b c : ℕ) → a + b ≡ c → c - a ≡ b
difference a b c h = omega (arith, h)

module _ {R : Type 0} (search : String → String → Bool) where
  -- the rows that a check drops
  abbrev pub dropped : (R → List String) → List Constraint → List R → List R
  dropped groups cs rows = keep (λ r. not (row_matches search (groups r) cs)) rows

  counted :
      (groups : R → List String) (cs : List Constraint) (rows : List R)
      → length rows - length (keep (λ r. row_matches search (groups r) cs) rows)
        ≡ length (dropped groups cs rows)
  counted groups cs rows =
      difference (length (keep (λ r. row_matches search (groups r) cs) rows))
        (length (dropped groups cs rows)) (length rows)
        (length-keep (λ r. row_matches search (groups r) cs) rows)

  none_dropped : (groups : R → List String) (rows : List R) → dropped groups [] rows ≡ []
  unfolding keep row_matches
  none_dropped groups [] = refl
  none_dropped groups (r ∷ rows) = none_dropped groups rows

  -- Every row that is kept meets all constraints, every row that meets them is kept in its place,
  -- and the warning has the numbers of the hosts and the services that do not, where there is one.
  pub recheck_rows-leak :
      (groups host_groups : R → List String) (cs : List Constraint) (hosts services : List R)
      → ((recheck_rows search groups host_groups cs hosts services).hosts
          ≡ keep (λ r. row_matches search (groups r) cs) hosts)
        × ((recheck_rows search groups host_groups cs hosts services).services
            ≡ keep (λ r. row_matches search (host_groups r) cs) services)
        × ((recheck_rows search groups host_groups cs hosts services).leak
            ≡ leak_of (length (dropped groups cs hosts)) (length (dropped host_groups cs services)))
  unfolding recheck_rows row_matches leak_of
  recheck_rows-leak groups host_groups [] hosts services = (
    sym (keep_all hosts),
    sym (keep_all services),
    rw (none_dropped groups hosts, none_dropped host_groups services) refl,
  )
  recheck_rows-leak groups host_groups (c ∷ cs) hosts services = (
    refl,
    refl,
    ap₂ (leak_of) (counted groups (c ∷ cs) hosts) (counted host_groups (c ∷ cs) services),
  )
