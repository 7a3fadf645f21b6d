-- ===== src/Cache/Tests.antt =====
-- The cache at concrete calls, and the theorems at inputs that meet their hypotheses.
use mathlib.Core.List.{lookup}
use native.Mathlib.Decide.{ℕ_discrete as dec}
use thruk_mcp.Cache.History.{
  Call, getting, setting, step, run, latest, evicted, run_never_stale, get-set_self,
}
use thruk_mcp.Cache.Steps.{IsValid, lifetime}
use thruk_mcp.Cache.{TtlCache, get, make_room, set}
use thruk_mcp.OrderedDict.{ok, popitem_first, remove, move_to_end, set_item}
use thruk_mcp.Prelude.{
  ℕ, ◌+◌, ◌≤◌, ◌<◌, ◌≡◌, ◌≢◌, refl, none, some, List, [], ◌∷◌, arith, length, ltb, if◌then◌else◌,
}

-- newest first: the full cache drops key 1 after key 2 was read, then key 2 expires
abbrev log : List (Call ℕ ℕ)
log = setting 3 30 none 6 ∷ getting 2 5 ∷ setting 1 10 (some 9) 4 ∷ setting 2 20 none 3 ∷ []

abbrev two_entries : TtlCache ℕ ℕ
two_entries = record { default_ttl = 15; maxsize = 2; store = (2, (18, 20)) ∷ (3, (21, 30)) ∷ [] }

run-log : run dec 15 2 log ≡ ok two_entries
unfolding run get set make_room popitem_first remove move_to_end set_item lookup dec step
run-log = refl

get_expired :
    get dec 2 18 two_entries ≡ ok (record two_entries { store = (3, (21, 30)) ∷ [] }, none)
unfolding get remove lookup dec
get_expired = refl

two_entries-IsValid : IsValid dec two_entries
unfolding lookup dec
two_entries-IsValid = record {
  positive = omega arith;
  bounded = omega arith;
  distinct = (refl, (refl, tt));
}

run_never_stale_example :
    (c : TtlCache ℕ ℕ) × (run dec 15 2 log ≡ ok c)
    × (length c.store ≤ 2)
    × ((key now : ℕ) (c' : TtlCache ℕ ℕ) (v : ℕ)
        → get dec key now c ≡ ok (c', some v)
        → (expires : ℕ) × (latest dec 15 key log ≡ some (expires, v)) × (now < expires))
run_never_stale_example = run_never_stale dec 15 2 log (omega arith)

get-set_self_example :
    (c' : TtlCache ℕ ℕ) × (c'' : TtlCache ℕ ℕ) × (set dec 7 70 (some 4) 10 two_entries ≡ ok c')
    × (get dec 7 12 c'
        ≡ ok (c'', if ltb 12 (10 + lifetime dec (some 4) two_entries) then some 70 else none))
get-set_self_example = get-set_self dec two_entries 7 70 (some 4) 10 12 two_entries-IsValid

three_stays : evicted dec 7 two_entries ≢ some 3
unfolding lookup dec
three_stays e = ground arith

three-ne-seven : ◌≢◌ {A = ℕ} 3 7
three-ne-seven e = omega arith
