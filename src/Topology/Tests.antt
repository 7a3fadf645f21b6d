-- ===== src/Topology/Tests.antt =====
-- Witnesses and tests of the root causes: a web server behind a switch and a router, and two hosts that
-- are each other's parents.
use mathlib.Core.List.{lookup}
use thruk_mcp.OrderedDict.{set_item}
use thruk_mcp.Ordering.{member, text_leb, sort_by, insert_by}
use thruk_mcp.Prelude.{
  String, ◌≡◌, refl, true, false, ◌&&◌, ◌||◌, some, List, [], ◌∷◌, String_discrete, ◌⊎◌, ◌↔◌,
}
use thruk_mcp.Sorting.{keep}
use thruk_mcp.Topology.Clusters.{members, is_root, is_none, attribute_root_causes-members}
use thruk_mcp.Topology.Roots.{StrictlyAbove, Above, itself, up, down_ancestors-Above}
use thruk_mcp.Topology.Tops.{root_of-exists}
use thruk_mcp.Topology.{
  Parents, in_set, add, extend, climb, search, edges_left, fuel_for, down_ancestors, has_down_above,
  first_of, root_of, cluster, attribute_root_causes,
}

abbrev parents : Parents
parents =
    ("web", "switch" ∷ [])
    ∷ ("switch", "router" ∷ [])
    ∷ ("router", [])
    ∷ ("left", "right" ∷ [])
    ∷ ("right", "left" ∷ [])
    ∷ []

abbrev down : List String
down = "switch" ∷ "router" ∷ "left" ∷ []

attributed :
    attribute_root_causes down parents ("web" ∷ "printer" ∷ [])
    ≡ (("router", "web" ∷ "router" ∷ "switch" ∷ []) ∷ ("left", "left" ∷ []) ∷ [], "printer" ∷ [])
unfolding attribute_root_causes cluster root_of first_of down_ancestors has_down_above climb search
    fuel_for edges_left extend add set_item sort_by insert_by text_leb keep member lookup
    String_discrete
attributed = refl

above_web : Above parents "web" "router"
unfolding member lookup String_discrete
above_web = up "switch" "router" (up "web" "switch" (itself "web") refl) refl

down_ancestors-Above_example :
    (in_set "router" (down_ancestors down parents "web") ≡ true)
    ↔ (Above parents "web" "router" × (in_set "router" down ≡ true))
down_ancestors-Above_example = down_ancestors-Above down parents "web" "router"

root_of-exists_example :
    (root : String) × (root_of down parents "web" ≡ some root)
    × Above parents "web" root
    × (in_set root down ≡ true)
    × (((e : String) → StrictlyAbove parents root e → in_set e down ≡ false)
        ⊎ ((e : String) × StrictlyAbove parents "router" e × (in_set e down ≡ true)))
unfolding member String_discrete
root_of-exists_example = root_of-exists down parents "web" "router" above_web refl

attribute_root_causes-members_example :
    (in_set "web" (members "router" (attribute_root_causes down parents ("web" ∷ [])).0) ≡ (
      (in_set "web" down || in_set "web" ("web" ∷ []))
      && is_root "router" (root_of down parents "web")))
    × (in_set "web" (attribute_root_causes down parents ("web" ∷ [])).1 ≡ (
        (in_set "web" down || in_set "web" ("web" ∷ [])) && is_none (root_of down parents "web")))
attribute_root_causes-members_example =
    attribute_root_causes-members down parents ("web" ∷ []) "router" "web"
