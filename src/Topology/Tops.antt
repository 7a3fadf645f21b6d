-- ===== src/Topology/Tops.antt =====
-- The root of a host, `_root_of` of src/thruk_mcp/tools/triage.py.
use thruk_mcp.Ordering.{member, text_leb, sort_by, member-keep, member-sort_by}
use thruk_mcp.Prelude.{
  String, ◌≡◌, refl, sym, ap, ◌∙◌, Bool, true, false, not, ◌&&◌, none, some, List, [], ◌∷◌, arith,
  String_discrete, Bool-cases, ◌⊎◌, inl, inr,
}
use thruk_mcp.Sorting.{keep}
use thruk_mcp.Topology.{Parents, in_set, down_ancestors, has_down_above, root_of, first_of}
use thruk_mcp.Topology.Walks.{none≢some, in_nil, at_head}
use thruk_mcp.Topology.Roots.{
  Above, StrictlyAbove, down_ancestors-Above, has_down_above-StrictlyAbove,
}

nil_false : (x : String) → in_set x [] ≡ false
unfolding member
nil_false x = refl

-- the choice between the hosts that are on top and all that there are
first_of-cases :
    (tops anc : List String) (d : String)
    → in_set d anc ≡ true
    → (root : String) × (first_of tops anc ≡ some root)
      × ((in_set root tops ≡ true) ⊎ ((tops ≡ []) × (in_set root anc ≡ true)))
unfolding first_of
first_of-cases (t ∷ tops) anc d h = (t, refl, inl (at_head t tops))
first_of-cases [] (x ∷ anc) d h = (x, refl, inr (refl, at_head x anc))
first_of-cases [] [] d h = absurd (in_nil d h)

both_true : (b c : Bool) → (b && c) ≡ true → (b ≡ true) × (c ≡ true)
both_true b c h = ground (arith, h)

module _ (down : List String) (parents : Parents) where
  none_above :
      (root e : String)
      → has_down_above down parents root ≡ false
      → StrictlyAbove parents root e
      → in_set e down ≡ false
  none_above root e h strictly = elim (Bool-cases (in_set e down)) [
    | inl is_down ↦ absurd (
        ground
          (arith, h, (has_down_above-StrictlyAbove down parents root).1 (e, strictly, is_down)))
    | inr other ↦ other
  ]

  -- When a host that is down lies above, or is, a host, this has a root, which is down and is or lies
  -- above it, and has no host that is down strictly above it, unless every such host has one.
  pub root_of-exists :
      (host d : String)
      → Above parents host d
      → in_set d down ≡ true
      → (root : String) × (root_of down parents host ≡ some root)
        × Above parents host root
        × (in_set root down ≡ true)
        × (((e : String) → StrictlyAbove parents root e → in_set e down ≡ false)
            ⊎ ((e : String) × StrictlyAbove parents d e × (in_set e down ≡ true)))
  unfolding root_of
  root_of-exists host d above is_down =
      let anc = down_ancestors down parents host in
      let is_top : String → Bool = λ x. not (has_down_above down parents x) in
      let found = (down_ancestors-Above down parents host d).1 (above, is_down) in
      let c =
        first_of-cases (sort_by text_leb (keep is_top anc)) (sort_by text_leb anc) d
          (member-sort_by String_discrete text_leb d anc ∙ found) in
      elim c.2 [
        | inl on_top ↦
            let both = both_true (is_top c.0) (in_set c.0 anc) (
              sym (member-keep String_discrete is_top c.0 anc)
              ∙ sym (member-sort_by String_discrete text_leb c.0 (keep is_top anc))
              ∙ on_top) in
            let a = (down_ancestors-Above down parents host c.0).0 both.1 in
            (
              c.0,
              c.1,
              a.0,
              a.1,
              inl (λ e strictly.
                  none_above c.0 e (not_true (has_down_above down parents c.0) both.0) strictly),
            )
        | inr (no_tops, there) ↦
            let a =
              (down_ancestors-Above down parents host c.0).0
                (sym (member-sort_by String_discrete text_leb c.0 anc) ∙ there) in
            (
              c.0,
              c.1,
              a.0,
              a.1,
              inr (
                  (has_down_above-StrictlyAbove down parents d).0 (
                    not_top (has_down_above down parents d) (in_set d anc) found (
                      sym (member-keep String_discrete is_top d anc)
                      ∙ sym (member-sort_by String_discrete text_leb d (keep is_top anc))
                      ∙ ap (in_set d) no_tops
                      ∙ nil_false d))),
            )
      ]
    where
      not_true : (b : Bool) → not b ≡ true → b ≡ false
      not_true b h = ground (arith, h)

      not_top : (b c : Bool) → c ≡ true → (not b && c) ≡ false → b ≡ true
      not_top b c h e = ground (arith, h, e)

  -- A host without a root has no host that is down above it, and is not down.
  pub root_of-none :
      (host d : String)
      → root_of down parents host ≡ none
      → Above parents host d
      → in_set d down ≡ false
  root_of-none host d h above = elim (Bool-cases (in_set d down)) [
    | inl is_down ↦ absurd (none≢some (sym h ∙ (root_of-exists host d above is_down).1))
    | inr other ↦ other
  ]
