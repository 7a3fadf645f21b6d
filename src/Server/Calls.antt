-- ===== src/Server/Calls.antt =====
-- What a call of a tool does to the world and to the audit log: `call_tool` of
-- src/thruk_mcp/server.py with the tools that the server offers.
use mathlib.Core.List.{lookup}
use mathlib.Core.Path.{subst}
use thruk_mcp.Audit.{Json, Fields}
use thruk_mcp.OrderedDict
use thruk_mcp.OrderedDict.Laws.{get-set_item_self, get-set_item_ne}
use thruk_mcp.OrderedDict.{OrderedDict, set_item}
use thruk_mcp.Ordering.{member}
use thruk_mcp.Prelude.{
  String, ◌≡◌, ◌≢◌, refl, sym, ap, ◌∙◌, Bool, true, false, Option, none, some, List, [], ◌∷◌, arith,
  All, String_discrete, if◌then◌else◌, Bool-cases, Option-cases, ◌⊎◌, inl, inr,
}
use thruk_mcp.Server.Offered.{get-build_server}
use thruk_mcp.Server.{
  ToolResult, unknown_tool, Tool, ToolSpec, dispatch_into, dispatch, is_write_tool, is_offered,
  Server, build_server, run_tool, call_tool,
}
use thruk_mcp.Sorting.{keep}
use thruk_mcp.Tenants.{Config}

unoffered :
    {W : Type 0} (fnmatch : String → String → Bool) (cfg : Config) (registry : List (ToolSpec W))
    (name : String)
    → cfg.read_only ≡ true
    → is_write_tool registry name ≡ true
    → OrderedDict.get String_discrete name (build_server fnmatch cfg registry).enabled ≡ none
unfolding is_offered
unoffered fnmatch cfg registry name h w =
    get-build_server fnmatch cfg registry name ∙ rw (h, w) refl

module _ (repr : Json → String) (scrub : String → String) {W : Type 0} where
  call-unknown :
      (server : Server W) (bound : Option Config) (name : String) (args : Fields) (world : W)
      → OrderedDict.get String_discrete name server.enabled ≡ none
      → call_tool repr scrub server bound name args world ≡ (unknown_tool name, [], world)
  unfolding call_tool
  call-unknown server bound name args world h =
      ap
        (λ o. elim o [
          | none ↦ (unknown_tool name, [], world)
          | some f ↦ run_tool repr scrub server bound name args (f args world)
        ])
        h

  pub call-known :
      (server : Server W) (bound : Option Config) (name : String) (args : Fields) (world : W)
      (fn : Tool W)
      → OrderedDict.get String_discrete name server.enabled ≡ some fn
      → call_tool repr scrub server bound name args world
        ≡ run_tool repr scrub server bound name args (fn args world)
  unfolding call_tool
  call-known server bound name args world fn h =
      ap
        (λ o. elim o [
          | none ↦ (unknown_tool name, [], world)
          | some f ↦ run_tool repr scrub server bound name args (f args world)
        ])
        h

  -- On a read-only server a call of a tool that writes is answered as one of an unknown tool: nothing is
  -- run and nothing changes.
  pub call_tool-read_only :
      (fnmatch : String → String → Bool) (cfg : Config) (registry : List (ToolSpec W))
      (bound : Option Config) (name : String) (args : Fields) (world : W)
      → cfg.read_only ≡ true
      → is_write_tool registry name ≡ true
      → call_tool repr scrub (build_server fnmatch cfg registry) bound name args world
        ≡ (unknown_tool name, [], world)
  call_tool-read_only fnmatch cfg registry bound name args world h w =
      call-unknown (build_server fnmatch cfg registry) bound name args world
        (unoffered fnmatch cfg registry name h w)

-- A tool that does not change the world.
abbrev pub Preserves : {W : Type 0} → Tool W → Type 0
Preserves {W} fn = (args : Fields) (world : W) → (fn args world).1 ≡ world

abbrev pub IsHarmless : {W : Type 0} → ToolSpec W → Type 0
IsHarmless s = (s.is_write ≡ true) ⊎ Preserves s.fn

fewer_writes :
    {W : Type 0} (s : ToolSpec W) (l : List (ToolSpec W)) (name : String)
    → is_write_tool (s ∷ l) name ≡ false
    → is_write_tool l name ≡ false
unfolding keep member
fewer_writes s l name h = ground (arith, h)

own_write :
    {W : Type 0} (s : ToolSpec W) (l : List (ToolSpec W)) (name : String)
    → is_write_tool (s ∷ l) name ≡ false
    → name ≡ s.name
    → s.is_write ≡ false
unfolding keep member
own_write s l name h same = ground (arith, h, same)

some_injective : {A : Type 0} (x y : A) → some x ≡ some y → x ≡ y
some_injective x y h = ap (λ o. elim o [ none ↦ x | some z ↦ z ]) h

harmless : {W : Type 0} (s : ToolSpec W) → s.is_write ≡ false → IsHarmless s → Preserves s.fn
harmless s r (inl w) = absurd (cc (r, w))
harmless s r (inr p) = p

from_registry :
    {W : Type 0} (l : List (ToolSpec W)) (d : OrderedDict String (Tool W)) (name : String)
    (fn : Tool W)
    → All IsHarmless l
    → is_write_tool l name ≡ false
    → OrderedDict.get String_discrete name (dispatch_into l d) ≡ some fn
    → Preserves fn ⊎ (OrderedDict.get String_discrete name d ≡ some fn)
unfolding dispatch_into
from_registry [] d name fn all r h = inr h
from_registry (s ∷ l) d name fn all r h =
    elim (from_registry l (set_item String_discrete s.name s.fn d) name fn all.1
      (fewer_writes s l name r) h) [
        | inl p ↦ inl p
        | inr g ↦ elim (String_discrete name s.name) [
          | yes same ↦ inl (
              subst Preserves
                (some_injective s.fn fn (
                  sym (get-set_item_self String_discrete s.name s.fn d)
                  ∙ ap
                      (λ k.
                        OrderedDict.get String_discrete k (set_item String_discrete s.name s.fn d))
                      (sym same)
                  ∙ g))
                (harmless s (own_write s l name r same) all.0))
          | no other ↦ inr (sym (get-set_item_ne String_discrete s.name name s.fn d other) ∙ g)
        ]
      ]

none≢some : {A : Type 0} {x : A} → none ≢ some x
none≢some h = cc (h)

under_test :
    {A : Type 0} (b : Bool) (o : Option A) (x : A) → (if b then o else none) ≡ some x → o ≡ some x
under_test true o x h = h
under_test false o x h = absurd (none≢some h)

get_nil : {V : Type 0} (name : String) → OrderedDict.get {V = V} String_discrete name [] ≡ none
unfolding lookup
get_nil name = refl

module _ (repr : Json → String) (scrub : String → String) {W : Type 0} where
  run_tool-world :
      (server : Server W) (bound : Option Config) (name : String) (args : Fields)
      (o : ToolResult × W)
      → (run_tool repr scrub server bound name args o).2 ≡ o.1
  unfolding run_tool
  run_tool-world server bound name args (outcome, world) = refl

  -- When the tools that are not marked as writing change nothing, no call on a read-only server changes
  -- anything.
  pub call_tool-Preserves :
      (fnmatch : String → String → Bool) (cfg : Config) (registry : List (ToolSpec W))
      (bound : Option Config) (name : String) (args : Fields) (world : W)
      → cfg.read_only ≡ true
      → All IsHarmless registry
      → (call_tool repr scrub (build_server fnmatch cfg registry) bound name args world).2 ≡ world
  call_tool-Preserves fnmatch cfg registry bound name args world h all =
      let server : Server W = build_server fnmatch cfg registry in
      elim (Option-cases (OrderedDict.get String_discrete name server.enabled)) [
        | inl none_there ↦
            ap (λ t. t.2) (call-unknown repr scrub server bound name args world none_there)
        | inr (fn, there) ↦
            ap (λ t. t.2) (call-known repr scrub server bound name args world fn there)
            ∙ run_tool-world server bound name args (fn args world)
            ∙ offered_preserves fn there args world
      ]
    where
      offered_preserves :
          (fn : Tool W)
          → OrderedDict.get String_discrete name (build_server fnmatch cfg registry).enabled
            ≡ some fn
          → Preserves fn
      offered_preserves fn there = elim (Bool-cases (is_write_tool registry name)) [
        | inl w ↦ absurd (none≢some (sym (unoffered fnmatch cfg registry name h w) ∙ there))
        | inr r ↦
            elim (from_registry registry [] name fn all r (
              under_test (is_offered fnmatch cfg registry name)
                (OrderedDict.get String_discrete name (dispatch registry)) fn
                (sym (get-build_server fnmatch cfg registry name) ∙ there))) [
                  | inl p ↦ p
                  | inr g ↦ absurd (none≢some (sym (get_nil name) ∙ g))
                ]
      ]
