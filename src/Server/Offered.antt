-- ===== src/Server/Offered.antt =====
-- Which tools `build_server` of src/thruk_mcp/server.py leaves in.
use mathlib.Core.List.{lookup}
use thruk_mcp.OrderedDict
use thruk_mcp.OrderedDict.Laws.{IsDict, IsDict-set_item, get-set_item_self, get-set_item_ne}
use thruk_mcp.OrderedDict.{OrderedDict, set_item}
use thruk_mcp.Prelude.{
  String, ◌≡◌, refl, ◌∙◌, Bool, Option, none, some, List, [], ◌∷◌, arith, String_discrete,
  if◌then◌else◌, ap,
}
use thruk_mcp.Server.{Tool, ToolSpec, dispatch_into, dispatch, is_offered, enable, build_server}
use thruk_mcp.Tenants.{Config}

IsDict-dispatch_into :
    {W : Type 0} (l : List (ToolSpec W)) (d : OrderedDict String (Tool W))
    → IsDict String_discrete d
    → IsDict String_discrete (dispatch_into l d)
unfolding dispatch_into
IsDict-dispatch_into [] d h = h
IsDict-dispatch_into (s ∷ l) d h =
    IsDict-dispatch_into l (set_item String_discrete s.name s.fn d)
      (IsDict-set_item String_discrete s.name s.fn d h)

-- the loop with any test, and any dict of old entries
pick :
    {V : Type 0} (dec : Discrete String) (test : String → Bool) (items d : OrderedDict String V)
    → OrderedDict String V
pick dec test [] d = d
pick dec test ((k, v) ∷ items) d = pick dec test items (if test k then set_item dec k v d else d)

get-pick :
    {V : Type 0} (dec : Discrete String) (test : String → Bool) (items d : OrderedDict String V)
    (k : String)
    → IsDict dec items
    → OrderedDict.get dec k (pick dec test items d) ≡ elim (OrderedDict.get dec k items) [
      | none ↦ OrderedDict.get dec k d
      | some v ↦ if test k then some v else OrderedDict.get dec k d
    ]
unfolding pick lookup
get-pick dec test [] d k h = refl
get-pick dec test ((j, v) ∷ items) d k h = ground (
  arith,
  get-pick dec test items (if test j then set_item dec j v d else d) k h.1,
  h.0,
  get-set_item_self dec j v d,
  get-set_item_ne dec j k v d,
  ap test,
)

module _ {W : Type 0} (fnmatch : String → String → Bool) (cfg : Config)
    (registry : List (ToolSpec W)) where
  enable-pick :
      (items d : OrderedDict String (Tool W))
      → enable fnmatch cfg registry items d
        ≡ pick String_discrete (is_offered fnmatch cfg registry) items d
  unfolding enable pick
  enable-pick [] d = refl
  enable-pick ((name, fn) ∷ items) d =
      enable-pick items
        (if is_offered fnmatch cfg registry name then set_item String_discrete name fn d else d)

  -- A server has under a name the function of the registry under that name when the tool is offered,
  -- and none when it is not.
  pub get-build_server :
      (name : String)
      → OrderedDict.get String_discrete name (build_server fnmatch cfg registry).enabled ≡ (
          if is_offered fnmatch cfg registry name
          then OrderedDict.get String_discrete name (dispatch registry)
          else none)
  unfolding build_server lookup
  get-build_server name =
      ap (OrderedDict.get String_discrete name) (enable-pick (dispatch registry) [])
      ∙ get-pick String_discrete (is_offered fnmatch cfg registry) (dispatch registry) [] name
          (IsDict-dispatch_into registry [] tt)
      ∙ either (OrderedDict.get String_discrete name (dispatch registry))
          (is_offered fnmatch cfg registry name)
    where
      either :
          {V : Type 0} (o : Option V) (b : Bool)
          → elim o [ none ↦ none | some v ↦ if b then some v else none ] ≡ (if b then o else none)
      either none b = ground arith
      either (some v) b = refl
