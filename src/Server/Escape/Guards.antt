-- ===== src/Server/Escape/Guards.antt =====
-- What the checks of src/thruk_mcp/tools/escape.py let through.
use Prim.Native.Char.{code}
use mathlib.Core.Path.{subst}
use thruk_mcp.Audit.{Json, null, boolean, number, string, list, dict}
use thruk_mcp.Ordering.{member}
use thruk_mcp.Prelude.{
  ℕ, String, ◌≡◌, refl, sym, ap, ◌∙◌, Bool, true, false, not, ◌&&◌, Option, none, some, List, [],
  ◌∷◌, String_discrete, arith, nat_eq, Bool-cases, inl, inr, All,
}
use thruk_mcp.Prelude.Text.{upper, begins_with, contains, split, push_head}
use thruk_mcp.Server.Escape.{
  allowed_methods, path_prefixes, Refusal, validate_rest_path, refuse_method, has_prefix,
  RestRequest, crash, refuse, send, Arguments, request_of, query_path, plan_of, path_plan,
  background_path, EscapeTool, query, background,
}
use thruk_mcp.Server.{is_read}

sent_as :
    (a : Arguments) (method path : String) (warned : Bool) (r : RestRequest) (w : Bool)
    → request_of a method path warned ≡ send r w
    → (r.method ≡ upper method) × (r.path ≡ path)
unfolding request_of
sent_as a method path warned r w h = ground (arith, h)

-- the path that `query_path` sends is one that passed
abbrev IsPassed : Json → String → Type 0
IsPassed given path = (given ≡ string path) × (validate_rest_path path ≡ none)

query_path-IsPassed :
    (repr : Json → String) (method : String) (a : Arguments) (r : RestRequest) (w : Bool)
    → query_path repr method a ≡ send r w
    → IsPassed a.path r.path × (r.method ≡ upper method)
unfolding query_path
query_path-IsPassed repr method a r w h = ground (arith, h, sent_as a method)

background_path-IsPassed :
    (method : String) (a : Arguments) (r : RestRequest) (w : Bool)
    → background_path method a ≡ send r w
    → IsPassed a.path r.path × (r.method ≡ upper method)
unfolding background_path
background_path-IsPassed method a r w h = ground (arith, h, sent_as a method)

pub path_plan-IsPassed :
    (repr : Json → String) (tool : EscapeTool) (method : String) (a : Arguments) (r : RestRequest)
    (w : Bool)
    → path_plan repr tool method a ≡ send r w
    → IsPassed a.path r.path × (r.method ≡ upper method)
unfolding path_plan
path_plan-IsPassed repr query method a r w h = query_path-IsPassed repr method a r w h
path_plan-IsPassed repr background method a r w h = background_path-IsPassed method a r w h

validated :
    (path : String)
    → validate_rest_path path ≡ none
    → (begins_with "/" path ≡ true)
      × (contains ".." path ≡ false)
      × (has_prefix path path_prefixes ≡ true)
unfolding validate_rest_path
validated path h = ground (arith, h)

method_passed :
    (is_read_only : Bool) (method : String)
    → refuse_method is_read_only method ≡ none
    → (member String_discrete (upper method) allowed_methods ≡ true)
      × ((is_read_only && not (is_read (upper method))) ≡ false)
unfolding refuse_method
method_passed is_read_only method h = ground (arith, h)

begins_contains : (v s : String) → begins_with v s ≡ true → contains v s ≡ true
unfolding begins_with contains
begins_contains String.[] String.[] h = refl
begins_contains (String.◌∷◌ c v) String.[] h = h
begins_contains v (String.◌∷◌ c s) h = ground (arith, h)

contains_later :
    (v : String) (c : _) (s : String) → contains v s ≡ true → contains v (String.◌∷◌ c s) ≡ true
unfolding contains
contains_later v c s h = ground (arith, h)

-- A segment stands in the text, and the first one at its start.
AreSegments : String → List String → Type 0
AreSegments s [] = Unit
AreSegments s (w ∷ ws) = (begins_with w s ≡ true) × All (λ v. contains v s ≡ true) ws

All-later :
    (c : _) (s : String) (ws : List String)
    → All (λ v. contains v s ≡ true) ws
    → All (λ v. contains v (String.◌∷◌ c s) ≡ true) ws
All-later c s [] h = tt
All-later c s (w ∷ ws) h = (contains_later w c s h.0, All-later c s ws h.1)

All-contained :
    (s : String) (ws : List String) → AreSegments s ws → All (λ v. contains v s ≡ true) ws
unfolding AreSegments
All-contained s [] h = tt
All-contained s (w ∷ ws) h = (begins_contains w s h.0, h.1)

same_char : (c d : ℕ) → c ≡ d → nat_eq c d ≡ true
same_char c d h = ground (arith, h)

longer_first :
    (c : _) (s : String) (ws : List String)
    → AreSegments s ws
    → AreSegments (String.◌∷◌ c s) (push_head c ws)
unfolding AreSegments begins_with
longer_first c s [] h = (ap (λ b. b && true) (same_char (code c) (code c) refl), tt)
longer_first c s (w ∷ ws) h = (rw (same_char (code c) (code c) refl) h.0, All-later c s ws h.1)

split-AreSegments : (d : ℕ) (s : String) → AreSegments s (split d s)
unfolding AreSegments split begins_with
split-AreSegments d String.[] = (refl, tt)
split-AreSegments d (String.◌∷◌ c s) = elim (Bool-cases (nat_eq (code c) d)) [
  | inl at_mark ↦
      rw (at_mark)
        (refl, All-later c s (split d s) (All-contained s (split d s) (split-AreSegments d s)))
  | inr inside ↦ rw (inside) (longer_first c s (split d s) (split-AreSegments d s))
]

member-All :
    (P : String → Type 0) (x : String) (l : List String)
    → member String_discrete x l ≡ true
    → All P l
    → P x
unfolding member
member-All P x [] h all = absurd (cc (h))
member-All P x (y ∷ l) h all =
    elim (String_discrete x y)
        as (λ r. elim r [ yes _ ↦ true | no _ ↦ member String_discrete x l ] ≡ true → P x) [
          | yes same ↦ λ _. subst P (sym same) all.0
          | no _ ↦ λ later. member-All P x l later all.1
        ]
      h

-- A request that the arguments of a call give: its method is one of the allowed ones, and a read one
-- where only these are, its path has a known prefix, and no segment of the path leads upwards.
pub record IsGuarded (is_read_only : Bool) (a : Arguments) (r : RestRequest) : Type 0 where
  pub own_path : a.path ≡ string r.path
  pub allowed : member String_discrete r.method allowed_methods ≡ true
  pub readable : (is_read_only && not (is_read r.method)) ≡ false
  pub rooted : begins_with "/" r.path ≡ true
  pub known : has_prefix r.path path_prefixes ≡ true
  pub not_upwards : member String_discrete ".." (split b'/' r.path) ≡ false

no_upwards :
    (path : String)
    → contains ".." path ≡ false
    → member String_discrete ".." (split b'/' path) ≡ false
no_upwards path h = elim (Bool-cases (member String_discrete ".." (split b'/' path))) [
  | inl found ↦ absurd (
      cc (
        h,
        member-All (λ v. contains v path ≡ true) ".." (split b'/' path) found
            (All-contained path (split b'/' path) (split-AreSegments b'/' path)),
      ))
  | inr absent ↦ absent
]

guarded :
    (repr : Json → String) (tool : EscapeTool) (is_read_only : Bool) (method : String)
    (a : Arguments) (r : RestRequest) (w : Bool)
    → refuse_method is_read_only method ≡ none
    → path_plan repr tool method a ≡ send r w
    → IsGuarded is_read_only a r
guarded repr tool is_read_only method a r w fine h =
    let m = method_passed is_read_only method fine in
    let q = path_plan-IsPassed repr tool method a r w h in
    let v = validated r.path q.0.1 in
    record {
      own_path = q.0.0;
      allowed = ap (λ x. member String_discrete x allowed_methods) q.1 ∙ m.0;
      readable = ap (λ x. is_read_only && not (is_read x)) q.1 ∙ m.1;
      rooted = v.0;
      known = v.2;
      not_upwards = no_upwards r.path v.1;
    }

pub method_given :
    (repr : Json → String) (tool : EscapeTool) (is_read_only : Bool) (a : Arguments)
    (r : RestRequest) (w : Bool)
    → plan_of repr tool is_read_only a ≡ send r w
    → (method : String) × (a.method ≡ string method)
      × (refuse_method is_read_only method ≡ none)
      × (path_plan repr tool method a ≡ send r w)
unfolding plan_of
method_given repr tool is_read_only a r w h = from_method a.method h
  where
    refused :
        (m : String) (o : Option Refusal)
        → elim o [ some e ↦ refuse e | none ↦ path_plan repr tool m a ] ≡ send r w
        → (o ≡ none) × (path_plan repr tool m a ≡ send r w)
    refused m none e = (refl, e)
    refused m (some x) e = absurd (cc (e))

    from_method :
        (j : Json)
        → elim j [
          | string m ↦ elim (refuse_method is_read_only m) [
            | some e ↦ refuse e
            | none ↦ path_plan repr tool m a
          ]
          | _ ↦ crash "AttributeError"
        ]
          ≡ send r w
        → (m : String) × (j ≡ string m)
          × (refuse_method is_read_only m ≡ none)
          × (path_plan repr tool m a ≡ send r w)
    from_method (string m) e =
        let q = refused m (refuse_method is_read_only m) e in (m, refl, q.0, q.1)
    from_method null e = absurd (cc (e))
    from_method (boolean _) e = absurd (cc (e))
    from_method (number _ _) e = absurd (cc (e))
    from_method (list _) e = absurd (cc (e))
    from_method (dict _) e = absurd (cc (e))

-- Every request that `thruk_query` or `thruk_run_background_query` sends has an allowed method, which is GET or HEAD in read-only mode,
-- and the path that the caller gives, which starts with a known prefix and has no segment `..`.
pub plan_of-IsGuarded :
    (repr : Json → String) (tool : EscapeTool) (is_read_only : Bool) (a : Arguments)
    (r : RestRequest) (w : Bool)
    → plan_of repr tool is_read_only a ≡ send r w
    → IsGuarded is_read_only a r
plan_of-IsGuarded repr tool is_read_only a r w h =
    let m = method_given repr tool is_read_only a r w h in
    guarded repr tool is_read_only m.0 a r w m.2 m.3
