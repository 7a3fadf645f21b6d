-- ===== src/Commands/Paths.antt =====
-- The paths of the commands of src/thruk_mcp/tools/commands.py: a host's or a service's.
use thruk_mcp.Commands.Quote.{seg, seg-is_free, is_free, unquote, unquote-seg, utf8_of}
use thruk_mcp.Prelude.{
  ℕ, String, ◌≡◌, refl, sym, ap, ◌∙◌, true, Option, none, some, List, [], ◌∷◌, map, arith,
  if◌then◌else◌,
}
use thruk_mcp.Prelude.Text.{split, is_empty}

infixr 5 ◌<>◌
unfoldable pub ◌<>◌ : String → String → String
String.[] <> t = t
(String.◌∷◌ c s) <> t = String.◌∷◌ c (s <> t)

unfoldable pub host_path : String → String → String
unfolding ◌<>◌
host_path host verb = "/hosts/" <> seg host <> "/cmd/" <> verb

unfoldable pub service_path : String → String → String → String
unfolding ◌<>◌
service_path host service verb = "/services/" <> seg host <> "/" <> seg service <> "/cmd/" <> verb

-- `if service`: a service that is None or empty stands for the host
unfoldable pub named_service : Option String → Option String
named_service none = none
named_service (some s) = if is_empty s then none else some s

-- The path of a command, which has a verb for a service and one for a host.
unfoldable pub path_to : String → Option String → String → String → String
unfolding host_path service_path
path_to host none service_verb host_verb = host_path host host_verb
path_to host (some service) service_verb host_verb = service_path host service service_verb

unfoldable pub command_path : String → Option String → String → String → String
unfolding path_to named_service
command_path host service service_verb host_verb =
    path_to host (named_service service) service_verb host_verb

-- A part without a slash, before one and at the end.
split_part :
    (s t : String) → is_free b'/' s ≡ true → split b'/' (s <> String.◌∷◌ "/" t) ≡ s ∷ split b'/' t
unfolding split ◌<>◌ is_free
split_part String.[] t h = refl
split_part (String.◌∷◌ c s) t h = ground (arith, h, split_part s t)

split_last : (s : String) → is_free b'/' s ≡ true → split b'/' s ≡ s ∷ []
unfolding split is_free
split_last String.[] h = refl
split_last (String.◌∷◌ c s) h = ground (arith, h, split_last s)

split_command :
    (name verb : String)
    → is_free b'/' verb ≡ true
    → split b'/' (seg name <> "/cmd/" <> verb) ≡ seg name ∷ "cmd" ∷ verb ∷ []
unfolding split ◌<>◌ is_free
split_command name verb h =
    split_part (seg name) ("cmd/" <> verb) (seg-is_free name)
    ∙ ap (λ l. seg name ∷ l) (split_part "cmd" verb refl ∙ ap (λ l. "cmd" ∷ l) (split_last verb h))

split-host_path :
    (host verb : String)
    → is_free b'/' verb ≡ true
    → split b'/' (host_path host verb) ≡ "" ∷ "hosts" ∷ seg host ∷ "cmd" ∷ verb ∷ []
unfolding host_path ◌<>◌ split is_free
split-host_path host verb h =
    split_part "" ("hosts/" <> seg host <> "/cmd/" <> verb) refl
    ∙ ap (λ l. "" ∷ l)
        (split_part "hosts" (seg host <> "/cmd/" <> verb) refl
          ∙ ap (λ l. "hosts" ∷ l) (split_command host verb h))

split-service_path :
    (host service verb : String)
    → is_free b'/' verb ≡ true
    → split b'/' (service_path host service verb)
      ≡ "" ∷ "services" ∷ seg host ∷ seg service ∷ "cmd" ∷ verb ∷ []
unfolding service_path ◌<>◌ split is_free
split-service_path host service verb h =
    split_part "" ("services/" <> seg host <> "/" <> seg service <> "/cmd/" <> verb) refl
    ∙ ap (λ l. "" ∷ l)
        (split_part "services" (seg host <> "/" <> seg service <> "/cmd/" <> verb) refl
          ∙ ap (λ l. "services" ∷ l)
              (split_part (seg host) (seg service <> "/cmd/" <> verb) (seg-is_free host)
                ∙ ap (λ l. seg host ∷ l) (split_command service verb h)))

-- What a server reads from a path: the bytes of each of its segments.
abbrev pub read_path : String → List (List ℕ)
read_path path = map unquote (split b'/' path)

-- A verb of unreserved characters, which is its own segment.
abbrev pub IsVerb : String → Type 0
IsVerb verb = seg verb ≡ verb

verb-is_free : (verb : String) → IsVerb verb → is_free b'/' verb ≡ true
verb-is_free verb h = sym (ap (is_free b'/') h) ∙ seg-is_free verb

unquote-verb : (verb : String) → IsVerb verb → unquote verb ≡ utf8_of verb
unquote-verb verb h = sym (ap unquote h) ∙ unquote-seg verb

read-host_path :
    (host verb : String)
    → IsVerb verb
    → read_path (host_path host verb)
      ≡ [] ∷ utf8_of "hosts" ∷ utf8_of host ∷ utf8_of "cmd" ∷ utf8_of verb ∷ []
unfolding unquote utf8_of
read-host_path host verb h =
    ap (map unquote) (split-host_path host verb (verb-is_free verb h))
    ∙ rw (unquote-seg host, unquote-verb verb h) refl

read-service_path :
    (host service verb : String)
    → IsVerb verb
    → read_path (service_path host service verb)
      ≡ [] ∷ utf8_of "services" ∷ utf8_of host ∷ utf8_of service ∷ utf8_of "cmd" ∷ utf8_of verb ∷ []
unfolding unquote utf8_of
read-service_path host service verb h =
    ap (map unquote) (split-service_path host service verb (verb-is_free verb h))
    ∙ rw (unquote-seg host, unquote-seg service, unquote-verb verb h) refl

-- The segments that a command for a host or a service is to have.
unfoldable pub meant : String → Option String → String → String → List (List ℕ)
meant host none service_verb host_verb =
    [] ∷ utf8_of "hosts" ∷ utf8_of host ∷ utf8_of "cmd" ∷ utf8_of host_verb ∷ []
meant host (some service) service_verb host_verb =
    []
    ∷ utf8_of "services"
    ∷ utf8_of host
    ∷ utf8_of service
    ∷ utf8_of "cmd"
    ∷ utf8_of service_verb
    ∷ []

read-path_to :
    (host : String) (service : Option String) (service_verb host_verb : String)
    → IsVerb service_verb
    → IsVerb host_verb
    → read_path (path_to host service service_verb host_verb)
      ≡ meant host service service_verb host_verb
unfolding path_to meant
read-path_to host none service_verb host_verb hs hh = read-host_path host host_verb hh
read-path_to host (some s) service_verb host_verb hs hh = read-service_path host s service_verb hs

-- Whatever the names of a host and a service, slashes and percent signs included, a server that
-- splits a command's path at the slashes and decodes its segments reads the bytes of just these
-- names, in front of `cmd` and the verb: the service's where one is named, the host's elsewhere. The
-- condition is that the verbs have only unreserved characters.
pub read-command_path :
    (host : String) (service : Option String) (service_verb host_verb : String)
    → IsVerb service_verb
    → IsVerb host_verb
    → read_path (command_path host service service_verb host_verb)
      ≡ meant host (named_service service) service_verb host_verb
unfolding command_path
read-command_path host service service_verb host_verb hs hh =
    read-path_to host (named_service service) service_verb host_verb hs hh
