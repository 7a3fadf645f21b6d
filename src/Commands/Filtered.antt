-- ===== src/Commands/Filtered.antt =====
-- `thruk_delete_downtimes_by_filter` of src/thruk_mcp/tools/commands.py, with
-- `_delete_downtimes_by_host_comment`, and `_resolve_peer_for_host` of src/thruk_mcp/helpers.py.
use thruk_mcp.Audit.{Json, null, string, list, dict, truth, str}
use thruk_mcp.Audit
use thruk_mcp.Commands.Calls
use thruk_mcp.Commands.Calls.{
  Answer, returned, raised, thruk_error, Dict, Backends, ClientCall, get, post, Client, Act, ◌>>=◌,
  after, throw, send_call,
}
use thruk_mcp.Commands.Deletions.{Deletions, ids_of, is_null, Job, delete_jobs}
use thruk_mcp.Commands.Paths.{◌<>◌, host_path, service_path}
use thruk_mcp.Commands.Quote.{seg}
use thruk_mcp.Commands.Values.{elements, read, rows_from, entry_if, is_given}
use thruk_mcp.Prelude.{
  ℕ, String, ◌==◌, Bool, true, false, not, ◌&&◌, ◌||◌, Option, none, some, List, [], ◌∷◌, ◌++◌, map,
  length, if◌then◌else◌,
}
use thruk_mcp.Prelude.Text.{lower, contains}
use thruk_mcp.Sorting.{keep}

-- The arguments, but for the backends.
pub record FilterArgs : Type 0 where
  pub host : Option String
  pub hostgroup : Option String
  pub service : Option String
  pub start_time : Option String
  pub comment : Option String

-- `any([host, hostgroup, service, start_time, comment])`
unfoldable pub any_given : FilterArgs → Bool
unfolding is_given
any_given f =
    is_given f.host
    || is_given f.hostgroup
    || is_given f.service
    || is_given f.start_time
    || is_given f.comment

-- the parameters of either query for the downtimes of a host
unfoldable pub downtime_params : String → Dict → Dict
downtime_params host more =
    ("host_name", string host)
    ∷ ("columns", string "id,service_description,comment,start_time")
    ∷ more

-- the payload of the system command
unfoldable pub system_payload : FilterArgs → Dict
unfolding entry_if
system_payload f =
    entry_if f.host "hostname"
    ++ entry_if f.hostgroup "hostgroup_name"
    ++ entry_if f.service "service_desc"
    ++ entry_if f.start_time "start_time"
    ++ entry_if f.comment "comment"

unfoldable pub system_command : FilterArgs → String
unfolding is_given
system_command f =
    if is_given f.hostgroup
    then "del_downtime_by_hostgroup_name"
    else if is_given f.host
    then "del_downtime_by_host_name"
    else "del_downtime_by_start_time_comment"

unfoldable pub text_of : Option String → String
text_of none = ""
text_of (some s) = s

-- `len(keys) == 1` of a set, and its element
unfoldable pub all_same : String → List String → Option String
all_same k [] = some k
all_same k (j ∷ l) = let rest = all_same k l in if j == k then rest else none

unfoldable pub sole : List String → Option String
unfolding all_same
sole [] = none
sole (k ∷ l) = all_same k l

unfoldable pub is_host_level : Json → Bool
unfolding truth read
is_host_level d = not (truth (read "service_description" d))

unfoldable pub host_jobs : String → List Json → List Job
unfolding ids_of host_path
host_jobs host l = map (λ i. (host_path host "del_downtime", i)) (ids_of l)

-- What the tool answers: of the matches of a comment, how many there are and the deletions at hosts and
-- services; or the reply to the system command, and the deletions at hosts where they are made.
pub data FilterResult : Type 0 where
  substring_matches : ℕ → Deletions → Deletions → FilterResult
  system_reply : Json → Option Deletions → FilterResult

module _ (repr : Json → String) where
  unfoldable pub peer_rows : Json → List Json
  unfolding elements
  peer_rows (list l) = elements l
  peer_rows (dict fs) = dict fs ∷ []
  peer_rows _ = []

  -- the end of `_resolve_peer_for_host`
  unfoldable pub peer_of : Json → Option (List String)
  unfolding peer_rows sole truth read str
  peer_of raw =
      let keys =
        map (λ r. str repr (read "peer_key" r))
          (keep (λ r. truth (read "peer_key" r)) (peer_rows raw)) in
      elim (sole keys) [ none ↦ none | some k ↦ some (k ∷ []) ]

  -- `needle in str(d.get("comment", "")).lower()`
  unfoldable pub comment_text : Json → String
  unfolding str
  comment_text (dict fs) = elim (Audit.get_field "comment" fs) [ none ↦ "" | some v ↦ str repr v ]
  comment_text _ = ""

  unfoldable pub is_match : String → Json → Bool
  unfolding comment_text contains lower
  is_match comment d = contains (lower comment) (lower (comment_text d))

  -- each at the service that it names
  unfoldable pub service_jobs : String → List Json → List Job
  unfolding is_null read service_path str
  service_jobs host l =
      map
        (λ d.
          (service_path host (str repr (read "service_description" d)) "del_downtime", read "id" d))
        (keep (λ d. not (is_null (read "id" d))) l)

-- a host is asked for without the backends chosen
unfoldable pub needs_peer : FilterArgs → Backends → Bool
unfolding is_given
needs_peer f none = is_given f.host && not (is_given f.hostgroup)
needs_peer f (some _) = false

unfoldable pub peer_call : String → ClientCall
unfolding seg ◌<>◌
peer_call host = get ("/hosts/" <> seg host) (("columns", string "peer_key") ∷ []) none

unfoldable pub comment_call : Backends → FilterArgs → ClientCall
unfolding downtime_params entry_if
comment_call be f =
    get "/downtimes"
      (downtime_params (text_of f.host)
        (entry_if f.service "service_description" ++ entry_if f.start_time "start_time"))
      be

unfoldable pub system_call : Backends → FilterArgs → ClientCall
unfolding system_payload system_command ◌<>◌
system_call be f = post ("/system/cmd/" <> system_command f) (system_payload f) be

unfoldable pub host_call : Backends → FilterArgs → ClientCall
unfolding downtime_params entry_if
host_call be f =
    get "/downtimes" (downtime_params (text_of f.host) (entry_if f.start_time "start_time")) be

-- whether the comments are compared here
unfoldable pub compares_comments : FilterArgs → Bool
unfolding is_given
compares_comments f = is_given f.host && not (is_given f.hostgroup) && is_given f.comment

module _ (repr : Json → String) (client : Client) where
  -- `_resolve_peer_for_host`, where it is called
  unfoldable pub ask_peer : Bool → FilterArgs → Backends → Act Backends
  unfolding peer_call peer_of
  ask_peer false f be = Calls.done be
  ask_peer true f be = do
    raw ← send_call client (peer_call (text_of f.host))
    Calls.done (peer_of repr raw)

  -- the backends that the commands go to
  unfoldable pub resolve_backends : FilterArgs → Backends → Act Backends
  unfolding needs_peer ask_peer
  resolve_backends f be = ask_peer (needs_peer f be) f be

  module _ (be : Backends) where
    unfoldable pub delete_matching : String → List Json → Act FilterResult
    unfolding delete_jobs host_jobs service_jobs is_host_level
    delete_matching host matching = do
      h ← delete_jobs client be (host_jobs host (keep is_host_level matching))
      s ←
          delete_jobs client be
            (service_jobs repr host (keep (λ d. not (is_host_level d)) matching))
      Calls.done (substring_matches (length matching) h s)

    -- `_delete_downtimes_by_host_comment`
    unfoldable pub delete_by_host_comment : FilterArgs → Act FilterResult
    unfolding comment_call delete_matching is_match rows_from
    delete_by_host_comment f = do
      raw ← send_call client (comment_call be f)
      delete_matching (text_of f.host) (keep (is_match repr (text_of f.comment)) (rows_from raw))

    unfoldable pub delete_host_level : FilterArgs → Json → Act FilterResult
    unfolding host_call delete_jobs host_jobs is_host_level rows_from
    delete_host_level f reply = do
      raw ← send_call client (host_call be f)
      d ← delete_jobs client be (host_jobs (text_of f.host) (keep is_host_level (rows_from raw)))
      Calls.done (system_reply reply (some d))

    -- the system command does not cover the downtimes of the host itself
    unfoldable pub delete_then : FilterArgs → Bool → Json → Act FilterResult
    unfolding delete_host_level
    delete_then f true reply = delete_host_level f reply
    delete_then f false reply = Calls.done (system_reply reply none)

    unfoldable pub delete_by_system : FilterArgs → Act FilterResult
    unfolding system_call delete_then is_given
    delete_by_system f = do
      reply ← send_call client (system_call be f)
      delete_then f (is_given f.host && not (is_given f.hostgroup)) reply

  unfoldable pub delete_one_way : Bool → FilterArgs → Backends → Act FilterResult
  unfolding delete_by_host_comment delete_by_system
  delete_one_way true f be = delete_by_host_comment be f
  delete_one_way false f be = delete_by_system be f

  unfoldable pub delete_with : FilterArgs → Backends → Act FilterResult
  unfolding delete_one_way compares_comments
  delete_with f be = delete_one_way (compares_comments f) f be

  unfoldable pub delete_checked : Bool → FilterArgs → Backends → Act FilterResult
  unfolding resolve_backends delete_with
  delete_checked false f be =
      throw (thruk_error "Provide at least one of host, hostgroup, service, start_time, comment.")
  delete_checked true f be = do used ← resolve_backends f be; delete_with f used

  -- `thruk_delete_downtimes_by_filter`
  unfoldable pub delete_by_filter : FilterArgs → Backends → Act FilterResult
  unfolding any_given delete_checked
  delete_by_filter f be = delete_checked (any_given f) f be
