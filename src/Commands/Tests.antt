-- ===== src/Commands/Tests.antt =====
-- Witnesses and tests of the commands: a Thruk with a host, its service and two downtimes.
use mathlib.Core.List.{lookup}
use thruk_mcp.Audit
use thruk_mcp.Audit.{
  Json, null, number, string, list, dict, nil, cons, Fields, field, get_field, truth, str,
}
use thruk_mcp.Commands.Acknowledged.{IsAccounted, bulk_acknowledge-IsAccounted}
use thruk_mcp.Commands.Bulk.{
  BulkSummary, summary, settle_targets, ack_call, rows_in, is_host_row, collect_rows, pair_answers,
  gather_two, bulk_summary_of, collect_problems, acknowledge_targets, send_targets,
  acknowledge_rows, bulk_scoped, bulk_resolved, bulk_acknowledge,
}
use thruk_mcp.Commands.Scope.{Scope, problem_code, resolve_scope}
use thruk_mcp.Commands.Single.{Acknowledgement, ack_payload}
use thruk_mcp.Commands.Targets.{int_of, state_text, fields_of, host_target, targets_of, all_targets}
use thruk_mcp.Filters.Leaves.{find_state, host_states, service_states}
use native.Mathlib.Decide.{ℕ_discrete}
use thruk_mcp.Commands.Active.{
  deletions, is_wanted, fetch_matching, fetch_again, jobs_of, delete_found, delete_after,
  delete_active,
}
use thruk_mcp.Commands.Wanted.{AreCollected, IsDeletion, delete_active-IsDeletion}
use thruk_mcp.Commands.Calls.{
  thruk_error, Answer, returned, raised, ClientCall, get, get_rows, post, Client, after, send_each,
  gather_outcomes, gather, first_fault,
}
use thruk_mcp.Commands.Deletions.{
  Deletions, ids_of, is_null, add_deleted, add_error, split_results, del_call, delete_jobs,
}
use thruk_mcp.Commands.Filtered.{
  FilterArgs, any_given, substring_matches, system_reply, is_host_level, text_of, comment_text,
  is_match, host_jobs, service_jobs, needs_peer, resolve_backends, ask_peer, compares_comments,
  delete_matching, delete_by_host_comment, delete_host_level, delete_then, delete_by_system,
  delete_one_way, delete_with, delete_checked, delete_by_filter, system_call, system_payload,
}
use thruk_mcp.Commands.HostLevel.{IsHostLevel, delete_by_filter-IsHostLevel}
use thruk_mcp.Commands.Paths.{
  command_path, path_to, host_path, named_service, meant, read_path, read-command_path, ◌<>◌,
}
use thruk_mcp.Commands.Quote.{seg, is_unreserved, escape, utf8, hex, nth}
use thruk_mcp.Commands.Scoped.{AreResolved, AreByComment, delete_by_filter-AreByComment}
use thruk_mcp.Commands.Switch.{
  notifications, Switched, described, cascade_rows, cascade_to, switch_results, switch, service_of,
  resolved_service, delete_downtime, target_text,
}
use thruk_mcp.Commands.Switched.{Sends, switch-Sends}
use thruk_mcp.Commands.Values.{elements, read, rows_from, is_given, entry_if}
use thruk_mcp.Prelude.{
  ℕ, String, ◌==◌, ◌≡◌, refl, true, false, Option, none, some, List, [], ◌∷◌, if◌then◌else◌,
}
use thruk_mcp.Prelude.Int.{ℤ, pos, ℤ_discrete}
use thruk_mcp.Prelude.Text.{lower, contains, begins_with, to_int, show_int, show_nat}
use thruk_mcp.Sorting.{keep}

abbrev plain : Json → String
plain v = "?"

abbrev one : Json
one = number "1" false

abbrev two : Json
two = number "2" false

-- a downtime of the host, and one of its service
abbrev host_downtime : Json
host_downtime = dict (field "id" one (field "comment" (string "Patch night") Audit.done))

abbrev service_downtime : Json
service_downtime = dict (
    field "id" two (
      field "comment" (string "patch") (
        field "service_description" (string "CPU")
          (field "description" (string "CPU") Audit.done))))

-- The client: every query gets both, and the service's cannot be deleted.
abbrev post_reply : Json → Answer Json
post_reply (number n z) = if n == "2" then raised (thruk_error "gone") else returned (string "ok")
post_reply _ = returned (string "ok")

abbrev host_row : Json
host_row = dict (field "name" (string "web") (field "state" one Audit.done))

abbrev thruk : Client
thruk calls (get path params be) = returned (list (cons host_downtime (cons service_downtime nil)))
thruk calls (get_rows path params be) = returned (list (cons host_row nil))
thruk calls (post path [] be) = returned (string "ok")
thruk calls (post path ((k, v) ∷ l) be) = post_reply v

-- a name is its own segment only where its characters are unreserved, and two dots are
encoded : (seg "a/b é" ≡ "a%2Fb%20%C3%A9") × (seg ".." ≡ "..")
unfolding seg is_unreserved escape utf8 hex nth
encoded = (refl, refl)

verb_svc : seg "del_downtime" ≡ "del_downtime"
unfolding seg is_unreserved
verb_svc = refl

read-command_path_example :
    read_path (command_path "a/b" (some "x%2F") "del_downtime" "del_downtime")
    ≡ meant "a/b" (named_service (some "x%2F")) "del_downtime" "del_downtime"
read-command_path_example =
    read-command_path "a/b" (some "x%2F") "del_downtime" "del_downtime" verb_svc verb_svc

abbrev at_noon : ℕ → Json
at_noon n = number "43200" false

abbrev active_lists : Deletions
active_lists = record { deleted = (one, string "ok") ∷ []; errors = [] }

active_ends :
    (delete_active thruk none at_noon "web" none true (pos 2) []).0
    ≡ returned (deletions active_lists 1)
unfolding delete_active delete_after delete_found fetch_again fetch_matching after is_wanted read
    get_field truth named_service rows_from elements keep jobs_of ids_of is_null delete_jobs
    split_results send_each del_call add_deleted add_error
active_ends = refl

delete_active-IsDeletion_example :
    (before : List ClientCall) × (found : List Json) × AreCollected thruk none at_noon "web" none
      true [] before found
    × IsDeletion thruk none at_noon "web" none before found active_lists 1
        (delete_active thruk none at_noon "web" none true (pos 2) []).1
delete_active-IsDeletion_example =
    delete_active-IsDeletion thruk none at_noon "web" none true (pos 2) [] active_lists 1
      active_ends

abbrev with_comment : FilterArgs
with_comment = record {
  host = some "web";
  hostgroup = none;
  service = none;
  start_time = none;
  comment = some "PATCH";
}

abbrev deleted_one : Deletions
deleted_one = record { deleted = (one, string "ok") ∷ []; errors = [] }

abbrev failed_two : Deletions
failed_two = record { deleted = []; errors = (two, "gone") ∷ [] }

comment_ends :
    (delete_by_filter plain thruk with_comment (some ("site" ∷ [])) []).0
    ≡ returned (substring_matches 2 deleted_one failed_two)
unfolding delete_by_filter delete_checked any_given is_given resolve_backends ask_peer needs_peer
    delete_with delete_one_way compares_comments delete_by_host_comment delete_matching after
    rows_from elements keep is_match comment_text text_of get_field str lower contains begins_with
    is_host_level truth read host_jobs service_jobs ids_of is_null delete_jobs split_results
    send_each del_call add_deleted add_error
comment_ends = refl

delete_by_filter-AreByComment_example :
    (used : Option (List String)) × (before : List ClientCall) × AreResolved plain thruk
      with_comment
      (some ("site" ∷ []))
      []
      used
      before
    × AreByComment plain thruk with_comment used before
        (2, deleted_one, failed_two)
        (delete_by_filter plain thruk with_comment (some ("site" ∷ [])) []).1
unfolding is_given
delete_by_filter-AreByComment_example =
    delete_by_filter-AreByComment plain thruk with_comment (some ("site" ∷ [])) []
      (2, deleted_one, failed_two) refl refl refl comment_ends

-- A service is named, and still the downtime of the host goes.
abbrev with_service : FilterArgs
with_service = record {
  host = some "web";
  hostgroup = none;
  service = some "CPU";
  start_time = none;
  comment = none;
}

service_ends :
    (delete_by_filter plain thruk with_service (some ("site" ∷ [])) []).0
    ≡ returned (system_reply (string "ok") (some deleted_one))
unfolding delete_by_filter delete_checked any_given is_given resolve_backends ask_peer needs_peer
    delete_with delete_one_way compares_comments delete_by_system delete_then delete_host_level
    after rows_from elements keep text_of get_field is_host_level truth read host_jobs ids_of
    is_null delete_jobs split_results send_each del_call add_deleted add_error system_call
    system_payload entry_if
service_ends = refl

delete_by_filter-IsHostLevel_example :
    (used : Option (List String)) × (before : List ClientCall) × AreResolved plain thruk
      with_service
      (some ("site" ∷ []))
      []
      used
      before
    × IsHostLevel plain thruk with_service used before
        (string "ok", deleted_one)
        (delete_by_filter plain thruk with_service (some ("site" ∷ [])) []).1
unfolding is_given
delete_by_filter-IsHostLevel_example =
    delete_by_filter-IsHostLevel plain thruk with_service (some ("site" ∷ [])) []
      (string "ok", deleted_one) refl refl refl service_ends

abbrev switched : Switched
switched = record {
  action = "disabled";
  target = "web (host + all services)";
  results = string "ok" ∷ string "ok" ∷ [];
}

switch_ends : (switch plain thruk none notifications "web" false none true []).0 ≡ returned switched
unfolding switch switch_results target_text named_service ◌<>◌ after cascade_to cascade_rows
    described elements keep truth read get_field gather gather_outcomes first_fault send_each
switch_ends = refl

switch-Sends_example :
    Sends plain thruk none notifications "web" false
      (named_service none)
      true
      []
      switched.results
      (switch plain thruk none notifications "web" false none true []).1
switch-Sends_example =
    switch-Sends plain thruk none notifications "web" false none true [] switched switch_ends

-- A service's downtime is deleted at the host where the reply to the query is a list.
misrouted :
    (delete_downtime plain thruk none (pos 2) "web" none []).1
    ≡ get "/downtimes/2" [] none
      ∷ post "/hosts/web/cmd/del_downtime" (("downtime_id", string "2") ∷ []) none
      ∷ []
unfolding delete_downtime resolved_service service_of after command_path path_to host_path
    named_service ◌<>◌ seg is_unreserved show_int show_nat
misrouted = refl

abbrev ack : Acknowledgement
ack = record { comment = "seen"; author = "ops"; sticky = true; notify = true; persistent = false }

abbrev bulk_summary : BulkSummary
bulk_summary = record {
  acknowledged = 1;
  failed = 0;
  targets = record { host = "web"; service = none; state = "DOWN" } ∷ [];
  errors = [];
  warned = false;
}

abbrev no_float : String → ℤ
no_float s = pos 0

bulk_ends :
    (bulk_acknowledge plain no_float thruk none ack none (some "Down") false false []).0
    ≡ returned (summary bulk_summary)
unfolding bulk_acknowledge bulk_resolved resolve_scope problem_code find_state host_states
    service_states lower bulk_scoped collect_problems gather_two pair_answers collect_rows after
    rows_in elements keep is_host_row read truth get_field acknowledge_rows all_targets targets_of
    host_target state_text fields_of int_of to_int lookup ℤ_discrete ℕ_discrete str send_targets
    acknowledge_targets gather_outcomes send_each ack_call ack_payload bulk_summary_of
    settle_targets
bulk_ends = refl

bulk_acknowledge-IsAccounted_example :
    (scope : Scope) × (resolve_scope false false (some "Down") ≡ some scope)
    × IsAccounted thruk none ack plain no_float none scope [] bulk_summary
        (bulk_acknowledge plain no_float thruk none ack none (some "Down") false false []).1
bulk_acknowledge-IsAccounted_example =
    bulk_acknowledge-IsAccounted thruk none ack plain no_float none (some "Down") false false []
      bulk_summary bulk_ends

-- The code of a host's problem leaves the services out, also where only they are asked for.
nothing_to_do :
    (bulk_acknowledge plain no_float thruk none ack none (some "1") false true []).1 ≡ []
unfolding bulk_acknowledge bulk_resolved resolve_scope problem_code find_state host_states
    service_states lower bulk_scoped collect_problems gather_two pair_answers collect_rows after
    rows_in acknowledge_rows all_targets targets_of send_targets acknowledge_targets gather_outcomes
    send_each
nothing_to_do = refl
