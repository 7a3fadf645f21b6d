-- ===== src/Commands/Bulk.antt =====
-- `thruk_bulk_acknowledge` of src/thruk_mcp/tools/commands.py.
use thruk_mcp.Audit.{Json, list, dict, truth}
use thruk_mcp.Commands.Calls
use thruk_mcp.Commands.Calls.{
  Answer, returned, raised, Fault, other_error, fault_text, Dict, Backends, ClientCall, get_rows,
  post, Client, Act, ◌>>=◌, after, throw, send_call, gather_outcomes,
}
use thruk_mcp.Commands.Paths.{path_to}
use thruk_mcp.Commands.Single.{Acknowledgement, ack_payload}
use thruk_mcp.Commands.Scope.{Scope, resolve_scope, unhandled_params}
use thruk_mcp.Commands.Targets.{Target, all_targets}
use thruk_mcp.Commands.Values.{elements, read}
use thruk_mcp.Prelude.{
  ℕ, ◌+◌, String, Bool, true, false, ◌&&◌, Option, none, some, List, [], ◌∷◌, map, nat_eq, length,
  if◌then◌else◌,
}
use thruk_mcp.Prelude.Int.{ℤ}
use thruk_mcp.Sorting.{keep}

pub record BulkSummary : Type 0 where
  pub acknowledged : ℕ
  pub failed : ℕ
  pub targets : List Target
  pub errors : List (Target × String)
  pub warned : Bool

pub data BulkResult : Type 0 where
  exclusive : BulkResult
  invalid_state : String → BulkResult
  summary : BulkSummary → BulkResult

-- the loop over the targets and their results: how many are acknowledged, and the errors
unfoldable pub settle_targets : List Target → List (Answer Json) → ℕ × List (Target × String)
unfolding fault_text
settle_targets (t ∷ ts) (raised e ∷ rs) =
    let (ok_count, errors) = settle_targets ts rs in (ok_count, (t, fault_text e) ∷ errors)
settle_targets (t ∷ ts) (returned _ ∷ rs) =
    let (ok_count, errors) = settle_targets ts rs in (ok_count + 1, errors)
settle_targets _ _ = (0, [])

-- The request that acknowledges a target.
unfoldable pub ack_call : Acknowledgement → Backends → Target → ClientCall
unfolding path_to ack_payload
ack_call a be t =
    post (path_to t.host t.service "acknowledge_svc_problem" "acknowledge_host_problem")
      (ack_payload a) be

unfoldable pub or_empty : Option String → String
or_empty none = ""
or_empty (some s) = s

is_dict : Json → Bool
is_dict (dict _) = true
is_dict _ = false

-- the rows that `get_all` yields
unfoldable pub rows_in : Json → List Json
unfolding elements
rows_in (list l) = elements l
rows_in _ = []

unfoldable pub is_host_row : Json → Bool
unfolding is_dict truth read
is_host_row r = is_dict r && truth (read "name" r)

unfoldable pub is_service_row : Json → Bool
unfolding is_dict truth read
is_service_row r = is_dict r && truth (read "host_name" r) && truth (read "description" r)

module _ (client : Client) where
  -- `_collect_hosts` and `_collect_services`: nothing where they are skipped, else the rows kept
  unfoldable pub collect_rows : Bool → ClientCall → (Json → Bool) → Act (List Json)
  unfolding rows_in
  collect_rows skip c test = elim skip [
    | true ↦ Calls.done []
    | false ↦ do rows ← send_call client c; Calls.done (keep test (rows_in rows))
  ]

module _ (be : Backends) where
  unfoldable pub host_query : Option String → Scope → ClientCall
  unfolding unhandled_params
  host_query hostgroup scope =
      get_rows "/hosts"
        (unhandled_params "name,state,peer_name" scope.host_state hostgroup "groups[gte]") be

  unfoldable pub service_query : Option String → Scope → ClientCall
  unfolding unhandled_params
  service_query hostgroup scope =
      get_rows "/services"
        (unhandled_params "host_name,description,state,peer_name" scope.service_state hostgroup
          "host_groups[gte]")
        be

-- both results of a `gather` of two, each of which runs whatever the other does
unfoldable pub pair_answers : {A B : Type 0} → Answer A → Answer B → Answer (A × B)
pair_answers (raised e) _ = raised e
pair_answers (returned a) (raised e) = raised e
pair_answers (returned a) (returned b) = returned (a, b)

unfoldable pub gather_two : {A B : Type 0} → Act A → Act B → Act (A × B)
unfolding pair_answers
gather_two m n calls =
    let first = m calls in let second = n first.1 in (pair_answers first.0 second.0, second.1)

unfoldable pub bulk_summary_of : List Target → List (Answer Json) → BulkSummary
unfolding settle_targets
bulk_summary_of targets results =
    let settled = settle_targets targets results in
    record {
      acknowledged = settled.0;
      failed = length settled.1;
      targets = targets;
      errors = settled.1;
      warned = nat_eq (length targets) 0;
    }

module _ (client : Client) (be : Backends) where
  unfoldable pub collect_problems : Option String → Scope → Act (List Json × List Json)
  unfolding gather_two collect_rows is_host_row is_service_row host_query service_query
  collect_problems hostgroup scope =
      gather_two (collect_rows client scope.skip_hosts (host_query be hostgroup scope) is_host_row)
        (collect_rows client scope.skip_services (service_query be hostgroup scope) is_service_row)

  -- the commands of all targets at once, and what became of them
  unfoldable pub acknowledge_targets : Acknowledgement → List Target → Act BulkResult
  unfolding bulk_summary_of ack_call gather_outcomes
  acknowledge_targets a targets = do
    results ← gather_outcomes client (map (ack_call a be) targets)
    Calls.done (summary (bulk_summary_of targets results))

  -- the exception of `int` leaves the tool before it sends a command
  unfoldable pub send_targets : Acknowledgement → Option (List Target) → Act BulkResult
  unfolding acknowledge_targets
  send_targets a none = throw (other_error "int()")
  send_targets a (some targets) = acknowledge_targets a targets

module _ (repr : Json → String) (float_int : String → ℤ) (client : Client) (be : Backends) where
  unfoldable pub acknowledge_rows : Acknowledgement → List Json × List Json → Act BulkResult
  unfolding all_targets send_targets
  acknowledge_rows a rows = send_targets client be a (all_targets repr float_int rows.0 rows.1)

  unfoldable pub bulk_scoped : Acknowledgement → Option String → Scope → Act BulkResult
  unfolding collect_problems acknowledge_rows
  bulk_scoped a hostgroup scope = do
    rows ← collect_problems client be hostgroup scope
    acknowledge_rows a rows

  -- a state that names no problem is answered with an error
  unfoldable pub bulk_resolved :
      Acknowledgement → Option String → String → Option Scope → Act BulkResult
  unfolding bulk_scoped
  bulk_resolved a hostgroup state none = Calls.done (invalid_state state)
  bulk_resolved a hostgroup state (some scope) = bulk_scoped a hostgroup scope

  -- `thruk_bulk_acknowledge`
  unfoldable pub bulk_acknowledge :
      Acknowledgement → Option String → Option String → Bool → Bool → Act BulkResult
  unfolding bulk_resolved resolve_scope or_empty
  bulk_acknowledge a hostgroup state hosts_only services_only =
      if hosts_only && services_only
      then Calls.done exclusive
      else bulk_resolved a hostgroup (or_empty state) (resolve_scope hosts_only services_only state)
