-- ===== src/Commands/Switch.antt =====
-- `thruk_notifications`, `thruk_checks`, `thruk_delete_downtime` and `thruk_get_downtime` of
-- src/thruk_mcp/tools/commands.py.
use thruk_mcp.Audit.{Json, string, list, dict, done, field, truth, str}
use thruk_mcp.Commands.Calls
use thruk_mcp.Commands.Calls.{
  Backends, ClientCall, get, post, Client, Act, ◌>>=◌, send_call, gather_outcomes, gather,
}
use thruk_mcp.Commands.Paths.{◌<>◌, command_path, host_path, service_path, named_service}
use thruk_mcp.Commands.Quote.{seg}
use thruk_mcp.Commands.Values.{elements, items_of, read, tool_response}
use thruk_mcp.Prelude.{
  String, Bool, true, false, Option, none, some, List, [], ◌∷◌, map, length, if◌then◌else◌,
}
use thruk_mcp.Prelude.Int.{ℤ}
use thruk_mcp.Prelude.Text.{show_int, show_nat}
use thruk_mcp.Sorting.{keep}

-- The two switches, with the verb of each for a host and for a service.
pub data Switch : Type 0 where
  notifications checks : Switch

unfoldable pub host_verb : Switch → Bool → String
host_verb notifications enabled =
    if enabled then "enable_host_notifications" else "disable_host_notifications"
host_verb checks enabled = if enabled then "enable_host_checks" else "disable_host_checks"

unfoldable pub service_verb : Switch → Bool → String
service_verb notifications enabled =
    if enabled then "enable_svc_notifications" else "disable_svc_notifications"
service_verb checks enabled = if enabled then "enable_svc_checks" else "disable_svc_checks"

-- The dict that the tools answer.
pub record Switched : Type 0 where
  pub action : String
  pub target : String
  pub results : List Json

unfoldable pub services_call : Backends → String → ClientCall
unfolding ◌<>◌
services_call be host =
    get ("/hosts/" <> seg host <> "/services") (("columns", string "description") ∷ []) be

unfoldable pub target_text : String → Option String → Bool → String
unfolding ◌<>◌
target_text host (some s) cascade = host <> "/" <> s
target_text host none cascade = if cascade then host <> " (host + all services)" else host

-- `repr` writes a list or a dict as a text.
module _ (repr : Json → String) (client : Client) (be : Backends) where
  -- the descriptions of the services that a reply lists
  unfoldable pub described : Json → List String
  unfolding elements read truth str
  described (list l) =
      map (λ s. str repr (read "description" s))
        (keep (λ s. truth (read "description" s)) (elements l))
  described _ = []

  unfoldable pub cascade_rows : String → String → Json → Act (List Json)
  unfolding described service_path gather gather_outcomes
  cascade_rows host verb svc_data = gather (
      gather_outcomes client
        (map (λ s. post (service_path host s verb) [] be) (described svc_data)))

  -- `if cascade`, behind the command for the host
  unfoldable pub cascade_to : Bool → String → String → Act (List Json)
  unfolding cascade_rows services_call
  cascade_to false host verb = Calls.done []
  cascade_to true host verb = do
    svc_data ← send_call client (services_call be host)
    cascade_rows host verb svc_data

  unfoldable pub switch_results : Switch → String → Bool → Option String → Bool → Act (List Json)
  unfolding cascade_to host_path service_path host_verb service_verb
  switch_results w host enabled (some s) cascade = do
    r ← send_call client (post (service_path host s (service_verb w enabled)) [] be)
    Calls.done (r ∷ [])
  switch_results w host enabled none cascade = do
    r ← send_call client (post (host_path host (host_verb w enabled)) [] be)
    rest ← cascade_to cascade host (service_verb w enabled)
    Calls.done (r ∷ rest)

  -- the body of both tools
  unfoldable pub switch : Switch → String → Bool → Option String → Bool → Act Switched
  unfolding switch_results target_text named_service
  switch w host enabled service cascade = do
    results ← switch_results w host enabled (named_service service) cascade
    Calls.done (record {
      action = if enabled then "enabled" else "disabled";
      target = target_text host (named_service service) cascade;
      results = results;
    })

  -- `thruk_notifications` and `thruk_checks`
  unfoldable pub thruk_notifications : String → Bool → Option String → Bool → Act Switched
  unfolding switch
  thruk_notifications = switch notifications

  unfoldable pub thruk_checks : String → Bool → Option String → Bool → Act Switched
  unfolding switch
  thruk_checks = switch checks

  -- the service of a downtime, where the reply is one dict
  unfoldable pub service_of : Json → Option String
  unfolding read truth str
  service_of (dict fs) =
      let v = read "service_description" (dict fs) in if truth v then some (str repr v) else none
  service_of _ = none

  -- the service that the caller names, or that the downtime has
  unfoldable pub resolved_service : ℤ → Option String → Act (Option String)
  unfolding service_of ◌<>◌
  resolved_service downtime_id (some s) = Calls.done (some s)
  resolved_service downtime_id none = do
    dt ← send_call client (get ("/downtimes/" <> seg (show_int downtime_id)) [] be)
    Calls.done (service_of dt)

  -- `thruk_delete_downtime`
  unfoldable pub delete_downtime : ℤ → String → Option String → Act Json
  unfolding resolved_service command_path
  delete_downtime downtime_id host service = do
    s ← resolved_service downtime_id service
    send_call client (
        post (command_path host s "del_downtime" "del_downtime")
          (("downtime_id", string (show_int downtime_id)) ∷ []) be)

  -- what `thruk_get_downtime` makes of the reply
  unfoldable pub single_downtime : ℤ → List Json → Json
  unfolding tool_response
  single_downtime downtime_id [] =
      dict (field "error" (string ("Downtime " <> show_int downtime_id <> " not found")) done)
  single_downtime downtime_id (d ∷ []) = d
  single_downtime downtime_id (d ∷ e ∷ l) = tool_response (list (items_of (d ∷ e ∷ l))) (
      string (
        show_nat (length (d ∷ e ∷ l))
        <> " backends returned a result for downtime "
        <> show_int downtime_id
        <> "; listing all.")
      ∷ [])

  unfoldable pub downtime_answer : ℤ → Json → Json
  unfolding single_downtime elements
  downtime_answer downtime_id (list l) = single_downtime downtime_id (elements l)
  downtime_answer downtime_id v = v

  unfoldable pub get_downtime : ℤ → Act Json
  unfolding downtime_answer ◌<>◌
  get_downtime downtime_id = do
    reply ← send_call client (get ("/downtimes/" <> seg (show_int downtime_id)) [] be)
    Calls.done (downtime_answer downtime_id reply)
