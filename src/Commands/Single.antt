-- ===== src/Commands/Single.antt =====
-- The tools of src/thruk_mcp/tools/commands.py that send one command. A result is what `_tool_response` gets.
use thruk_mcp.Audit.{Json, string}
use thruk_mcp.Commands.Calls.{Dict, Backends, post, Client, Act, send_call}
use thruk_mcp.Commands.Paths.{◌<>◌, command_path, host_path}
use thruk_mcp.Commands.Quote.{seg}
use thruk_mcp.Commands.Values.{flag}
use thruk_mcp.Prelude.{String, ◌==◌, Bool, Option, none, some, [], ◌∷◌, ◌++◌, if◌then◌else◌}
use thruk_mcp.Prelude.Int.{ℤ, pos, ℤ_discrete}
use thruk_mcp.Prelude.Text.{show_int}

-- `if duration_minutes: end_time = f"+{duration_minutes}m"`
unfoldable pub end_of : Option ℤ → String → String
unfolding ◌<>◌
end_of none end_time = end_time
end_of (some n) end_time = elim (ℤ_discrete n (pos 0)) [
  | yes _ ↦ end_time
  | no _ ↦ "+" <> show_int n <> "m"
]

-- The arguments that the tools for downtimes share.
pub record Window : Type 0 where
  pub comment : String
  pub author : String
  pub start_time : String
  pub end_time : String
  pub duration_minutes : Option ℤ
  pub fixed : Bool

unfoldable pub window_entries : Window → Dict
unfolding end_of flag
window_entries w =
    ("start_time", string w.start_time)
    ∷ ("end_time", string (end_of w.duration_minutes w.end_time))
    ∷ ("comment_data", string w.comment)
    ∷ ("comment_author", string w.author)
    ∷ ("fixed", flag w.fixed)
    ∷ []

-- `_downtime_payload`
unfoldable pub downtime_payload : Window → ℤ → Dict
unfolding window_entries
downtime_payload w triggered_by =
    window_entries w ++ ("triggered_by", string (show_int triggered_by)) ∷ []

-- The flags of an acknowledgement.
pub record Acknowledgement : Type 0 where
  pub comment : String
  pub author : String
  pub sticky : Bool
  pub notify : Bool
  pub persistent : Bool

unfoldable pub ack_payload : Acknowledgement → Dict
unfolding flag
ack_payload a =
    ("comment_data", string a.comment)
    ∷ ("comment_author", string a.author)
    ∷ ("sticky_ack", flag a.sticky)
    ∷ ("send_notification", flag a.notify)
    ∷ ("persistent_comment", flag a.persistent)
    ∷ []

module _ (client : Client) (be : Backends) where
  unfoldable pub schedule_downtime : String → Option String → Window → Act Json
  unfolding command_path window_entries
  schedule_downtime host service w = send_call client (
      post (command_path host service "schedule_svc_downtime" "schedule_host_downtime")
        (window_entries w) be)

  unfoldable pub acknowledge : String → Option String → Acknowledgement → Act Json
  unfolding command_path ack_payload
  acknowledge host service a = send_call client (
      post (command_path host service "acknowledge_svc_problem" "acknowledge_host_problem")
        (ack_payload a) be)

  unfoldable pub add_comment : String → String → Option String → String → Bool → Act Json
  unfolding command_path flag
  add_comment host comment service author persistent = send_call client (
      post (command_path host service "add_svc_comment" "add_host_comment")
        (("comment_data", string comment)
          ∷ ("comment_author", string author)
          ∷ ("persistent", flag persistent)
          ∷ [])
        be)

  unfoldable pub delete_comment : ℤ → String → Option String → Act Json
  unfolding command_path
  delete_comment comment_id host service = send_call client (
      post (command_path host service "del_comment" "del_comment")
        (("comment_id", string (show_int comment_id)) ∷ []) be)

  unfoldable pub remove_acknowledgement : String → Option String → Act Json
  unfolding command_path
  remove_acknowledgement host service = send_call client (
      post (command_path host service "remove_svc_acknowledgement" "remove_host_acknowledgement") []
        be)

  unfoldable pub recheck : String → Option String → Bool → Act Json
  unfolding command_path
  recheck host service forced = send_call client (
      post
        (command_path host service
          (if forced then "schedule_forced_svc_check" else "schedule_svc_check")
          (if forced then "schedule_forced_host_check" else "schedule_host_check"))
        (("start_time", string "now") ∷ []) be)

  unfoldable pub schedule_host_services_downtime : String → Window → Act Json
  unfolding host_path downtime_payload
  schedule_host_services_downtime host w =
      send_call client
        (post (host_path host "schedule_host_svc_downtime") (downtime_payload w (pos 0)) be)

  unfoldable pub schedule_propagated_host_downtime : String → Bool → Window → Act Json
  unfolding host_path downtime_payload
  schedule_propagated_host_downtime host triggered w = send_call client (
      post
        (host_path host (
          if triggered
          then "schedule_and_propagate_triggered_host_downtime"
          else "schedule_and_propagate_host_downtime"))
        (downtime_payload w (pos 0)) be)

  unfoldable pub schedule_hostgroup_downtime : String → String → Window → Act Json
  unfolding ◌<>◌ downtime_payload
  schedule_hostgroup_downtime hostgroup target w = send_call client (
      post
        ("/hostgroups/"
          <> seg hostgroup
          <> "/cmd/"
          <> (if target == "services"
              then "schedule_hostgroup_svc_downtime"
              else "schedule_hostgroup_host_downtime"))
        (downtime_payload w (pos 0)) be)

  unfoldable pub schedule_servicegroup_downtime : String → String → Window → Act Json
  unfolding ◌<>◌ downtime_payload
  schedule_servicegroup_downtime servicegroup target w = send_call client (
      post
        ("/servicegroups/"
          <> seg servicegroup
          <> "/cmd/"
          <> (if target == "hosts"
              then "schedule_servicegroup_host_downtime"
              else "schedule_servicegroup_svc_downtime"))
        (downtime_payload w (pos 0)) be)
