-- ===== src/Commands/Active.antt =====
-- `thruk_delete_active_downtimes` of src/thruk_mcp/tools/commands.py. The readings of the clock are
-- an argument, by their number.
use thruk_mcp.Audit.{Json, string, truth}
use thruk_mcp.Commands.Calls
use thruk_mcp.Commands.Calls.{
  Answer, returned, raised, Dict, Backends, ClientCall, get, Client, Act, ◌>>=◌, after, send_call,
}
use thruk_mcp.Commands.Deletions.{Deletions, ids_of, Job, delete_jobs}
use thruk_mcp.Commands.Paths.{command_path, named_service}
use thruk_mcp.Commands.Values.{read, rows_from, entry_if}
use thruk_mcp.Prelude.{
  ℕ, String, ◌==◌, Bool, true, false, not, ◌&&◌, Option, none, some, List, [], ◌∷◌, map, length,
}
use thruk_mcp.Prelude.Int.{ℤ, pos, ltb_ℤ}
use thruk_mcp.Sorting.{keep}

-- `_build_params`
unfoldable pub active_params : String → Option String → Json → Json → Dict
unfolding entry_if
active_params host service start_limit end_limit =
    ("host_name", string host)
    ∷ ("start_time[lte]", start_limit)
    ∷ ("end_time[gte]", end_limit)
    ∷ ("columns", string "id,service_description,author,comment")
    ∷ entry_if service "service_description"

-- `d.get("service_description") == service`
unfoldable pub is_text : String → Json → Bool
is_text s (string t) = t == s
is_text s _ = false

-- a downtime of the named service, or of the host itself
unfoldable pub is_wanted : Option String → Json → Bool
unfolding read truth is_text
is_wanted none d = not (truth (read "service_description" d))
is_wanted (some s) d = is_text s (read "service_description" d)

-- What the tool answers; nothing is the answer with the warning.
pub data ActiveResult : Type 0 where
  nothing : ActiveResult
  deletions : Deletions → ℕ → ActiveResult

unfoldable pub jobs_of : String → Option String → List Json → List Job
unfolding ids_of command_path
jobs_of host service downtimes =
    map (λ i. (command_path host service "del_downtime" "del_downtime", i)) (ids_of downtimes)

module _ (client : Client) (be : Backends) (epoch : ℕ → Json) where
  -- `_fetch_matching`, with the numbers of its two readings of the clock
  unfoldable pub fetch_matching : String → Option String → ℕ → ℕ → Act (List Json)
  unfolding active_params rows_from is_wanted named_service
  fetch_matching host service first second = do
    raw ←
        send_call client
          (get "/downtimes" (active_params host service (epoch first) (epoch second)) be)
    Calls.done (keep (is_wanted (named_service service)) (rows_from raw))

  -- once more, where nothing was found and the caller allows it
  unfoldable pub fetch_again : String → Option String → Bool → List Json → Act (List Json)
  unfolding fetch_matching
  fetch_again host service retry (d ∷ l) = Calls.done (d ∷ l)
  fetch_again host service true [] = fetch_matching host service 2 3
  fetch_again host service false [] = Calls.done []

  unfoldable pub delete_found : String → Option String → List Json → Act ActiveResult
  unfolding delete_jobs jobs_of
  delete_found host service [] = Calls.done nothing
  delete_found host service (d ∷ l) = do
    r ← delete_jobs client be (jobs_of host service (d ∷ l))
    Calls.done (deletions r (length r.deleted))

  unfoldable pub delete_after : String → Option String → Bool → List Json → Act ActiveResult
  unfolding fetch_again delete_found
  delete_after host service retry first = do
    downtimes ← fetch_again host service retry first
    delete_found host service downtimes

  -- `thruk_delete_active_downtimes`
  unfoldable pub delete_active : String → Option String → Bool → ℤ → Act ActiveResult
  unfolding fetch_matching delete_after
  delete_active host service retry_on_empty retry_delay = do
    first ← fetch_matching host service 0 1
    delete_after host service (retry_on_empty && ltb_ℤ (pos 0) retry_delay) first
