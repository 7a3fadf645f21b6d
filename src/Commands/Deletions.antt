-- ===== src/Commands/Deletions.antt =====
-- The deletion of downtimes one by one, as the tools of src/thruk_mcp/tools/commands.py do it: all at
-- once, where a ThrukError of one leaves the others alone.
use thruk_mcp.Audit.{Json, null}
use thruk_mcp.Commands.Calls.{
  Answer, returned, raised, thruk_error, other_error, Backends, ClientCall, post, Client, Act,
  send_each,
}
use thruk_mcp.Commands.Values.{read}
use thruk_mcp.Prelude.{String, Bool, true, false, not, List, [], ◌∷◌, ◌++◌, map}
use thruk_mcp.Sorting.{keep}

unfoldable pub is_null : Json → Bool
is_null null = true
is_null _ = false

-- `[d["id"] for d in downtimes if d.get("id") is not None]`
unfoldable pub ids_of : List Json → List Json
unfolding is_null read
ids_of l = keep (λ i. not (is_null i)) (map (read "id") l)

-- `deleted` and `errors`: the ids with their results, and with the texts of their errors
pub record Deletions : Type 0 where
  pub deleted : List (Json × Json)
  pub errors : List (Json × String)

unfoldable pub add_deleted : Json → Json → Answer Deletions → Answer Deletions
add_deleted i r (returned d) = returned (record d { deleted = (i, r) ∷ d.deleted })
add_deleted i r (raised e) = raised e

unfoldable pub add_error : Json → String → Answer Deletions → Answer Deletions
add_error i m (returned d) = returned (record d { errors = (i, m) ∷ d.errors })
add_error i m (raised e) = raised e

-- what `_del_one` makes of the replies, in two lists; an exception that is no ThrukError leaves the
-- tool
unfoldable pub split_results : List Json → List (Answer Json) → Answer Deletions
unfolding add_deleted add_error
split_results (i ∷ is) (returned r ∷ rs) = add_deleted i r (split_results is rs)
split_results (i ∷ is) (raised (thruk_error m) ∷ rs) = add_error i m (split_results is rs)
split_results (i ∷ is) (raised (other_error m) ∷ rs) = raised (other_error m)
split_results _ _ = returned (record { deleted = []; errors = [] })

-- `client.post(endpoint, data={"downtime_id": dt_id}, backends=be)`
unfoldable pub del_call : Backends → String → Json → ClientCall
del_call be endpoint i = post endpoint (("downtime_id", i) ∷ []) be

-- A downtime that is to be deleted: its endpoint and its id.
abbrev pub Job : Type 0
Job = String × Json

abbrev pub job_calls : Backends → List Job → List ClientCall
job_calls be jobs = map (λ j. del_call be j.0 j.1) jobs

-- `asyncio.gather(*(_del_one(i) for i in ids))`, split
unfoldable pub delete_jobs : Client → Backends → List Job → Act Deletions
unfolding split_results send_each del_call
delete_jobs client be jobs calls = (
  split_results (map (λ j. j.1) jobs) (send_each client (job_calls be jobs) calls),
  calls ++ job_calls be jobs,
)
