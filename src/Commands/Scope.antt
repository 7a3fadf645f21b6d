-- ===== src/Commands/Scope.antt =====
-- What `thruk_bulk_acknowledge` of src/thruk_mcp/tools/commands.py collects: its state filter and the
-- parameters of its two requests.
use thruk_mcp.Audit.{Json, number, string}
use thruk_mcp.Commands.Calls.{Dict}
use thruk_mcp.Commands.Values.{entry_if}
use thruk_mcp.Filters.Leaves.{find_state, host_states, service_states}
use thruk_mcp.Prelude.{ℕ, String, Bool, true, Option, none, some, ◌∷◌, nat_eq, if◌then◌else◌}
use thruk_mcp.Prelude.Text.{lower, show_nat}

-- What is collected: the states asked for, and the kinds that are left out.
pub record Scope : Type 0 where
  pub host_state : Option ℕ
  pub service_state : Option ℕ
  pub skip_hosts : Bool
  pub skip_services : Bool

-- `key in MAP and MAP[key] != 0`
unfoldable pub problem_code : Option ℕ → Option ℕ
problem_code none = none
problem_code (some n) = if nat_eq n 0 then none else some n

scope_of : Bool → Bool → Option ℕ → Option ℕ → Option Scope
scope_of hosts_only services_only (some n) _ = some (record {
  host_state = some n;
  service_state = none;
  skip_hosts = services_only;
  skip_services = true;
})
scope_of hosts_only services_only none (some n) = some (record {
  host_state = none;
  service_state = some n;
  skip_hosts = true;
  skip_services = hosts_only;
})
scope_of hosts_only services_only none none = none

-- the state filter; none is the error for an invalid state
unfoldable pub resolve_scope : Bool → Bool → Option String → Option Scope
unfolding scope_of problem_code
resolve_scope hosts_only services_only none = some (record {
  host_state = none;
  service_state = none;
  skip_hosts = services_only;
  skip_services = hosts_only;
})
resolve_scope hosts_only services_only (some s) =
    let key : String = lower s in
    scope_of hosts_only services_only (problem_code (find_state key host_states))
      (problem_code (find_state key service_states))

unfoldable pub number_of : ℕ → Json
number_of n = number (show_nat n) (nat_eq n 0)

unfoldable pub state_entry : Option ℕ → String × Json
unfolding number_of
state_entry none = ("state[gte]", number_of 1)
state_entry (some n) = ("state", number_of n)

-- the parameters of either list of unhandled problems
unfoldable pub unhandled_params : String → Option ℕ → Option String → String → Dict
unfolding state_entry number_of entry_if
unhandled_params columns state hostgroup group_key =
    ("acknowledged", number_of 0)
    ∷ ("scheduled_downtime_depth", number_of 0)
    ∷ ("columns", string columns)
    ∷ state_entry state
    ∷ entry_if hostgroup group_key
