-- ===== src/Lib.antt =====
-- Verification of thruk-mcp, an MCP server in front of the REST API of the monitoring system
-- Thruk: the parts of it that compute.
--
-- A tool call brings a filter, a tree of conditions, which src/thruk_mcp/filters.py compiles to
-- the parameters of a REST request. src/thruk_mcp/client.py sends the request, with retries,
-- through the TTL cache of src/thruk_mcp/cache.py. With credentials in the headers,
-- src/thruk_mcp/multitenant.py makes the config of each request from the server's
-- (src/thruk_mcp/config.py) and keeps a bounded cache of clients. src/thruk_mcp/reliability.py
-- reduces the log rows of one host or service to incidents and metrics. src/thruk_mcp/server.py
-- offers the tools, runs them and keeps the audit log (src/thruk_mcp/audit.py).
-- src/thruk_mcp/tools/history.py replays the log to the states at a time, and
-- src/thruk_mcp/tools/triage.py finds the hosts that a storm starts from.
-- src/thruk_mcp/tools/commands.py sends the commands that change something, and
-- src/thruk_mcp/tools/inventory.py lists what there is.
--
-- Which file models what:
-- - Prelude: shared names, Boolean tests, lists, signed integers and the methods of str in use.
--   Case and digits are those of ASCII.
-- - OrderedDict: Python's ordered dict as a list of pairs, oldest first; what raises a KeyError
--   is a result. OrderedDict/Laws has the lemmas.
-- - Cache: TTLCache of cache.py (`init`, `get`, `set`, `clear`, `len`). A method holds the lock
--   over its whole body, so that a call is one step; the clock is an argument. Cache/Steps has the
--   closed forms of the operations, Cache/History runs them from a log.
-- - Filters: filters.py. Values and Leaves have the scalars, `_leaf_to_params` and `_q_leaf`;
--   Filters has the trees, `_expand_group_in`, `_and_tree_to_params`, `_build_q_expr`,
--   `_compile_hybrid` and `compile_filter`; Validate has `validate_filter`, and Logs
--   `extract_log_lookup_fields`, Alerts `infer_alert_type_regex` (Narrowed says which rows that
--   leaves out), Problems `compile_filter_problems` (Endpoints says what it sets). Meaning says
--   what a tree and an expression mean, Query and Brackets compare each path with it, Compile
--   both, Flaws has where they fall apart. Read has the tree of a filter as the caller sends it,
--   Accepted and Trees compare it with the validation, Typed and Sound say which trees compile
--   without a TypeError.
-- - Reliability: reliability.py. Rows has `_relevant_rows`, Reliability `extract_incidents`,
--   Summary `summarize_reliability`; Downtime and Order compare the incidents with the rows.
-- - Client: client.py. Requests has `request` with its retries and its cache, Fallback
--   `get_with_fallback`, Background `run_background`, Pages the paginator `get_all`.
-- - Ordering, Sorting: `sorted`, by texts and by integer keys, and dicts that count. Helpers:
--   durations, labels and list parameters of helpers.py.
-- - Audit: the redaction, the target and the record of audit.py; Redacted says what the
--   redaction leaves.
-- - Server: server.py. Server has the tools that are offered and `call_tool`, Offered and Calls
--   what they do, Escape the two tools of tools/escape.py with their checks (Guards), Logged the
--   calls that leave a record.
-- - History: tools/history.py. Entries has the log rows, History `_reconstruct_state_at`,
--   Snapshot `_state_snapshot`, Diff `_diff_states`; Replay, Changes, Reported and Window say what
--   they answer.
-- - Topology: `_attribute_root_causes` of tools/triage.py. Walks and Closing say what a search
--   visits, Roots what it finds, Tops the root of a host, Clusters where each host goes.
-- - Staleness: `_classify_check` of tools/triage.py; Reasons says when a check has which reason,
--   Stays how the classes depend on the time and the limits. Perfdata: the ranges of perfdata.py;
--   Shown reads them from their notation, Proximity has `proximity_percent`.
-- - Commands: tools/commands.py. Calls has the client, Quote the percent-encoding `_seg` of
--   helpers.py and Paths the paths of the commands; Single has the tools that send one command,
--   Switch the two switches and the lookup of a downtime, with Switched; Scope, Targets and Bulk
--   the bulk acknowledgement, with Acknowledged; Deletions and Settled the deletion of several
--   downtimes, Active and Wanted those that are active, Filtered those of a filter, with Scoped
--   and HostLevel.
-- - Inventory: tools/inventory.py. The pruned filter of the totals (Stripped) and the check of
--   the rows of `thruk_problems` (Leaks).
-- - Tenants: `from_headers` of config.py and `_lower_headers` of multitenant.py; Clients has
--   `ClientCache`, Valid what it keeps, Middleware `HeaderAuthMiddleware`.
--
-- What is a parameter: `re.escape`, the reading of a leaf by Thruk, the replies of the transport
-- (a function of the attempt), the pages of the server and the clock; `fnmatch`, the tools and the
-- world that they change, the texts of the answers, and `scrub`. Equality of keys is an argument.
-- In the commands the client is a function of all requests before a call, and coroutines that run
-- at once send their requests in order; what `repr` writes, what `re.compile` accepts and what a
-- pattern finds are arguments.
--
-- Loops are structural but for `get_all`, which runs on fuel: a round that goes on yields a row,
-- so that `hard_limit` rounds are enough, and for the two searches of Topology, whose fuel is the
-- number of the parents of all hosts and of the hosts at the start: a host is expanded once, and
-- each round takes one from the stack. The polling of a job has fuel for the intervals of its
-- time-out. The delays between attempts, the logging and the masking of secrets in messages are
-- not modelled; an error has the parts of its message. The number that a float stands for is
-- rounded exactly, without the error of a floating-point division. Durations and clocks are
-- natural numbers of the same unit. Python's numbers in filters are the integers and texts of
-- floats.
--
-- Not modelled: the metrics of a performance-data text, the tools that assemble a request and
-- format its answer (much of src/thruk_mcp/tools), the masking of secrets in free text and the
-- reading of the environment.
pub mod Prelude
pub mod OrderedDict
pub mod Sorting
pub mod Ordering
pub mod Helpers
pub mod Audit
pub mod Server
pub mod History
pub mod Topology
pub mod Staleness
pub mod Perfdata
pub mod Cache
pub mod Filters
pub mod Reliability
pub mod Client
pub mod Tenants
pub mod Commands
pub mod Inventory
