-- ===== src/Server/Logged.antt =====
-- Which calls leave a record in the audit log: `call_tool` of src/thruk_mcp/server.py, with the tool
-- `thruk_query` of src/thruk_mcp/tools/escape.py.
use mathlib.Core.Path.{subst}
use thruk_mcp.Audit.{
  Json, string, dict, Fields, get_field, str, AuditRecord, redact, log_call, Status, ok, error,
}
use thruk_mcp.OrderedDict
use thruk_mcp.Prelude.{
  String, ◌≡◌, refl, sym, ap, ◌∙◌, Bool, true, false, not, ◌&&◌, ◌||◌, Option, none, some, List, [],
  ◌∷◌, arith, String_discrete, ◌⊎◌, inl, inr,
}
use thruk_mcp.Prelude.Text.{upper}
use thruk_mcp.Server.Calls.{call-known}
use thruk_mcp.Server.Escape.Guards.{plan_of-IsGuarded, method_given, path_plan-IsPassed}
use thruk_mcp.Server.Escape.{
  RestRequest, Arguments, Plan, crash, refuse, send, Refusal, Response, bind, plan_of, query,
  carry_out, thruk_query, or_default,
}
use thruk_mcp.Server.{
  ToolResult, returned, type_error, failed, crashed, Reply, escaped, Tool, ToolSpec, is_write_tool,
  is_read, Server, is_auditable_write, audit, conclude, run_tool, call_tool, method_of, user_of,
}
use thruk_mcp.Tenants.{Config}

-- The one record that a call leaves: of which tool, for whom, and with which arguments.
pub record IsLogged (name user : String) (args : Fields) (log : List AuditRecord) : Type 0 where
  pub entry : AuditRecord
  pub alone : log ≡ entry ∷ []
  pub of_tool : entry.tool ≡ name
  pub of_user : entry.user ≡ user
  pub masked : entry.args ≡ redact (dict args)

module _ (repr : Json → String) (scrub : String → String) {W : Type 0} where
  audit-IsLogged :
      (server : Server W) (bound : Option Config) (name : String) (args : Fields) (status : Status)
      (e : Option String)
      → server.cfg.audit_log ≡ true
      → is_auditable_write repr server.registry name args ≡ true
      → IsLogged name
          (user_of repr scrub server bound)
          args
          (audit repr scrub server bound name args status e)
  unfolding audit log_call
  audit-IsLogged server bound name args status e on due = record {
    entry = log_call repr scrub name args (user_of repr scrub server bound) status e;
    alone = rw (audit, on, due) refl;
    of_tool = refl;
    of_user = refl;
    masked = refl;
  }

  -- how a call ends: the exception that escapes has left nothing
  IsKept : Server W → Option Config → String → Fields → Reply × List AuditRecord × W → Type 0
  IsKept server bound name args c =
      ((e : String) × (c.0 ≡ escaped e) × (c.1 ≡ []))
      ⊎ IsLogged name (user_of repr scrub server bound) args c.1

  run_tool-IsKept :
      (server : Server W) (bound : Option Config) (name : String) (args : Fields)
      (o : ToolResult × W)
      → server.cfg.audit_log ≡ true
      → is_auditable_write repr server.registry name args ≡ true
      → IsKept server bound name args (run_tool repr scrub server bound name args o)
  unfolding IsKept run_tool conclude
  run_tool-IsKept server bound name args (returned t, w) on due =
      inr (audit-IsLogged server bound name args ok none on due)
  run_tool-IsKept server bound name args (type_error e, w) on due =
      inr (audit-IsLogged server bound name args error (some e) on due)
  run_tool-IsKept server bound name args (failed e, w) on due =
      inr (audit-IsLogged server bound name args error (some e) on due)
  run_tool-IsKept server bound name args (crashed e, w) on due = inl (e, refl, refl)

  -- A call of a tool that writes leaves one record, of its tool, its caller and its masked arguments,
  -- unless an exception escapes: then it leaves none. The conditions are that the server keeps an audit
  -- log and has the tool.
  pub call_tool-logs :
      (server : Server W) (bound : Option Config) (name : String) (args : Fields) (world : W)
      (fn : Tool W)
      → server.cfg.audit_log ≡ true
      → OrderedDict.get String_discrete name server.enabled ≡ some fn
      → is_auditable_write repr server.registry name args ≡ true
      → ((e : String) × ((call_tool repr scrub server bound name args world).0 ≡ escaped e)
          × ((call_tool repr scrub server bound name args world).1 ≡ []))
        ⊎ IsLogged name
            (user_of repr scrub server bound)
            args
            (call_tool repr scrub server bound name args world).1
  unfolding IsKept
  call_tool-logs server bound name args world fn on there due =
      subst (IsKept server bound name args)
        (sym (call-known repr scrub server bound name args world fn there))
        (run_tool-IsKept server bound name args (fn args world) on due)

bind_method :
    (names : List String) (args : Fields) (a : Arguments)
    → bind names "GET" args ≡ some a
    → or_default (string "GET") (get_field "method" args) ≡ a.method
unfolding bind
bind_method names args a h = ground (arith, h)

default_text :
    (repr : Json → String) (o : Option Json) (m : String)
    → or_default (string "GET") o ≡ string m
    → elim o [ none ↦ "GET" | some v ↦ str repr v ] ≡ m
unfolding str
default_text repr none m h = ap (str repr) h
default_text repr (some v) m h = ap (str repr) h

bound_method :
    (repr : Json → String) (names : List String) (args : Fields) (a : Arguments) (m : String)
    → bind names "GET" args ≡ some a
    → a.method ≡ string m
    → method_of repr "GET" args ≡ upper m
unfolding method_of
bound_method repr names args a m h g =
    ap upper (default_text repr (get_field "method" args) m (bind_method names args a h ∙ g))

-- the parameters of `thruk_query`
abbrev pub query_names : List String
query_names = "path" ∷ "method" ∷ "params" ∷ "data" ∷ "backends" ∷ []

query-auditable :
    (repr : Json → String) {W : Type 0} (registry : List (ToolSpec W)) (args : Fields)
    (a : Arguments) (is_read_only : Bool) (r : RestRequest) (w : Bool)
    → bind query_names "GET" args ≡ some a
    → plan_of repr query is_read_only a ≡ send r w
    → is_read r.method ≡ false
    → is_auditable_write repr registry "thruk_query" args ≡ true
unfolding is_auditable_write
query-auditable repr registry args a is_read_only r w given planned writes =
    let m = method_given repr query is_read_only a r w planned in
    let sent = path_plan-IsPassed repr query m.0 a r w m.3 in
    let method = bound_method repr query_names args a m.0 given m.1 ∙ sym sent.1 in
    let due = ap is_read method ∙ writes in
    due_after (is_write_tool registry "thruk_query") (is_read (method_of repr "GET" args)) due
  where
    due_after : (b c : Bool) → c ≡ false → (b || (true && not c)) ≡ true
    due_after b c h = ground (arith, h)

module _ (repr : Json → String) {W : Type 0} (request : RestRequest → W → Response × W)
    (show_refusal : Refusal → String) (tool_response : Bool → Json → String) where
  -- Whenever `thruk_query` sends a request that is not GET or HEAD, a server that has the tool and an
  -- audit log keeps one record of the call, unless an exception escapes.
  pub thruk_query-logs :
      (scrub : String → String) (server : Server W) (bound : Option Config) (args : Fields)
      (world : W) (is_read_only : Bool) (a : Arguments) (r : RestRequest) (w : Bool)
      → server.cfg.audit_log ≡ true
      → OrderedDict.get String_discrete "thruk_query" server.enabled
        ≡ some (thruk_query repr request show_refusal tool_response is_read_only)
      → bind query_names "GET" args ≡ some a
      → plan_of repr query is_read_only a ≡ send r w
      → is_read r.method ≡ false
      → ((e : String) × ((call_tool repr scrub server bound "thruk_query" args world).0 ≡ escaped e)
          × ((call_tool repr scrub server bound "thruk_query" args world).1 ≡ []))
        ⊎ IsLogged "thruk_query"
            (user_of repr scrub server bound)
            args
            (call_tool repr scrub server bound "thruk_query" args world).1
  thruk_query-logs scrub server bound args world is_read_only a r w on there given planned writes =
      call_tool-logs repr scrub server bound "thruk_query" args world
        (thruk_query repr request show_refusal tool_response is_read_only) on there
        (query-auditable repr server.registry args a is_read_only r w given planned writes)

  read_of : (b : Bool) → (true && not b) ≡ false → b ≡ true
  read_of b h = ground (arith, h)

  carry_out-quiet :
      (p : Plan) (world : W)
      → ((r : RestRequest) (w : Bool) → p ≡ send r w → (request r world).1 ≡ world)
      → (carry_out repr request show_refusal tool_response p world).1 ≡ world
  unfolding carry_out
  carry_out-quiet (crash e) world h = refl
  carry_out-quiet (refuse e) world h = refl
  carry_out-quiet (send r w) world h = h r w refl

  after_bind : Option Arguments → W → ToolResult × W
  after_bind o world = elim o [
    | none ↦ (type_error "thruk_query", world)
    | some a ↦ carry_out repr request show_refusal tool_response (plan_of repr query true a) world
  ]

  after_bind-quiet :
      (o : Option Arguments) (world : W)
      → ((r : RestRequest) (world : W) → is_read r.method ≡ true → (request r world).1 ≡ world)
      → (after_bind o world).1 ≡ world
  unfolding after_bind
  after_bind-quiet none world quiet = refl
  after_bind-quiet (some a) world quiet =
      carry_out-quiet (plan_of repr query true a) world (λ r w h.
        quiet r world
          (read_of (is_read r.method) (plan_of-IsGuarded repr query true a r w h).readable))

  -- In read-only mode `thruk_query` changes nothing, given that GET and HEAD requests do not.
  pub thruk_query-Preserves :
      ((r : RestRequest) (world : W) → is_read r.method ≡ true → (request r world).1 ≡ world)
      → (args : Fields) (world : W)
      → (thruk_query repr request show_refusal tool_response true args world).1 ≡ world
  unfolding thruk_query after_bind
  thruk_query-Preserves quiet args world =
      after_bind-quiet (bind query_names "GET" args) world quiet
