-- ===== src/Commands/Acknowledged.antt =====
-- What `thruk_bulk_acknowledge` of src/thruk_mcp/tools/commands.py sends, and what its summary says.
use mathlib.Core.Path.{subst}
use thruk_mcp.Audit.{Json, null, boolean, number, string, list, dict, truth, str, get_field}
use thruk_mcp.Commands.Bulk.{
  BulkSummary, BulkResult, summary, settle_targets, ack_call, collect_rows, host_query,
  service_query, is_host_row, is_service_row, pair_answers, gather_two, collect_problems,
  bulk_summary_of, rows_in, send_targets, acknowledge_targets, acknowledge_rows, or_empty,
  bulk_scoped, bulk_resolved, bulk_acknowledge,
}
use thruk_mcp.Commands.Calls.{
  Answer, returned, raised, fault_text, Fault, Backends, ClientCall, post, Client, after, done,
  gather_outcomes, send_each, length-send_each, after-eq-returned, returned_inj,
}
use thruk_mcp.Commands.Paths.{host_path, service_path, path_to}
use thruk_mcp.Commands.Scope.{Scope, resolve_scope}
use thruk_mcp.Commands.Settled.{Picks, keep-Picks}
use thruk_mcp.Commands.Single.{Acknowledgement, ack_payload}
use thruk_mcp.Commands.Targets.{
  Target, state_text, fields_of, host_target, service_target, targets_of, all_targets,
}
use thruk_mcp.Commands.Values.{read}
use thruk_mcp.Helpers.{host_labels, service_labels}
use thruk_mcp.Prelude.{
  ℕ, suc, String, ◌≡◌, ◌↔◌, refl, sym, ap, ◌∙◌, Bool, true, false, ◌&&◌, Option, none, some, List,
  [], ◌∷◌, ◌++◌, map, arith, length, length-map,
}
use thruk_mcp.Prelude.Int.{ℤ}
use thruk_mcp.Sorting.{keep}

-- What the replies say of the targets: how many got an answer, and the errors of the others, in order.
pub data Tallied : List Target → List (Answer Json) → ℕ → List (Target × String) → Type 0 where
  no_more : Tallied [] [] 0 []
  was_acknowledged :
      {t : Target} {r : Json} {ts : List Target} {rs : List (Answer Json)} {n : ℕ}
      {es : List (Target × String)}
      → Tallied ts rs n es
      → Tallied (t ∷ ts) (returned r ∷ rs) (suc n) es
  went_wrong :
      {t : Target} {e : Fault} {ts : List Target} {rs : List (Answer Json)} {n : ℕ}
      {es : List (Target × String)}
      → Tallied ts rs n es
      → Tallied (t ∷ ts) (raised e ∷ rs) n ((t, fault_text e) ∷ es)

settle_targets-Tallied :
    (ts : List Target) (rs : List (Answer Json))
    → length rs ≡ length ts
    → Tallied ts rs (settle_targets ts rs).0 (settle_targets ts rs).1
unfolding settle_targets
settle_targets-Tallied [] [] h = no_more
settle_targets-Tallied [] (r ∷ rs) h = absurd (omega (arith, h))
settle_targets-Tallied (t ∷ ts) [] h = absurd (omega (arith, h))
settle_targets-Tallied (t ∷ ts) (raised e ∷ rs) h =
    went_wrong (settle_targets-Tallied ts rs (omega (arith, h)))
settle_targets-Tallied (t ∷ ts) (returned r ∷ rs) h =
    subst (λ n. Tallied (t ∷ ts) (returned r ∷ rs) n (settle_targets ts rs).1) (omega arith)
      (was_acknowledged (settle_targets-Tallied ts rs (omega (arith, h))))

-- The command of a target, at its host or at its service.
abbrev pub command_to : Acknowledgement → Backends → String → Option String → ClientCall
command_to a be host none = post (host_path host "acknowledge_host_problem") (ack_payload a) be
command_to a be host (some s) =
    post (service_path host s "acknowledge_svc_problem") (ack_payload a) be

abbrev pub commands_to : Acknowledgement → Backends → List Target → List ClientCall
commands_to a be ts = map (λ (t : Target). command_to a be t.host t.service) ts

ack_call-command_to :
    (a : Acknowledgement) (be : Backends) (t : Target)
    → ack_call a be t ≡ command_to a be t.host t.service
unfolding ack_call path_to
ack_call-command_to a be t = go t.service
  where
    go :
        (o : Option String)
        → post
            (path_to t.host o "acknowledge_svc_problem" "acknowledge_host_problem")
            (ack_payload a)
            be
          ≡ command_to a be t.host o
    go none = refl
    go (some s) = refl

ack_calls-commands_to :
    (a : Acknowledgement) (be : Backends) (ts : List Target)
    → map (ack_call a be) ts ≡ commands_to a be ts
ack_calls-commands_to a be [] = refl
ack_calls-commands_to a be (t ∷ ts) =
    λ i. ack_call-command_to a be t i ∷ ack_calls-commands_to a be ts i

-- The summary of an answer, where it has one.
abbrev summary_or : BulkSummary → BulkResult → BulkSummary
summary_or d (summary s) = s
summary_or d _ = d

-- A row with a name, and one with the names of a host and a service.
abbrev pub IsHostRow : Json → Type 0
IsHostRow d = truth (read "name" d) ≡ true

abbrev pub IsServiceRow : Json → Type 0
IsServiceRow d = (truth (read "host_name" d) ≡ true) × (truth (read "description" d) ≡ true)

is_host_row-IsHostRow : (d : Json) → (is_host_row d ≡ true) ↔ IsHostRow d
unfolding is_host_row read truth
is_host_row-IsHostRow null = (λ h. cc, λ h. cc)
is_host_row-IsHostRow (boolean b) = (λ h. cc, λ h. cc)
is_host_row-IsHostRow (number n z) = (λ h. cc, λ h. cc)
is_host_row-IsHostRow (string s) = (λ h. cc, λ h. cc)
is_host_row-IsHostRow (list l) = (λ h. cc, λ h. cc)
is_host_row-IsHostRow (dict fs) = (λ h. h, λ h. h)

both_true : (b c : Bool) → ((b && c) ≡ true) ↔ ((b ≡ true) × (c ≡ true))
both_true b c = (λ h. ground (arith, h), λ h. ground (arith, h.0, h.1))

is_service_row-IsServiceRow : (d : Json) → (is_service_row d ≡ true) ↔ IsServiceRow d
unfolding is_service_row read truth
is_service_row-IsServiceRow null = (λ h. cc, λ h. let g = h.0 in cc)
is_service_row-IsServiceRow (boolean b) = (λ h. cc, λ h. let g = h.0 in cc)
is_service_row-IsServiceRow (number n z) = (λ h. cc, λ h. let g = h.0 in cc)
is_service_row-IsServiceRow (string s) = (λ h. cc, λ h. let g = h.0 in cc)
is_service_row-IsServiceRow (list l) = (λ h. cc, λ h. let g = h.0 in cc)
is_service_row-IsServiceRow (dict fs) =
    both_true (truth (read "host_name" (dict fs))) (truth (read "description" (dict fs)))

-- The rows of one kind: none where it is skipped, else all those of the reply to its query that have the
-- names; `later` are the requests then.
abbrev pub AreRows :
    Client
    → Bool
    → ClientCall
    → (Json → Type 0)
    → List ClientCall
    → List Json
    → List ClientCall
    → Type 0
AreRows client true query P calls rows later = (rows ≡ []) × (later ≡ calls)
AreRows client false query P calls rows later =
    (raw : Json) × (client calls query ≡ returned raw)
    × Picks P (rows_in raw) rows
    × (later ≡ calls ++ query ∷ [])

collect_rows-AreRows :
    (client : Client) (skip : Bool) (query : ClientCall) (test : Json → Bool) (P : Json → Type 0)
    (calls : List ClientCall) (rows : List Json)
    → ((d : Json) → (test d ≡ true) ↔ P d)
    → (collect_rows client skip query test calls).0 ≡ returned rows
    → AreRows client skip query P calls rows (collect_rows client skip query test calls).1
unfolding collect_rows
collect_rows-AreRows client true query test P calls rows iff h = (sym (returned_inj h), refl)
collect_rows-AreRows client false query test P calls rows iff h =
    let (raw, replied, made, same) =
      after-eq-returned (client calls query, calls ++ query ∷ [])
        (λ raw. done (keep test (rows_in raw))) rows h in
    (
      raw,
      replied,
      subst (Picks P (rows_in raw)) (returned_inj made) (keep-Picks P test (rows_in raw) iff),
      same,
    )

pair-returned :
    {A B : Type 0} (x : Answer A) (y : Answer B) (p : A × B)
    → pair_answers x y ≡ returned p
    → (x ≡ returned p.0) × (y ≡ returned p.1)
unfolding pair_answers
pair-returned (returned a) (returned b) p h =
    let e = returned_inj h in (λ i. returned (e i).0, λ i. returned (e i).1)
pair-returned (returned a) (raised e) p h = cc
pair-returned (raised e) y p h = cc

-- Targets name the rows that they come from, in their order.
pub data Name (P : Json → Target → Type 0) : List Json → List Target → Type 0 where
  nothing_left : Name P [] []
  named :
      {d : Json} {t : Target} {l : List Json} {ts : List Target}
      → P d t
      → Name P l ts
      → Name P (d ∷ l) (t ∷ ts)

module _ (repr : Json → String) where
  abbrev pub IsHostOf : Json → Target → Type 0
  IsHostOf d t = (t.host ≡ str repr (read "name" d)) × (t.service ≡ none)

  abbrev pub IsServiceOf : Json → Target → Type 0
  IsServiceOf d t =
      (t.host ≡ str repr (read "host_name" d))
      × (t.service ≡ some (str repr (read "description" d)))

module _ (repr : Json → String) (float_int : String → ℤ) where
  some_inj : {A : Type 0} {a b : A} → some a ≡ some b → a ≡ b
  some_inj h = cc

  target-some :
      (o : Option String) (host : String) (service : Option String) (t : Target)
      → elim o [
        | none ↦ none
        | some s ↦ some (record { host = host; service = service; state = s })
      ]
        ≡ some t
      → (t.host ≡ host) × (t.service ≡ service)
  target-some none host service t h = cc
  target-some (some s) host service t h =
      let e = sym (some_inj h) in (ap (λ (x : Target). x.host) e, ap (λ (x : Target). x.service) e)

  host_target-IsHostOf :
      (d : Json) (t : Target) → host_target repr float_int d ≡ some t → IsHostOf repr d t
  unfolding host_target
  host_target-IsHostOf d t h =
      target-some
        (state_text repr float_int host_labels (get_field "state" (fields_of repr float_int d)))
        (str repr (read "name" d)) none t h

  service_target-IsServiceOf :
      (d : Json) (t : Target) → service_target repr float_int d ≡ some t → IsServiceOf repr d t
  unfolding service_target
  service_target-IsServiceOf d t h =
      target-some
        (state_text repr float_int service_labels (get_field "state" (fields_of repr float_int d)))
        (str repr (read "host_name" d)) (some (str repr (read "description" d))) t h

  both-some :
      {A B C : Type 0} (o : Option A) (p : Option B) (g : A → B → C) (c : C)
      → elim o [ none ↦ none | some a ↦ elim p [ none ↦ none | some b ↦ some (g a b) ] ] ≡ some c
      → (a : A) × (b : B) × (o ≡ some a) × (p ≡ some b) × (g a b ≡ c)
  both-some none p g c h = cc
  both-some (some a) none g c h = cc
  both-some (some a) (some b) g c h = (a, b, refl, refl, some_inj h)

  targets_of-Name :
      (P : Json → Target → Type 0) (f : Json → Option Target)
      → ((d : Json) (t : Target) → f d ≡ some t → P d t)
      → (l : List Json) (ts : List Target) → targets_of repr float_int f l ≡ some ts
      → Name P l ts
  unfolding targets_of
  targets_of-Name P f each [] ts h = subst (Name P []) (some_inj h) nothing_left
  targets_of-Name P f each (d ∷ l) ts h =
      let (t, rest, one, others, same) =
        both-some (f d) (targets_of repr float_int f l) (λ t r. t ∷ r) ts h in
      subst (Name P (d ∷ l)) same (named (each d t one) (targets_of-Name P f each l rest others))

  -- The targets are those of the rows of hosts and then those of the rows of services.
  abbrev pub AreTargets : List Json → List Json → List Target → Type 0
  AreTargets hosts services ts =
      (hs : List Target) × (ss : List Target) × Name (IsHostOf repr) hosts hs
      × Name (IsServiceOf repr) services ss
      × (hs ++ ss ≡ ts)

  all_targets-AreTargets :
      (hosts services : List Json) (ts : List Target)
      → all_targets repr float_int hosts services ≡ some ts
      → AreTargets hosts services ts
  unfolding all_targets
  all_targets-AreTargets hosts services ts h =
      let (hs, ss, first, second, same) =
        both-some (targets_of repr float_int (host_target repr float_int) hosts)
          (targets_of repr float_int (service_target repr float_int) services) (λ a b. a ++ b) ts
          h in
      (
        hs,
        ss,
        targets_of-Name (IsHostOf repr) (host_target repr float_int) host_target-IsHostOf hosts hs
            first,
        targets_of-Name (IsServiceOf repr) (service_target repr float_int)
            service_target-IsServiceOf services ss second,
        same,
      )

module _ (client : Client) (be : Backends) (a : Acknowledgement) where
  -- Behind the requests `before` one command for each target went out, and nothing else; the counts and
  -- the errors are what the client answered to them.
  abbrev pub IsSettled : List ClientCall → BulkSummary → List ClientCall → Type 0
  IsSettled before s calls =
      Tallied s.targets (send_each client (commands_to a be s.targets) before) s.acknowledged
        s.errors
      × (s.failed ≡ length s.errors)
      × (calls ≡ before ++ commands_to a be s.targets)

  acknowledge_targets-IsSettled :
      (ts : List Target) (before : List ClientCall) (s : BulkSummary)
      → (acknowledge_targets client be a ts before).0 ≡ returned (summary s)
      → IsSettled before s (acknowledge_targets client be a ts before).1 × (s.targets ≡ ts)
  unfolding acknowledge_targets gather_outcomes after bulk_summary_of
  acknowledge_targets-IsSettled ts before s h =
      let calls = map (ack_call a be) ts in
      let results = send_each client calls before in
      let same = ap (summary_or s) (returned_inj h) in
      subst (λ (q : BulkSummary). IsSettled before q (before ++ calls) × (q.targets ≡ ts)) same
        (
          (
            subst
                (λ l.
                  Tallied ts (send_each client l before) (settle_targets ts results).0
                    (settle_targets ts results).1)
                (ack_calls-commands_to a be ts)
                (settle_targets-Tallied ts results
                  (length-send_each client calls before ∙ length-map (ack_call a be) ts)),
            refl,
            ap (λ l. before ++ l) (ack_calls-commands_to a be ts),
          ),
          refl,
        )

  module _ (repr : Json → String) (float_int : String → ℤ) where
    -- The rows of both kinds, what their targets are and what became of these.
    abbrev pub IsAccounted :
        Option String → Scope → List ClientCall → BulkSummary → List ClientCall → Type 0
    IsAccounted hostgroup scope calls s later =
        (hosts : List Json) × (services : List Json) × (between : List ClientCall) × (before : List
          ClientCall)
        × AreRows client scope.skip_hosts (host_query be hostgroup scope) IsHostRow calls hosts
            between
        × AreRows client scope.skip_services (service_query be hostgroup scope) IsServiceRow between
            services before
        × AreTargets repr float_int hosts services s.targets
        × IsSettled before s later

    send_targets-IsSettled :
        (o : Option (List Target)) (before : List ClientCall) (s : BulkSummary)
        → (send_targets client be a o before).0 ≡ returned (summary s)
        → (o ≡ some s.targets) × IsSettled before s (send_targets client be a o before).1
    unfolding send_targets
    send_targets-IsSettled none before s h = cc
    send_targets-IsSettled (some ts) before s h =
        let (settled, same) = acknowledge_targets-IsSettled ts before s h in
        (ap some (sym same), settled)

    scoped-IsAccounted :
        (hostgroup : Option String) (scope : Scope) (calls : List ClientCall) (s : BulkSummary)
        → (bulk_scoped repr float_int client be a hostgroup scope calls).0 ≡ returned (summary s)
        → IsAccounted hostgroup scope calls s
            (bulk_scoped repr float_int client be a hostgroup scope calls).1
    unfolding bulk_scoped acknowledge_rows collect_problems gather_two
    scoped-IsAccounted hostgroup scope calls s h =
        let x =
          collect_rows client scope.skip_hosts (host_query be hostgroup scope) is_host_row calls in
        let y =
          collect_rows client scope.skip_services (service_query be hostgroup scope) is_service_row
            x.1 in
        let (rows, collected, h', same) =
          after-eq-returned (pair_answers x.0 y.0, y.1)
            (acknowledge_rows repr float_int client be a) (summary s) h in
        let (first, second) = pair-returned x.0 y.0 rows collected in
        let (made, settled) =
          send_targets-IsSettled (all_targets repr float_int rows.0 rows.1) y.1 s h' in
        (
          rows.0,
          rows.1,
          x.1,
          y.1,
          collect_rows-AreRows client scope.skip_hosts (host_query be hostgroup scope) is_host_row
              IsHostRow calls rows.0 is_host_row-IsHostRow first,
          collect_rows-AreRows client scope.skip_services (service_query be hostgroup scope)
              is_service_row IsServiceRow x.1 rows.1 is_service_row-IsServiceRow second,
          all_targets-AreTargets repr float_int rows.0 rows.1 s.targets made,
          subst (IsSettled y.1 s) (sym same) settled,
        )

    resolved-IsAccounted :
        (hostgroup : Option String) (o : Option Scope) (state : String) (calls : List ClientCall)
        (s : BulkSummary)
        → (bulk_resolved repr float_int client be a hostgroup state o calls).0
          ≡ returned (summary s)
        → (scope : Scope) × (o ≡ some scope)
          × IsAccounted hostgroup scope calls s
              (bulk_resolved repr float_int client be a hostgroup state o calls).1
    unfolding bulk_resolved
    resolved-IsAccounted hostgroup none state calls s h = cc
    resolved-IsAccounted hostgroup (some scope) state calls s h =
        (scope, refl, scoped-IsAccounted hostgroup scope calls s h)

    -- When a bulk acknowledgement comes to a summary, the state filter has a scope. Of the kinds that it
    -- does not skip, the rows are all those of the reply to the query for the kind that have a name, or
    -- a host's name and a description; the targets of the summary are these, hosts first, in order.
    -- Behind the queries one command for each target went out, at its host or its service, and nothing
    -- else; it counts as acknowledged where the client answered, else it is among the errors with the
    -- text of its own, and `failed` counts the errors.
    pub bulk_acknowledge-IsAccounted :
        (hostgroup state : Option String) (hosts_only services_only : Bool)
        (calls : List ClientCall) (s : BulkSummary)
        → (bulk_acknowledge repr float_int client be a hostgroup state hosts_only services_only
            calls).0
          ≡ returned (summary s)
        → (scope : Scope) × (resolve_scope hosts_only services_only state ≡ some scope)
          × IsAccounted hostgroup scope calls s
              (bulk_acknowledge repr float_int client be a hostgroup state hosts_only services_only
                calls).1
    unfolding bulk_acknowledge
    bulk_acknowledge-IsAccounted hostgroup state true true calls s h = cc
    bulk_acknowledge-IsAccounted hostgroup state true false calls s h =
        resolved-IsAccounted hostgroup (resolve_scope true false state) (or_empty state) calls s h
    bulk_acknowledge-IsAccounted hostgroup state false services_only calls s h =
        resolved-IsAccounted hostgroup (resolve_scope false services_only state) (or_empty state)
          calls s h
