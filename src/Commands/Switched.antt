-- ===== src/Commands/Switched.antt =====
-- What `thruk_notifications` and `thruk_checks` of src/thruk_mcp/tools/commands.py send.
use mathlib.Core.Path.{subst}
use thruk_mcp.Audit.{Json, null, boolean, number, string, list, dict, truth, str}
use thruk_mcp.Commands.Bulk.{rows_in}
use thruk_mcp.Commands.Calls.{
  Answer, returned, raised, Backends, ClientCall, post, Client, after, done, gather_outcomes,
  gather, first_fault, send_each, after-eq-returned, returned_inj,
}
use thruk_mcp.Commands.Paths.{◌<>◌, host_path, service_path, named_service}
use thruk_mcp.Commands.Settled.{Picks, nothing_left, keep-Picks}
use thruk_mcp.Commands.Switch.{
  Switch, notifications, checks, host_verb, service_verb, Switched, services_call, described,
  cascade_rows, cascade_to, switch_results, target_text, switch,
}
use thruk_mcp.Commands.Values.{read, elements}
use thruk_mcp.Prelude.{
  String, ◌≡◌, refl, sym, ap, ◌∙◌, Bool, true, false, Option, none, some, List, [], ◌∷◌, ◌++◌, map,
  if◌then◌else◌,
}
use thruk_mcp.Sorting.{keep}

-- What is switched, as the verbs of the commands name it.
abbrev pub subject : Switch → String
subject notifications = "notifications"
subject checks = "checks"

-- Such a verb: what is asked for, the kind of the object and what is switched.
abbrev pub verb_for : Bool → String → Switch → String
verb_for enabled kind w = (if enabled then "enable_" else "disable_") <> kind <> "_" <> subject w

host_verb-verb_for : (w : Switch) (enabled : Bool) → host_verb w enabled ≡ verb_for enabled "host" w
unfolding host_verb ◌<>◌
host_verb-verb_for notifications true = refl
host_verb-verb_for notifications false = refl
host_verb-verb_for checks true = refl
host_verb-verb_for checks false = refl

service_verb-verb_for :
    (w : Switch) (enabled : Bool) → service_verb w enabled ≡ verb_for enabled "svc" w
unfolding service_verb ◌<>◌
service_verb-verb_for notifications true = refl
service_verb-verb_for notifications false = refl
service_verb-verb_for checks true = refl
service_verb-verb_for checks false = refl

cons-returned :
    {A : Type 0} (a : A) (l : List (Answer A)) (x : Answer (List A)) (rs : List A)
    → ((rest : List A) → x ≡ returned rest → l ≡ map returned rest)
    → elim x [ returned rest ↦ returned (a ∷ rest) | raised e ↦ raised e ] ≡ returned rs
    → returned a ∷ l ≡ map returned rs
cons-returned a l (returned rest) rs all h =
    ap (λ t. returned a ∷ t) (all rest refl) ∙ ap (map returned) (returned_inj h)
cons-returned a l (raised e) rs all h = cc

-- The values of a `gather` are all of its answers.
first_fault-returned :
    {A : Type 0} (l : List (Answer A)) (rs : List A)
    → first_fault l ≡ returned rs
    → l ≡ map returned rs
unfolding first_fault
first_fault-returned [] rs h = ap (map returned) (returned_inj h)
first_fault-returned (raised e ∷ l) rs h = cc
first_fault-returned (returned a ∷ l) rs h =
    cons-returned a l (first_fault l) rs (λ rest e. first_fault-returned l rest e) h

module _ (repr : Json → String) (client : Client) (be : Backends) (w : Switch) (host : String)
    (enabled : Bool) where
  abbrev pub host_command : ClientCall
  host_command = post (host_path host (verb_for enabled "host" w)) [] be

  abbrev pub service_command : String → ClientCall
  service_command s = post (service_path host s (verb_for enabled "svc" w)) [] be

  -- the command for the service that a row describes
  abbrev pub row_command : Json → ClientCall
  row_command d = service_command (str repr (read "description" d))

  abbrev pub HasDescription : Json → Type 0
  HasDescription d = truth (read "description" d) ≡ true

  -- For a service there is one command, and for a host without its services too; else the host's
  -- command, the query for its services and a command for each row of the reply that has a
  -- description. The results are what the client answered to the commands.
  abbrev pub Sends : Option String → Bool → List ClientCall → List Json → List ClientCall → Type 0
  Sends (some s) cascade before results calls =
      (client before (service_command s) ∷ [] ≡ map returned results)
      × (calls ≡ before ++ service_command s ∷ [])
  Sends none false before results calls =
      (client before host_command ∷ [] ≡ map returned results)
      × (calls ≡ before ++ host_command ∷ [])
  Sends none true before results calls =
      (raw : Json) × (rows : List Json) × (client (before ++ host_command ∷ [])
          (services_call be host)
        ≡ returned raw)
      × Picks HasDescription (rows_in raw) rows
      × (client before host_command
            ∷ send_each client (map row_command rows)
                ((before ++ host_command ∷ []) ++ services_call be host ∷ [])
          ≡ map returned results)
      × (calls
          ≡ ((before ++ host_command ∷ []) ++ services_call be host ∷ []) ++ map row_command rows)

  described-rows :
      (raw : Json)
      → (rows : List Json) × Picks HasDescription (rows_in raw) rows
        × (map service_command (described repr client be raw) ≡ map row_command rows)
  unfolding described rows_in
  described-rows (list l) =
      let rows = keep (λ d. truth (read "description" d)) (elements l) in
      (
        rows,
        keep-Picks HasDescription (λ d. truth (read "description" d)) (elements l)
            (λ d. (λ h. h, λ h. h)),
        map_twice rows,
      )
    where
      map_twice :
          (rows : List Json)
          → map service_command (map (λ d. str repr (read "description" d)) rows)
            ≡ map row_command rows
      map_twice [] = refl
      map_twice (d ∷ rows) = ap (λ t. row_command d ∷ t) (map_twice rows)
  described-rows null = ([], nothing_left, refl)
  described-rows (boolean b) = ([], nothing_left, refl)
  described-rows (number n z) = ([], nothing_left, refl)
  described-rows (string s) = ([], nothing_left, refl)
  described-rows (dict fs) = ([], nothing_left, refl)

  cascade_rows-commands :
      (raw : Json) (t : List ClientCall) (rest : List Json)
      → (cascade_rows repr client be host (verb_for enabled "svc" w) raw t).0 ≡ returned rest
      → (send_each client (map service_command (described repr client be raw)) t
          ≡ map returned rest)
        × ((cascade_rows repr client be host (verb_for enabled "svc" w) raw t).1
            ≡ t ++ map service_command (described repr client be raw))
  unfolding cascade_rows gather gather_outcomes after
  cascade_rows-commands raw t rest h = (
    first_fault-returned (send_each client (map service_command (described repr client be raw)) t)
        rest h,
    refl,
  )

  -- the command for a host, and behind it those for its services
  host_results-Sends :
      (cascade : Bool) (before : List ClientCall) (results : List Json)
      → (after
          (client before host_command, before ++ host_command ∷ [])
          (λ r t.
            after
              (cascade_to repr client be cascade host (verb_for enabled "svc" w) t)
              (λ rest. done (r ∷ rest)))).0
        ≡ returned results
      → Sends none cascade before results
          (after
            (client before host_command, before ++ host_command ∷ [])
            (λ r t.
              after
                (cascade_to repr client be cascade host (verb_for enabled "svc" w) t)
                (λ rest. done (r ∷ rest)))).1
  unfolding cascade_to
  host_results-Sends cascade before results eq =
      let t = before ++ host_command ∷ [] in
      let (r, replied, eq', same) =
        after-eq-returned (client before host_command, t)
          (λ r t.
            after (cascade_to repr client be cascade host (verb_for enabled "svc" w) t)
              (λ rest. done (r ∷ rest)))
          results eq in
      let (rest, cascaded, made, same') =
        after-eq-returned (cascade_to repr client be cascade host (verb_for enabled "svc" w) t)
          (λ rest. done (r ∷ rest)) results eq' in
      subst (Sends none cascade before results) (sym (same ∙ same')) (
        subst
          (λ l.
            Sends none cascade before l
              (cascade_to repr client be cascade host (verb_for enabled "svc" w) t).1)
          (returned_inj made) (with_rest cascade r replied rest cascaded))
    where
      with_rest :
          (cascade : Bool) (r : Json)
          → client before host_command ≡ returned r
          → (rest : List Json)
          → (cascade_to repr client be cascade host
              (verb_for enabled "svc" w)
              (before ++ host_command ∷ [])).0
            ≡ returned rest
          → Sends none cascade before
              (r ∷ rest)
              (cascade_to repr client be cascade host
                (verb_for enabled "svc" w)
                (before ++ host_command ∷ [])).1
      with_rest false r replied rest h = (λ i. replied i ∷ map returned (returned_inj h i), refl)
      with_rest true r replied rest h =
          let t = before ++ host_command ∷ [] in
          let u = t ++ services_call be host ∷ [] in
          let (raw, listed, h', same) =
            after-eq-returned (client t (services_call be host), u)
              (cascade_rows repr client be host (verb_for enabled "svc" w)) rest h in
          let (answers, sent) = cascade_rows-commands raw u rest h' in
          let (rows, picks, mapped) = described-rows raw in
          (
            raw,
            rows,
            listed,
            picks,
            λ i. (replied ∙ refl) i ∷ (ap (λ l. send_each client l u) (sym mapped) ∙ answers) i,
            same ∙ sent ∙ ap (λ l. u ++ l) mapped,
          )

  switch_results-Sends :
      (service : Option String) (cascade : Bool) (before : List ClientCall) (results : List Json)
      → (switch_results repr client be w host enabled service cascade before).0 ≡ returned results
      → Sends service cascade before results
          (switch_results repr client be w host enabled service cascade before).1
  unfolding switch_results
  switch_results-Sends (some s) cascade before results = rw (service_verb-verb_for w enabled) (λ eq.
      let c = service_command s in
      let (r, replied, made, same) =
        after-eq-returned (client before c, before ++ c ∷ []) (λ r. done (r ∷ [])) results eq in
      (ap (λ x. x ∷ []) replied ∙ ap (map returned) (returned_inj made), same))
  switch_results-Sends none cascade before results =
      rw (host_verb-verb_for w enabled, service_verb-verb_for w enabled)
        (host_results-Sends cascade before results)

  -- When a switch of the notifications or the checks comes to its answer, the verb of its commands says
  -- whether they are enabled or disabled, and for a host or a service. For a named service it sent the
  -- one command of that, for a host without its services the one of the host; with them, the host's,
  -- a query for its services, and one for each row of the reply to it that has a description, and
  -- nothing else. The results are what the client answered to the commands, none of which failed.
  pub switch-Sends :
      (service : Option String) (cascade : Bool) (before : List ClientCall) (r : Switched)
      → (switch repr client be w host enabled service cascade before).0 ≡ returned r
      → Sends
          (named_service service)
          cascade
          before
          r.results
          (switch repr client be w host enabled service cascade before).1
  unfolding switch
  switch-Sends service cascade before r eq =
      let x = switch_results repr client be w host enabled (named_service service) cascade before in
      let (results, found, made, same) =
        after-eq-returned x
          (λ results. done (record {
            action = if enabled then "enabled" else "disabled";
            target = target_text host (named_service service) cascade;
            results = results;
          }))
          r eq in
      subst
        (λ l.
          Sends (named_service service) cascade before l
            (switch repr client be w host enabled service cascade before).1)
        (ap (λ (s : Switched). s.results) (returned_inj made))
        (subst (Sends (named_service service) cascade before results) (sym same)
          (switch_results-Sends (named_service service) cascade before results found))
