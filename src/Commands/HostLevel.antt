-- ===== src/Commands/HostLevel.antt =====
-- `thruk_delete_downtimes_by_filter` of src/thruk_mcp/tools/commands.py with a host and no comment: the
-- downtimes of the host itself.
use mathlib.Core.Path.{subst, subst⁻¹}
use thruk_mcp.Audit.{Json}
use thruk_mcp.Commands.Calls.{
  returned, Backends, ClientCall, Client, after, done, after-eq-returned, returned_inj,
}
use thruk_mcp.Commands.Deletions.{Deletions, delete_jobs}
use thruk_mcp.Commands.Filtered.{
  FilterArgs, FilterResult, system_reply, text_of, is_host_level, host_jobs, resolve_backends,
  system_call, host_call, delete_host_level, delete_by_system, delete_then, compares_comments,
  delete_one_way, delete_with, delete_checked, delete_by_filter,
}
use thruk_mcp.Commands.Scoped.{
  IsHostOwn, is_host_level-IsHostOwn, host_jobs-targets, AreResolved, at_host,
  resolve_backends-AreResolved, any_by_host,
}
use thruk_mcp.Commands.Settled.{Picks, keep-Picks, targets, AreDeleted, deleted_targets}
use thruk_mcp.Commands.Values.{rows_from, is_given}
use thruk_mcp.Prelude.{
  String, ◌≡◌, refl, sym, ap, ◌∙◌, true, false, not, ◌&&◌, some, List, [], ◌∷◌, ◌++◌,
}
use thruk_mcp.Sorting.{keep}

abbrev pub Reply : Type 0
Reply = Json × Deletions

abbrev reply_or : Reply → FilterResult → Reply
reply_or p (system_reply r (some d)) = (r, d)
reply_or p _ = p

module _ (repr : Json → String) (client : Client) (f : FilterArgs) where
  -- Behind the requests `before` the system command was sent, then the query for the host's downtimes,
  -- and a deletion of each row of its reply that names no service.
  abbrev pub IsHostLevel : Backends → List ClientCall → Reply → List ClientCall → Type 0
  IsHostLevel used before p calls =
      (raw : Json) × (found : List Json) × (client before (system_call used f) ≡ returned p.0)
      × (client (before ++ system_call used f ∷ []) (host_call used f) ≡ returned raw)
      × Picks IsHostOwn (rows_from raw) found
      × AreDeleted client used ((before ++ system_call used f ∷ []) ++ host_call used f ∷ [])
          (targets (at_host repr client f) found) p.1 calls

  delete_host_level-IsHostLevel :
      (be : Backends) (before : List ClientCall) (reply : Json) (p : Reply)
      → client before (system_call be f) ≡ returned reply
      → (delete_host_level repr client be f reply (before ++ system_call be f ∷ [])).0
        ≡ returned (system_reply p.0 (some p.1))
      → IsHostLevel be before p
          (delete_host_level repr client be f reply (before ++ system_call be f ∷ [])).1
  unfolding delete_host_level
  delete_host_level-IsHostLevel be before reply p answered eq =
      let t = before ++ system_call be f ∷ [] in
      let u = t ++ host_call be f ∷ [] in
      let at = at_host repr client f in
      let host = text_of f.host in
      let (raw, replied, eq', same) =
        after-eq-returned (client t (host_call be f), u)
          (λ raw v.
            after (delete_jobs client be (host_jobs host (keep is_host_level (rows_from raw))) v)
              (λ d. done (system_reply reply (some d))))
          (system_reply p.0 (some p.1)) eq in
      let found = keep is_host_level (rows_from raw) in
      let (d, settled, made, same') =
        after-eq-returned (delete_jobs client be (host_jobs host found) u)
          (λ d. done (system_reply reply (some d))) (system_reply p.0 (some p.1)) eq' in
      subst (λ q. IsHostLevel be before q (delete_host_level repr client be f reply t).1)
        (ap (reply_or p) (returned_inj made))
        (
          raw,
          found,
          answered,
          replied,
          keep-Picks IsHostOwn is_host_level (rows_from raw) is_host_level-IsHostOwn,
          subst (AreDeleted client be u (targets at found) d) (sym (same ∙ same')) (
              deleted_targets client be (host_jobs host found) (targets at found) u d
                (host_jobs-targets host found) settled),
        )

  delete_by_system-IsHostLevel :
      (be : Backends) (before : List ClientCall) (p : Reply)
      → (is_given f.host && not (is_given f.hostgroup)) ≡ true
      → (delete_by_system repr client be f before).0 ≡ returned (system_reply p.0 (some p.1))
      → IsHostLevel be before p (delete_by_system repr client be f before).1
  unfolding delete_by_system delete_then
  delete_by_system-IsHostLevel be before p chosen =
      subst⁻¹
        (λ b.
          (after (client before (system_call be f), before ++ system_call be f ∷ [])
              (delete_then repr client be f b)).0
            ≡ returned (system_reply p.0 (some p.1))
          → IsHostLevel be before p
              (after (client before (system_call be f), before ++ system_call be f ∷ [])
                (delete_then repr client be f b)).1)
        chosen
        (λ eq.
          let (reply, answered, eq', same) =
            after-eq-returned (client before (system_call be f), before ++ system_call be f ∷ [])
              (delete_then repr client be f true) (system_reply p.0 (some p.1)) eq in
          subst (IsHostLevel be before p) (sym same)
            (delete_host_level-IsHostLevel be before reply p answered eq'))

  no_compare :
      is_given f.host ≡ true
      → is_given f.hostgroup ≡ false
      → is_given f.comment ≡ false
      → compares_comments f ≡ false
  unfolding compares_comments
  no_compare h g c = rw (h, g, c) refl

  by_host :
      is_given f.host ≡ true
      → is_given f.hostgroup ≡ false
      → (is_given f.host && not (is_given f.hostgroup)) ≡ true
  by_host h g = rw (h, g) refl

  with-IsHostLevel :
      (used : Backends) (before : List ClientCall) (p : Reply)
      → is_given f.host ≡ true
      → is_given f.hostgroup ≡ false
      → is_given f.comment ≡ false
      → (delete_with repr client f used before).0 ≡ returned (system_reply p.0 (some p.1))
      → IsHostLevel used before p (delete_with repr client f used before).1
  unfolding delete_with delete_one_way
  with-IsHostLevel used before p h g c =
      subst⁻¹
        (λ b.
          (delete_one_way repr client b f used before).0 ≡ returned (system_reply p.0 (some p.1))
          → IsHostLevel used before p (delete_one_way repr client b f used before).1)
        (no_compare h g c) (delete_by_system-IsHostLevel used before p (by_host h g))

  -- With a host and without a hostgroup or a comment, whatever the service, when the deletion comes to
  -- its lists, it went to the backends chosen, or where none is chosen to the one that the rows of the
  -- reply to a query for the host name, and to all where they name none or several: the system command was sent, whose reply is the one that is answered, then
  -- the query for the host's downtimes, and a deletion at the host of each row of its reply that names
  -- no service and has an id, of all of these and of no others. An id is among the deleted with the
  -- answer that it got, or among the errors with its ThrukError.
  pub delete_by_filter-IsHostLevel :
      (be : Backends) (calls : List ClientCall) (p : Reply)
      → is_given f.host ≡ true
      → is_given f.hostgroup ≡ false
      → is_given f.comment ≡ false
      → (delete_by_filter repr client f be calls).0 ≡ returned (system_reply p.0 (some p.1))
      → (used : Backends) × (before : List ClientCall) × AreResolved repr client f be calls used
          before
        × IsHostLevel used before p (delete_by_filter repr client f be calls).1
  unfolding delete_by_filter delete_checked
  delete_by_filter-IsHostLevel be calls p h g c =
      subst⁻¹
        (λ b.
          (delete_checked repr client b f be calls).0 ≡ returned (system_reply p.0 (some p.1))
          → (used : Backends) × (before : List ClientCall) × AreResolved repr client f be calls used
              before
            × IsHostLevel used before p (delete_checked repr client b f be calls).1)
        (any_by_host repr client f h)
        (λ eq.
          let x = resolve_backends repr client f be calls in
          let (used, resolved, eq', same) =
            after-eq-returned x (delete_with repr client f) (system_reply p.0 (some p.1)) eq in
          (
            used,
            x.1,
            resolve_backends-AreResolved repr client f be used calls h g resolved,
            subst (IsHostLevel used x.1 p) (sym same) (with-IsHostLevel used x.1 p h g c eq'),
          ))
