-- ===== src/Commands/Wanted.antt =====
-- What `thruk_delete_active_downtimes` of src/thruk_mcp/tools/commands.py deletes.
use mathlib.Core.Path.{subst}
use thruk_mcp.Audit.{Json, null, boolean, number, string, list, dict, truth}
use thruk_mcp.Commands.Active.{
  active_params, is_text, is_wanted, ActiveResult, deletions, fetch_matching, fetch_again, jobs_of,
  delete_found, delete_after, delete_active,
}
use thruk_mcp.Commands.Calls.{
  returned, Backends, ClientCall, get, Client, after, done, after-eq-returned, returned_inj,
}
use thruk_mcp.Commands.Deletions.{Deletions, delete_jobs}
use thruk_mcp.Commands.Paths.{named_service, command_path}
use thruk_mcp.Commands.Settled.{
  Picks, keep-Picks, targets, AreDeleted, deleted_targets, ids_of-targets,
}
use thruk_mcp.Commands.Values.{read, rows_from}
use thruk_mcp.Prelude.{
  ℕ, String, ◌≡◌, ◌↔◌, refl, sym, ap, ◌∙◌, Bool, true, false, not, ◌&&◌, ◌⊎◌, inl, inr, Option,
  none, some, List, [], ◌∷◌, ◌++◌, length, eq_iff,
}
use thruk_mcp.Prelude.Int.{ℤ, pos, ltb_ℤ}
use thruk_mcp.Sorting.{keep}

-- A downtime of the named service, or of the host itself.
abbrev pub IsWanted : Option String → Json → Type 0
IsWanted none d = truth (read "service_description" d) ≡ false
IsWanted (some s) d = read "service_description" d ≡ string s

string_inj : {s t : String} → string s ≡ string t → s ≡ t
string_inj h = cc

is_text-string : (s : String) (v : Json) → (is_text s v ≡ true) ↔ (v ≡ string s)
unfolding is_text
is_text-string s (string t) =
    (λ h. ap string ((eq_iff t s).0 h), λ h. (eq_iff t s).1 (string_inj h))
is_text-string s null = (λ h. cc, λ h. cc)
is_text-string s (boolean b) = (λ h. cc, λ h. cc)
is_text-string s (number n z) = (λ h. cc, λ h. cc)
is_text-string s (list l) = (λ h. cc, λ h. cc)
is_text-string s (dict fs) = (λ h. cc, λ h. cc)

false_of_not : (b : Bool) → (not b ≡ true) ↔ (b ≡ false)
false_of_not true = (λ h. cc, λ h. cc)
false_of_not false = (λ h. refl, λ h. refl)

is_wanted-IsWanted :
    (service : Option String) (d : Json) → (is_wanted service d ≡ true) ↔ IsWanted service d
unfolding is_wanted
is_wanted-IsWanted none d = false_of_not (truth (read "service_description" d))
is_wanted-IsWanted (some s) d = is_text-string s (read "service_description" d)

module _ (client : Client) (be : Backends) (epoch : ℕ → Json) (host : String)
    (service : Option String) where
  -- The query for downtimes, by the numbers of its readings of the clock.
  abbrev pub query : ℕ → ℕ → ClientCall
  query i j = get "/downtimes" (active_params host service (epoch i) (epoch j)) be

  -- The rows `found` are the wanted ones of the reply to a query, sent behind the requests `calls`.
  abbrev pub AreFound : ℕ → ℕ → List ClientCall → List Json → Type 0
  AreFound i j calls found =
      (raw : Json) × (client calls (query i j) ≡ returned raw)
      × Picks (IsWanted (named_service service)) (rows_from raw) found

  -- The rows come from the first query, or where that finds none and a second one is allowed, from it;
  -- `before` are the requests so far.
  abbrev pub AreCollected : Bool → List ClientCall → List ClientCall → List Json → Type 0
  AreCollected retry calls before found =
      (AreFound 0 1 calls found × (before ≡ calls ++ query 0 1 ∷ []))
      ⊎ (AreFound 0 1 calls []
          × (retry ≡ true)
          × AreFound 2 3 (calls ++ query 0 1 ∷ []) found
          × (before ≡ (calls ++ query 0 1 ∷ []) ++ query 2 3 ∷ []))

  fetch_matching-AreFound :
      (i j : ℕ) (calls : List ClientCall) (found : List Json)
      → (fetch_matching client be epoch host service i j calls).0 ≡ returned found
      → AreFound i j calls found
        × ((fetch_matching client be epoch host service i j calls).1 ≡ calls ++ query i j ∷ [])
  unfolding fetch_matching
  fetch_matching-AreFound i j calls found h =
      let (raw, replied, kept, same) =
        after-eq-returned (client calls (query i j), calls ++ query i j ∷ [])
          (λ raw. done (keep (is_wanted (named_service service)) (rows_from raw))) found h in
      (
        (
          raw,
          replied,
          subst (Picks (IsWanted (named_service service)) (rows_from raw)) (returned_inj kept) (
              keep-Picks (IsWanted (named_service service)) (is_wanted (named_service service))
                (rows_from raw) (is_wanted-IsWanted (named_service service))),
        ),
        same,
      )

  again-AreCollected :
      (retry : Bool) (calls t : List ClientCall) (first found : List Json)
      → AreFound 0 1 calls first
      → t ≡ calls ++ query 0 1 ∷ []
      → (fetch_again client be epoch host service retry first t).0 ≡ returned found
      → AreCollected retry calls (fetch_again client be epoch host service retry first t).1 found
  unfolding fetch_again
  again-AreCollected retry calls t (d ∷ l) found f e h =
      inl (subst (AreFound 0 1 calls) (returned_inj h) f, e)
  again-AreCollected false calls t [] found f e h =
      inl (subst (AreFound 0 1 calls) (returned_inj h) f, e)
  again-AreCollected true calls t [] found f e h =
      let (second, sent) = fetch_matching-AreFound 2 3 t found h in
      inr (
        f,
        refl,
        subst (λ u. AreFound 2 3 u found) e second,
        sent ∙ ap (λ u. u ++ query 2 3 ∷ []) e,
      )

  -- Behind the requests `before`, one deletion of each row that has an id went out; the lists have what
  -- the client answered, and the number counts the first of them.
  abbrev pub IsDeletion : List ClientCall → List Json → Deletions → ℕ → List ClientCall → Type 0
  IsDeletion before found d n calls =
      AreDeleted client be before
        (targets (λ x. command_path host service "del_downtime" "del_downtime") found) d calls
      × (n ≡ length d.deleted)

  abbrev result_or : Deletions × ℕ → ActiveResult → Deletions × ℕ
  result_or p (deletions d n) = (d, n)
  result_or p _ = p

  delete_found-IsDeletion :
      (found : List Json) (before : List ClientCall) (d : Deletions) (n : ℕ)
      → (delete_found client be epoch host service found before).0 ≡ returned (deletions d n)
      → IsDeletion before found d n (delete_found client be epoch host service found before).1
  unfolding delete_found jobs_of command_path
  delete_found-IsDeletion [] before d n h = cc
  delete_found-IsDeletion (f ∷ l) before d n h =
      let jobs = jobs_of host service (f ∷ l) in
      let path = command_path host service "del_downtime" "del_downtime" in
      let (r, settled, made, same) =
        after-eq-returned (delete_jobs client be jobs before)
          (λ r. done (deletions r (length r.deleted))) (deletions d n) h in
      subst
        (λ p.
          IsDeletion before (f ∷ l) p.0 p.1
            (after (delete_jobs client be jobs before)
              (λ r. done (deletions r (length r.deleted)))).1)
        (ap (result_or (d, n)) (returned_inj made))
        (subst (λ calls. IsDeletion before (f ∷ l) r (length r.deleted) calls) (sym same)
          (
            (deleted_targets client be jobs (targets (λ x. path) (f ∷ l)) before r
                (ids_of-targets path (f ∷ l)) settled),
            refl,
          ))

  -- When the deletion of the active downtimes comes to its lists, its rows are those of the reply to a
  -- query that are of the named service, or without one of the host itself, and no others; where the
  -- first query finds none of them and a second one is asked for with a delay, those of that. Behind the
  -- queries one deletion of each that has an id went out, at the endpoint of that service or host,
  -- and nothing else; an id is in `deleted` with the answer that it got, and in `errors` with the
  -- ThrukError, and the count is that of `deleted`.
  pub delete_active-IsDeletion :
      (retry_on_empty : Bool) (retry_delay : ℤ) (calls : List ClientCall) (d : Deletions) (n : ℕ)
      → (delete_active client be epoch host service retry_on_empty retry_delay calls).0
        ≡ returned (deletions d n)
      → (before : List ClientCall) × (found : List Json) × AreCollected
          (retry_on_empty && ltb_ℤ (pos 0) retry_delay)
          calls
          before
          found
        × IsDeletion before found d n
            (delete_active client be epoch host service retry_on_empty retry_delay calls).1
  unfolding delete_active delete_after
  delete_active-IsDeletion retry_on_empty retry_delay calls d n h =
      let retry = retry_on_empty && ltb_ℤ (pos 0) retry_delay in
      let x = fetch_matching client be epoch host service 0 1 calls in
      let (first, fetched, h', same) =
        after-eq-returned x (delete_after client be epoch host service retry) (deletions d n) h in
      let y = fetch_again client be epoch host service retry first x.1 in
      let (found, again, h'', same') =
        after-eq-returned y (delete_found client be epoch host service) (deletions d n) h' in
      let f = fetch_matching-AreFound 0 1 calls first fetched in
      (
        y.1,
        found,
        again-AreCollected retry calls x.1 first found f.0 f.1 again,
        subst (IsDeletion y.1 found d n) (sym (same ∙ same'))
            (delete_found-IsDeletion found y.1 d n h''),
      )
