-- ===== src/Commands/Settled.antt =====
-- What the deletions of src/thruk_mcp/tools/commands.py send and report, described independently of
-- how they are made: the rows that are picked from a reply, and what became of each of their ids.
use mathlib.Core.Path.{subst, subst₂}
use thruk_mcp.Audit.{Json, null, boolean, number, string, list, dict}
use thruk_mcp.Commands.Calls.{
  Answer, returned, raised, thruk_error, other_error, Backends, ClientCall, post, Client, send_each,
  length-send_each, returned_inj,
}
use thruk_mcp.Commands.Deletions.{
  Deletions, ids_of, is_null, add_deleted, add_error, split_results, del_call, Job, job_calls,
  delete_jobs,
}
use thruk_mcp.Commands.Values.{read}
use thruk_mcp.Prelude.{
  String, ◌≡◌, ◌↔◌, refl, sym, ap, ◌∙◌, Bool, true, false, not, inl, inr, Bool-cases, List, [], ◌∷◌,
  ◌++◌, map, arith, length, length-map,
}
use thruk_mcp.Sorting.{keep}

-- The rows of a list that have a property, all of them, in their order.
pub data Picks (P : Json → Type 0) : List Json → List Json → Type 0 where
  nothing_left : Picks P [] []
  picked : {d : Json} {l k : List Json} → P d → Picks P l k → Picks P (d ∷ l) (d ∷ k)
  left_out : {d : Json} {l k : List Json} → ¬ P d → Picks P l k → Picks P (d ∷ l) k

pub keep-Picks :
    (P : Json → Type 0) (p : Json → Bool) (l : List Json)
    → ((d : Json) → (p d ≡ true) ↔ P d)
    → Picks P l (keep p l)
unfolding keep
keep-Picks P p [] iff = nothing_left
keep-Picks P p (d ∷ l) iff = elim (Bool-cases (p d)) [
  | inl e ↦ rw e (picked ((iff d).0 e) (keep-Picks P p l iff))
  | inr e ↦
      rw e (left_out (λ h. let t = (iff d).1 h in ground (arith, t, e)) (keep-Picks P p l iff))
]

-- The endpoints and the ids of the rows that have an id.
abbrev pub put_target : String → Json → List Job → List Job
put_target path null l = l
put_target path v l = (path, v) ∷ l

abbrev pub targets : (Json → String) → List Json → List Job
targets path [] = []
targets path (d ∷ l) = put_target (path d) (read "id" d) (targets path l)

-- The request that deletes a downtime.
abbrev pub deletion_of : Backends → Job → ClientCall
deletion_of be t = post t.0 (("downtime_id", t.1) ∷ []) be

-- What the replies say of the ids: one that was answered is deleted, with its answer, and one that got
-- a ThrukError is an error, with its text.
pub data Outcomes
    : List Json → List (Answer Json) → List (Json × Json) → List (Json × String) → Type 0 where
  no_more : Outcomes [] [] [] []
  was_deleted :
      {i r : Json} {ids : List Json} {rs : List (Answer Json)} {ds : List (Json × Json)}
      {es : List (Json × String)}
      → Outcomes ids rs ds es
      → Outcomes (i ∷ ids) (returned r ∷ rs) ((i, r) ∷ ds) es
  went_wrong :
      {i : Json} {m : String} {ids : List Json} {rs : List (Answer Json)} {ds : List (Json × Json)}
      {es : List (Json × String)}
      → Outcomes ids rs ds es
      → Outcomes (i ∷ ids) (raised (thruk_error m) ∷ rs) ds ((i, m) ∷ es)

-- Behind the requests `before` one deletion of each target went out and nothing else, and the two lists
-- have what the client answered to each.
abbrev pub AreDeleted :
    Client → Backends → List ClientCall → List Job → Deletions → List ClientCall → Type 0
AreDeleted client be before jobs d calls =
    Outcomes (map (λ j. j.1) jobs) (send_each client (map (deletion_of be) jobs) before) d.deleted
      d.errors
    × (calls ≡ before ++ map (deletion_of be) jobs)

add_deleted-eq-returned :
    (i r : Json) (x : Answer Deletions) (d : Deletions)
    → add_deleted i r x ≡ returned d
    → (e : Deletions) × (x ≡ returned e) × ((i, r) ∷ e.deleted ≡ d.deleted) × (e.errors ≡ d.errors)
unfolding add_deleted
add_deleted-eq-returned i r (returned e) d h =
    let same = returned_inj h in
    (e, refl, ap (λ (x : Deletions). x.deleted) same, ap (λ (x : Deletions). x.errors) same)
add_deleted-eq-returned i r (raised e) d h = cc

add_error-eq-returned :
    (i : Json) (m : String) (x : Answer Deletions) (d : Deletions)
    → add_error i m x ≡ returned d
    → (e : Deletions) × (x ≡ returned e) × (e.deleted ≡ d.deleted) × ((i, m) ∷ e.errors ≡ d.errors)
unfolding add_error
add_error-eq-returned i m (returned e) d h =
    let same = returned_inj h in
    (e, refl, ap (λ (x : Deletions). x.deleted) same, ap (λ (x : Deletions). x.errors) same)
add_error-eq-returned i m (raised e) d h = cc

split_results-Outcomes :
    (ids : List Json) (rs : List (Answer Json)) (d : Deletions)
    → length rs ≡ length ids
    → split_results ids rs ≡ returned d
    → Outcomes ids rs d.deleted d.errors
unfolding split_results
split_results-Outcomes [] [] d n h =
    let same = returned_inj h in
    subst₂ (Outcomes [] []) (ap (λ (x : Deletions). x.deleted) same)
      (ap (λ (x : Deletions). x.errors) same) no_more
split_results-Outcomes [] (r ∷ rs) d n h = absurd (omega (arith, n))
split_results-Outcomes (i ∷ ids) [] d n h = absurd (omega (arith, n))
split_results-Outcomes (i ∷ ids) (returned r ∷ rs) d n h =
    let (e, rest, ds, es) = add_deleted-eq-returned i r (split_results ids rs) d h in
    subst₂ (Outcomes (i ∷ ids) (returned r ∷ rs)) ds es
      (was_deleted (split_results-Outcomes ids rs e (omega (arith, n)) rest))
split_results-Outcomes (i ∷ ids) (raised (thruk_error m) ∷ rs) d n h =
    let (e, rest, ds, es) = add_error-eq-returned i m (split_results ids rs) d h in
    subst₂ (Outcomes (i ∷ ids) (raised (thruk_error m) ∷ rs)) ds es
      (went_wrong (split_results-Outcomes ids rs e (omega (arith, n)) rest))
split_results-Outcomes (i ∷ ids) (raised (other_error m) ∷ rs) d n h = cc

delete_jobs-AreDeleted :
    (client : Client) (be : Backends) (jobs : List Job) (before : List ClientCall) (d : Deletions)
    → (delete_jobs client be jobs before).0 ≡ returned d
    → AreDeleted client be before jobs d (delete_jobs client be jobs before).1
unfolding delete_jobs del_call
delete_jobs-AreDeleted client be jobs before d h = (
  split_results-Outcomes (map (λ j. j.1) jobs) (send_each client (job_calls be jobs) before) d
      (length-send_each client (job_calls be jobs) before
        ∙ length-map (λ j. del_call be j.0 j.1) jobs
        ∙ sym (length-map (λ j. j.1) jobs))
      h,
  refl,
)

-- The same, for jobs that are these targets.
pub deleted_targets :
    (client : Client) (be : Backends) (jobs ts : List Job) (before : List ClientCall)
    (d : Deletions)
    → jobs ≡ ts
    → (delete_jobs client be jobs before).0 ≡ returned d
    → AreDeleted client be before ts d (delete_jobs client be jobs before).1
deleted_targets client be jobs ts before d same h =
    subst (λ (l : List Job). AreDeleted client be before l d (delete_jobs client be jobs before).1)
      same (delete_jobs-AreDeleted client be jobs before d h)

put_ids :
    (path : String) (v : Json) (l : List Json)
    → map (λ i. (path, i)) (keep (λ i. not (is_null i)) (v ∷ l))
      ≡ put_target path v (map (λ i. (path, i)) (keep (λ i. not (is_null i)) l))
unfolding keep is_null
put_ids path null l = refl
put_ids path (boolean b) l = refl
put_ids path (number n z) l = refl
put_ids path (string s) l = refl
put_ids path (list vs) l = refl
put_ids path (dict fs) l = refl

-- The ids of rows, all at one endpoint.
pub ids_of-targets :
    (path : String) (l : List Json) → map (λ i. (path, i)) (ids_of l) ≡ targets (λ d. path) l
unfolding ids_of
ids_of-targets path [] = unfold keep in refl
ids_of-targets path (d ∷ l) =
    put_ids path (read "id" d) (map (read "id") l)
    ∙ ap (put_target path (read "id" d)) (ids_of-targets path l)

put_null : (path : String) (v : Json) (l : List Job) → is_null v ≡ true → l ≡ put_target path v l
unfolding is_null
put_null path null l h = refl
put_null path (boolean b) l h = cc
put_null path (number n z) l h = cc
put_null path (string s) l h = cc
put_null path (list vs) l h = cc
put_null path (dict fs) l h = cc

put_some :
    (path : String) (v : Json) (l : List Job)
    → is_null v ≡ false
    → (path, v) ∷ l ≡ put_target path v l
unfolding is_null
put_some path null l h = cc
put_some path (boolean b) l h = refl
put_some path (number n z) l h = refl
put_some path (string s) l h = refl
put_some path (list vs) l h = refl
put_some path (dict fs) l h = refl

-- The rows that have an id, each at its own endpoint.
pub kept-targets :
    (path : Json → String) (l : List Json)
    → map (λ d. (path d, read "id" d)) (keep (λ d. not (is_null (read "id" d))) l) ≡ targets path l
unfolding keep
kept-targets path [] = refl
kept-targets path (d ∷ l) = elim (Bool-cases (is_null (read "id" d))) [
  | inl e ↦ rw e (kept-targets path l ∙ put_null (path d) (read "id" d) (targets path l) e)
  | inr e ↦ rw e (
      ap (λ t. (path d, read "id" d) ∷ t) (kept-targets path l)
      ∙ put_some (path d) (read "id" d) (targets path l) e)
]
