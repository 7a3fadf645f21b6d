-- ===== src/Commands/Scoped.antt =====
-- The end of `thruk_delete_downtimes_by_filter` of src/thruk_mcp/tools/commands.py: what its way by the
-- comment deletes, and which backends it goes to.
use mathlib.Core.Path.{subst, subst⁻¹}
use thruk_mcp.Audit.{Json, truth}
use thruk_mcp.Commands.Calls.{
  Answer, returned, Backends, ClientCall, Client, after, done, after-eq-returned, returned_inj,
}
use thruk_mcp.Commands.Deletions.{Deletions, delete_jobs}
use thruk_mcp.Commands.Filtered.{
  FilterArgs, any_given, FilterResult, substring_matches, text_of, comment_text, is_match,
  is_host_level, host_jobs, service_jobs, needs_peer, peer_call, all_same, sole, peer_rows, peer_of,
  ask_peer, resolve_backends, comment_call, delete_matching, delete_by_host_comment,
  compares_comments, delete_one_way, delete_with, delete_checked, delete_by_filter,
}
use thruk_mcp.Commands.Paths.{host_path, service_path}
use thruk_mcp.Commands.Settled.{
  Picks, keep-Picks, targets, AreDeleted, deleted_targets, ids_of-targets, kept-targets,
}
use thruk_mcp.Commands.Values.{read, rows_from, is_given}
use thruk_mcp.Audit.{str}
use thruk_mcp.Prelude.{
  ◌==◌, eq_iff, Bool-cases, All, ◌⊎◌, inl, inr, map, ℕ, String, ◌≡◌, ◌↔◌, refl, sym, ap, ◌∙◌, Bool,
  true, false, not, none, some, List, [], ◌∷◌, ◌++◌, length, arith,
}
use thruk_mcp.Prelude.Text.{lower, contains}
use thruk_mcp.Sorting.{keep}

-- A downtime that names no service.
abbrev pub IsHostOwn : Json → Type 0
IsHostOwn d = truth (read "service_description" d) ≡ false

abbrev pub NamesService : Json → Type 0
NamesService d = truth (read "service_description" d) ≡ true

pub is_host_level-IsHostOwn : (d : Json) → (is_host_level d ≡ true) ↔ IsHostOwn d
unfolding is_host_level
is_host_level-IsHostOwn d = go (truth (read "service_description" d))
  where
    go : (b : Bool) → (not b ≡ true) ↔ (b ≡ false)
    go true = (λ h. cc, λ h. cc)
    go false = (λ h. refl, λ h. refl)

not_host_level-NamesService : (d : Json) → (not (is_host_level d) ≡ true) ↔ NamesService d
unfolding is_host_level
not_host_level-NamesService d = go (truth (read "service_description" d))
  where
    go : (b : Bool) → (not (not b) ≡ true) ↔ (b ≡ true)
    go true = (λ h. refl, λ h. refl)
    go false = (λ h. cc, λ h. cc)

pub host_jobs-targets :
    (host : String) (l : List Json)
    → host_jobs host l ≡ targets (λ d. host_path host "del_downtime") l
unfolding host_jobs
host_jobs-targets host l = ids_of-targets (host_path host "del_downtime") l

-- The count of the matches, and the lists of the deletions at the host and at services.
abbrev pub Parts : Type 0
Parts = ℕ × Deletions × Deletions

abbrev parts_or : Parts → FilterResult → Parts
parts_or p (substring_matches n h s) = (n, h, s)
parts_or p _ = p

-- The backends for the keys of a host's rows: the one key where all are the same, else no choice.
abbrev pub IsOneKey : List String → Backends → Type 0
IsOneKey [] used = used ≡ none
IsOneKey (k ∷ l) used =
    ((used ≡ some (k ∷ [])) × All (λ j. j ≡ k) l) ⊎ ((used ≡ none) × ¬ All (λ j. j ≡ k) l)

all_same-All :
    (k : String) (l : List String)
    → ((all_same k l ≡ some k) × All (λ j. j ≡ k) l)
      ⊎ ((all_same k l ≡ none) × ¬ All (λ j. j ≡ k) l)
unfolding all_same
all_same-All k [] = inl (refl, tt)
all_same-All k (j ∷ l) = elim (Bool-cases (j == k)) [
  | inl e ↦ elim (all_same-All k l) [
    | inl (found, same) ↦ inl (rw e found, ((eq_iff j k).0 e, same))
    | inr (found, other) ↦ inr (rw e found, λ h. other h.1)
  ]
  | inr e ↦ inr (rw e refl, λ h. let t = (eq_iff j k).1 h.0 in ground (arith, t, e))
]

sole-IsOneKey :
    (ks : List String) → IsOneKey ks (elim (sole ks) [ none ↦ none | some k ↦ some (k ∷ []) ])
unfolding sole
sole-IsOneKey [] = refl
sole-IsOneKey (k ∷ l) = elim (all_same-All k l) [
  | inl (found, same) ↦ inl (rw found refl, same)
  | inr (found, other) ↦ inr (rw found refl, other)
]

module _ (repr : Json → String) (client : Client) (f : FilterArgs) where
  abbrev pub HasKey : Json → Type 0
  HasKey d = truth (read "peer_key" d) ≡ true

  -- What the reply to the query for a host gives: the key of its rows that have one, if it is one.
  abbrev pub IsPeer : Json → Backends → Type 0
  IsPeer raw used =
      (rows : List Json) × Picks HasKey (peer_rows repr raw) rows
      × IsOneKey (map (λ d. str repr (read "peer_key" d)) rows) used

  peer_of-IsPeer : (raw : Json) → IsPeer raw (peer_of repr raw)
  unfolding peer_of
  peer_of-IsPeer raw =
      let rows = keep (λ r. truth (read "peer_key" r)) (peer_rows repr raw) in
      (
        rows,
        keep-Picks HasKey (λ r. truth (read "peer_key" r)) (peer_rows repr raw)
            (λ d. (λ h. h, λ h. h)),
        sole-IsOneKey (map (λ d. str repr (read "peer_key" d)) rows),
      )

  -- The backends that the commands go to, with the requests so far: those chosen, or where none is
  -- chosen the one backend that the rows of the reply to the query for the host name.
  abbrev pub AreResolved : Backends → List ClientCall → Backends → List ClientCall → Type 0
  AreResolved (some l) calls used before = (used ≡ some l) × (before ≡ calls)
  AreResolved none calls used before =
      (raw : Json) × (client calls (peer_call (text_of f.host)) ≡ returned raw)
      × IsPeer raw used
      × (before ≡ calls ++ peer_call (text_of f.host) ∷ [])

  -- A downtime whose comment contains the text, in any case of the letters.
  abbrev pub HasComment : Json → Type 0
  HasComment d = contains (lower (text_of f.comment)) (lower (comment_text repr d)) ≡ true

  abbrev pub at_service : Json → String
  at_service d =
      service_path (text_of f.host) (str repr (read "service_description" d)) "del_downtime"

  abbrev pub at_host : Json → String
  at_host d = host_path (text_of f.host) "del_downtime"

  -- Of the rows `matching`, those of the host itself are deleted at the host, and then those that name a
  -- service at that service.
  abbrev pub AreSplit : Backends → List ClientCall → List Json → Parts → List ClientCall → Type 0
  AreSplit used before matching p calls =
      (own : List Json) × (others : List Json) × (between : List ClientCall) × Picks IsHostOwn
        matching own
      × Picks NamesService matching others
      × AreDeleted client used before (targets at_host own) p.1 between
      × AreDeleted client used between (targets at_service others) p.2 calls
      × (p.0 ≡ length matching)

  delete_matching-AreSplit :
      (be : Backends) (matching : List Json) (before : List ClientCall) (p : Parts)
      → (delete_matching repr client be (text_of f.host) matching before).0
        ≡ returned (substring_matches p.0 p.1 p.2)
      → AreSplit be before matching p
          (delete_matching repr client be (text_of f.host) matching before).1
  unfolding delete_matching service_jobs
  delete_matching-AreSplit be matching before p eq =
      let host = text_of f.host in
      let own = keep is_host_level matching in
      let others = keep (λ d. not (is_host_level d)) matching in
      let x = delete_jobs client be (host_jobs host own) before in
      let at_services : Deletions → List ClientCall → Answer FilterResult × List ClientCall = λ h t.
        after (delete_jobs client be (service_jobs repr host others) t)
          (λ s. done (substring_matches (length matching) h s)) in
      let (h, first, eq', same) =
        after-eq-returned x at_services (substring_matches p.0 p.1 p.2) eq in
      let y = delete_jobs client be (service_jobs repr host others) x.1 in
      let (s, second, made, same') =
        after-eq-returned y (λ s. done (substring_matches (length matching) h s))
          (substring_matches p.0 p.1 p.2) eq' in
      subst
        (λ q. AreSplit be before matching q (delete_matching repr client be host matching before).1)
        (ap (parts_or p) (returned_inj made))
        (
          own,
          others,
          x.1,
          keep-Picks IsHostOwn is_host_level matching is_host_level-IsHostOwn,
          keep-Picks NamesService (λ d. not (is_host_level d)) matching not_host_level-NamesService,
          deleted_targets client be (host_jobs host own) (targets at_host own) before h
              (host_jobs-targets host own) first,
          subst (λ calls. AreDeleted client be x.1 (targets at_service others) s calls)
              (sym (same ∙ same'))
              (deleted_targets client be (service_jobs repr host others) (targets at_service others)
                x.1 s (kept-targets at_service others) second),
          refl,
        )

  -- The matches are the rows with the comment in the reply to the query for the host's downtimes, all of
  -- them, and behind that query they are deleted.
  abbrev pub AreByComment : Backends → List ClientCall → Parts → List ClientCall → Type 0
  AreByComment used before p calls =
      (raw : Json) × (matching : List Json) × (client before (comment_call used f) ≡ returned raw)
      × Picks HasComment (rows_from raw) matching
      × AreSplit used (before ++ comment_call used f ∷ []) matching p calls

  delete_by_host_comment-AreByComment :
      (be : Backends) (before : List ClientCall) (p : Parts)
      → (delete_by_host_comment repr client be f before).0
        ≡ returned (substring_matches p.0 p.1 p.2)
      → AreByComment be before p (delete_by_host_comment repr client be f before).1
  unfolding delete_by_host_comment is_match
  delete_by_host_comment-AreByComment be before p eq =
      let test = is_match repr (text_of f.comment) in
      let t = before ++ comment_call be f ∷ [] in
      let (raw, replied, eq', same) =
        after-eq-returned (client before (comment_call be f), t)
          (λ raw. delete_matching repr client be (text_of f.host) (keep test (rows_from raw)))
          (substring_matches p.0 p.1 p.2) eq in
      (
        raw,
        keep test (rows_from raw),
        replied,
        keep-Picks HasComment test (rows_from raw) (λ d. (λ h. h, λ h. h)),
        subst (AreSplit be t (keep test (rows_from raw)) p) (sym same)
            (delete_matching-AreSplit be (keep test (rows_from raw)) t p eq'),
      )

  chosen_needs_none : (l : List String) → needs_peer f (some l) ≡ true → ⊥
  unfolding needs_peer
  chosen_needs_none l h = ground (arith, h)

  asked-AreResolved :
      (used : Backends) (calls : List ClientCall)
      → (ask_peer repr client true f none calls).0 ≡ returned used
      → AreResolved none calls used (ask_peer repr client true f none calls).1
  unfolding ask_peer
  asked-AreResolved used calls eq =
      let q = peer_call (text_of f.host) in
      let (raw, replied, made, same) =
        after-eq-returned (client calls q, calls ++ q ∷ []) (λ raw. done (peer_of repr raw)) used
          eq in
      (raw, replied, subst (IsPeer raw) (returned_inj made) (peer_of-IsPeer raw), same)

  kept-AreResolved :
      (be used : Backends) (calls : List ClientCall)
      → needs_peer f be ≡ false
      → is_given f.host ≡ true
      → is_given f.hostgroup ≡ false
      → be ≡ used
      → AreResolved be calls used calls
  unfolding needs_peer
  kept-AreResolved (some l) used calls no_need h g e = (sym e, refl)
  kept-AreResolved none used calls no_need h g e = absurd (ground (arith, no_need, h, g))

  -- the peer is asked for where a host is given and no backend
  pub resolve_backends-AreResolved :
      (be used : Backends) (calls : List ClientCall)
      → is_given f.host ≡ true
      → is_given f.hostgroup ≡ false
      → (resolve_backends repr client f be calls).0 ≡ returned used
      → AreResolved be calls used (resolve_backends repr client f be calls).1
  unfolding resolve_backends
  resolve_backends-AreResolved be used calls h g = go be (needs_peer f be) refl
    where
      go :
          (be : Backends) (b : Bool)
          → needs_peer f be ≡ b
          → (ask_peer repr client b f be calls).0 ≡ returned used
          → AreResolved be calls used (ask_peer repr client b f be calls).1
      go none true need eq = asked-AreResolved used calls eq
      go (some l) true need eq = absurd (chosen_needs_none l need)
      go be false need eq =
          unfold ask_peer in kept-AreResolved be used calls need h g (returned_inj eq)

  pub any_by_host : is_given f.host ≡ true → any_given f ≡ true
  unfolding any_given
  any_by_host h = rw (h) refl

  compares :
      is_given f.host ≡ true
      → is_given f.hostgroup ≡ false
      → is_given f.comment ≡ true
      → compares_comments f ≡ true
  unfolding compares_comments
  compares h g c = rw (h, g, c) refl

  with-AreByComment :
      (used : Backends) (before : List ClientCall) (p : Parts)
      → compares_comments f ≡ true
      → (delete_with repr client f used before).0 ≡ returned (substring_matches p.0 p.1 p.2)
      → AreByComment used before p (delete_with repr client f used before).1
  unfolding delete_with delete_one_way
  with-AreByComment used before p compared =
      subst⁻¹
        (λ b.
          (delete_one_way repr client b f used before).0 ≡ returned (substring_matches p.0 p.1 p.2)
          → AreByComment used before p (delete_one_way repr client b f used before).1)
        compared (delete_by_host_comment-AreByComment used before p)

  checked-AreByComment :
      (be : Backends) (calls : List ClientCall) (p : Parts)
      → is_given f.host ≡ true
      → is_given f.hostgroup ≡ false
      → is_given f.comment ≡ true
      → (delete_checked repr client true f be calls).0 ≡ returned (substring_matches p.0 p.1 p.2)
      → (used : Backends) × (before : List ClientCall) × AreResolved be calls used before
        × AreByComment used before p (delete_checked repr client true f be calls).1
  unfolding delete_checked
  checked-AreByComment be calls p h g c eq =
      let x = resolve_backends repr client f be calls in
      let (used, resolved, eq', same) =
        after-eq-returned x (delete_with repr client f) (substring_matches p.0 p.1 p.2) eq in
      (
        used,
        x.1,
        resolve_backends-AreResolved be used calls h g resolved,
        subst (AreByComment used x.1 p) (sym same)
            (with-AreByComment used x.1 p (compares h g c) eq'),
      )

  -- With a host and a comment and without a hostgroup, when the deletion comes to its lists, it went to
  -- the backends chosen, or where none is chosen to the one that the rows of the reply to a query for
  -- the host name, and to all where they name none or several. Its matches are the rows of the reply to the query for the host's downtimes whose comment
  -- contains the text, in any case of the letters, all of them and no others, and `matched` counts
  -- them. Each with an id got one deletion, at the host for a downtime of its own, and then at the service
  -- that it names for any other, and nothing else was sent; an id is in the list of the deleted of
  -- its kind with the answer that it got, or in that of the errors with its ThrukError.
  pub delete_by_filter-AreByComment :
      (be : Backends) (calls : List ClientCall) (p : Parts)
      → is_given f.host ≡ true
      → is_given f.hostgroup ≡ false
      → is_given f.comment ≡ true
      → (delete_by_filter repr client f be calls).0 ≡ returned (substring_matches p.0 p.1 p.2)
      → (used : Backends) × (before : List ClientCall) × AreResolved be calls used before
        × AreByComment used before p (delete_by_filter repr client f be calls).1
  unfolding delete_by_filter
  delete_by_filter-AreByComment be calls p host_given no_hostgroup comment_given =
      subst⁻¹
        (λ b.
          (delete_checked repr client b f be calls).0 ≡ returned (substring_matches p.0 p.1 p.2)
          → (used : Backends) × (before : List ClientCall) × AreResolved be calls used before
            × AreByComment used before p (delete_checked repr client b f be calls).1)
        (any_by_host host_given)
        (checked-AreByComment be calls p host_given no_hostgroup comment_given)
