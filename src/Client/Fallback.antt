-- ===== src/Client/Fallback.antt =====
-- `get_with_fallback` of src/thruk_mcp/client.py: one request for all backends, and one for each
-- when that fails. The requests that `gather` runs at once are taken in its order, that of the ids.
use thruk_mcp.Prelude.{
  ℕ, String, ◌≡◌, refl, sym, ap, ◌∙◌, Bool, true, false, arith, Option, none, some, List, [], ◌∷◌,
  ◌++◌, length, if◌then◌else◌, append_assoc, append-nil,
}

-- What a request gives: a list, another payload, None, or a ThrukError.
pub data Answer (R E : Type 0) : Type 0 where
  rows : List R → Answer R E
  single : R → Answer R E
  nothing : Answer R E
  failed : E → Answer R E

-- A row of /sites: its id, where it has one, and whether its `connected` is 1.
pub record Site : Type 0 where
  pub id : Option String
  pub connected : Bool

-- The errors that leave the function; a connected site without an id raises a KeyError.
pub data Failure (E : Type 0) : Type 0 where
  initial sites_failed : E → Failure E
  unexpected_sites : Failure E
  all_disconnected : ℕ → Failure E
  key_error : Failure E

-- the data of one request, or the rows and the warnings of the fallback
pub data Outcome (R E : Type 0) : Type 0 where
  whole : Answer R E → Outcome R E
  pieces : List R → List (String × E) → Outcome R E
  raised : Failure E → Outcome R E

-- the ids of the connected sites; none is the KeyError
unfoldable pub connected_ids : List Site → Option (List String)
connected_ids [] = some []
connected_ids (s ∷ sites) =
    let rest = connected_ids sites in
    if s.connected
    then elim s.id [ none ↦ none | some i ↦ elim rest [ none ↦ none | some ids ↦ some (i ∷ ids) ] ]
    else rest

-- The ids of the connected sites, in their order.
pub data AreConnected : List Site → List String → Type 0 where
  no_site : AreConnected [] []
  online :
      {s : Site} {i : String} {sites : List Site} {ids : List String}
      → s.connected ≡ true
      → s.id ≡ some i
      → AreConnected sites ids
      → AreConnected (s ∷ sites) (i ∷ ids)
  offline :
      {s : Site} {sites : List Site} {ids : List String}
      → s.connected ≡ false
      → AreConnected sites ids
      → AreConnected (s ∷ sites) ids

connected_ids-eq :
    (sites : List Site) (ids : List String)
    → AreConnected sites ids
    → connected_ids sites ≡ some ids
unfolding connected_ids
connected_ids-eq [] [] no_site = refl
connected_ids-eq [] (i ∷ ids) h = elim h [ ]
connected_ids-eq (s ∷ sites) (i ∷ ids) (online c e rest) =
    ground (arith, c, e, connected_ids-eq sites ids rest)
connected_ids-eq (s ∷ sites) ids (offline c rest) =
    ground (arith, c, connected_ids-eq sites ids rest)

-- the body of the loop over the ids and their results
unfoldable pub absorb :
    {R E : Type 0} → String → Answer R E → List R → List (String × E) → List R × List (String × E)
absorb bid (failed e) aggregated warnings = (aggregated, warnings ++ (bid, e) ∷ [])
absorb bid (rows l) aggregated warnings = (aggregated ++ l, warnings)
absorb bid (single r) aggregated warnings = (aggregated ++ r ∷ [], warnings)
absorb bid nothing aggregated warnings = (aggregated, warnings)

-- What one backend contributes.
abbrev pub contributed : {R E : Type 0} → Answer R E → List R
contributed (rows l) = l
contributed (single r) = r ∷ []
contributed _ = []

abbrev pub warnings_of : {R E : Type 0} → String → Answer R E → List (String × E)
warnings_of bid (failed e) = (bid, e) ∷ []
warnings_of bid _ = []

absorb_lem :
    {R E : Type 0} (bid : String) (a : Answer R E) (l : List R) (w : List (String × E))
    → absorb bid a l w ≡ (l ++ contributed a, w ++ warnings_of bid a)
unfolding absorb
absorb_lem bid (failed e) l w = λ i. (sym (append-nil l) i, w ++ (bid, e) ∷ [])
absorb_lem bid (rows m) l w = λ i. (l ++ m, sym (append-nil w) i)
absorb_lem bid (single r) l w = λ i. (l ++ r ∷ [], sym (append-nil w) i)
absorb_lem bid nothing l w = λ i. (sym (append-nil l) i, sym (append-nil w) i)

module _ {R E : Type 0} (ask : Option (List String) → Answer R E) where
  unfoldable pub aggregate : List String → List R → List (String × E) → Outcome R E
  unfolding absorb
  aggregate [] aggregated warnings = pieces aggregated warnings
  aggregate (bid ∷ ids) aggregated warnings =
      let (l, w) = absorb bid (ask (some (bid ∷ []))) aggregated warnings in aggregate ids l w

  -- the part after a failed request for all backends
  unfoldable pub fall_back : Answer Site E → Outcome R E
  unfolding connected_ids aggregate
  fall_back (failed e) = raised (sites_failed e)
  fall_back (rows sites) = elim (connected_ids sites) [
    | none ↦ raised key_error
    | some [] ↦ raised (all_disconnected (length sites))
    | some (bid ∷ ids) ↦ aggregate (bid ∷ ids) [] []
  ]
  fall_back _ = raised unexpected_sites

  -- `get_with_fallback`
  unfoldable pub get_with_fallback : Answer Site E → Option (List String) → Outcome R E
  unfolding fall_back
  get_with_fallback sites backends = elim (ask backends) [
    | failed e ↦ elim backends [ none ↦ fall_back sites | some _ ↦ raised (initial e) ]
    | rows l ↦ whole (rows l)
    | single r ↦ whole (single r)
    | nothing ↦ whole nothing
  ]

  abbrev pub all_rows : List String → List R
  all_rows [] = []
  all_rows (bid ∷ ids) = contributed (ask (some (bid ∷ []))) ++ all_rows ids

  abbrev pub all_warnings : List String → List (String × E)
  all_warnings [] = []
  all_warnings (bid ∷ ids) = warnings_of bid (ask (some (bid ∷ []))) ++ all_warnings ids

  aggregate-pieces :
      (ids : List String) (l : List R) (w : List (String × E))
      → aggregate ids l w ≡ pieces (l ++ all_rows ids) (w ++ all_warnings ids)
  unfolding aggregate
  aggregate-pieces [] l w = λ i. pieces (sym (append-nil l) i) (sym (append-nil w) i)
  aggregate-pieces (bid ∷ ids) l w =
      let a = ask (some (bid ∷ [])) in
      ap (λ (q : List R × List (String × E)). aggregate ids q.0 q.1) (absorb_lem bid a l w)
      ∙ aggregate-pieces ids (l ++ contributed a) (w ++ warnings_of bid a)
      ∙ λ i.
          pieces (append_assoc l (contributed a) (all_rows ids) i)
            (append_assoc w (warnings_of bid a) (all_warnings ids) i)

  -- the outcome of one request with nothing to fall back on
  abbrev pub direct : Answer R E → Outcome R E
  direct (failed e) = raised (initial e)
  direct (rows l) = whole (rows l)
  direct (single r) = whole (single r)
  direct nothing = whole nothing

  direct_chosen :
      (sites : Answer Site E) (chosen : List String)
      → get_with_fallback sites (some chosen) ≡ direct (ask (some chosen))
  unfolding get_with_fallback
  direct_chosen sites chosen =
      elim (ask (some chosen))
        as (λ a.
          elim a [
            | failed e ↦ raised (initial e)
            | rows l ↦ whole (rows l)
            | single r ↦ whole (single r)
            | nothing ↦ whole nothing
          ]
          ≡ direct a) [ failed e ↦ refl | rows l ↦ refl | single r ↦ refl | nothing ↦ refl ]

  -- When the request for all backends fails and some sites are connected, which all have an id, the result is no error: it
  -- has, in the order of the sites, the rows of every connected backend that answered, and a warning
  -- with the error of every one that did not. With backends chosen, the result is the data of the one request for them, or its error.
  pub get_with_fallback-pieces :
      (sites : List Site) (chosen : List String) (e : E) (bid : String) (ids : List String)
      → ask none ≡ failed e
      → AreConnected sites (bid ∷ ids)
      → (get_with_fallback (rows sites) none
          ≡ pieces (all_rows (bid ∷ ids)) (all_warnings (bid ∷ ids)))
        × (get_with_fallback (rows sites) (some chosen) ≡ direct (ask (some chosen)))
  unfolding get_with_fallback fall_back
  get_with_fallback-pieces sites chosen e bid ids down found = (
    rw (down, get_with_fallback)
        (rw (connected_ids-eq sites (bid ∷ ids) found, fall_back)
          (aggregate-pieces (bid ∷ ids) [] [])),
    direct_chosen (rows sites) chosen,
  )
