-- ===== src/History/Changes.antt =====
-- Which change `_diff_states` of src/thruk_mcp/tools/history.py reports of an object.
use mathlib.Core.List.{lookup}
use mathlib.Core.Option
use text.Mathlib.Text.{◌==◌}
use thruk_mcp.History.Diff.{
  Change, state_differs, flag_differs, move_category, moved, change_of, cons_some, changes_at,
  key_union, diff_states,
}
use thruk_mcp.History.Snapshot.{label_of, is_problem}
use thruk_mcp.History.{Known, blank, Key, States, known, or_none}
use thruk_mcp.OrderedDict
use thruk_mcp.OrderedDict.{OrderedDict, keys}
use thruk_mcp.Ordering.{pair_leb, sort_by, member, member-append, member-keep, member-sort_by}
use thruk_mcp.Prelude.{
  String, ◌≡◌, refl, sym, ap, ◌∙◌, Bool, true, false, not, ◌||◌, Option, none, some, List, [], ◌∷◌,
  arith, if◌then◌else◌, Bool-cases, inl, inr,
}
use thruk_mcp.Prelude.Int.{ℤ}
use thruk_mcp.Sorting.{keep}

-- the key of the object that a change is about
abbrev pub about : Change → Key
about c = (c.host, elim c.service [ none ↦ "" | some svc ↦ svc ])

service_back : (svc : String) → elim (or_none svc) [ none ↦ "" | some s ↦ s ] ≡ svc
service_back String.[] = refl
service_back (String.◌∷◌ c s) = refl

some_of_moved : {A : Type 0} (b : Bool) {x y : A} → moved b x ≡ some y → x ≡ y
some_of_moved b h = ground (arith, h)

pub about-change_of :
    (key : Key) (b a : Known) (c : Change) → change_of key b a ≡ some c → about c ≡ key
unfolding change_of
about-change_of (host, svc) b a c h =
    sym (ap about (some_of_moved _ h)) ∙ ap (λ s. (host, s)) (service_back svc)

get_absent :
    {K V : Type 0} (dec : Discrete K) (k : K) (d : OrderedDict K V)
    → member dec k (keys d) ≡ false
    → OrderedDict.get dec k d ≡ none
unfolding member lookup
get_absent dec k [] h = refl
get_absent dec k ((j, v) ∷ d) h = ground (arith, get_absent dec k d, h)

state_differs-same : (s : Option ℤ) → state_differs s s ≡ false
unfolding state_differs
state_differs-same none = refl
state_differs-same (some s) = ground arith

flag_differs-same : (b : Bool) → flag_differs b b ≡ false
unfolding flag_differs
flag_differs-same b = ground arith

pub change_of-same : (key : Key) (k : Known) → change_of key k k ≡ none
unfolding change_of
change_of-same (host, svc) k =
    rw
      (
        state_differs-same k.state,
        flag_differs-same k.in_downtime,
        flag_differs-same k.acknowledged,
      )
      refl

state_differs_comm : (s t : Option ℤ) → state_differs s t ≡ state_differs t s
unfolding state_differs
state_differs_comm none none = refl
state_differs_comm none (some _) = refl
state_differs_comm (some _) none = refl
state_differs_comm (some s) (some t) = ground arith

flag_differs_comm : (b a : Bool) → flag_differs b a ≡ flag_differs a b
unfolding flag_differs
flag_differs_comm b a = ground arith

abbrev pub swap {ℓ} : {A : Type ℓ} → A × A → A × A
swap (x, y) = (y, x)

unfoldable pub reverse_category : String → String
reverse_category c =
    if c == "new_problem" then "recovered" else if c == "recovered" then "new_problem" else c

-- a change read backwards
unfoldable pub reversed : Change → Change
unfolding reverse_category
reversed c = record {
  host = c.host;
  service = c.service;
  category = reverse_category c.category;
  states = Option.map swap c.states;
  in_downtime = Option.map swap c.in_downtime;
  acknowledged = Option.map swap c.acknowledged;
}

move_category-reverse :
    (s d was is : Bool) → move_category s d is was ≡ reverse_category (move_category s d was is)
unfolding move_category reverse_category
move_category-reverse true d true true = refl
move_category-reverse true d true false = refl
move_category-reverse true d false true = refl
move_category-reverse true d false false = refl
move_category-reverse false true was is = refl
move_category-reverse false false was is = refl

moved-swap : {A : Type 0} (s : Bool) (x y : A) → moved s (y, x) ≡ Option.map swap (moved s (x, y))
moved-swap true x y = refl
moved-swap false x y = refl

map-moved : {A B : Type 0} (f : A → B) (s : Bool) (x : A) → Option.map f (moved s x) ≡ moved s (f x)
map-moved f true x = refl
map-moved f false x = refl

-- Read backwards, each change is the change between the states in the other order.
change_of-reversed :
    (key : Key) (b a : Known) → change_of key a b ≡ Option.map reversed (change_of key b a)
unfolding change_of reversed
change_of-reversed (host, svc) b a =
    rw
      (
        state_differs_comm a.state b.state,
        flag_differs_comm a.in_downtime b.in_downtime,
        flag_differs_comm a.acknowledged b.acknowledged,
        map-moved reversed,
        move_category-reverse (state_differs b.state a.state)
            (flag_differs b.in_downtime a.in_downtime) (is_problem b) (is_problem a),
        moved-swap (state_differs b.state a.state) (label_of (host, svc) b)
            (label_of (host, svc) a),
        moved-swap (flag_differs b.in_downtime a.in_downtime) b.in_downtime a.in_downtime,
        moved-swap (flag_differs b.acknowledged a.acknowledged) b.acknowledged a.acknowledged,
      )
      refl

first_own :
    {A : Type 0} (o r : Option A) (b : Bool)
    → r ≡ (if b then o else none)
    → elim o [ none ↦ r | some c ↦ some c ] ≡ o
first_own none r true h = h
first_own none r false h = h
first_own (some c) r b h = refl

module _ (dec : Discrete Key) where
  unfoldable pub find_change : Key → List Change → Option Change
  find_change key [] = none
  find_change key (c ∷ l) = elim (dec key (about c)) [ yes _ ↦ some c | no _ ↦ find_change key l ]

  find_change-about :
      (key k : Key) (c : Change) (l : List Change)
      → about c ≡ k
      → find_change key (c ∷ l) ≡ elim (dec key k) [ yes _ ↦ some c | no _ ↦ find_change key l ]
  unfolding find_change
  find_change-about key k c l h =
      ap (λ j. elim (dec key j) [ yes _ ↦ some c | no _ ↦ find_change key l ]) h

  find_change-cons_some :
      (key : Key) (k : Key) (b a : Known) (l : List Change)
      → find_change key (cons_some (change_of k b a) l) ≡ elim (dec key k) [
        | yes _ ↦ elim (change_of k b a) [ none ↦ find_change key l | some c ↦ some c ]
        | no _ ↦ find_change key l
      ]
  find_change-cons_some key k b a l = go (change_of k b a) (about-change_of k b a)
    where
      go :
          (o : Option Change)
          → ((c : Change) → o ≡ some c → about c ≡ k)
          → find_change key (cons_some o l) ≡ elim (dec key k) [
            | yes _ ↦ elim o [ none ↦ find_change key l | some c ↦ some c ]
            | no _ ↦ find_change key l
          ]
      go none h = ground arith
      go (some c) h = find_change-about key k c l (h c refl)

  find_change-changes_at :
      (key : Key) (before after : States) (l : List Key)
      → find_change key (changes_at dec before after l) ≡ (
          if member dec key l
          then change_of key (known dec key before) (known dec key after)
          else none)
  unfolding find_change changes_at member
  find_change-changes_at key before after [] = refl
  find_change-changes_at key before after (k ∷ l) =
      find_change-cons_some key k (known dec k before) (known dec k after)
        (changes_at dec before after l)
      ∙ elim (dec key k)
          as (λ r.
            elim r [
              | yes _ ↦ elim (change_of k (known dec k before) (known dec k after)) [
                | none ↦ find_change key (changes_at dec before after l)
                | some c ↦ some c
              ]
              | no _ ↦ find_change key (changes_at dec before after l)
            ]
            ≡ (if elim r [ yes _ ↦ true | no _ ↦ member dec key l ]
                then change_of key (known dec key before) (known dec key after)
                else none)) [
                  | yes same ↦
                      ap
                        (λ j. elim (change_of j (known dec j before) (known dec j after)) [
                          | none ↦ find_change key (changes_at dec before after l)
                          | some c ↦ some c
                        ])
                        (sym same)
                      ∙ first_own (change_of key (known dec key before) (known dec key after))
                          (find_change key (changes_at dec before after l)) (member dec key l)
                          (find_change-changes_at key before after l)
                  | no other ↦ find_change-changes_at key before after l
                ]

  known-absent :
      (key : Key) (d : States) → member dec key (keys d) ≡ false → known dec key d ≡ blank
  known-absent key d h = ap (λ o. elim o [ none ↦ blank | some k ↦ k ]) (get_absent dec key d h)

  member-key_union :
      (key : Key) (before after : States)
      → member dec key (key_union dec before after)
        ≡ (member dec key (keys before) || member dec key (keys after))
  member-key_union key before after = ground (
    arith,
    member-append dec key (keys before) (keep (λ k. not (member dec k (keys before))) (keys after)),
    member-keep dec (λ k. not (member dec k (keys before))) key (keys after),
  )

  -- The difference of two states reports of any object what its own two records differ in, and nothing
  -- where they do not, also where one of the states does not know it.
  pub diff_states-change_of :
      (before after : States) (key : Key)
      → find_change key (diff_states dec before after).0
        ≡ change_of key (known dec key before) (known dec key after)
  unfolding diff_states
  diff_states-change_of before after key =
      find_change-changes_at key before after (sort_by pair_leb (key_union dec before after))
      ∙ rw
          (
            member-sort_by dec pair_leb key (key_union dec before after),
            member-key_union key before after,
          )
          (elim (Bool-cases (member dec key (keys before) || member dec key (keys after))) [
            | inl x ↦ rw (x) refl
            | inr x ↦
                rw
                  (
                    x,
                    known-absent key before (ground (arith, x)),
                    known-absent key after (ground (arith, x)),
                  )
                  (sym (change_of-same key blank))
          ])

  -- Taken in the other order, the difference reports of each object the same change read backwards.
  pub diff_states-reversed :
      (before after : States) (key : Key)
      → find_change key (diff_states dec after before).0
        ≡ Option.map reversed (find_change key (diff_states dec before after).0)
  diff_states-reversed before after key =
      diff_states-change_of after before key
      ∙ change_of-reversed key (known dec key before) (known dec key after)
      ∙ ap (Option.map reversed) (sym (diff_states-change_of before after key))

  changes_at-same : (d : States) (l : List Key) → changes_at dec d d l ≡ []
  unfolding changes_at
  changes_at-same d [] = refl
  changes_at-same d (k ∷ l) = rw (change_of-same k (known dec k d)) (changes_at-same d l)

  -- A state does not differ from itself.
  diff_states-same : (d : States) → (diff_states dec d d).0 ≡ []
  unfolding diff_states
  diff_states-same d = changes_at-same d (sort_by pair_leb (key_union dec d d))
