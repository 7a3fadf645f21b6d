-- ===== src/History/Reported.antt =====
-- What the difference of two states, `_diff_states` of src/thruk_mcp/tools/history.py, says of an object.
use mathlib.Core.Path.{subst}
use thruk_mcp.History.Changes.{about, find_change, about-change_of, diff_states-change_of}
use thruk_mcp.History.Diff.{
  Change, state_differs, flag_differs, move_category, moved, change_of, diff_states,
}
use thruk_mcp.History.Snapshot.{label_of, is_problem}
use thruk_mcp.History.{Known, Key, States, known}
use thruk_mcp.Prelude.{
  String, ◌≡◌, ◌≢◌, refl, sym, Bool, true, false, ◌||◌, Option, none, some, arith, ◌⊎◌, inl, inr,
}
use thruk_mcp.Prelude.Int.{ℤ, ℤ_discrete}

-- A column of a change is there exactly when its two values differ, and has what it should.
abbrev pub Moves : {A B : Type 0} → A → A → B → Option B → Type 0
Moves x y v o = ((x ≡ y) × (o ≡ none)) ⊎ ((x ≢ y) × (o ≡ some v))

-- The category: of the state, where it moved, by whether there was and is a problem; else of the
-- downtime, where that moved; else of the acknowledgement.
abbrev pub HasCategory : Known → Known → String → Type 0
HasCategory b a s =
    ((b.state ≢ a.state)
      × (((is_problem b ≡ false) × (is_problem a ≡ true) × (s ≡ "new_problem"))
          ⊎ (((is_problem b ≡ true) × (is_problem a ≡ false) × (s ≡ "recovered"))
              ⊎ ((is_problem b ≡ is_problem a) × (s ≡ "state_changed")))))
    ⊎ (((b.state ≡ a.state) × (b.in_downtime ≢ a.in_downtime) × (s ≡ "downtime_changed"))
        ⊎ ((b.state ≡ a.state)
            × (b.in_downtime ≡ a.in_downtime)
            × (b.acknowledged ≢ a.acknowledged)
            × (s ≡ "ack_changed")))

-- Nothing is reported exactly when state, downtime and acknowledgement are as they were; a change
-- has each that moved, with its two values, and none that did not.
abbrev pub Tells : Key → Known → Known → Option Change → Type 0
Tells key b a none =
    (b.state ≡ a.state) × (b.in_downtime ≡ a.in_downtime) × (b.acknowledged ≡ a.acknowledged)
Tells key b a (some c) =
    (about c ≡ key)
    × Moves b.state a.state (label_of key b, label_of key a) c.states
    × Moves b.in_downtime a.in_downtime (b.in_downtime, a.in_downtime) c.in_downtime
    × Moves b.acknowledged a.acknowledged (b.acknowledged, a.acknowledged) c.acknowledged
    × HasCategory b a c.category

-- a test says whether two values differ
Decides : {A : Type 0} → A → A → Bool → Type 0
Decides x y d = ((d ≡ false) × (x ≡ y)) ⊎ ((d ≡ true) × (x ≢ y))

state_differs-Decides : (s t : Option ℤ) → Decides s t (state_differs s t)
unfolding state_differs Decides
state_differs-Decides none none = inl (refl, refl)
state_differs-Decides none (some t) = inr (refl, λ e. cc)
state_differs-Decides (some s) none = inr (refl, λ e. cc)
state_differs-Decides (some s) (some t) =
    elim (ℤ_discrete s t)
      as (λ r. Decides (some s) (some t) (elim r [ yes _ ↦ false | no _ ↦ true ])) [
        | yes e ↦ inl (refl, cc)
        | no ne ↦ inr (refl, λ e. ne (cc))
      ]

flag_differs-Decides : (b a : Bool) → Decides b a (flag_differs b a)
unfolding flag_differs Decides
flag_differs-Decides true true = inl (refl, refl)
flag_differs-Decides true false = inr (refl, λ e. cc)
flag_differs-Decides false true = inr (refl, λ e. cc)
flag_differs-Decides false false = inl (refl, refl)

moved-Moves : {A B : Type 0} (x y : A) (v : B) (d : Bool) → Decides x y d → Moves x y v (moved d v)
unfolding Decides
moved-Moves x y v d (inl (e, same)) = inl (same, rw e refl)
moved-Moves x y v d (inr (e, other)) = inr (other, rw e refl)

is_same : {A : Type 0} (x y : A) (d : Bool) → Decides x y d → d ≡ false → x ≡ y
unfolding Decides
is_same x y d (inl (e, same)) h = same
is_same x y d (inr (e, other)) h = absurd (ground (arith, e, h))

all_still :
    {A : Type 0} (s d k : Bool) (c : A)
    → moved (s || d || k) c ≡ none
    → (s ≡ false) × (d ≡ false) × (k ≡ false)
all_still s d k c h = ground (arith, h)

has_moved :
    {A : Type 0} (s d k : Bool) (c e : A)
    → moved (s || d || k) c ≡ some e
    → (c ≡ e) × ((s || d || k) ≡ true)
has_moved s d k c e h = (ground (arith, h), ground (arith, h))

module _ (b a : Known) (s d k : Bool) (of_state : Decides b.state a.state s)
    (of_downtime : Decides b.in_downtime a.in_downtime d)
    (of_ack : Decides b.acknowledged a.acknowledged k) where
  state_category :
      (was is : Bool)
      → is_problem b ≡ was
      → is_problem a ≡ is
      → b.state ≢ a.state
      → HasCategory b a (move_category true d was is)
  unfolding move_category
  state_category true true w i ne = inl (ne, inr (inr (cc, refl)))
  state_category true false w i ne = inl (ne, inr (inl (w, i, refl)))
  state_category false true w i ne = inl (ne, inl (w, i, refl))
  state_category false false w i ne = inl (ne, inr (inr (cc, refl)))

  category :
      (s || d || k) ≡ true → HasCategory b a (move_category s d (is_problem b) (is_problem a))
  unfolding move_category Decides
  category any = elim of_state [
    | inr (e, ne) ↦ rw e (state_category (is_problem b) (is_problem a) refl refl ne)
    | inl (e, same) ↦ elim of_downtime [
      | inr (e', ne) ↦ inr (inl (same, ne, rw (e, e') refl))
      | inl (e', same') ↦ elim of_ack [
        | inr (e'', ne) ↦ inr (inr (same, same', ne, rw (e, e') refl))
        | inl (e'', same'') ↦ absurd (ground (arith, any, e, e', e''))
      ]
    ]
  ]

change_of-Tells :
    (key : Key) (b a : Known) (o : Option Change) → change_of key b a ≡ o → Tells key b a o
unfolding change_of
change_of-Tells (host, svc) b a none h =
    let n =
      all_still (state_differs b.state a.state) (flag_differs b.in_downtime a.in_downtime)
        (flag_differs b.acknowledged a.acknowledged) _ h in
    (
      is_same b.state a.state (state_differs b.state a.state)
          (state_differs-Decides b.state a.state) n.0,
      is_same b.in_downtime a.in_downtime (flag_differs b.in_downtime a.in_downtime)
          (flag_differs-Decides b.in_downtime a.in_downtime) n.1,
      is_same b.acknowledged a.acknowledged (flag_differs b.acknowledged a.acknowledged)
          (flag_differs-Decides b.acknowledged a.acknowledged) n.2,
    )
change_of-Tells (host, svc) b a (some c) h =
    let s = state_differs b.state a.state in
    let d = flag_differs b.in_downtime a.in_downtime in
    let k = flag_differs b.acknowledged a.acknowledged in
    let of_state = state_differs-Decides b.state a.state in
    let of_downtime = flag_differs-Decides b.in_downtime a.in_downtime in
    let of_ack = flag_differs-Decides b.acknowledged a.acknowledged in
    let (same, any) = has_moved s d k _ c h in
    (
      about-change_of (host, svc) b a c h,
      subst
          (λ (x : Change).
            Moves b.state a.state (label_of (host, svc) b, label_of (host, svc) a) x.states)
          same (moved-Moves b.state a.state _ s of_state),
      subst
          (λ (x : Change).
            Moves b.in_downtime a.in_downtime (b.in_downtime, a.in_downtime) x.in_downtime)
          same (moved-Moves b.in_downtime a.in_downtime _ d of_downtime),
      subst
          (λ (x : Change).
            Moves b.acknowledged a.acknowledged (b.acknowledged, a.acknowledged) x.acknowledged)
          same (moved-Moves b.acknowledged a.acknowledged _ k of_ack),
      subst (λ (x : Change). HasCategory b a x.category) same
          (category b a s d k of_state of_downtime of_ack any),
    )

module _ (dec : Discrete Key) where
  -- Of any object, also one that a state does not know, the difference of two states reports nothing
  -- exactly when its state, its downtime and its acknowledgement are the same in both; else it reports
  -- a change of that object with both values of each that differs, and of no other, in the category
  -- of the state where that differs, else of the downtime, else of the acknowledgement.
  pub diff_states-Tells :
      (before after : States) (key : Key)
      → Tells key
          (known dec key before)
          (known dec key after)
          (find_change dec key (diff_states dec before after).0)
  diff_states-Tells before after key =
      change_of-Tells key (known dec key before) (known dec key after)
        (find_change dec key (diff_states dec before after).0)
        (sym (diff_states-change_of dec before after key))
