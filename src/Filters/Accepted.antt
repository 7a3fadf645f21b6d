-- ===== src/Filters/Accepted.antt =====
-- What `validate_filter` of src/thruk_mcp/filters.py accepts has a tree, whose leaves fit.
use mathlib.Core.Path.{subst}
use thruk_mcp.Audit.{Json, null, boolean, number, string, list, dict, nil, cons, Fields, get_field}
use thruk_mcp.Filters.Leaves.{Field, Op, eq, neq, regex, op_in, gte, lte, is_custom, is_group}
use thruk_mcp.Filters.Read.{
  scalar_of, scalars_of, plain_of, text_of, custom_with, custom_of, value_of, require-holds,
  scalar_of-accepts, scalars_of-accepts,
}
use thruk_mcp.Filters.Sound.{left, right}
use thruk_mcp.Filters.Typed.{fits, fits_column, fits_custom}
use thruk_mcp.Filters.Validate.{
  Checked, accepted, ◌>>=◌, require, bad_element, bad_pattern, not_scalar, bad_var, is_group_op,
  is_scalar, all_scalars, check_list, check_var, check_custom, check_pattern, check_op, check_field,
}
use thruk_mcp.Filters.Values.{Scalar, text, Value, scalar, items, custom}
use thruk_mcp.Prelude.{
  String, ◌≡◌, ◌≢◌, refl, ap, Bool, true, false, not, Option, none, some, ◌∷◌, inl, inr, Bool-cases,
  if◌then◌else◌,
}
use thruk_mcp.Prelude.Text.{is_empty}

module _ (compiles : String → Bool) (repr : Json → String) where
  -- The value that is read fits its operator.
  abbrev IsRead : Checked Value → (Value → Bool) → Type 0
  IsRead r test = (v : Value) × (r ≡ accepted v) × (test v ≡ true)

  list-IsRead :
      (v : Json) → check_list v ≡ accepted tt → IsRead (plain_of v) (fits_column compiles op_in)
  unfolding check_list plain_of fits_column scalars_of all_scalars
  list-IsRead null h = cc
  list-IsRead (boolean b) h = cc
  list-IsRead (number n z) h = cc
  list-IsRead (string s) h = cc
  list-IsRead (list nil) h = cc
  list-IsRead (list (cons v l)) h =
      let all = require-holds (all_scalars (cons v l)) bad_element h in
      let first = scalar_of-accepts v (left (is_scalar v) (all_scalars l) all) in
      let rest = scalars_of-accepts l (right (is_scalar v) (all_scalars l) all) in
      (items (first.0 ∷ rest.0), rw (first.1, rest.1) refl, refl)
  list-IsRead (dict fs) h = cc

  pattern-IsRead :
      (v : Json)
      → check_pattern compiles v ≡ accepted tt
      → IsRead (plain_of v) (fits_column compiles regex)
  unfolding check_pattern plain_of scalar_of fits_column
  pattern-IsRead null h = cc
  pattern-IsRead (boolean b) h = cc
  pattern-IsRead (number n z) h = cc
  pattern-IsRead (string s) h = (scalar (text s), refl, require-holds (compiles s) bad_pattern h)
  pattern-IsRead (list l) h = cc
  pattern-IsRead (dict fs) h = cc

  scalar-IsRead :
      (v : Json) → is_scalar v ≡ true → (s : Scalar) × (plain_of v ≡ accepted (scalar s))
  unfolding plain_of is_scalar
  scalar-IsRead null h = cc
  scalar-IsRead (boolean b) h =
      let r = scalar_of-accepts (boolean b) h in
      (r.0, ap (λ x. x >>= (λ y. accepted (scalar y))) r.1)
  scalar-IsRead (number n z) h =
      let r = scalar_of-accepts (number n z) h in
      (r.0, ap (λ x. x >>= (λ y. accepted (scalar y))) r.1)
  scalar-IsRead (string s) h =
      let r = scalar_of-accepts (string s) h in
      (r.0, ap (λ x. x >>= (λ y. accepted (scalar y))) r.1)
  scalar-IsRead (list l) h = cc
  scalar-IsRead (dict fs) h = cc

  var-IsRead :
      (o : Op) (fs : Fields) (v : Option Json)
      → check_var v ≡ accepted tt
      → (val : Value) × (custom_with repr fs v ≡ accepted val)
        × ((var : String) × (val ≡ custom var (text_of repr (get_field "val" fs)))
            × (not (is_empty var) ≡ true))
  unfolding check_var custom_with
  var-IsRead o fs none h = cc
  var-IsRead o fs (some null) h = cc
  var-IsRead o fs (some (boolean b)) h = cc
  var-IsRead o fs (some (number n z)) h = cc
  var-IsRead o fs (some (string s)) h = (
    custom s (text_of repr (get_field "val" fs)),
    refl,
    (s, refl, require-holds (not (is_empty s)) bad_var h),
  )
  var-IsRead o fs (some (list l)) h = cc
  var-IsRead o fs (some (dict f)) h = cc

  fits_custom-var :
      (o : Op) (v : Value) (var : String) (val : Option Scalar)
      → v ≡ custom var val
      → not (is_empty var) ≡ true
      → o ≢ op_in
      → o ≢ regex
      → fits_custom o v ≡ true
  unfolding fits_custom
  fits_custom-var eq v var val e h k m = rw (e) h
  fits_custom-var neq v var val e h k m = rw (e) h
  fits_custom-var gte v var val e h k m = rw (e) h
  fits_custom-var lte v var val e h k m = rw (e) h
  fits_custom-var op_in v var val e h k m = absurd (k refl)
  fits_custom-var regex v var val e h k m = absurd (m refl)

  -- An operator that wants a list or a pattern refuses the dict of a custom variable.
  no_list : (fs : Fields) → check_list (dict fs) ≡ accepted tt → ⊥
  unfolding check_list
  no_list fs h = cc

  no_pattern : (fs : Fields) → check_pattern compiles (dict fs) ≡ accepted tt → ⊥
  unfolding check_pattern
  no_pattern fs h = cc

  custom-IsRead :
      (f : Field) (o : Op) (v : Json)
      → check_op compiles f o v ≡ accepted tt
      → check_custom v ≡ accepted tt
      → IsRead (custom_of repr v) (fits_custom o)
  unfolding check_custom custom_of check_op
  custom-IsRead f o null h k = cc
  custom-IsRead f o (boolean b) h k = cc
  custom-IsRead f o (number n z) h k = cc
  custom-IsRead f o (string s) h k = cc
  custom-IsRead f o (list l) h k = cc
  custom-IsRead f o (dict fs) h k =
      let r = var-IsRead o fs (get_field "var" fs) k in
      (
        r.0,
        r.1,
        fits_custom-var o r.0 r.2.0 (text_of repr (get_field "val" fs)) r.2.1 r.2.2
            (λ e. no_list fs (subst (λ p. check_op compiles f p (dict fs) ≡ accepted tt) e h))
            (λ e. no_pattern fs (subst (λ p. check_op compiles f p (dict fs) ≡ accepted tt) e h)),
      )

  plain_step :
      (f : Field) (v : Json)
      → is_custom f ≡ false
      → (if is_custom f then accepted tt else require (is_scalar v) not_scalar) ≡ accepted tt
      → require (is_scalar v) not_scalar ≡ accepted tt
  plain_step f v e = rw (e) (λ k. k)

  custom_step :
      (f : Field) (v : Json)
      → is_custom f ≡ true
      → (if is_custom f then check_custom v else accepted tt) ≡ accepted tt
      → check_custom v ≡ accepted tt
  custom_step f v e = rw (e) (λ k. k)

  -- the operators that take a scalar
  other-IsRead :
      (o : Op) (v : Json)
      → require (is_scalar v) not_scalar ≡ accepted tt
      → ((s : Scalar) → fits_column compiles o (scalar s) ≡ true)
      → IsRead (plain_of v) (fits_column compiles o)
  other-IsRead o v h fit =
      let r = scalar-IsRead v (require-holds (is_scalar v) not_scalar h) in
      (scalar r.0, r.1, fit r.0)

  column-IsRead :
      (f : Field) (o : Op) (v : Json)
      → is_custom f ≡ false
      → check_op compiles f o v ≡ accepted tt
      → IsRead (plain_of v) (fits_column compiles o)
  unfolding check_op fits_column
  column-IsRead f op_in v e h = list-IsRead v h
  column-IsRead f regex v e h = pattern-IsRead v h
  column-IsRead f eq v e h = other-IsRead eq v (plain_step f v e h) (λ s. refl)
  column-IsRead f neq v e h = other-IsRead neq v (plain_step f v e h) (λ s. refl)
  column-IsRead f gte v e h = other-IsRead gte v (plain_step f v e h) (λ s. refl)
  column-IsRead f lte v e h = other-IsRead lte v (plain_step f v e h) (λ s. refl)

  pub value-IsRead :
      (f : Field) (o : Op) (v : Json)
      → (if is_group f then is_group_op o else true) ≡ true
      → check_op compiles f o v ≡ accepted tt
      → check_field compiles f v ≡ accepted tt
      → IsRead (value_of repr f v) (fits compiles f o)
  unfolding value_of fits check_field
  value-IsRead f o v g h k = elim (Bool-cases (is_custom f)) [
    | inl e ↦ custom_case e (custom_step f v e k)
    | inr e ↦ plain_case e (column-IsRead f o v e h)
  ]
    where
      custom_case :
          is_custom f ≡ true
          → check_custom v ≡ accepted tt
          → IsRead (value_of repr f v) (fits compiles f o)
      custom_case e c = rw (e) (custom-IsRead f o v h c)

      plain_case :
          is_custom f ≡ false
          → IsRead (plain_of v) (fits_column compiles o)
          → IsRead (value_of repr f v) (fits compiles f o)
      plain_case e r = rw (e, g) r
