-- ===== src/Filters/Typed.antt =====
-- The trees whose values are of the types that src/thruk_mcp/filters.py compiles without a TypeError.
use Prim.Native.String.{◌++◌}
use thruk_mcp.Filters.{Node, leaf, group, Nodes, nil, cons}
use thruk_mcp.Filters.Leaves.{
  Field, name, address, state, host, service, description, message, contact, hostgroup,
  servicegroup, custom_var, host_custom_var, since, until, Op, eq, neq, regex, op_in, gte, lte,
  Leaf, filter_error, not_validated, Result, err, ok, ◌>>=◌, Context, is_group, is_custom,
  leaf_to_params, q_leaf, state_param, group_param, column_param, custom_param, state_value,
  group_column, column, alternatives, any_part, q_state_leaf, q_group_leaf, q_column_leaf,
  q_custom_leaf, q_state, quoted,
}
use thruk_mcp.Filters.Validate.{is_group_op}
use thruk_mcp.Filters.Values.{Scalar, text, Value, scalar, items, custom, str_scalar}
use thruk_mcp.Prelude.{String, ◌≡◌, Bool, true, false, not, ◌&&◌, List, [], ◌∷◌, if◌then◌else◌}
use thruk_mcp.Prelude.Text.{is_empty}

-- A result that is no TypeError.
abbrev pub IsTyped : {A : Type 0} → Result A → Type 0
IsTyped (err not_validated) = ⊥
IsTyped _ = Unit

pub bind-IsTyped :
    {A B : Type 0} (r : Result A) (f : A → Result B)
    → IsTyped r
    → ((a : A) → IsTyped (f a))
    → IsTyped (r >>= f)
bind-IsTyped (err filter_error) f h k = tt
bind-IsTyped (err not_validated) f h k = h
bind-IsTyped (ok a) f h k = k a

-- The value of a leaf on a column, by its operator; what `re.compile` accepts is an argument.
unfoldable pub fits_column : (String → Bool) → Op → Value → Bool
fits_column compiles op_in (items (v ∷ l)) = true
fits_column compiles op_in _ = false
fits_column compiles regex (scalar (text s)) = compiles s
fits_column compiles regex _ = false
fits_column compiles _ (scalar s) = true
fits_column compiles _ _ = false

-- The value of a leaf on a custom variable.
unfoldable pub fits_custom : Op → Value → Bool
fits_custom op_in _ = false
fits_custom regex _ = false
fits_custom _ (custom var val) = not (is_empty var)
fits_custom _ _ = false

unfoldable pub fits : (String → Bool) → Field → Op → Value → Bool
unfolding fits_column fits_custom is_group_op
fits compiles f o v =
    if is_custom f
    then fits_custom o v
    else (if is_group f then is_group_op o else true) && fits_column compiles o v

-- Every leaf of a tree fits, and no group is empty.
unfoldable mutual
  unfolding fits

  pub all_fit : (String → Bool) → Node → Bool
  all_fit compiles (leaf l) = fits compiles l.field l.op l.value
  all_fit compiles (group o nil) = false
  all_fit compiles (group o (cons c cs)) = all_fit compiles c && each_fits compiles cs

  pub each_fits : (String → Bool) → Nodes → Bool
  each_fits compiles nil = true
  each_fits compiles (cons c cs) = all_fit compiles c && each_fits compiles cs

module _ (compiles : String → Bool) (re_escape : String → String) where
  column_param-IsTyped :
      (o : Op) (col : String) (v : Value)
      → fits_column compiles o v ≡ true
      → IsTyped (column_param re_escape o col v)
  unfolding column_param fits_column alternatives
  column_param-IsTyped eq col v h = tt
  column_param-IsTyped neq col v h = tt
  column_param-IsTyped regex col v h = tt
  column_param-IsTyped gte col v h = tt
  column_param-IsTyped lte col v h = tt
  column_param-IsTyped op_in col (items (v ∷ l)) h = tt
  column_param-IsTyped op_in col (items []) h = cc
  column_param-IsTyped op_in col (scalar s) h = cc
  column_param-IsTyped op_in col (custom var val) h = cc

  group_param-IsTyped : (o : Op) (base : String) (v : Value) → IsTyped (group_param o base v)
  unfolding group_param
  group_param-IsTyped eq base v = tt
  group_param-IsTyped neq base v = tt
  group_param-IsTyped regex base v = tt
  group_param-IsTyped op_in base v = tt
  group_param-IsTyped gte base v = tt
  group_param-IsTyped lte base v = tt

  state_param-IsTyped : (o : Op) (v : Value) → IsTyped (state_param o v)
  unfolding state_param
  state_param-IsTyped eq v = tt
  state_param-IsTyped neq v = tt
  state_param-IsTyped regex v = tt
  state_param-IsTyped op_in v = tt
  state_param-IsTyped gte v = tt
  state_param-IsTyped lte v = tt

  no_scalar : (o : Op) (s : Scalar) → fits_custom o (scalar s) ≡ true → ⊥
  unfolding fits_custom
  no_scalar eq s h = cc
  no_scalar neq s h = cc
  no_scalar regex s h = cc
  no_scalar op_in s h = cc
  no_scalar gte s h = cc
  no_scalar lte s h = cc

  no_items : (o : Op) (l : List Scalar) → fits_custom o (items l) ≡ true → ⊥
  unfolding fits_custom
  no_items eq l h = cc
  no_items neq l h = cc
  no_items regex l h = cc
  no_items op_in l h = cc
  no_items gte l h = cc
  no_items lte l h = cc

  custom_param-IsTyped :
      (f : Field) (o : Op) (v : Value)
      → fits_custom o v ≡ true
      → IsTyped (custom_param re_escape f v)
  unfolding custom_param
  custom_param-IsTyped f o (custom var val) h = tt
  custom_param-IsTyped f o (scalar s) h = absurd (no_scalar o s h)
  custom_param-IsTyped f o (items l) h = absurd (no_items o l h)

  pub leaf_to_params-IsTyped :
      (ctx : Context) (l : Leaf)
      → fits compiles l.field l.op l.value ≡ true
      → IsTyped (leaf_to_params re_escape ctx l)
  unfolding leaf_to_params fits
  leaf_to_params-IsTyped ctx l = go l.field
    where
      go :
          (f : Field)
          → fits compiles f l.op l.value ≡ true
          → IsTyped (leaf_to_params re_escape ctx (record l { field = f }))
      go custom_var h = custom_param-IsTyped custom_var l.op l.value h
      go host_custom_var h = custom_param-IsTyped host_custom_var l.op l.value h
      go state h = state_param-IsTyped l.op (state_value ctx l.value)
      go hostgroup h = group_param-IsTyped l.op (group_column ctx hostgroup) l.value
      go servicegroup h = group_param-IsTyped l.op (group_column ctx servicegroup) l.value
      go since h = tt
      go until h = tt
      go name h = column_param-IsTyped l.op (column name) l.value h
      go address h = column_param-IsTyped l.op (column address) l.value h
      go host h = column_param-IsTyped l.op (column host) l.value h
      go service h = column_param-IsTyped l.op (column service) l.value h
      go description h = column_param-IsTyped l.op (column description) l.value h
      go message h = column_param-IsTyped l.op (column message) l.value h
      go contact h = column_param-IsTyped l.op (column contact) l.value h

  any_part-IsTyped :
      (part : Scalar → String) (v : Value)
      → fits_column compiles op_in v ≡ true
      → IsTyped (any_part part v)
  unfolding any_part fits_column
  any_part-IsTyped part (items (v ∷ l)) h = tt
  any_part-IsTyped part (items []) h = cc
  any_part-IsTyped part (scalar s) h = cc
  any_part-IsTyped part (custom var val) h = cc

  q_column_leaf-IsTyped :
      (o : Op) (col : String) (v : Value)
      → fits_column compiles o v ≡ true
      → IsTyped (q_column_leaf o col v)
  unfolding q_column_leaf
  q_column_leaf-IsTyped eq col v h = tt
  q_column_leaf-IsTyped neq col v h = tt
  q_column_leaf-IsTyped regex col v h = tt
  q_column_leaf-IsTyped gte col v h = tt
  q_column_leaf-IsTyped lte col v h = tt
  q_column_leaf-IsTyped op_in col v h = any_part-IsTyped (λ s. quoted col "=" (str_scalar s)) v h

  q_group_leaf-IsTyped :
      (o : Op) (col : String) (v : Value)
      → (is_group_op o && fits_column compiles o v) ≡ true
      → IsTyped (q_group_leaf o col v)
  unfolding q_group_leaf is_group_op
  q_group_leaf-IsTyped eq col v h = tt
  q_group_leaf-IsTyped neq col v h = tt
  q_group_leaf-IsTyped regex col v h = tt
  q_group_leaf-IsTyped gte col v h = tt
  q_group_leaf-IsTyped lte col v h = tt
  q_group_leaf-IsTyped op_in col v h = any_part-IsTyped (λ s. quoted col ">=" (str_scalar s)) v h

  q_state_leaf-IsTyped :
      (ctx : Context) (o : Op) (v : Value)
      → fits_column compiles o v ≡ true
      → IsTyped (q_state_leaf ctx o v)
  unfolding q_state_leaf
  q_state_leaf-IsTyped ctx eq v h = tt
  q_state_leaf-IsTyped ctx neq v h = tt
  q_state_leaf-IsTyped ctx regex v h = tt
  q_state_leaf-IsTyped ctx gte v h = tt
  q_state_leaf-IsTyped ctx lte v h = tt
  q_state_leaf-IsTyped ctx op_in v h =
      any_part-IsTyped (λ s. "(state = " ++ q_state ctx s ++ ")") v h

  q_custom_leaf-IsTyped :
      (f : Field) (o : Op) (v : Value) → fits_custom o v ≡ true → IsTyped (q_custom_leaf f v)
  unfolding q_custom_leaf
  q_custom_leaf-IsTyped f o (custom var val) h = tt
  q_custom_leaf-IsTyped f o (scalar s) h = absurd (no_scalar o s h)
  q_custom_leaf-IsTyped f o (items l) h = absurd (no_items o l h)

  pub q_leaf-IsTyped :
      (ctx : Context) (l : Leaf)
      → fits compiles l.field l.op l.value ≡ true
      → IsTyped (q_leaf ctx l)
  unfolding q_leaf fits
  q_leaf-IsTyped ctx l = go l.field
    where
      go :
          (f : Field)
          → fits compiles f l.op l.value ≡ true
          → IsTyped (q_leaf ctx (record l { field = f }))
      go custom_var h = q_custom_leaf-IsTyped custom_var l.op l.value h
      go host_custom_var h = q_custom_leaf-IsTyped host_custom_var l.op l.value h
      go state h = q_state_leaf-IsTyped ctx l.op l.value h
      go hostgroup h = q_group_leaf-IsTyped l.op (group_column ctx hostgroup) l.value h
      go servicegroup h = q_group_leaf-IsTyped l.op (group_column ctx servicegroup) l.value h
      go since h = tt
      go until h = tt
      go name h = q_column_leaf-IsTyped l.op (column name) l.value h
      go address h = q_column_leaf-IsTyped l.op (column address) l.value h
      go host h = q_column_leaf-IsTyped l.op (column host) l.value h
      go service h = q_column_leaf-IsTyped l.op (column service) l.value h
      go description h = q_column_leaf-IsTyped l.op (column description) l.value h
      go message h = q_column_leaf-IsTyped l.op (column message) l.value h
      go contact h = q_column_leaf-IsTyped l.op (column contact) l.value h
