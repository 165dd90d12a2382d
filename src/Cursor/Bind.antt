-- ===== src/Cursor/Bind.antt =====
-- Binding: cxoCursor_setBindVariableHelper, cxoCursor_setBindVariables, cxoCursor_performBind and
-- the loop of cxoCursor_executeMany over its parameters.
use python_cx_oracle.Prelude.{
  ℕ, ◌+◌, Bool, false, not, ◌&&◌, Option, none, some, List, [], ◌∷◌, ◌++◌, length, get_elem?, set,
  replicate, ltb, ◌==◌, if◌then◌else◌,
}
use python_cx_oracle.Error.{ok, err, undefined, binds_intermixed, expecting_rows}
use python_cx_oracle.Action.{Action, pure, raise, gets, ◌>>=◌, ◌>>◌, foreign, update}
use python_cx_oracle.Py.{Value, is_none}
use python_cx_oracle.Cursor.State.{
  Slot, null, none_object, holds, Binds, unbound, by_position, by_name, Cursor,
}

-- The calls into src/cxoVar.c, on a state `S`.
pub record Variables (S : Type 0) : Type 0 where
  -- transformNum == CXO_TRANSFORM_NONE, and allocatedElements
  pub is_none_transform : S → ℕ → Bool
  pub allocated : S → ℕ → ℕ
  -- cxoVar_new with a number of elements and the transform, size, isArray and type of a variable
  pub resized : ℕ → ℕ → Action S ℕ
  -- cxoVar_newByValue
  pub new_by_value : Value → ℕ → Action S ℕ
  -- cxoVar_setValue: variable, position, value
  pub set_value : ℕ → ℕ → Value → Action S (Unit {0})
  -- cxoVar_bind, by name and by position
  pub bind_name : Option ℕ → ℕ → Value → Action S (Unit {0})
  pub bind_position : Option ℕ → ℕ → ℕ → Action S (Unit {0})
  -- equality of dictionary keys
  pub same_key : Value → Value → Bool

-- What execute and executemany are given: a sequence, or a dictionary in its order.
pub data Parameters : Type 0 where
  sequence : List Value → Parameters
  mapping : List (Value × Value) → Parameters

-- cxoVar_check: the variable that a value is
abbrev pub as_variable : Value → Option ℕ
as_variable (Value.var u) = some u
as_variable _ = none

abbrev pub slot_var : Option Slot → Option ℕ
slot_var (some (holds v)) = some v
slot_var _ = none

-- `PyList_GET_ITEM`, where None counts as NULL; only for positions below the first length.
abbrev pub orig_var : ℕ → List Slot → ℕ → Option ℕ
orig_var orig_num_params slots i =
    if ltb i orig_num_params then slot_var (get_elem? slots i) else none

-- `PyList_SetItem` or `PyList_Append` of a new variable
abbrev pub store : List Slot → ℕ → ℕ → List Slot
store slots i v = if ltb i (length slots) then set slots i (holds v) else slots ++ (holds v ∷ [])

module _ {S : Type 0} (d : Variables S) where
  abbrev pub lookup : List (Value × ℕ) → Value → Option ℕ
  lookup [] key = none
  lookup ((k, v) ∷ kvs) key = if d.same_key k key then some v else lookup kvs key

  abbrev pub set_key : List (Value × ℕ) → Value → ℕ → List (Value × ℕ)
  set_key [] key u = (key, u) ∷ []
  set_key ((k, v) ∷ kvs) key u =
      if d.same_key k key then (k, u) ∷ kvs else (k, v) ∷ set_key kvs key u

  abbrev pub make_variable : ℕ → ℕ → Value → Action S (Option ℕ)
  make_variable num_elements array_pos value = do
    v ← d.new_by_value value num_elements
    d.set_value v array_pos value
    pure (some v)

  -- The end of cxoCursor_setBindVariableHelper, where no variable is there or it was given up.
  abbrev pub create_for : ℕ → ℕ → Value → Bool → Option ℕ → Action S (Option ℕ)
  create_for num_elements array_pos value defer (some u) = pure (some u)
  create_for num_elements array_pos value defer none =
      if is_none value && defer then pure none else make_variable num_elements array_pos value

  abbrev pub create_variable : ℕ → ℕ → Value → Bool → Action S (Option ℕ)
  create_variable num_elements array_pos value defer =
      create_for num_elements array_pos value defer (as_variable value)

  abbrev pub larger_variable : ℕ → ℕ → Action S (Option ℕ)
  larger_variable num_elements v = do
    n ← gets (λ s. d.allocated s v)
    if ltb n num_elements then (d.resized v num_elements >>= λ u. pure (some u)) else pure none

  abbrev pub var_to_set : ℕ → Option ℕ → ℕ
  var_to_set v none = v
  var_to_set v (some u) = u

  -- Setting the value. A failure at the first position gives the variable up for another.
  abbrev pub set_or_create : ℕ → ℕ → Value → Bool → ℕ → Option ℕ → Action S (Option ℕ)
  set_or_create num_elements array_pos value defer v new s =
      let (r, t) = d.set_value (var_to_set v new) array_pos value s in
      elim r [
        | ok a ↦ (ok new, t)
        | err e ↦
            if ltb 0 array_pos
            then (err e, t)
            else create_variable num_elements array_pos value defer t
      ]

  abbrev pub reuse_variable : ℕ → ℕ → Value → Bool → ℕ → Option ℕ → Action S (Option ℕ)
  reuse_variable num_elements array_pos value defer v (some u) =
      pure (if v == u then none else some u)
  reuse_variable num_elements array_pos value defer v none = do
    typeless ← gets (λ s. d.is_none_transform s v)
    if typeless && not (is_none value)
        then create_variable num_elements array_pos value defer
        else do
          new ← larger_variable num_elements v
          set_or_create num_elements array_pos value defer v new

  -- cxoCursor_setBindVariableHelper: *newVar
  unfoldable pub set_bind_variable_helper : ℕ → ℕ → Value → Option ℕ → Bool → Action S (Option ℕ)
  set_bind_variable_helper num_elements array_pos value none defer =
      create_variable num_elements array_pos value defer
  set_bind_variable_helper num_elements array_pos value (some v) defer =
      reuse_variable num_elements array_pos value defer v (as_variable value)

  -- An action of a cursor.
  abbrev pub B : Type 0 → Type 0
  B A = Action (Cursor × S) A

  abbrev set_binds : Binds → B (Unit {0})
  set_binds b = update (λ c. record c { bind_variables = b })

  abbrev pub store_new : List Slot → ℕ → Option ℕ → List Slot
  store_new slots i none = slots
  store_new slots i (some v) = store slots i v

  -- The loop over positional parameters, from position `i`.
  unfoldable pub bind_positions : ℕ → ℕ → Bool → ℕ → List Slot → ℕ → List Value → B (Unit {0})
  unfolding set_bind_variable_helper
  bind_positions num_elements array_pos defer orig slots i [] = pure tt
  bind_positions num_elements array_pos defer orig slots i (value ∷ values) = do
    new ←
        foreign
          (set_bind_variable_helper num_elements array_pos value (orig_var orig slots i) defer)
    set_binds (by_position (store_new slots i new))
    bind_positions num_elements array_pos defer orig (store_new slots i new) (i + 1) values

  abbrev pub store_named : List (Value × ℕ) → Value → Option ℕ → List (Value × ℕ)
  store_named kvs key none = kvs
  store_named kvs key (some v) = set_key kvs key v

  -- The loop over named parameters.
  unfoldable pub bind_names : ℕ → ℕ → Bool → List (Value × ℕ) → List (Value × Value) → B (Unit {0})
  unfolding set_bind_variable_helper
  bind_names num_elements array_pos defer kvs [] = pure tt
  bind_names num_elements array_pos defer kvs ((key, value) ∷ rest) = do
    new ← foreign (set_bind_variable_helper num_elements array_pos value (lookup kvs key) defer)
    set_binds (by_name (store_named kvs key new))
    bind_names num_elements array_pos defer (store_named kvs key new) rest

  -- cxoCursor_setBindVariables, on the bind variables that the cursor has
  abbrev pub bind_onto : ℕ → ℕ → Bool → Binds → Parameters → B (Unit {0})
  bind_onto num_elements array_pos defer unbound (sequence values) = do
    set_binds (by_position (replicate (length values) null))
    bind_positions num_elements array_pos defer 0 (replicate (length values) null) 0 values
  bind_onto num_elements array_pos defer unbound (mapping kvs) = do
    set_binds (by_name [])
    bind_names num_elements array_pos defer [] kvs
  bind_onto num_elements array_pos defer (by_position slots) (sequence values) =
      bind_positions num_elements array_pos defer (length slots) slots 0 values
  bind_onto num_elements array_pos defer (by_name vs) (mapping kvs) =
      bind_names num_elements array_pos defer vs kvs
  bind_onto num_elements array_pos defer (by_position slots) (mapping kvs) = raise binds_intermixed
  bind_onto num_elements array_pos defer (by_name vs) (sequence values) = raise binds_intermixed

  unfoldable pub set_bind_variables : Parameters → ℕ → ℕ → Bool → B (Unit {0})
  unfolding bind_positions bind_names
  set_bind_variables parameters num_elements array_pos defer = do
    b ← gets (λ s. s.0.bind_variables)
    bind_onto num_elements array_pos defer b parameters

  -- The loops of cxoCursor_performBind. A NULL in the list is followed.
  unfoldable pub perform_positions : Option ℕ → ℕ → List Slot → Action S (Unit {0})
  perform_positions handle i [] = pure tt
  perform_positions handle i (null ∷ slots) = raise undefined
  perform_positions handle i (none_object ∷ slots) = perform_positions handle (i + 1) slots
  perform_positions handle i (holds v ∷ slots) = do
    d.bind_position handle v (i + 1)
    perform_positions handle (i + 1) slots

  unfoldable pub perform_names : Option ℕ → List (Value × ℕ) → Action S (Unit {0})
  perform_names handle [] = pure tt
  perform_names handle ((key, v) ∷ kvs) = do d.bind_name handle v key; perform_names handle kvs

  abbrev pub perform_binds : Option ℕ → Binds → Action S (Unit {0})
  perform_binds handle unbound = pure tt
  perform_binds handle (by_name kvs) = perform_names handle kvs
  perform_binds handle (by_position slots) = perform_positions handle 0 slots

  -- cxoCursor_performBind
  unfoldable pub perform_bind : B (Unit {0})
  unfolding perform_positions perform_names
  perform_bind = do
    update (λ c. record c { set_input_sizes = false })
    c ← gets (λ s. s.0)
    foreign (perform_binds c.handle c.bind_variables)

  -- The loop of cxoCursor_executeMany over its rows, from row `i` of `num_rows`. A row that is no
  -- sequence and no dictionary is `none`.
  unfoldable pub bind_rows : ℕ → ℕ → List (Option Parameters) → B (Unit {0})
  unfolding set_bind_variables
  bind_rows num_rows i [] = pure tt
  bind_rows num_rows i (none ∷ rows) = raise expecting_rows
  bind_rows num_rows i (some row ∷ rows) = do
    set_bind_variables row num_rows i (ltb (i + 1) num_rows)
    bind_rows num_rows (i + 1) rows
