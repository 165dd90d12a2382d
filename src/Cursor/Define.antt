-- ===== src/Cursor/Define.antt =====
-- cxoCursor_isOpen, cxoCursor_performDefine and cxoCursor_verifyFetch.
use python_cx_oracle.Prelude.{
  ℕ, zero, suc, ◌+◌, ◌-◌, true, false, Option, none, some, set, replicate, ltb, ◌==◌, if◌then◌else◌,
}
use python_cx_oracle.Error.{
  Result, ok, err, not_open, not_a_query, oracle_type_not_supported, expecting_output_variable,
  output_variable_too_small, database,
}
use python_cx_oracle.Action.{Action, pure, raise, lift, gets, ◌>>=◌, ◌>>◌, foreign, update}
use python_cx_oracle.Types.{
  TransformNum, DbType, DataTypeInfo, get_num_from_data_type_info, db_type_from_transform,
  same_transform,
}
use python_cx_oracle.Py.{Value}
use python_cx_oracle.Cursor.State.{Cursor, Driver, QueryInfo}

-- The size of the variable for a column.
abbrev pub column_size : DataTypeInfo → ℕ
column_size info = if info.size_in_chars == 0 then info.client_size_in_bytes else info.size_in_chars

abbrev pub supported_transform : DataTypeInfo → Result TransformNum
supported_transform info =
    if same_transform (get_num_from_data_type_info info) TransformNum.unsupported
    then err oracle_type_not_supported
    else ok (get_num_from_data_type_info info)

-- PyList_SET_ITEM on the fetch variables.
abbrev pub set_fetch_variable : ℕ → ℕ → Cursor → Cursor
set_fetch_variable i v c = record c {
  fetch_variables = elim c.fetch_variables [ none ↦ none | some vs ↦ some (set vs i (some v)) ];
}

-- The start of cxoCursor_performDefine.
abbrev pub reset_fetch : Cursor → Cursor
reset_fetch c = record c { num_rows_in_fetch_buffer = 0; more_rows_to_fetch = true }

abbrev pub new_fetch_variables : ℕ → Cursor → Cursor
new_fetch_variables n c = record c {
  fetch_variables = some (replicate n none);
  fetch_array_size = c.array_size;
}

module _ {S : Type 0} (d : Driver S) where
  -- An action of a cursor.
  abbrev pub M : Type 0 → Type 0
  M A = Action (Cursor × S) A

  -- cxoCursor_isOpen
  unfoldable pub is_open : M (Unit {0})
  is_open = do o ← gets (λ s. s.0.is_open); if o then foreign d.is_connected else raise not_open

  abbrev pub object_type_of : Option ℕ → Action S (Option ℕ)
  object_type_of none = pure none
  object_type_of (some t) = do o ← d.object_type_new t; pure (some o)

  -- What an output type handler has returned: no variable, one that is large enough, or an error.
  abbrev pub handler_result : ℕ → Value → Action S (Option ℕ)
  handler_result fetch_array_size Value.none = pure none
  handler_result fetch_array_size (Value.var v) = do
    n ← gets (λ s. d.allocated_elements s v)
    if ltb n fetch_array_size then raise output_variable_too_small else pure (some v)
  handler_result fetch_array_size _ = raise expecting_output_variable

  abbrev pub handler_variable : Option ℕ → ℕ → QueryInfo → DbType → ℕ → Action S (Option ℕ)
  handler_variable none fetch_array_size info db_type size = pure none
  handler_variable (some h) fetch_array_size info db_type size = do
    v ← d.call_output_type_handler h info db_type size
    handler_result fetch_array_size v

  abbrev pub variable_or_new : Option ℕ → ℕ → TransformNum → ℕ → Option ℕ → Action S ℕ
  variable_or_new (some v) n t size object_type = pure v
  variable_or_new none n t size object_type = d.var_new n t size false object_type

  -- One round of the loop over the columns, up to the variable.
  unfoldable pub column_variable : Option ℕ → ℕ → ℕ → Action S ℕ
  unfolding get_num_from_data_type_info db_type_from_transform
  column_variable handle fetch_array_size pos = do
    info ← d.get_query_info handle pos
    object_type ← object_type_of info.object_type
    t ← lift (supported_transform info.type_info)
    db_type ← lift (db_type_from_transform t)
    handler ← gets d.output_type_handler
    v ← handler_variable handler fetch_array_size info db_type (column_size info.type_info)
    variable_or_new v fetch_array_size t (column_size info.type_info) object_type

  -- The loop over the columns, from position `pos` for `left` columns.
  unfoldable pub define_columns : ℕ → ℕ → M (Unit {0})
  unfolding column_variable
  define_columns zero pos = pure tt
  define_columns (suc left) pos = do
    handle ← gets (λ s. s.0.handle)
    n ← gets (λ s. s.0.fetch_array_size)
    v ← foreign (column_variable handle n pos)
    update (set_fetch_variable (pos - 1) v)
    foreign (d.define handle pos v)
    define_columns left (pos + 1)

  -- cxoCursor_performDefine
  unfoldable pub perform_define : ℕ → M (Unit {0})
  unfolding define_columns
  perform_define num_query_columns = do
    update reset_fetch
    vars ← gets (λ s. s.0.fetch_variables)
    elim vars [
      | some vs ↦ pure tt
      | none ↦ update (new_fetch_variables num_query_columns) >> define_columns num_query_columns 1
    ]

  -- `return cxoError_raiseAndReturnInt()` after a call that has already raised.
  abbrev pub or_database : M (Unit {0}) → M (Unit {0})
  or_database m s = let (r, t) = m s in elim r [ ok a ↦ (ok a, t) | err e ↦ (err database, t) ]

  -- The define of a REF cursor, where every error is replaced by the last one of ODPI-C.
  unfoldable pub fixup : M (Unit {0})
  unfolding perform_define
  fixup = do
    update (λ c. record c { fetch_array_size = c.array_size })
    handle ← gets (λ s. s.0.handle)
    n ← gets (λ s. s.0.fetch_array_size)
    foreign (d.set_fetch_array_size handle n)
    columns ← foreign (d.num_query_columns handle)
    or_database (perform_define columns)
    update (λ c. record c { fixup_ref_cursor = false })

  -- cxoCursor_verifyFetch
  unfoldable pub verify_fetch : M (Unit {0})
  unfolding is_open fixup
  verify_fetch = do
    is_open
    r ← gets (λ s. s.0.fixup_ref_cursor)
    if r then fixup else pure tt
    vars ← gets (λ s. s.0.fetch_variables)
    elim vars [ none ↦ raise not_a_query | some vs ↦ pure tt ]
