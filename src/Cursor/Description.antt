-- ===== src/Cursor/Description.antt =====
-- The attribute `description` of a cursor: cxoCursor_itemDescription and cxoCursor_getDescription.
use python_cx_oracle.Prelude.{
  ℕ, zero, suc, ◌+◌, Bool, false, not, ◌||◌, Option, none, some, List, [], ◌∷◌, ◌==◌, if◌then◌else◌,
}
use python_cx_oracle.Prelude.Int.{ℤ, pos, negsuc, ◌+ℤ◌}
use python_cx_oracle.Error.{Result, ok, err, ◌>>=◌ as ◌and_then◌, no_exception}
use python_cx_oracle.Action.{Action, pure, lift, gets, ◌>>=◌, ◌>>◌, foreign}
use python_cx_oracle.Types.{OracleTypeNum, DataTypeInfo, DbType, db_type_from_oracle_type, is_zero}
use python_cx_oracle.Py.{Value, of_items}
use python_cx_oracle.Transform.{Runtime}
use python_cx_oracle.Cursor.State.{Driver, QueryInfo}
use python_cx_oracle.Cursor.Define.{M, is_open}
use python_cx_oracle.Cursor.Fetching.{to_int32}

abbrev pub is_positive : ℤ → Bool
is_positive (pos n) = not (n == 0)
is_positive (negsuc n) = false

-- The display size of a number.
abbrev pub number_size : ℤ → ℤ → ℤ
number_size precision scale =
    if is_zero precision
    then pos 127
    else if is_positive scale
    then (precision +ℤ pos 1) +ℤ (scale +ℤ pos 1)
    else precision +ℤ pos 1

-- The switch of cxoCursor_itemDescription.
unfoldable pub display_size : DataTypeInfo → ℤ
unfolding ◌+ℤ◌
display_size info = elim info.oracle_type_num [
  | OracleTypeNum.varchar ↦ to_int32 info.size_in_chars
  | OracleTypeNum.nvarchar ↦ to_int32 info.size_in_chars
  | OracleTypeNum.char ↦ to_int32 info.size_in_chars
  | OracleTypeNum.nchar ↦ to_int32 info.size_in_chars
  | OracleTypeNum.rowid ↦ to_int32 info.size_in_chars
  | OracleTypeNum.raw ↦ to_int32 info.client_size_in_bytes
  | OracleTypeNum.native_float ↦ number_size info.precision info.scale
  | OracleTypeNum.native_double ↦ number_size info.precision info.scale
  | OracleTypeNum.native_int ↦ number_size info.precision info.scale
  | OracleTypeNum.number ↦ number_size info.precision info.scale
  | OracleTypeNum.date ↦ pos 23
  | OracleTypeNum.timestamp ↦ pos 23
  | _ ↦ pos 0
]

-- An item that is None where the number is zero.
abbrev pub number_or_none : ℤ → Value
number_or_none n = if is_zero n then Value.none else Value.int n

-- Whether the precision and the scale are given.
abbrev pub has_precision : DataTypeInfo → Bool
has_precision info =
    not (is_zero info.precision) || (not (is_zero info.scale) || not (info.fs_precision == 0))

-- The seven items.
unfoldable pub description_items : List ℕ → DbType → QueryInfo → List Value
unfolding display_size ◌+ℤ◌
description_items name t info =
    Value.str name
    ∷ Value.db_type t
    ∷ number_or_none (display_size info.type_info)
    ∷ number_or_none (pos info.type_info.client_size_in_bytes)
    ∷ (if has_precision info.type_info then Value.int info.type_info.precision else Value.none)
    ∷ (if has_precision info.type_info
        then Value.int (info.type_info.scale +ℤ pos info.type_info.fs_precision)
        else Value.none)
    ∷ Value.int (pos (if info.null_ok then 1 else 0))
    ∷ []

module _ (rt : Runtime) (encoding : ℕ) {S : Type 0} (d : Driver S) where
  -- `return NULL` after a call of ODPI-C that has failed, which raises no exception.
  abbrev pub silently : {A : Type 0} → Action S A → Action S A
  silently m s = let (r, t) = m s in (elim r [ ok a ↦ ok a | err e ↦ err no_exception ], t)

  abbrev pub described : QueryInfo → Result Value
  described info = db_type_from_oracle_type info.type_info.oracle_type_num and_then λ t.
      rt.decode encoding none info.name and_then λ name.
      ok (Value.tuple (of_items (description_items name t info)))

  -- cxoCursor_itemDescription
  unfoldable pub item_description : ℕ → M d Value
  unfolding db_type_from_oracle_type description_items
  item_description position = do
    handle ← gets (λ s. s.0.handle)
    info ← foreign (silently (d.get_query_info handle position))
    lift (described info)

  -- The loop of cxoCursor_getDescription over `left` columns.
  unfoldable pub item_descriptions : ℕ → ℕ → M d (List Value)
  unfolding item_description
  item_descriptions zero position = pure []
  item_descriptions (suc left) position = do
    v ← item_description position
    vs ← item_descriptions left (position + 1)
    pure (v ∷ vs)

  abbrev pub describe_columns : ℕ → M d Value
  describe_columns n =
      if n == 0
      then pure Value.none
      else (item_descriptions n 1 >>= λ vs. pure (Value.list (of_items vs)))

  abbrev pub describe_handle : Option ℕ → M d Value
  describe_handle none = pure Value.none
  describe_handle (some h) = foreign (d.num_query_columns (some h)) >>= describe_columns

  -- cxoCursor_getDescription
  unfoldable pub get_description : M d Value
  unfolding is_open item_descriptions
  get_description = is_open d >> (gets (λ s. s.0.handle) >>= describe_handle)
