-- ===== src/Connection/Params.antt =====
-- cxoConnectionParams: the application context and the sharding keys.
use python_cx_oracle.Prelude.{ℕ, false, Option, none, some, List, [], ◌∷◌}
use python_cx_oracle.Error.{
  Result, ok, err, ◌>>=◌, undefined, expecting_context_tuples, expecting_sequence,
}
use python_cx_oracle.Types.{OracleTypeNum, NativeTypeNum, get_type_info}
use python_cx_oracle.Py.{Value, Values, items}
use python_cx_oracle.Transform.{
  Runtime, EncodingInfo, DbValue, Write, buffer_from_object, get_num_from_python_value,
}
use python_cx_oracle.Json.{from_python, buffer_bytes, write_value}
use python_cx_oracle.Var.{type_info}

-- dpiAppContext and dpiShardingKeyColumn
pub record AppContext : Type 0 where
  pub namespace_name : List ℕ
  pub name : List ℕ
  pub value : List ℕ

pub record ShardingKeyColumn : Type 0 where
  pub oracle_type_num : OracleTypeNum
  pub native_type_num : NativeTypeNum
  pub value : DbValue

module _ (rt : Runtime) where
  unfoldable pub context_entry : ℕ → Value → Result AppContext
  unfolding buffer_from_object
  context_entry enc (Value.tuple (Values.cons a (Values.cons b (Values.cons c Values.nil)))) =
      buffer_from_object rt a enc >>= λ x. buffer_from_object rt b enc >>= λ y.
      buffer_from_object rt c enc >>= λ z.
      ok (record { namespace_name = buffer_bytes x; name = buffer_bytes y; value = buffer_bytes z })
  context_entry enc _ = err expecting_context_tuples

  unfoldable pub context_entries : ℕ → List Value → Result (List AppContext)
  unfolding context_entry
  context_entries enc [] = ok []
  context_entries enc (v ∷ vs) =
      context_entry enc v >>= λ e. context_entries enc vs >>= λ es. ok (e ∷ es)

  -- cxoConnectionParams_processContext
  unfoldable pub process_context : ℕ → Option Value → Result (List AppContext)
  unfolding context_entries
  process_context enc none = ok []
  process_context enc (some (Value.list vs)) = context_entries enc (items vs)
  process_context enc (some v) = err expecting_context_tuples

  -- What a conversion without a variable leaves in the column; a JSON value is set on a handle that
  -- is not set.
  abbrev column_value : Write → Result DbValue
  column_value (Write.store db) = ok db
  column_value (Write.store_bytes b) = ok (write_value (Write.store_bytes b))
  column_value (Write.store_as_bytes b) = ok (write_value (Write.store_as_bytes b))
  column_value _ = err undefined

  -- cxoConnectionParams_processShardingKeyValue: the native type is that of the table, whatever the
  -- conversion has set it to.
  unfoldable pub process_sharding_key_value : EncodingInfo → Value → Result ShardingKeyColumn
  unfolding get_num_from_python_value from_python get_type_info
  process_sharding_key_value enc v =
      let t = get_num_from_python_value rt.version false v in
      from_python rt enc false t v >>= λ w. column_value w >>= λ db. type_info t >>= λ i.
      ok (record {
        oracle_type_num = i.oracle_type_num;
        native_type_num = i.native_type_num;
        value = db;
      })

  unfoldable pub sharding_columns : EncodingInfo → List Value → Result (List ShardingKeyColumn)
  unfolding process_sharding_key_value
  sharding_columns enc [] = ok []
  sharding_columns enc (v ∷ vs) =
      process_sharding_key_value enc v >>= λ c. sharding_columns enc vs >>= λ cs. ok (c ∷ cs)

  -- cxoConnectionParams_processShardingKey, with the items of a sequence that is no list or tuple
  unfoldable pub process_sharding_key :
      (Value → Option (List Value)) → EncodingInfo → Option Value → Result (List ShardingKeyColumn)
  unfolding sharding_columns
  process_sharding_key sequence enc none = ok []
  process_sharding_key sequence enc (some Value.none) = ok []
  process_sharding_key sequence enc (some (Value.list vs)) = sharding_columns enc (items vs)
  process_sharding_key sequence enc (some (Value.tuple vs)) = sharding_columns enc (items vs)
  process_sharding_key sequence enc (some v) = elim (sequence v) [
    | some vs ↦ sharding_columns enc vs
    | none ↦ err expecting_sequence
  ]
