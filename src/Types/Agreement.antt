-- ===== src/Types/Agreement.antt =====
-- The tables of src/cxoTransform.c, src/cxoDbType.c and src/cxoModule.c agree with one another.
use mathlib.Core.List.{Mem, mem-cons_self, mem-cons_of_mem}
use python_cx_oracle.Prelude.{◌≡◌, refl, ◌≢◌, inl, inr, Bool-cases, ◌&&◌, ◌||◌, some, none}
use python_cx_oracle.Prelude.Int.{ℤ}
use python_cx_oracle.Error.{ok}
use python_cx_oracle.Types.Numbers.{TransformNum, OracleTypeNum, DbType, ApiType}
use python_cx_oracle.Types.Tables.{
  Transform, DataTypeInfo, get_type_info, get_num_from_data_type_info, transform_of_oracle_type,
  db_type_num, default_transform, db_type_from_oracle_type, is_zero, is_unscaled,
  db_type_from_transform, api_transform, api_db_types,
}

-- For every transform but `unsupported`, cxoTransform_getTypeInfo reads inside the table and finds
-- the row of that transform.
pub get_type_info_aligned :
    (t : TransformNum)
    → t ≢ TransformNum.unsupported
    → (r : Transform) × (get_type_info t ≡ some r) × (r.transform_num ≡ t)
unfolding get_type_info
get_type_info_aligned TransformNum.unsupported h = absurd (h refl)
get_type_info_aligned _ h = (_, refl, refl)

-- Beyond the table there is no row: the transform number `unsupported` must not reach
-- cxoTransform_getTypeInfo.
get_type_info-unsupported : get_type_info TransformNum.unsupported ≡ none
unfolding get_type_info
get_type_info-unsupported = refl

keeps :
    (o : OracleTypeNum) (p s : ℤ)
    → transform_of_oracle_type o p s ≢ TransformNum.unsupported
    → (r : Transform) × (get_type_info (transform_of_oracle_type o p s) ≡ some r)
      × (r.oracle_type_num ≡ o)
unfolding get_type_info transform_of_oracle_type
keeps OracleTypeNum.varchar p s h = (_, refl, refl)
keeps OracleTypeNum.number p s h = elim (Bool-cases (is_zero s || (is_unscaled s && is_zero p))) [
  | inl e ↦ rw e (_, refl, refl)
  | inr e ↦ rw e (_, refl, refl)
]
keeps OracleTypeNum.none p s h = absurd (h refl)
keeps OracleTypeNum.interval_ym p s h = absurd (h refl)
keeps OracleTypeNum.json_object p s h = absurd (h refl)
keeps OracleTypeNum.json_array p s h = absurd (h refl)
keeps _ p s h = (_, refl, refl)

-- The transform chosen for a column of any Oracle type that is supported asks ODPI-C for a variable
-- of that same Oracle type.
pub transform_keeps_oracle_type :
    (info : DataTypeInfo)
    → get_num_from_data_type_info info ≢ TransformNum.unsupported
    → (r : Transform) × (get_type_info (get_num_from_data_type_info info) ≡ some r)
      × (r.oracle_type_num ≡ info.oracle_type_num)
unfolding get_type_info get_num_from_data_type_info
transform_keeps_oracle_type info h = keeps info.oracle_type_num info.precision info.scale h

agrees :
    (o : OracleTypeNum) (p s : ℤ)
    → transform_of_oracle_type o p s ≢ TransformNum.unsupported
    → o ≢ OracleTypeNum.json
    → (d : DbType) × (db_type_from_oracle_type o ≡ ok d)
      × (db_type_from_transform (transform_of_oracle_type o p s) ≡ ok d)
unfolding transform_of_oracle_type db_type_from_oracle_type db_type_from_transform
agrees OracleTypeNum.varchar p s h j = (_, refl, refl)
agrees OracleTypeNum.number p s h j =
    elim (Bool-cases (is_zero s || (is_unscaled s && is_zero p))) [
      | inl e ↦ rw e (_, refl, refl)
      | inr e ↦ rw e (_, refl, refl)
    ]
agrees OracleTypeNum.none p s h j = absurd (h refl)
agrees OracleTypeNum.interval_ym p s h j = absurd (h refl)
agrees OracleTypeNum.json_object p s h j = absurd (h refl)
agrees OracleTypeNum.json_array p s h j = absurd (h refl)
agrees OracleTypeNum.json p s h j = absurd (j refl)
agrees _ p s h j = (_, refl, refl)

-- A column that can be fetched is described by the database type of its fetch variable, unless it
-- holds JSON.
pub description_agrees_with_define :
    (info : DataTypeInfo)
    → get_num_from_data_type_info info ≢ TransformNum.unsupported
    → info.oracle_type_num ≢ OracleTypeNum.json
    → (d : DbType) × (db_type_from_oracle_type info.oracle_type_num ≡ ok d)
      × (db_type_from_transform (get_num_from_data_type_info info) ≡ ok d)
unfolding get_num_from_data_type_info
description_agrees_with_define info h j = agrees info.oracle_type_num info.precision info.scale h j

-- Every database type but INTERVAL YEAR TO MONTH has a default transform that leads back to that
-- type, and whose table row carries the number of the type.
pub default_transform_roundtrip :
    (d : DbType)
    → d ≢ DbType.interval_ym
    → (r : Transform) × (db_type_from_transform (default_transform d) ≡ ok d)
      × (get_type_info (default_transform d) ≡ some r)
      × (r.oracle_type_num ≡ db_type_num d)
unfolding db_type_from_transform default_transform get_type_info db_type_num
default_transform_roundtrip DbType.interval_ym h = absurd (h refl)
default_transform_roundtrip _ h = (_, refl, refl, refl)

-- A variable created from a DB API type has a database type that compares equal to that API type.
pub api_type_matches :
    (a : ApiType)
    → (d : DbType) × (db_type_from_transform (api_transform a) ≡ ok d) × Mem d (api_db_types a)
unfolding db_type_from_transform api_transform api_db_types
api_type_matches ApiType.binary = (DbType.raw, refl, mem-cons_of_mem _ mem-cons_self)
api_type_matches ApiType.datetime = (DbType.date, refl, mem-cons_self)
api_type_matches ApiType.number =
    (DbType.number, refl, mem-cons_of_mem _ (mem-cons_of_mem _ (mem-cons_of_mem _ mem-cons_self)))
api_type_matches ApiType.rowid = (DbType.rowid, refl, mem-cons_self)
api_type_matches ApiType.string = (
  DbType.varchar,
  refl,
  mem-cons_of_mem _ (mem-cons_of_mem _ (mem-cons_of_mem _ (mem-cons_of_mem _ mem-cons_self))),
)
