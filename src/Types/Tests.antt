-- ===== src/Types/Tests.antt =====
-- The theorems on the type tables, at sample types.
use python_cx_oracle.Prelude.{◌≡◌, ◌≢◌, some}
use python_cx_oracle.Prelude.Int.{pos}
use python_cx_oracle.Error.{ok}
use python_cx_oracle.Types.{
  TransformNum, OracleTypeNum, DbType, Transform, DataTypeInfo, get_type_info,
  get_num_from_data_type_info, db_type_num, default_transform, db_type_from_oracle_type,
  db_type_from_transform,
}
use python_cx_oracle.Types.Agreement.{
  get_type_info_aligned, transform_keeps_oracle_type, description_agrees_with_define,
  default_transform_roundtrip,
}

-- NUMBER(9)
abbrev number_column : DataTypeInfo
number_column = record {
  oracle_type_num = OracleTypeNum.number;
  precision = pos 9;
  scale = pos 0;
  fs_precision = 0;
  size_in_chars = 0;
  client_size_in_bytes = 22;
}

abbrev json_column : DataTypeInfo
json_column = record number_column { oracle_type_num = OracleTypeNum.json }

clob_is_supported : TransformNum.clob ≢ TransformNum.unsupported
clob_is_supported e = cc

number_is_supported : get_num_from_data_type_info number_column ≢ TransformNum.unsupported
unfolding get_num_from_data_type_info
number_is_supported e = cc

number_is_not_json : OracleTypeNum.number ≢ OracleTypeNum.json
number_is_not_json e = cc

raw_is_not_interval : DbType.raw ≢ DbType.interval_ym
raw_is_not_interval e = cc

get_type_info_aligned_example :
    (r : Transform) × (get_type_info TransformNum.clob ≡ some r)
    × (r.transform_num ≡ TransformNum.clob)
get_type_info_aligned_example = get_type_info_aligned TransformNum.clob clob_is_supported

transform_keeps_oracle_type_example :
    (r : Transform) × (get_type_info (get_num_from_data_type_info number_column) ≡ some r)
    × (r.oracle_type_num ≡ OracleTypeNum.number)
transform_keeps_oracle_type_example = transform_keeps_oracle_type number_column number_is_supported

description_agrees_with_define_example :
    (d : DbType) × (db_type_from_oracle_type OracleTypeNum.number ≡ ok d)
    × (db_type_from_transform (get_num_from_data_type_info number_column) ≡ ok d)
description_agrees_with_define_example =
    description_agrees_with_define number_column number_is_supported number_is_not_json

default_transform_roundtrip_example :
    (r : Transform) × (db_type_from_transform (default_transform DbType.raw) ≡ ok DbType.raw)
    × (get_type_info (default_transform DbType.raw) ≡ some r)
    × (r.oracle_type_num ≡ db_type_num DbType.raw)
default_transform_roundtrip_example = default_transform_roundtrip DbType.raw raw_is_not_interval
