-- ===== src/Object/State.antt =====
-- The fields of struct cxoObject, struct cxoObjectType and struct cxoObjectAttr (src/cxoModule.h),
-- and the calls that leave src/cxoObject.c.
use python_cx_oracle.Prelude.{ℕ, Bool, Option, List}
use python_cx_oracle.Prelude.Int.{ℤ}
use python_cx_oracle.Error.{Result}
use python_cx_oracle.Action.{Action}
use python_cx_oracle.Types.{TransformNum, OracleTypeNum, NativeTypeNum, DbType}
use python_cx_oracle.Py.{Value}
use python_cx_oracle.Transform.{Runtime, EncodingInfo, DbValue, Node}
use python_cx_oracle.Var.{Cell}

-- The object type is NULL where the attribute holds no object.
pub record ObjectAttr : Type 0 where
  pub handle : ℕ
  pub name : List ℕ
  pub db_type : DbType
  pub oracle_type_num : OracleTypeNum
  pub transform_num : TransformNum
  pub object_type : Option ℕ

-- `encodings` is connection->encodingInfo. An element type is NULL where there are no elements.
pub record ObjectType : Type 0 where
  pub handle : ℕ
  pub connection : ℕ
  pub schema : List ℕ
  pub name : List ℕ
  pub is_collection : Bool
  pub attributes : List ObjectAttr
  pub element_db_type : Option DbType
  pub attributes_by_name : List (List ℕ × ObjectAttr)
  pub element_oracle_type_num : OracleTypeNum
  pub element_transform_num : TransformNum
  pub element_object_type : Option ℕ
  pub encodings : EncodingInfo

pub record Object : Type 0 where
  pub handle : ℕ
  pub object_type : ObjectType

-- The calls of ODPI-C and of the Python runtime, on a state `S` that they share. dpiData is a `Cell`;
-- a call that reads one gets its native type, and the size of the buffer for a number as text. A
-- native type that is `none` is the number 0. An index with its flag `exists` is an option.
pub record ObjectApi (S : Type 0) : Type 0 where
  pub runtime : Runtime
  -- dpiJson_getValue, and the encoding that comes with the bytes
  pub json_value : ℕ → Result Node
  pub bytes_encoding : DbValue → ℕ
  pub get_attribute_value : ℕ → ℕ → NativeTypeNum → Option ℕ → Action S Cell
  pub set_attribute_value : ℕ → ℕ → Option NativeTypeNum → Cell → Action S (Unit {0})
  pub append_element : ℕ → Option NativeTypeNum → Cell → Action S (Unit {0})
  pub get_element_value_by_index : ℕ → ℤ → NativeTypeNum → Option ℕ → Action S Cell
  pub set_element_value_by_index : ℕ → ℤ → Option NativeTypeNum → Cell → Action S (Unit {0})
  pub get_first_index : ℕ → Action S (Option ℤ)
  pub get_last_index : ℕ → Action S (Option ℤ)
  pub get_next_index : ℕ → ℤ → Action S (Option ℤ)
  pub get_prev_index : ℕ → ℤ → Action S (Option ℤ)
  pub get_element_exists_by_index : ℕ → ℤ → Action S Bool
  pub delete_element_by_index : ℕ → ℤ → Action S (Unit {0})
  pub get_size : ℕ → Action S ℤ
  pub trim : ℕ → ℤ → Action S (Unit {0})
  pub copy : ℕ → Action S ℕ
  -- PyObject_GenericGetAttr and PyObject_GenericSetAttr
  pub generic_get_attr : Object → List ℕ → Action S Value
  pub generic_set_attr : Object → List ℕ → Option Value → Action S (Unit {0})
  -- PySequence_Fast of a value that is no list or tuple
  pub sequence_of : Value → Action S (List Value)
