-- ===== src/Var/State.antt =====
-- The fields of struct cxoVar (src/cxoModule.h), and the calls that leave src/cxoVar.c.
use python_cx_oracle.Prelude.{ℕ, Bool, true, Option, List}
use python_cx_oracle.Action.{Action}
use python_cx_oracle.Types.{TransformNum, OracleTypeNum, NativeTypeNum, DbType}
use python_cx_oracle.Py.{Value}
use python_cx_oracle.Transform.{DbValue, Write}

-- dpiData: an element of a variable
pub record Cell : Type 0 where
  pub is_null : Bool
  pub value : DbValue

-- `elements` is `data`, which points to an array of ODPI-C with as many elements as were allocated.
pub record Var : Type 0 where
  pub handle : ℕ
  pub elements : List Cell
  pub in_converter : Option ℕ
  pub out_converter : Option ℕ
  pub object_type : Option ℕ
  pub allocated_elements : ℕ
  pub size : ℕ
  pub buffer_size : ℕ
  pub is_array : Bool
  pub is_value_set : Bool
  pub get_returned_data : Bool
  pub transform_num : TransformNum
  pub native_type_num : NativeTypeNum
  pub db_type : DbType

abbrev pub null_cell : Cell
null_cell = record { is_null = true; value = DbValue.unset }

abbrev pub bytes_cell : List ℕ → Cell
bytes_cell b = record { is_null = Bool.false; value = DbValue.as_bytes b }

-- The calls of a variable that leave this file, on a state `S` that they share. A call that writes
-- into the elements of a variable is given them and returns them.
pub record Dpi (S : Type 0) : Type 0 where
  -- dpiConn_newVar: Oracle type, native type, elements, size, whether an array, object type
  pub new_var : OracleTypeNum → NativeTypeNum → ℕ → ℕ → Bool → Option ℕ → Action S (ℕ × List Cell)
  -- dpiVar_getSizeInBytes, dpiVar_release
  pub size_in_bytes : ℕ → Action S ℕ
  pub release : ℕ → Action S (Unit {0})
  pub get_num_elements : ℕ → Action S ℕ
  pub set_num_elements : ℕ → ℕ → Action S (Unit {0})
  -- dpiVar_setFromBytes
  pub set_from_bytes : ℕ → List Cell → ℕ → List ℕ → Action S (List Cell)
  -- what cxoTransform_fromPython asks of ODPI-C for an element, or stores in it
  pub write : ℕ → List Cell → ℕ → Write → Action S (List Cell)
  -- cxoVar_setValueCursor
  pub set_cursor : ℕ → List Cell → ℕ → Value → Action S (List Cell)
  -- inConverter and outConverter
  pub convert : ℕ → Value → Action S Value
  -- dpiVar_getReturnedData, and the reference that a LOB or an object gets with its Python object
  pub returned_data : ℕ → ℕ → Action S (List Cell)
  pub add_ref : DbValue → Action S (Unit {0})
  -- cxoTransform_toPython
  pub to_python : Var → DbValue → Action S Value
