-- ===== src/Object/Values.antt =====
-- cxoObject_convertFromPython and cxoObject_convertToPython.
use python_cx_oracle.Prelude.{ℕ, ◌&&◌, Bool, true, false, Option, none, some, if◌then◌else◌}
use python_cx_oracle.Error.{Result, ok, err, ◌>>=◌, undefined, value_not_convertible}
use python_cx_oracle.Types.{TransformNum, OracleTypeNum, NativeTypeNum, Transform}
use python_cx_oracle.Py.{Value, is_none}
use python_cx_oracle.Transform.{DbValue, Write, Context, empty_buffer}
use python_cx_oracle.Json.{from_python, to_python, write_value}
use python_cx_oracle.Var.{Cell, null_cell}
use python_cx_oracle.Var.{type_info, is_bytes_type}
use python_cx_oracle.Object.State.{Object, ObjectApi}

-- What cxoTransform_fromPython does with a NULL value: cxoBuffer_fromObject takes it for None, the
-- other cases read the type of the value.
unfoldable pub from_null : TransformNum → Result Write
from_null TransformNum.binary = ok (Write.store_bytes empty_buffer)
from_null TransformNum.fixed_char = ok (Write.store_bytes empty_buffer)
from_null TransformNum.long_binary = ok (Write.store_bytes empty_buffer)
from_null TransformNum.long_string = ok (Write.store_bytes empty_buffer)
from_null TransformNum.string = ok (Write.store_bytes empty_buffer)
from_null TransformNum.fixed_nchar = ok (Write.store_bytes empty_buffer)
from_null TransformNum.nstring = ok (Write.store_bytes empty_buffer)
from_null TransformNum.none = err value_not_convertible
from_null TransformNum.bfile = err value_not_convertible
from_null TransformNum.cursor = err value_not_convertible
from_null TransformNum.rowid = err value_not_convertible
from_null _ = err undefined

abbrev pub store_cell : DbValue → Cell
store_cell db = record { is_null = false; value = db }

-- The native type and the dpiData after the conversion. Without a variable nothing is asked of
-- ODPI-C but to set a JSON value, whose handle has not been set.
unfoldable pub element_data : NativeTypeNum → Write → Result (Option NativeTypeNum × Cell)
element_data native (Write.store db) = ok (some native, store_cell db)
element_data native (Write.store_bytes b) =
    ok (some native, store_cell (write_value (Write.store_bytes b)))
element_data native (Write.store_as_bytes b) =
    ok (some NativeTypeNum.bytes, store_cell (write_value (Write.store_as_bytes b)))
element_data native _ = err undefined

abbrev is_number_type : OracleTypeNum → Bool
is_number_type OracleTypeNum.number = true
is_number_type _ = false

-- The size of numberAsStringBuffer, where data.value.asBytes is set to it.
abbrev pub number_buffer : Transform → Option ℕ
number_buffer i =
    if is_number_type i.oracle_type_num && is_bytes_type i.native_type_num then some 200 else none

module _ {S : Type 0} (api : ObjectApi S) where
  abbrev pub fill_data : Object → TransformNum → Option Value → Result (Option NativeTypeNum × Cell)
  fill_data obj t none = type_info t >>= λ i. from_null t >>= λ w. element_data i.native_type_num w
  fill_data obj t (some v) = type_info t >>= λ i.
      from_python api.runtime obj.object_type.encodings false t v >>= λ w.
      element_data i.native_type_num w

  abbrev is_given_none : Option Value → Bool
  is_given_none none = false
  is_given_none (some v) = is_none v

  -- cxoObject_convertFromPython: `none` is a NULL value. The native type of None stays 0.
  unfoldable pub convert_from_python :
      Object → TransformNum → Option Value → Result (Option NativeTypeNum × Cell)
  unfolding from_null element_data
  convert_from_python obj t value =
      if is_given_none value then ok (none, null_cell) else fill_data obj t value

  abbrev context : Object → ℕ → DbValue → Context
  context obj ot db = record {
    object_type = ot;
    bytes_encoding = api.bytes_encoding db;
    encoding_errors = none;
    encodings = obj.object_type.encodings;
  }

  -- cxoTransform_toPython. cxoObject_new reads the object type.
  abbrev scalar_of : Object → TransformNum → Option ℕ → DbValue → Result Value
  scalar_of obj t (some ot) db = to_python api.runtime (context obj ot db) api.json_value t db
  scalar_of obj TransformNum.object none db = err undefined
  scalar_of obj t none db = to_python api.runtime (context obj 0 db) api.json_value t db

  -- cxoObject_convertToPython
  unfoldable pub convert_to_python : Object → TransformNum → Option ℕ → Cell → Result Value
  convert_to_python obj t ot c = if c.is_null then ok Value.none else scalar_of obj t ot c.value
