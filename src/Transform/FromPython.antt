-- ===== src/Transform/FromPython.antt =====
-- cxoTransform_fromPython for every transform but JSON, which Json.antt adds.
use python_cx_oracle.Prelude.{
  ℕ, ◌*◌, ◌-◌, ◌/◌, ◌%◌, ◌^◌, Bool, true, false, not, ◌||◌, ltb, if◌then◌else◌,
}
use python_cx_oracle.Prelude.Int.{ℤ, pos, negsuc}
use python_cx_oracle.Error.{
  Result, ok, err, ◌>>=◌, wrong_lob_type, expecting_number, expecting_number_or_boolean,
  expecting_float, expecting_object, expecting_date, expecting_timedelta, value_not_convertible,
}
use python_cx_oracle.Types.{TransformNum, DbType, same_transform}
use python_cx_oracle.Py.{Value, Date, DateTime, Delta, codes, is_float, is_long, is_decimal}
use python_cx_oracle.Py.Calendar.{overflow_error}
use python_cx_oracle.Transform.Host.{Runtime, EncodingInfo}
use python_cx_oracle.Transform.Values.{
  Timestamp, IntervalDs, DbValue, Node, Buffer, buffer_from_object,
}

-- What the call does with the converted value: it fills the caller's dpiDataBuffer, from a buffer of
-- bytes or otherwise, or asks ODPI-C to set the variable.
pub data Write : Type 0 where
  -- a member of *dbValue
  store : DbValue → Write
  -- dbValue->asBytes, pointing into the buffer
  store_bytes : Buffer → Write
  -- the same, with *nativeTypeNum set to DPI_NATIVE_TYPE_BYTES
  store_as_bytes : Buffer → Write
  -- dpiVar_setFromLob, dpiVar_setFromObject
  set_from_lob set_from_object : ℕ → Write
  -- dpiLob_setFromBytes on the variable's own LOB
  set_lob_bytes : Buffer → Write
  -- dpiJson_setValue
  set_json : Node → Write

-- The test on the type of a LOB object.
abbrev pub lob_mismatch : DbType → TransformNum → Bool
lob_mismatch DbType.blob t = not (same_transform t TransformNum.blob)
lob_mismatch DbType.clob t = not (same_transform t TransformNum.clob)
lob_mismatch DbType.nclob t = not (same_transform t TransformNum.nclob)
lob_mismatch _ t = false

-- The value of a LOB variable that is no LOB object: its bytes.
unfoldable pub lob_bytes : Runtime → EncodingInfo → Bool → TransformNum → Value → Result Write
unfolding buffer_from_object
lob_bytes rt enc has_var t v =
    buffer_from_object rt v
      (if same_transform t TransformNum.nclob then enc.nencoding else enc.encoding)
    >>= λ b. ok (if has_var then Write.set_lob_bytes b else Write.store_as_bytes b)

-- The cases for BLOB, CLOB and NCLOB.
unfoldable pub from_lob : Runtime → EncodingInfo → Bool → TransformNum → Value → Result Write
unfolding lob_bytes
from_lob rt enc has_var t (Value.lob d h) =
    if lob_mismatch d t
    then err wrong_lob_type
    else ok (if has_var then Write.set_from_lob h else Write.store (DbValue.as_lob h))
from_lob rt enc has_var t v = lob_bytes rt enc has_var t v

-- `PyFloat_Check || PyLong_Check || decimal`
abbrev pub is_number : Value → Bool
is_number v = is_float v || (is_long v || is_decimal v)

-- PyLong_AsLong
unfoldable pub as_long : Runtime → ℤ → Result ℤ
as_long rt (pos n) = if ltb n (2 ^ (rt.long_bits - 1)) then ok (pos n) else err overflow_error
as_long rt (negsuc n) = if ltb n (2 ^ (rt.long_bits - 1)) then ok (negsuc n) else err overflow_error

-- int() of a number: an int is itself.
unfoldable pub long_value : Runtime → Value → Result ℤ
long_value rt (Value.int n) = ok n
long_value rt v = rt.long_of v

unfoldable pub int64_of_number : Runtime → Value → Result Write
unfolding as_long long_value
int64_of_number rt v =
    if is_number v
    then (long_value rt v >>= λ n. as_long rt n >>= λ m. ok (Write.store (DbValue.as_int64 m)))
    else err expecting_number_or_boolean

-- The case for NATIVE_INT.
unfoldable pub from_native_int : Runtime → Value → Result Write
unfolding int64_of_number
from_native_int rt (Value.bool b) = ok (Write.store (DbValue.as_int64 (pos (if b then 1 else 0))))
from_native_int rt v = int64_of_number rt v

unfoldable pub text_of_number : Runtime → ℕ → Value → Result Write
unfolding buffer_from_object
text_of_number rt encoding v =
    if is_number v
    then (rt.str_of v >>= λ s.
        buffer_from_object rt (Value.str s) encoding >>= λ b. ok (Write.store_bytes b))
    else err expecting_number

-- The case for INT, DECIMAL and FLOAT.
unfoldable pub from_number : Runtime → ℕ → Value → Result Write
unfolding text_of_number
from_number rt encoding (Value.bool b) = ok (
    Write.store_bytes
      (record { ptr = if b then codes "1" else codes "0"; size = 1; num_characters = 1 }))
from_number rt encoding v = text_of_number rt encoding v

-- The case for NATIVE_DOUBLE and NATIVE_FLOAT.
unfoldable pub from_double : Runtime → Bool → Value → Result Write
from_double rt single v =
    if is_number v
    then (rt.as_double v >>= λ x.
        ok (Write.store (if single then DbValue.as_float (rt.narrow x) else DbValue.as_double x)))
    else err expecting_float

abbrev pub midnight_of : Date → DateTime
midnight_of d = record { date = d; hour = 0; minute = 0; second = 0; microsecond = 0 }

-- The fields that are set after the memset; the offsets of the time zone stay zero.
abbrev pub timestamp_of : DateTime → Timestamp
timestamp_of t = record {
  year = t.year;
  month = t.month;
  day = t.day;
  hour = t.hour;
  minute = t.minute;
  second = t.second;
  fsecond = t.microsecond * 1000;
  tz_hour_offset = 0;
  tz_minute_offset = 0;
}

-- The case for the dates and timestamps.
unfoldable pub from_datetime : Value → Result Write
from_datetime (Value.datetime t) = ok (Write.store (DbValue.as_timestamp (timestamp_of t)))
from_datetime (Value.date d) =
    ok (Write.store (DbValue.as_timestamp (timestamp_of (midnight_of d))))
from_datetime _ = err expecting_date

abbrev pub interval_of : Delta → IntervalDs
interval_of d = record {
  days = d.days;
  hours = pos (d.seconds / 3600);
  minutes = pos (d.seconds % 3600 / 60);
  seconds = pos (d.seconds % 3600 % 60);
  fseconds = pos (d.microseconds * 1000);
}

-- The case for TIMEDELTA.
unfoldable pub from_timedelta : Value → Result Write
from_timedelta (Value.delta d) = ok (Write.store (DbValue.as_interval_ds (interval_of d)))
from_timedelta _ = err expecting_timedelta

-- The case for OBJECT.
unfoldable pub from_object : Bool → Value → Result Write
from_object has_var (Value.object t o) =
    ok (if has_var then Write.set_from_object o else Write.store (DbValue.as_object o))
from_object has_var _ = err expecting_object

-- PyObject_IsTrue
unfoldable pub object_is_true : Runtime → Value → Result Bool
object_is_true rt (Value.bool b) = ok b
object_is_true rt v = rt.is_true v

-- The case for BOOLEAN.
unfoldable pub from_boolean : Runtime → Value → Result Write
unfolding object_is_true
from_boolean rt v = object_is_true rt v >>= λ b. ok (Write.store (DbValue.as_boolean b))

-- The cases that keep bytes.
unfoldable pub from_text : Runtime → ℕ → Value → Result Write
unfolding buffer_from_object
from_text rt encoding v = buffer_from_object rt v encoding >>= λ b. ok (Write.store_bytes b)

-- cxoTransform_fromPython without the case for JSON.
unfoldable pub from_python_scalar :
    Runtime → EncodingInfo → Bool → TransformNum → Value → Result Write
unfolding from_lob from_native_int from_number from_double from_datetime from_timedelta from_object
    from_boolean from_text
from_python_scalar rt enc has_var TransformNum.boolean v = from_boolean rt v
from_python_scalar rt enc has_var TransformNum.binary v = from_text rt enc.encoding v
from_python_scalar rt enc has_var TransformNum.fixed_char v = from_text rt enc.encoding v
from_python_scalar rt enc has_var TransformNum.long_binary v = from_text rt enc.encoding v
from_python_scalar rt enc has_var TransformNum.long_string v = from_text rt enc.encoding v
from_python_scalar rt enc has_var TransformNum.string v = from_text rt enc.encoding v
from_python_scalar rt enc has_var TransformNum.fixed_nchar v = from_text rt enc.nencoding v
from_python_scalar rt enc has_var TransformNum.nstring v = from_text rt enc.nencoding v
from_python_scalar rt enc has_var TransformNum.blob v = from_lob rt enc has_var TransformNum.blob v
from_python_scalar rt enc has_var TransformNum.clob v = from_lob rt enc has_var TransformNum.clob v
from_python_scalar rt enc has_var TransformNum.nclob v =
    from_lob rt enc has_var TransformNum.nclob v
from_python_scalar rt enc has_var TransformNum.native_int v = from_native_int rt v
from_python_scalar rt enc has_var TransformNum.int v = from_number rt enc.encoding v
from_python_scalar rt enc has_var TransformNum.decimal v = from_number rt enc.encoding v
from_python_scalar rt enc has_var TransformNum.float v = from_number rt enc.encoding v
from_python_scalar rt enc has_var TransformNum.native_double v = from_double rt false v
from_python_scalar rt enc has_var TransformNum.native_float v = from_double rt true v
from_python_scalar rt enc has_var TransformNum.object v = from_object has_var v
from_python_scalar rt enc has_var TransformNum.date v = from_datetime v
from_python_scalar rt enc has_var TransformNum.datetime v = from_datetime v
from_python_scalar rt enc has_var TransformNum.timestamp v = from_datetime v
from_python_scalar rt enc has_var TransformNum.timestamp_ltz v = from_datetime v
from_python_scalar rt enc has_var TransformNum.timestamp_tz v = from_datetime v
from_python_scalar rt enc has_var TransformNum.timedelta v = from_timedelta v
from_python_scalar rt enc has_var _ v = err value_not_convertible
