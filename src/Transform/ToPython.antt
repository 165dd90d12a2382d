-- ===== src/Transform/ToPython.antt =====
-- cxoTransform_toPython for every transform but JSON, which Json.antt adds.
use python_cx_oracle.Prelude.{ℕ, ◌/◌, Bool, false, ◌||◌, ◌==◌, Option, none, List, [], ◌∷◌}
use python_cx_oracle.Prelude.Int.{ℤ, ◌+ℤ◌, scale, quot}
use python_cx_oracle.Error.{Result, ok, err, ◌>>=◌, undefined, value_not_convertible}
use python_cx_oracle.Types.{TransformNum, db_type_from_transform}
use python_cx_oracle.Py.{Value, DateTime}
use python_cx_oracle.Py.Calendar.{make_date, make_datetime, make_delta}
use python_cx_oracle.Transform.Host.{Runtime, EncodingInfo}
use python_cx_oracle.Transform.Values.{Timestamp, IntervalDs, DbValue}

-- The arguments besides the transform and the value: the object type, the encoding that ODPI-C gives
-- for the bytes, the error handler for decoding, the encodings of the connection.
pub record Context : Type 0 where
  pub object_type : ℕ
  pub bytes_encoding : ℕ
  pub encoding_errors : Option ℕ
  pub encodings : EncodingInfo

-- The members of the union, each with what a read of it returns.
abbrev pub read_bytes : DbValue → Result (List ℕ)
read_bytes (DbValue.as_bytes b) = ok b
read_bytes _ = err undefined

abbrev pub read_timestamp : DbValue → Result Timestamp
read_timestamp (DbValue.as_timestamp t) = ok t
read_timestamp _ = err undefined

abbrev pub read_interval : DbValue → Result IntervalDs
read_interval (DbValue.as_interval_ds i) = ok i
read_interval _ = err undefined

abbrev pub read_boolean : DbValue → Result Bool
read_boolean (DbValue.as_boolean b) = ok b
read_boolean _ = err undefined

abbrev pub read_int64 : DbValue → Result ℤ
read_int64 (DbValue.as_int64 n) = ok n
read_int64 _ = err undefined

abbrev pub read_double : DbValue → Result ℕ
read_double (DbValue.as_double x) = ok x
read_double _ = err undefined

abbrev pub read_float : DbValue → Result ℕ
read_float (DbValue.as_float x) = ok x
read_float _ = err undefined

abbrev pub read_lob : DbValue → Result ℕ
read_lob (DbValue.as_lob h) = ok h
read_lob _ = err undefined

abbrev pub read_object : DbValue → Result ℕ
read_object (DbValue.as_object h) = ok h
read_object _ = err undefined

abbrev pub read_stmt : DbValue → Result ℕ
read_stmt (DbValue.as_stmt h) = ok h
read_stmt _ = err undefined

abbrev pub read_rowid : DbValue → Result ℕ
read_rowid (DbValue.as_rowid h) = ok h
read_rowid _ = err undefined

-- memchr(ptr, '.', length)
unfoldable pub has_point : List ℕ → Bool
has_point [] = false
has_point (c ∷ cs) = (c == b'.') || has_point cs

-- The case for the bytes.
unfoldable pub to_bytes : DbValue → Result Value
to_bytes db = read_bytes db >>= λ b. ok (Value.bytes b)

-- The cases for texts.
unfoldable pub to_text : Runtime → Context → DbValue → Result Value
to_text rt ctx db = read_bytes db >>= λ b.
    rt.decode ctx.bytes_encoding ctx.encoding_errors b >>= λ s. ok (Value.str s)

-- The case for DECIMAL, INT and FLOAT: an INT with a decimal point becomes a float.
unfoldable pub number_of_text : Runtime → TransformNum → Bool → List ℕ → Result Value
number_of_text rt TransformNum.int false s = rt.parse_int s >>= λ n. ok (Value.int n)
number_of_text rt TransformNum.decimal point s = rt.parse_decimal s >>= λ d. ok (Value.decimal d)
number_of_text rt _ point s = rt.parse_float s >>= λ x. ok (Value.float x)

unfoldable pub to_number : Runtime → Context → TransformNum → DbValue → Result Value
unfolding number_of_text has_point
to_number rt ctx t db = read_bytes db >>= λ b.
    rt.decode ctx.bytes_encoding ctx.encoding_errors b >>= λ s. number_of_text rt t (has_point b) s

-- The case for LOBs: cxoLob_new with the database type of the transform.
unfoldable pub to_lob : TransformNum → DbValue → Result Value
unfolding db_type_from_transform
to_lob t db = db_type_from_transform t >>= λ d. read_lob db >>= λ h. ok (Value.lob d h)

-- The case for DATE.
unfoldable pub to_date : DbValue → Result Value
unfolding make_date
to_date db = read_timestamp db >>= λ t.
    make_date (record { year = t.year; month = t.month; day = t.day }) >>= λ d. ok (Value.date d)

-- The fields that the code reads, which are those of a datetime without a time zone.
abbrev pub datetime_of : Timestamp → DateTime
datetime_of t = record {
  date = record { year = t.year; month = t.month; day = t.day };
  hour = t.hour;
  minute = t.minute;
  second = t.second;
  microsecond = t.fsecond / 1000;
}

-- The case for DATETIME and the timestamps.
unfoldable pub to_datetime : DbValue → Result Value
unfolding make_datetime
to_datetime db =
    read_timestamp db >>= λ t. make_datetime (datetime_of t) >>= λ d. ok (Value.datetime d)

-- The case for TIMEDELTA.
unfoldable pub to_timedelta : DbValue → Result Value
unfolding make_delta
to_timedelta db = read_interval db >>= λ i.
    make_delta i.days (scale i.hours 3600 +ℤ scale i.minutes 60 +ℤ i.seconds) (quot i.fseconds 1000)
    >>= λ d. ok (Value.delta d)

-- The case for ROWID, decoded with the encoding of the connection.
unfoldable pub to_rowid : Runtime → Context → DbValue → Result Value
to_rowid rt ctx db = read_rowid db >>= λ h.
    rt.rowid_string h >>= λ b. rt.decode ctx.encodings.encoding none b >>= λ s. ok (Value.str s)

-- cxoTransform_toPython without the case for JSON.
unfoldable pub to_python_scalar : Runtime → Context → TransformNum → DbValue → Result Value
unfolding to_bytes to_text to_number to_lob to_date to_datetime to_timedelta to_rowid
to_python_scalar rt ctx TransformNum.binary db = to_bytes db
to_python_scalar rt ctx TransformNum.long_binary db = to_bytes db
to_python_scalar rt ctx TransformNum.bfile db = to_lob TransformNum.bfile db
to_python_scalar rt ctx TransformNum.blob db = to_lob TransformNum.blob db
to_python_scalar rt ctx TransformNum.clob db = to_lob TransformNum.clob db
to_python_scalar rt ctx TransformNum.nclob db = to_lob TransformNum.nclob db
to_python_scalar rt ctx TransformNum.boolean db = read_boolean db >>= λ b. ok (Value.bool b)
to_python_scalar rt ctx TransformNum.cursor db =
    read_stmt db >>= λ h. rt.new_cursor h >>= λ c. ok (Value.cursor c)
to_python_scalar rt ctx TransformNum.date db = to_date db
to_python_scalar rt ctx TransformNum.datetime db = to_datetime db
to_python_scalar rt ctx TransformNum.timestamp db = to_datetime db
to_python_scalar rt ctx TransformNum.timestamp_ltz db = to_datetime db
to_python_scalar rt ctx TransformNum.timestamp_tz db = to_datetime db
to_python_scalar rt ctx TransformNum.fixed_char db = to_text rt ctx db
to_python_scalar rt ctx TransformNum.fixed_nchar db = to_text rt ctx db
to_python_scalar rt ctx TransformNum.long_string db = to_text rt ctx db
to_python_scalar rt ctx TransformNum.nstring db = to_text rt ctx db
to_python_scalar rt ctx TransformNum.string db = to_text rt ctx db
to_python_scalar rt ctx TransformNum.native_double db = read_double db >>= λ x. ok (Value.float x)
to_python_scalar rt ctx TransformNum.native_float db =
    read_float db >>= λ x. ok (Value.float (rt.widen x))
to_python_scalar rt ctx TransformNum.native_int db = read_int64 db >>= λ n. ok (Value.int n)
to_python_scalar rt ctx TransformNum.decimal db = to_number rt ctx TransformNum.decimal db
to_python_scalar rt ctx TransformNum.int db = to_number rt ctx TransformNum.int db
to_python_scalar rt ctx TransformNum.float db = to_number rt ctx TransformNum.float db
to_python_scalar rt ctx TransformNum.object db =
    read_object db >>= λ h. ok (Value.object ctx.object_type h)
to_python_scalar rt ctx TransformNum.rowid db = to_rowid rt ctx db
to_python_scalar rt ctx TransformNum.timedelta db = to_timedelta db
to_python_scalar rt ctx _ db = err value_not_convertible
