-- ===== src/Transform/Values.antt =====
-- The values that pass between the extension and ODPI-C: dpiDataBuffer with its structures, and
-- cxoBuffer with cxoBuffer_fromObject (src/cxoBuffer.c).
use python_cx_oracle.Prelude.{ℕ, ◌-◌, ◌%◌, ◌^◌, Bool, List, [], length}
use python_cx_oracle.Prelude.Int.{ℤ, pos, negsuc}
use python_cx_oracle.Error.{Result, ok, err, ◌>>=◌, expecting_string_or_bytes}
use python_cx_oracle.Types.{OracleTypeNum, NativeTypeNum}
use python_cx_oracle.Py.{Value}
use python_cx_oracle.Transform.Host.{Runtime}

pub record Timestamp : Type 0 where
  pub year : ℕ
  pub month : ℕ
  pub day : ℕ
  pub hour : ℕ
  pub minute : ℕ
  pub second : ℕ
  pub fsecond : ℕ
  pub tz_hour_offset : ℕ
  pub tz_minute_offset : ℕ

pub record IntervalDs : Type 0 where
  pub days : ℤ
  pub hours : ℤ
  pub minutes : ℤ
  pub seconds : ℤ
  pub fseconds : ℤ

-- dpiDataBuffer with the member that is in use, and dpiJsonNode. LOBs, objects, statements, rowids
-- and JSON values are handles.
mutual
  pub data DbValue : Type 0 where
    unset : DbValue
    as_boolean : Bool → DbValue
    as_int64 : ℤ → DbValue
    as_double as_float : ℕ → DbValue
    as_bytes : List ℕ → DbValue
    as_timestamp : Timestamp → DbValue
    as_interval_ds : IntervalDs → DbValue
    as_lob as_object as_stmt as_rowid as_json : ℕ → DbValue
    as_json_array : Nodes → DbValue
    as_json_object : NodeFields → DbValue

  pub data Node : Type 0 where
    node : OracleTypeNum → NativeTypeNum → DbValue → Node

  pub data Nodes : Type 0 where
    nil : Nodes
    cons : Node → Nodes → Nodes

  pub data NodeFields : Type 0 where
    end : NodeFields
    field : List ℕ → Node → NodeFields → NodeFields

-- cxoBuffer: the bytes that `ptr` points to, and the two lengths, each a uint32_t.
pub record Buffer : Type 0 where
  pub ptr : List ℕ
  pub size : ℕ
  pub num_characters : ℕ

-- cxoBuffer_init
abbrev pub empty_buffer : Buffer
empty_buffer = record { ptr = []; size = 0; num_characters = 0 }

-- The conversion to uint32_t.
abbrev pub to_uint32 : ℕ → ℕ
to_uint32 n = n % 2 ^ 32

-- The uint32_t of an int that has been converted to a long.
abbrev pub uint32_of : ℤ → ℕ
uint32_of (pos n) = to_uint32 n
uint32_of (negsuc n) = 2 ^ 32 - 1 - n % 2 ^ 32

-- cxoBuffer_fromObject
unfoldable pub buffer_from_object : Runtime → Value → ℕ → Result Buffer
buffer_from_object rt Value.none encoding = ok empty_buffer
buffer_from_object rt (Value.str s) encoding = rt.encode encoding s >>= λ b.
    ok (record { ptr = b; size = to_uint32 (length b); num_characters = to_uint32 (length s) })
buffer_from_object rt (Value.bytes b) encoding =
    ok (record { ptr = b; size = to_uint32 (length b); num_characters = to_uint32 (length b) })
buffer_from_object rt _ encoding = err expecting_string_or_bytes
