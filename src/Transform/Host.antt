-- ===== src/Transform/Host.antt =====
-- What the conversions take from the Python runtime and from ODPI-C, as functions without laws. A
-- theorem that needs a law of one of them has it as a hypothesis.
use python_cx_oracle.Prelude.{ℕ, Bool, Option, List}
use python_cx_oracle.Prelude.Int.{ℤ}
use python_cx_oracle.Error.{Result}
use python_cx_oracle.Py.{Value}

-- Encodings are known by their names, which are only passed on: a number stands for a name.
pub record Runtime : Type 0 where
  -- cxoClientVersionInfo.versionNum
  pub version : ℕ
  -- PyUnicode_AsEncodedString and PyUnicode_Decode, with the error handler of the latter
  pub encode : ℕ → List ℕ → Result (List ℕ)
  pub decode : ℕ → Option ℕ → List ℕ → Result (List ℕ)
  -- PyObject_Str, and int, float and Decimal of a text
  pub str_of : Value → Result (List ℕ)
  pub parse_int : List ℕ → Result ℤ
  pub parse_float : List ℕ → Result ℕ
  pub parse_decimal : List ℕ → Result (List ℕ)
  -- the bits of a C long: 32 on Windows, 64 on most other platforms
  pub long_bits : ℕ
  -- int() of a number, PyFloat_AsDouble, the C conversions between double and float
  pub long_of : Value → Result ℤ
  pub as_double : Value → Result ℕ
  pub narrow : ℕ → ℕ
  pub widen : ℕ → ℕ
  -- PyObject_IsTrue of a value that is no bool
  pub is_true : Value → Result Bool
  -- connection.cursor() around a statement handle, and dpiRowid_getStringValue
  pub new_cursor : ℕ → Result ℕ
  pub rowid_string : ℕ → Result (List ℕ)

-- dpiEncodingInfo: the encoding of CHAR data and that of NCHAR data.
pub record EncodingInfo : Type 0 where
  pub encoding : ℕ
  pub nencoding : ℕ
