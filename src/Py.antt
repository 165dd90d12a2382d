-- ===== src/Py.antt =====
-- The Python values that the extension is handed, as far as its code tells them apart. An instance
-- of a subclass stands under the constructor of its base class, as for the `_Check` macros.
pub mod Calendar
use Prim.Native.String
use Prim.Native.String.{String}
use Prim.Native.Char.{code}
use python_cx_oracle.Prelude.{ℕ, Bool, true, false, List, [], ◌∷◌, ◌||◌}
use python_cx_oracle.Prelude.Int.{ℤ}
use python_cx_oracle.Types.{DbType, ApiType}

-- The code points of a text literal.
abbrev pub codes : String → List ℕ
codes String.[] = []
codes (String.◌∷◌ c s) = code c ∷ codes s

pub record Date : Type 0 where
  pub year : ℕ
  pub month : ℕ
  pub day : ℕ

pub record DateTime : Type 0 where
  pub date : Date
  pub open date use *
  pub hour : ℕ
  pub minute : ℕ
  pub second : ℕ
  pub microsecond : ℕ

pub record Delta : Type 0 where
  pub days : ℤ
  pub seconds : ℕ
  pub microseconds : ℕ

-- The Python types that cxoTransform_getNumFromPythonType compares with, and any other.
pub data PyType : Type 0 where
  str bytes float int decimal bool date datetime delta other : PyType

-- A text is its code points. A float is its bit pattern, a Decimal its text. Cursors, variables,
-- database objects and object types are references.
mutual
  pub data Value : Type 0 where
    none : Value
    bool : Bool → Value
    str bytes : List ℕ → Value
    int : ℤ → Value
    float : ℕ → Value
    decimal : List ℕ → Value
    -- without a time zone
    datetime : DateTime → Value
    date : Date → Value
    delta : Delta → Value
    cursor : ℕ → Value
    object : ℕ → ℕ → Value
    lob : DbType → ℕ → Value
    var : ℕ → Value
    list tuple : Values → Value
    dict : Fields → Value
    db_type : DbType → Value
    api_type : ApiType → Value
    object_type : ℕ → Value
    py_type : PyType → Value
    other : ℕ → Value

  pub data Values : Type 0 where
    nil : Values
    cons : Value → Values → Values

  pub data Fields : Type 0 where
    end : Fields
    field : Value → Value → Fields → Fields

-- The elements of a Python list or tuple.
abbrev pub items : Values → List Value
items nil = []
items (cons v vs) = v ∷ items vs

-- The entries of a dictionary, in the order of PyDict_Next.
abbrev pub entries : Fields → List (Value × Value)
entries end = []
entries (field k v fs) = (k, v) ∷ entries fs

abbrev pub of_items : List Value → Values
of_items [] = nil
of_items (v ∷ vs) = cons v (of_items vs)

-- `value == Py_None`
abbrev pub is_none : Value → Bool
is_none Value.none = true
is_none _ = false

-- PyBool_Check
abbrev pub is_bool : Value → Bool
is_bool (Value.bool b) = true
is_bool _ = false

-- PyLong_Check: `bool` is a subclass of `int`.
abbrev pub is_long : Value → Bool
is_long (Value.int n) = true
is_long (Value.bool b) = true
is_long _ = false

-- PyUnicode_Check
abbrev pub is_unicode : Value → Bool
is_unicode (Value.str s) = true
is_unicode _ = false

-- PyBytes_Check
abbrev pub is_bytes : Value → Bool
is_bytes (Value.bytes s) = true
is_bytes _ = false

-- PyFloat_Check
abbrev pub is_float : Value → Bool
is_float (Value.float x) = true
is_float _ = false

-- PyObject_TypeCheck with decimal.Decimal
abbrev pub is_decimal : Value → Bool
is_decimal (Value.decimal x) = true
is_decimal _ = false

-- PyDateTime_Check
abbrev pub is_datetime : Value → Bool
is_datetime (Value.datetime d) = true
is_datetime _ = false

-- PyDate_Check: `datetime` is a subclass of `date`.
abbrev pub is_date : Value → Bool
is_date (Value.date d) = true
is_date (Value.datetime d) = true
is_date _ = false

-- PyDelta_Check
abbrev pub is_delta : Value → Bool
is_delta (Value.delta d) = true
is_delta _ = false

-- PyObject_TypeCheck with cx_Oracle.Cursor
abbrev pub is_cursor : Value → Bool
is_cursor (Value.cursor c) = true
is_cursor _ = false

-- PyObject_TypeCheck with cx_Oracle.Object
abbrev pub is_object : Value → Bool
is_object (Value.object t o) = true
is_object _ = false

-- cxoVar_check
abbrev pub is_var : Value → Bool
is_var (Value.var v) = true
is_var _ = false

-- PyList_Check
abbrev pub is_list : Value → Bool
is_list (Value.list vs) = true
is_list _ = false

-- PyDict_Check
abbrev pub is_dict : Value → Bool
is_dict (Value.dict fs) = true
is_dict _ = false

-- PySequence_Check, at the values of this model.
abbrev pub is_sequence : Value → Bool
is_sequence (Value.list vs) = true
is_sequence (Value.tuple vs) = true
is_sequence (Value.str s) = true
is_sequence (Value.bytes s) = true
is_sequence _ = false
