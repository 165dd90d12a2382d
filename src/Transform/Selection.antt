-- ===== src/Transform/Selection.antt =====
-- Which transform a Python value or type gets, and the size of a variable that holds it.
use python_cx_oracle.Prelude.{
  ℕ, ◌+◌, Bool, true, false, not, ◌||◌, Option, none, some, List, [], ◌∷◌, length, ltb,
  if◌then◌else◌,
}
use python_cx_oracle.Error.{
  Result, ok, err, ◌>>=◌, expecting_type, type_not_supported, value_not_supported,
  element_not_supported, element_type_differs,
}
use python_cx_oracle.Types.{TransformNum, default_transform, api_transform, same_transform}
use python_cx_oracle.Py.{
  Value, PyType, items, is_none, is_bool, is_unicode, is_bytes, is_long, is_float, is_datetime,
  is_date, is_delta, is_cursor, is_decimal, is_object,
}

-- The last case of cxoTransform_getNumFromPythonValue: the transform of a LOB is that of its type.
abbrev pub lob_transform : Value → TransformNum
lob_transform (Value.lob d h) = default_transform d
lob_transform _ = TransformNum.unsupported

-- cxoTransform_getNumFromPythonValue
unfoldable pub get_num_from_python_value : ℕ → Bool → Value → TransformNum
unfolding default_transform
get_num_from_python_value version plsql v =
    if is_none v
    then TransformNum.none
    else if is_bool v
    then (if ltb version 12 || not plsql then TransformNum.native_int else TransformNum.boolean)
    else if is_unicode v
    then TransformNum.string
    else if is_bytes v
    then TransformNum.binary
    else if is_long v
    then TransformNum.int
    else if is_float v
    then TransformNum.float
    else if is_datetime v
    then TransformNum.datetime
    else if is_date v
    then TransformNum.date
    else if is_delta v
    then TransformNum.timedelta
    else if is_cursor v
    then TransformNum.cursor
    else if is_decimal v
    then TransformNum.decimal
    else if is_object v
    then TransformNum.object
    else lob_transform v

-- cxoTransform_getNumFromPythonType
unfoldable pub get_num_from_python_type : PyType → TransformNum
get_num_from_python_type PyType.str = TransformNum.string
get_num_from_python_type PyType.bytes = TransformNum.binary
get_num_from_python_type PyType.float = TransformNum.float
get_num_from_python_type PyType.int = TransformNum.int
get_num_from_python_type PyType.decimal = TransformNum.decimal
get_num_from_python_type PyType.bool = TransformNum.boolean
get_num_from_python_type PyType.date = TransformNum.date
get_num_from_python_type PyType.datetime = TransformNum.datetime
get_num_from_python_type PyType.delta = TransformNum.timedelta
get_num_from_python_type PyType.other = TransformNum.unsupported

abbrev is_unsupported : TransformNum → Bool
is_unsupported t = same_transform t TransformNum.unsupported

-- cxoTransform_getNumFromType: the transform and the object type, if there is one.
unfoldable pub get_num_from_type : Value → Result (TransformNum × Option ℕ)
unfolding default_transform api_transform get_num_from_python_type
get_num_from_type (Value.db_type d) = ok (default_transform d, none)
get_num_from_type (Value.api_type a) = ok (api_transform a, none)
get_num_from_type (Value.object_type o) = ok (TransformNum.object, some o)
get_num_from_type (Value.py_type t) =
    if is_unsupported (get_num_from_python_type t)
    then err type_not_supported
    else ok (get_num_from_python_type t, none)
get_num_from_type _ = err expecting_type

-- The length that PyBytes_GET_SIZE or PyUnicode_GET_LENGTH reads.
abbrev pub text_length : Value → ℕ
text_length (Value.str s) = length s
text_length (Value.bytes s) = length s
text_length _ = 0

-- cxoTransform_calculateSize
unfoldable pub calculate_size : Value → TransformNum → ℕ
calculate_size v TransformNum.none = 1
calculate_size v TransformNum.binary = text_length v
calculate_size v TransformNum.nstring = text_length v
calculate_size v TransformNum.string = text_length v
calculate_size v _ = 0

-- What cxoTransform_getNumFromValue returns through its pointers.
pub record ValueInfo : Type 0 where
  pub transform_num : TransformNum
  pub size : ℕ
  pub is_array : Bool
  pub num_elements : ℕ

-- The transform after one more element: the first that is not for None counts, and every later one
-- has to be the same.
unfoldable pub merge_transform : ℕ → TransformNum → TransformNum → Result TransformNum
merge_transform i t u =
    if is_unsupported u
    then err (element_not_supported i)
    else if same_transform t TransformNum.none
    then ok u
    else if same_transform t u
    then ok t
    else err (element_type_differs i)

abbrev pub max_size : ℕ → ℕ → ℕ
max_size size temp_size = if ltb size temp_size then temp_size else size

-- The loop over the elements of an array, from position `i`.
unfoldable pub scan_elements : ℕ → ℕ → TransformNum → ℕ → List Value → Result (TransformNum × ℕ)
unfolding merge_transform calculate_size get_num_from_python_value
scan_elements version i t size [] = ok (t, size)
scan_elements version i t size (v ∷ vs) =
    merge_transform i t (get_num_from_python_value version true v) >>= λ u.
    scan_elements version (i + 1) u (max_size size (calculate_size v u)) vs

-- cxoTransform_getNumFromValue on an array.
unfoldable pub get_num_from_array : ℕ → List Value → Result ValueInfo
unfolding scan_elements
get_num_from_array version vs = scan_elements version 0 TransformNum.none 0 vs >>= λ r.
    ok (record { transform_num = r.0; size = r.1; is_array = true; num_elements = length vs })

-- cxoTransform_getNumFromValue on any other value.
unfoldable pub get_num_from_scalar : ℕ → Value → ℕ → Bool → Result ValueInfo
unfolding calculate_size get_num_from_python_value
get_num_from_scalar version v num_elements plsql =
    let t = get_num_from_python_value version plsql v in
    if is_unsupported t
    then err value_not_supported
    else ok (record {
      transform_num = t;
      size = calculate_size v t;
      is_array = false;
      num_elements = num_elements;
    })

-- cxoTransform_getNumFromValue
unfoldable pub get_num_from_value : ℕ → Value → ℕ → Bool → Result ValueInfo
unfolding get_num_from_array get_num_from_scalar
get_num_from_value version (Value.list vs) num_elements plsql =
    get_num_from_array version (items vs)
get_num_from_value version v num_elements plsql = get_num_from_scalar version v num_elements plsql
