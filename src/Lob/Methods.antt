-- ===== src/Lob/Methods.antt =====
-- The fields of struct cxoLob (src/cxoModule.h), the calls of ODPI-C, and the methods of a LOB.
use python_cx_oracle.Prelude.{
  ℕ, ◌+◌, ◌-◌, ◌%◌, ◌^◌, Bool, true, false, Option, none, some, List, ◌==◌, leb, ltb, ◌&&◌,
  if◌then◌else◌,
}
use python_cx_oracle.Prelude.Int.{ℤ, pos, negsuc}
use python_cx_oracle.Error.{Result, ok, ◌>>=◌ as ◌and_then◌, no_memory, size_specified_twice}
use python_cx_oracle.Action.{Action, pure, raise, lift, ◌>>=◌, ◌>>◌}
use python_cx_oracle.Types.{DbType}
use python_cx_oracle.Py.{Value, Values, PyType}
use python_cx_oracle.Transform.{Runtime, EncodingInfo, buffer_from_object}
use python_cx_oracle.Json.{buffer_bytes}

-- `encodings` is connection->encodingInfo.
pub record Lob : Type 0 where
  pub handle : ℕ
  pub db_type : DbType
  pub encodings : EncodingInfo

-- The calls of ODPI-C, on a state `S`; PyMem_Malloc may return NULL.
pub record LobApi (S : Type 0) : Type 0 where
  pub runtime : Runtime
  pub get_size : ℕ → Action S ℕ
  pub get_buffer_size : ℕ → ℕ → Action S ℕ
  pub malloc : ℕ → Action S Bool
  -- dpiLob_readBytes: offset, amount, size of the buffer
  pub read_bytes : ℕ → ℕ → ℕ → ℕ → Action S (List ℕ)
  pub write_bytes : ℕ → ℕ → List ℕ → Action S (Unit {0})
  pub open_resource : ℕ → Action S (Unit {0})
  pub close_resource : ℕ → Action S (Unit {0})
  pub get_is_resource_open : ℕ → Action S Bool
  pub trim : ℕ → ℕ → Action S (Unit {0})
  pub get_chunk_size : ℕ → Action S ℕ
  pub get_directory_and_file_name : ℕ → Action S (List ℕ × List ℕ)
  pub set_directory_and_file_name : ℕ → List ℕ → List ℕ → Action S (Unit {0})
  pub get_file_exists : ℕ → Action S Bool

abbrev is_nclob : DbType → Bool
is_nclob DbType.nclob = true
is_nclob _ = false

-- What the bytes of a LOB of the type become.
unfoldable pub lob_value : Runtime → Lob → List ℕ → Result Value
lob_value rt lob b = elim lob.db_type [
  | DbType.nclob ↦ rt.decode lob.encodings.nencoding none b and_then λ s. ok (Value.str s)
  | DbType.clob ↦ rt.decode lob.encodings.encoding none b and_then λ s. ok (Value.str s)
  | _ ↦ ok (Value.bytes b)
]

-- The format "K": an int modulo 2 ^ 64, without a check.
unfoldable pub as_uint64 : ℕ → Option ℤ → ℕ
as_uint64 default none = default
as_uint64 default (some (pos n)) = n % 2 ^ 64
as_uint64 default (some (negsuc n)) = 2 ^ 64 - 1 - n % 2 ^ 64

-- (uint64_t)(-1)
abbrev pub whole : ℕ
whole = 18446744073709551615

-- The amount from the offset to the end.
abbrev pub rest_amount : ℕ → ℕ → ℕ
rest_amount size offset = if leb offset size then (size - offset + 1) % 2 ^ 64 else 1

-- The size that trim takes: 0 where neither is given.
abbrev pub trim_size : ℕ → ℕ → ℕ
trim_size new_size deprecated = if ltb 0 deprecated then deprecated else new_size

-- Py_TYPE of what str returns
abbrev type_of_value : Value → PyType
type_of_value (Value.str s) = PyType.str
type_of_value (Value.bytes b) = PyType.bytes
type_of_value _ = PyType.other

module _ {S : Type 0} (api : LobApi S) (lob : Lob) where
  abbrev pub amount_to_read : ℕ → ℕ → Action S ℕ
  amount_to_read offset amount =
      if amount == whole
      then (api.get_size lob.handle >>= λ size. pure (rest_amount size offset))
      else pure amount

  abbrev pub read_into : ℕ → ℕ → ℕ → Bool → Action S Value
  read_into offset amount size true =
      api.read_bytes lob.handle offset amount size >>= λ b. lift (lob_value api.runtime lob b)
  read_into offset amount size false = raise no_memory

  abbrev pub read_amount : ℕ → ℕ → Action S Value
  read_amount offset amount = api.get_buffer_size lob.handle amount >>= λ size.
      api.malloc size >>= read_into offset amount size

  -- cxoLob_internalRead
  unfoldable pub internal_read : ℕ → ℕ → Action S Value
  unfolding lob_value
  internal_read offset amount = amount_to_read offset amount >>= read_amount offset

  -- cxoLob_internalWrite
  unfoldable pub internal_write : Value → ℕ → Action S (Unit {0})
  unfolding buffer_from_object
  internal_write data_obj offset = do
    let enc = if is_nclob lob.db_type then lob.encodings.nencoding else lob.encodings.encoding
    b ← lift (buffer_from_object api.runtime data_obj enc)
    api.write_bytes lob.handle offset (buffer_bytes b)

  -- cxoLob_read
  unfoldable pub read : Option ℤ → Option ℤ → Action S Value
  unfolding internal_read as_uint64
  read offset amount = internal_read (as_uint64 1 offset) (as_uint64 whole amount)

  -- cxoLob_str
  unfoldable pub str : Action S Value
  unfolding internal_read
  str = internal_read 1 whole

  -- cxoLob_write
  unfoldable pub write : Value → Option ℤ → Action S Value
  unfolding internal_write as_uint64
  write data_obj offset = internal_write data_obj (as_uint64 1 offset) >> pure Value.none

  -- cxoLob_trim, with the arguments new_size and newSize
  unfoldable pub trim_lob : Option ℤ → Option ℤ → Action S Value
  unfolding as_uint64
  trim_lob new_size new_size_deprecated =
      let size = as_uint64 0 new_size in
      let deprecated = as_uint64 0 new_size_deprecated in
      if ltb 0 deprecated && ltb 0 size
      then raise size_specified_twice
      else (api.trim lob.handle (trim_size size deprecated) >> pure Value.none)

  -- cxoLob_reduce
  unfoldable pub reduce : Action S Value
  unfolding str
  reduce = str >>= λ v. pure (
      Value.tuple (
        Values.cons (Value.py_type (type_of_value v))
          (Values.cons (Value.tuple (Values.cons v Values.nil)) Values.nil)))

  -- cxoLob_size, cxoLob_open, cxoLob_close, cxoLob_getChunkSize, cxoLob_isOpen, cxoLob_fileExists
  unfoldable pub size : Action S Value
  size = api.get_size lob.handle >>= λ n. pure (Value.int (pos n))

  unfoldable pub open_lob : Action S Value
  open_lob = api.open_resource lob.handle >> pure Value.none

  unfoldable pub close_lob : Action S Value
  close_lob = api.close_resource lob.handle >> pure Value.none

  unfoldable pub get_chunk_size : Action S Value
  get_chunk_size = api.get_chunk_size lob.handle >>= λ n. pure (Value.int (pos n))

  unfoldable pub is_lob_open : Action S Value
  is_lob_open = api.get_is_resource_open lob.handle >>= λ b. pure (Value.bool b)

  unfoldable pub file_exists : Action S Value
  file_exists = api.get_file_exists lob.handle >>= λ b. pure (Value.bool b)

  -- cxoLob_getFileName
  unfoldable pub get_file_name : Action S Value
  get_file_name = do
    names ← api.get_directory_and_file_name lob.handle
    directory ← lift (api.runtime.decode lob.encodings.encoding none names.0)
    file ← lift (api.runtime.decode lob.encodings.encoding none names.1)
    pure (Value.tuple (Values.cons (Value.str directory) (Values.cons (Value.str file) Values.nil)))

  -- cxoLob_setFileName
  unfoldable pub set_file_name : Value → Value → Action S Value
  unfolding buffer_from_object
  set_file_name directory file = do
    d ← lift (buffer_from_object api.runtime directory lob.encodings.encoding)
    f ← lift (buffer_from_object api.runtime file lob.encodings.encoding)
    api.set_directory_and_file_name lob.handle (buffer_bytes d) (buffer_bytes f)
    pure Value.none
