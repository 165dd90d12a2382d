-- ===== src/Var/Values.antt =====
-- cxoVar_new, cxoVar_setValue and cxoVar_getValue, with what they call.
use python_cx_oracle.Prelude.{
  ℕ, zero, suc, ◌+◌, Bool, true, false, ◌||◌, ◌&&◌, not, Option, none, some, List, [], ◌∷◌, length,
  get_elem?, ltb, leb, ◌==◌, if◌then◌else◌,
}
use python_cx_oracle.Error.{
  Result, ok, err, undefined, array_size_exceeded, array_of_arrays, expecting_array,
}
use python_cx_oracle.Action.{Action, pure, raise, lift, gets, ◌>>=◌, ◌>>◌, foreign, update}
use python_cx_oracle.Types.{
  TransformNum, NativeTypeNum, Transform, get_type_info, get_default_size, db_type_from_transform,
}
use python_cx_oracle.Py.{Value, Values, items, is_none}
use python_cx_oracle.Transform.{Runtime, EncodingInfo, Buffer, Write, read_bytes, to_uint32}
use python_cx_oracle.Json.{from_python, buffer_bytes}
use python_cx_oracle.Var.State.{Cell, Var, Dpi}

-- cxoTransform_getTypeInfo, which reads the table without a check.
abbrev pub type_info : TransformNum → Result Transform
type_info t = elim (get_type_info t) [ none ↦ err undefined | some r ↦ ok r ]

abbrev pub is_bytes_type : NativeTypeNum → Bool
is_bytes_type NativeTypeNum.bytes = true
is_bytes_type _ = false

abbrev pub is_cursor_transform : TransformNum → Bool
is_cursor_transform TransformNum.cursor = true
is_cursor_transform _ = false

-- Whether a reference is added to what an element holds.
abbrev pub is_counted : TransformNum → Bool
is_counted TransformNum.bfile = true
is_counted TransformNum.blob = true
is_counted TransformNum.clob = true
is_counted TransformNum.nclob = true
is_counted TransformNum.object = true
is_counted _ = false

-- The buffer that cxoTransform_fromPython has filled.
abbrev pub filled_buffer : Write → Result Buffer
filled_buffer (Write.store_bytes b) = ok b
filled_buffer _ = err undefined

abbrev pub set_null : ℕ → Bool → List Cell → List Cell
set_null i b [] = []
set_null zero b (c ∷ cells) = record c { is_null = b } ∷ cells
set_null (suc i) b (c ∷ cells) = c ∷ set_null i b cells

module _ {S : Type 0} (d : Dpi S) where
  -- An action of a variable.
  abbrev pub V : Type 0 → Type 0
  V A = Action (Var × S) A

  abbrev pub size_or_default : ℕ → TransformNum → ℕ
  size_or_default zero t = get_default_size t
  size_or_default (suc n) t = suc n

  -- cxoVar_new
  unfoldable pub var_new : ℕ → TransformNum → ℕ → Bool → Option ℕ → Action S Var
  unfolding get_type_info db_type_from_transform get_default_size
  var_new num_elements t size is_array object_type = do
    let n : ℕ = to_uint32 (if num_elements == 0 then 1 else num_elements)
    let k : ℕ = size_or_default (to_uint32 size) t
    db_type ← lift (db_type_from_transform t)
    r ← lift (type_info t)
    v ← d.new_var r.oracle_type_num r.native_type_num n k is_array object_type
    b ← d.size_in_bytes v.0
    pure (record {
      handle = v.0;
      elements = v.1;
      in_converter = none;
      out_converter = none;
      object_type = object_type;
      allocated_elements = n;
      size = k;
      buffer_size = b;
      is_array = is_array;
      is_value_set = false;
      get_returned_data = false;
      transform_num = t;
      native_type_num = r.native_type_num;
      db_type = db_type;
    })

  -- The loop that copies the elements into a larger variable, from element `i` on; all but the one
  -- at `pos`, which is set afterwards, and those that are NULL.
  unfoldable pub copy_cells : ℕ → ℕ → ℕ → List Cell → List Cell → Action S (List Cell)
  copy_cells handle pos i [] target = pure target
  copy_cells handle pos i (c ∷ cells) target =
      if i == pos || c.is_null then copy_cells handle pos (i + 1) cells target else (do
        b ← lift (read_bytes c.value)
        written ← d.set_from_bytes handle target i b
        copy_cells handle pos (i + 1) cells written)

  abbrev pub copy_num_elements : Bool → ℕ → ℕ → Action S (Unit {0})
  copy_num_elements false old new = pure tt
  copy_num_elements true old new = do n ← d.get_num_elements old; d.set_num_elements new n

  -- A variable with a larger buffer takes the place of the old one.
  unfoldable pub grow : ℕ → Buffer → V (Unit {0})
  unfolding copy_cells get_type_info
  grow pos buffer = do
    v ← gets (λ s. s.0)
    r ← lift (type_info v.transform_num)
    temp ← foreign (
        d.new_var r.oracle_type_num r.native_type_num v.allocated_elements buffer.size v.is_array
          none)
    foreign (copy_num_elements v.is_array v.handle temp.0)
    cells ← foreign (copy_cells temp.0 pos 0 v.elements temp.1)
    foreign (d.release v.handle)
    update (λ w. record w {
      handle = temp.0;
      elements = cells;
      size = buffer.num_characters;
      buffer_size = buffer.size;
    })

  abbrev pub store_bytes_at : ℕ → Buffer → V (Unit {0})
  store_bytes_at pos buffer = do
    v ← gets (λ s. s.0)
    cells ← foreign (d.set_from_bytes v.handle v.elements pos (buffer_bytes buffer))
    update (λ w. record w { elements = cells })

  -- cxoVar_setValueBytes
  unfoldable pub set_value_bytes : ℕ → Buffer → V (Unit {0})
  unfolding grow
  set_value_bytes pos buffer = do
    v ← gets (λ s. s.0)
    if ltb v.buffer_size buffer.size then grow pos buffer else pure tt
    store_bytes_at pos buffer

  abbrev pub converted : Option ℕ → Value → Action S Value
  converted none value = pure value
  converted (some f) value = d.convert f value

  module _ (rt : Runtime) (enc : EncodingInfo) where
    -- The switch of cxoVar_setSingleValue, for a value that is not None.
    abbrev pub transform_value : ℕ → Value → V (Unit {0})
    transform_value pos value = do
      v ← gets (λ s. s.0)
      if is_cursor_transform v.transform_num
          then (do
            cells ← foreign (d.set_cursor v.handle v.elements pos value)
            update (λ w. record w { elements = cells }))
          else (do
            w ← lift (from_python rt enc true v.transform_num value)
            if is_bytes_type v.native_type_num
                then (lift (filled_buffer w) >>= set_value_bytes pos)
                else (do
                  cells ← foreign (d.write v.handle v.elements pos w)
                  update (λ u. record u { elements = cells })))

    -- cxoVar_setSingleValue
    unfoldable pub set_single_value : ℕ → Value → V (Unit {0})
    unfolding from_python set_value_bytes
    set_single_value pos value = do
      v ← gets (λ s. s.0)
      if leb v.allocated_elements pos then raise array_size_exceeded else (do
        x ← foreign (converted v.in_converter value)
        update (λ w. record w { elements = set_null pos (is_none x) w.elements })
        if is_none x then pure tt else transform_value pos x)

    -- The loop of cxoVar_setArrayValue, from element `i`.
    unfoldable pub set_elements : ℕ → List Value → V (Unit {0})
    unfolding set_single_value
    set_elements i [] = pure tt
    set_elements i (value ∷ values) = do set_single_value i value; set_elements (i + 1) values

    -- cxoVar_setArrayValue
    unfoldable pub set_array_value : Value → V (Unit {0})
    unfolding set_elements
    set_array_value (Value.list vs) = do
      v ← gets (λ s. s.0)
      foreign (d.set_num_elements v.handle (to_uint32 (length (items vs))))
      set_elements 0 (items vs)
    set_array_value _ = raise expecting_array

    -- cxoVar_setValue
    unfoldable pub set_value : ℕ → Value → V (Unit {0})
    unfolding set_array_value set_single_value
    set_value array_pos value = do
      update (λ w. record w { is_value_set = true })
      v ← gets (λ s. s.0)
      if v.is_array
          then (if ltb 0 array_pos then raise array_of_arrays else set_array_value value)
          else set_single_value array_pos value

  abbrev pub element_value : Var → Cell → Action S Value
  element_value v c = if c.is_null then pure Value.none else (do
    x ← d.to_python v c.value
    if is_counted v.transform_num then d.add_ref c.value else pure tt
    converted v.out_converter x)

  -- cxoVar_getSingleValue of an array of elements, for an index that may be out of bounds
  abbrev pub value_from : Var → Option Cell → Action S Value
  value_from v none = raise undefined
  value_from v (some c) = element_value v c

  abbrev pub value_at : Var → List Cell → ℕ → Action S Value
  value_at v cells i = value_from v (get_elem? cells i)

  -- cxoVar_getArrayValue on an array of elements: `n` values from index `i`
  unfoldable pub array_value : Var → List Cell → ℕ → ℕ → Action S Values
  array_value v cells i zero = pure Values.nil
  array_value v cells i (suc n) = do
    x ← value_at v cells i
    xs ← array_value v cells (i + 1) n
    pure (Values.cons x xs)

  -- cxoVar_getSingleValue without an array: the rows that DML has returned, or the element
  unfoldable pub get_single_value : Var → ℕ → Action S Value
  unfolding array_value
  get_single_value v pos =
      if v.get_returned_data
      then (do
        cells ← d.returned_data v.handle pos
        xs ← array_value v cells 0 (length cells)
        pure (Value.list xs))
      else value_at v v.elements pos

  -- cxoVar_getValue
  unfoldable pub get_value : Var → ℕ → Action S Value
  unfolding get_single_value
  get_value v pos =
      if v.is_array
      then (do
        n ← d.get_num_elements v.handle
        xs ← array_value v v.elements 0 n
        pure (Value.list xs))
      else if leb v.allocated_elements pos && not v.get_returned_data
      then raise array_size_exceeded
      else get_single_value v pos
