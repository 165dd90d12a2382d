-- ===== src/Object/Methods.antt =====
-- The methods of objects and collections, and the access to attributes.
use python_cx_oracle.Prelude.{
  ℕ, zero, suc, Bool, true, false, Option, none, some, List, [], ◌∷◌, ◌++◌, ◌==◌, if◌then◌else◌,
}
use python_cx_oracle.Prelude.Int.{ℤ, pos, negsuc}
use python_cx_oracle.Error.{Result, ok, err, oracle_type_not_supported}
use python_cx_oracle.Action.{Action, pure, raise, lift, ◌>>=◌, ◌>>◌}
use python_cx_oracle.Types.{TransformNum}
use python_cx_oracle.Py.{Value, items}
use python_cx_oracle.Json.{same_text}
use python_cx_oracle.Var.{type_info}
use python_cx_oracle.Object.State.{Object, ObjectAttr, ObjectApi}
use python_cx_oracle.Object.Values.{convert_from_python, convert_to_python, number_buffer}

-- PyDict_GetItem on the attributes of a type.
abbrev pub find_attribute : List (List ℕ × ObjectAttr) → List ℕ → Option ObjectAttr
find_attribute [] name = none
find_attribute ((k, a) ∷ rest) name = if same_text k name then some a else find_attribute rest name

abbrev pub is_unsupported_type : TransformNum → Bool
is_unsupported_type TransformNum.unsupported = true
is_unsupported_type _ = false

abbrev pub same_int : ℤ → ℤ → Bool
same_int (pos m) (pos n) = m == n
same_int (negsuc m) (negsuc n) = m == n
same_int _ _ = false

-- PyDict_SetItem with an index as the key.
abbrev pub set_index : List (ℤ × Value) → ℤ → Value → List (ℤ × Value)
set_index [] k v = (k, v) ∷ []
set_index ((j, x) ∷ es) k v = if same_int j k then (j, v) ∷ es else (j, x) ∷ set_index es k v

-- The index that a method returns, or None.
abbrev pub index_or_none : Option ℤ → Value
index_or_none none = Value.none
index_or_none (some i) = Value.int i

module _ {S : Type 0} (api : ObjectApi S) where
  -- cxoObject_getAttributeValue
  unfoldable pub get_attribute_value : Object → ObjectAttr → Action S Value
  unfolding convert_to_python
  get_attribute_value obj a =
      if is_unsupported_type a.transform_num
      then raise oracle_type_not_supported
      else (lift (type_info a.transform_num) >>= λ i.
          api.get_attribute_value obj.handle a.handle i.native_type_num (number_buffer i) >>= λ c.
          lift (convert_to_python api obj a.transform_num a.object_type c))

  -- cxoObject_setAttributeValue
  unfoldable pub set_attribute_value : Object → ObjectAttr → Option Value → Action S (Unit {0})
  unfolding convert_from_python
  set_attribute_value obj a value = do
    d ← lift (convert_from_python api obj a.transform_num value)
    api.set_attribute_value obj.handle a.handle d.0 d.1

  abbrev get_found : Object → List ℕ → Option ObjectAttr → Action S Value
  get_found obj name (some a) = get_attribute_value obj a
  get_found obj name none = api.generic_get_attr obj name

  -- cxoObject_getAttr
  unfoldable pub get_attr : Object → List ℕ → Action S Value
  unfolding get_attribute_value
  get_attr obj name = get_found obj name (find_attribute obj.object_type.attributes_by_name name)

  abbrev set_found : Object → List ℕ → Option Value → Option ObjectAttr → Action S (Unit {0})
  set_found obj name value (some a) = set_attribute_value obj a value
  set_found obj name value none = api.generic_set_attr obj name value

  -- cxoObject_setAttr: the value is NULL where the attribute is deleted.
  unfoldable pub set_attr : Object → List ℕ → Option Value → Action S (Unit {0})
  unfolding set_attribute_value
  set_attr obj name value =
      set_found obj name value (find_attribute obj.object_type.attributes_by_name name)

  -- cxoObject_internalAppend, and cxoObject_append
  unfoldable pub append : Object → Value → Action S (Unit {0})
  unfolding convert_from_python
  append obj value = do
    d ← lift (convert_from_python api obj obj.object_type.element_transform_num (some value))
    api.append_element obj.handle d.0 d.1

  unfoldable pub append_all : Object → List Value → Action S (Unit {0})
  unfolding append
  append_all obj [] = pure tt
  append_all obj (v ∷ vs) = append obj v >>= λ u. append_all obj vs

  -- PySequence_Fast
  unfoldable pub sequence_items : Value → Action S (List Value)
  sequence_items (Value.list vs) = pure (items vs)
  sequence_items (Value.tuple vs) = pure (items vs)
  sequence_items v = api.sequence_of v

  -- cxoObject_internalExtend, and cxoObject_extend
  unfoldable pub extend : Object → Value → Action S (Unit {0})
  unfolding append_all sequence_items
  extend obj sequence = sequence_items sequence >>= append_all obj

  -- cxoObject_internalGetElementByIndex, and cxoObject_getElement
  unfoldable pub get_element : Object → ℤ → Action S Value
  unfolding convert_to_python
  get_element obj index =
      if is_unsupported_type obj.object_type.element_transform_num
      then raise oracle_type_not_supported
      else (lift (type_info obj.object_type.element_transform_num) >>= λ i.
          api.get_element_value_by_index obj.handle index i.native_type_num (number_buffer i)
          >>= λ c. lift (
              convert_to_python api obj obj.object_type.element_transform_num
                obj.object_type.element_object_type c))

  -- One round of `while (exists)`: the element, what is made of it, the next index.
  unfoldable pub visit :
      {A : Type 0} → (ℤ → Value → A → A) → Object → ℤ → A → Action S (Option ℤ × A)
  unfolding get_element
  visit put obj index acc = get_element obj index >>= λ v.
      api.get_next_index obj.handle index >>= λ next. pure (next, put index v acc)

  -- The loop, with a number of rounds: none where they are used up.
  unfoldable pub walk :
      {A : Type 0} → (ℤ → Value → A → A) → ℕ → Object → Option ℤ → A → S → Option (Result A × S)
  unfolding visit
  walk put zero obj index acc w = none
  walk put (suc n) obj none acc w = some (ok acc, w)
  walk put (suc n) obj (some index) acc w =
      let (r, v) = visit put obj index acc w in
      elim r [ ok p ↦ walk put n obj p.0 p.1 v | err e ↦ some (err e, v) ]

  unfoldable pub walk_first :
      {A : Type 0} → (ℤ → Value → A → A) → ℕ → Object → A → S → Option (Result A × S)
  unfolding walk
  walk_first put rounds obj acc w =
      let (r, v) = api.get_first_index obj.handle w in
      elim r [ ok first ↦ walk put rounds obj first acc v | err e ↦ some (err e, v) ]

  -- PyList_Append
  abbrev pub put_item : ℤ → Value → List Value → List Value
  put_item index v acc = acc ++ (v ∷ [])

  -- PyDict_SetItem
  abbrev pub put_entry : ℤ → Value → List (ℤ × Value) → List (ℤ × Value)
  put_entry index v acc = set_index acc index v

  -- cxoObject_asList
  unfoldable pub as_list : ℕ → Object → S → Option (Result (List Value) × S)
  unfolding walk_first
  as_list rounds obj = walk_first put_item rounds obj []

  -- cxoObject_asDict
  unfoldable pub as_dict : ℕ → Object → S → Option (Result (List (ℤ × Value)) × S)
  unfolding walk_first
  as_dict rounds obj = walk_first put_entry rounds obj []

  -- cxoObject_copy
  unfoldable pub copy : Object → Action S Object
  copy obj =
      api.copy obj.handle >>= λ h. pure (record { handle = h; object_type = obj.object_type })

  -- cxoObject_delete
  unfoldable pub delete : Object → ℤ → Action S Value
  delete obj index = api.delete_element_by_index obj.handle index >> pure Value.none

  -- cxoObject_exists
  unfoldable pub exists : Object → ℤ → Action S Value
  exists obj index = api.get_element_exists_by_index obj.handle index >>= λ b. pure (Value.bool b)

  -- cxoObject_getFirstIndex, cxoObject_getLastIndex
  unfoldable pub get_first_index : Object → Action S Value
  get_first_index obj = api.get_first_index obj.handle >>= λ i. pure (index_or_none i)

  unfoldable pub get_last_index : Object → Action S Value
  get_last_index obj = api.get_last_index obj.handle >>= λ i. pure (index_or_none i)

  -- cxoObject_getNextIndex, cxoObject_getPrevIndex
  unfoldable pub get_next_index : Object → ℤ → Action S Value
  get_next_index obj index = api.get_next_index obj.handle index >>= λ i. pure (index_or_none i)

  unfoldable pub get_prev_index : Object → ℤ → Action S Value
  get_prev_index obj index = api.get_prev_index obj.handle index >>= λ i. pure (index_or_none i)

  -- cxoObject_getSize
  unfoldable pub get_size : Object → Action S Value
  get_size obj = api.get_size obj.handle >>= λ n. pure (Value.int n)

  -- cxoObject_setElement
  unfoldable pub set_element : Object → ℤ → Value → Action S Value
  unfolding convert_from_python
  set_element obj index value = do
    d ← lift (convert_from_python api obj obj.object_type.element_transform_num (some value))
    api.set_element_value_by_index obj.handle index d.0 d.1
    pure Value.none

  -- cxoObject_trim
  unfoldable pub trim : Object → ℤ → Action S Value
  trim obj num_to_trim = api.trim obj.handle num_to_trim >> pure Value.none
