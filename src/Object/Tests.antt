-- ===== src/Object/Tests.antt =====
-- The theorems on objects, at a dense collection of timedeltas and at a collection of two elements
-- with a gap between them.
use python_cx_oracle.Prelude.{
  ℕ, zero, suc, ◌+◌, ◌^◌, ◌≡◌, refl, ap, sym, ◌∙◌, inl, true, Option, none, some, List, [], ◌∷◌,
  ◌++◌, map, length, drop, get_elem?, arith,
}
use python_cx_oracle.Prelude.Int.{
  ℤ, pos, negsuc, pos_part, neg_part, ◌+ℤ◌, floor_div, scale, quot, floor_mod,
}
use python_cx_oracle.Error.{Result, ok, err, ◌>>=◌, undefined}
use python_cx_oracle.Action.{pure}
use python_cx_oracle.Types.{
  TransformNum, DataTypeInfo, OracleTypeNum, NativeTypeNum, Transform, DbType, get_type_info,
}
use python_cx_oracle.Py.{Value, Values, codes}
use python_cx_oracle.Transform.{DbValue, interval_of, from_python_scalar, to_python_scalar}
use python_cx_oracle.Transform.Roundtrip.{to_timedelta-interval_of}
use python_cx_oracle.Transform.Tests.{
  sample_runtime, sample_encodings, short_delta, short_delta-IsNormal,
}
use python_cx_oracle.Json.{from_python, to_python}
use python_cx_oracle.Var.{Cell, null_cell}
use python_cx_oracle.Object.State.{Object, ObjectApi}
use python_cx_oracle.Object.Values.{convert_from_python, convert_to_python, store_cell}
use python_cx_oracle.Object.Methods.{extend, sequence_items, as_list, as_dict}
use python_cx_oracle.Object.Walk.{Cells, HasElements, Shows, Linked, first_of, values}
use python_cx_oracle.Object.Listing.{second, as_list-as_dict}
use python_cx_oracle.Object.Types.{TypeApi, object_type_new}
use python_cx_oracle.Object.Supported.{AllSupported}
use python_cx_oracle.Object.Made.{object_type_new-AllSupported}
use python_cx_oracle.Object.Ends.{InInt32, IsBefore, Advances, loops_end}
use python_cx_oracle.Object.Extend.{Collection, Survives, extend_then_as_list}

-- The elements have the indexes that follow a first one.
abbrev indexed : ℕ → List Cell → Cells
indexed k [] = []
indexed k (c ∷ cells) = (pos k, c) ∷ indexed (suc k) cells

abbrev index_of_first : ℕ → List Cell → Option ℤ
index_of_first k [] = none
index_of_first k (c ∷ cells) = some (pos k)

abbrev next_index : ℤ → List Cell → Option ℤ
next_index (pos n) w = index_of_first (suc n) (drop (suc n) w)
next_index (negsuc n) w = none

abbrev element_of : Option Cell → Result Cell
element_of none = err undefined
element_of (some c) = ok c

abbrev element_at : ℤ → List Cell → Result Cell
element_at (pos n) w = element_of (get_elem? w n)
element_at (negsuc n) w = err undefined

-- The state is the elements, with the indexes from zero on.
abbrev dense_api : ObjectApi (List Cell)
dense_api = record {
  runtime = sample_runtime;
  json_value = λ h. err undefined;
  bytes_encoding = λ b. 0;
  get_attribute_value = λ o a t b. pure null_cell;
  set_attribute_value = λ o a t c. pure tt;
  append_element = λ o t c w. (ok tt, w ++ (c ∷ []));
  get_element_value_by_index = λ o i t b w. (element_at i w, w);
  set_element_value_by_index = λ o i t c. pure tt;
  get_first_index = λ o w. (ok (index_of_first 0 w), w);
  get_last_index = λ o. pure none;
  get_next_index = λ o i w. (ok (next_index i w), w);
  get_prev_index = λ o i. pure none;
  get_element_exists_by_index = λ o i. pure true;
  delete_element_by_index = λ o i. pure tt;
  get_size = λ o w. (ok (pos (length w)), w);
  trim = λ o n. pure tt;
  copy = λ o. pure o;
  generic_get_attr = λ o n. pure Value.none;
  generic_set_attr = λ o n v. pure tt;
  sequence_of = λ v. pure [];
}

abbrev interval_info : Transform
interval_info = record {
  transform_num = TransformNum.timedelta;
  oracle_type_num = OracleTypeNum.interval_ds;
  native_type_num = NativeTypeNum.interval_ds;
}

abbrev intervals : Object
intervals = record {
  handle = 5;
  object_type = record {
    handle = 9;
    connection = 0;
    schema = codes "SYS";
    name = codes "INTERVALS";
    is_collection = true;
    attributes = [];
    attributes_by_name = [];
    element_db_type = some DbType.interval_ds;
    element_oracle_type_num = OracleTypeNum.interval_ds;
    element_transform_num = TransformNum.timedelta;
    element_object_type = none;
    encodings = sample_encodings;
  };
}

intervals-HasElements : HasElements intervals interval_info
unfolding get_type_info
intervals-HasElements = record { supported = refl; known = refl }

drop_next : (k : ℕ) (w es : List Cell) (c : Cell) → drop k w ≡ c ∷ es → drop (suc k) w ≡ es
drop_next zero [] es c h = cc
drop_next zero (x ∷ w) es c h = ap (drop 1) h
drop_next (suc k) [] es c h = cc
drop_next (suc k) (x ∷ w) es c h = drop_next k w es c h

get_dropped : (k : ℕ) (w es : List Cell) (c : Cell) → drop k w ≡ c ∷ es → get_elem? w k ≡ some c
get_dropped zero [] es c h = cc
get_dropped zero (x ∷ w) es c h = ap (λ l. get_elem? l 0) h
get_dropped (suc k) [] es c h = cc
get_dropped (suc k) (x ∷ w) es c h = get_dropped k w es c h

first_of-indexed : (k : ℕ) (es : List Cell) → index_of_first k es ≡ first_of (indexed k es)
first_of-indexed k [] = refl
first_of-indexed k (c ∷ es) = refl

dense-Linked :
    (w : List Cell) (k : ℕ) (es : List Cell)
    → drop k w ≡ es
    → Linked dense_api intervals interval_info w (indexed k es)
dense-Linked w k [] h = tt
dense-Linked w k (c ∷ es) h =
    let d = drop_next k w es c h in
    (
      ap (λ o. (ok o, w)) (ap (index_of_first (suc k)) d ∙ first_of-indexed (suc k) es),
      ap (λ o. (element_of o, w)) (get_dropped k w es c h),
      dense-Linked w (suc k) es d,
    )

dense-Shows : (w : List Cell) → Shows dense_api intervals interval_info w (indexed 0 w)
dense-Shows w = record {
  first = ap (λ o. (ok o, w)) (first_of-indexed 0 w);
  linked = dense-Linked w 0 w refl;
}

indexed-append :
    (k : ℕ) (w : List Cell) (c : Cell)
    → indexed k (w ++ (c ∷ [])) ≡ indexed k w ++ ((pos (k + length w), c) ∷ [])
indexed-append k [] c = let e : k ≡ k + 0 = omega arith in ap (λ j. (pos j, c) ∷ []) e
indexed-append k (x ∷ w) c =
    let e : suc k + length w ≡ k + suc (length w) = omega arith in
    ap (λ r. (pos k, x) ∷ r)
      (indexed-append (suc k) w c ∙ ap (λ j. indexed (suc k) w ++ ((pos j, c) ∷ [])) e)

abbrev dense-Collection : Collection dense_api intervals interval_info
dense-Collection = record {
  contents = indexed 0;
  shows = dense-Shows;
  stored = λ c. c;
  appends =
      λ w u t c r e. (pos (0 + length w), ap (λ q. indexed 0 q.1) (sym e) ∙ indexed-append 0 w c);
}

abbrev delta_cell : Cell
delta_cell = store_cell (DbValue.as_interval_ds (interval_of short_delta))

delta_back :
    convert_to_python dense_api intervals TransformNum.timedelta none delta_cell
    ≡ ok (Value.delta short_delta)
unfolding convert_to_python to_python to_python_scalar
delta_back = to_timedelta-interval_of short_delta short_delta-IsNormal

delta-Survives :
    Survives dense_api intervals interval_info dense-Collection
      (Value.delta short_delta)
      (Value.delta short_delta)
unfolding convert_from_python from_python from_python_scalar get_type_info
delta-Survives = record {
  native = some NativeTypeNum.interval_ds;
  cell = delta_cell;
  reads_back = inl refl;
  there = refl;
  back = delta_back;
}

abbrev new_items : Value
new_items = Value.list (Values.cons (Value.delta short_delta) Values.nil)

old_values :
    values dense_api intervals interval_info (indexed 0 (null_cell ∷ []))
    ≡ ok ((pos 0, Value.none) ∷ [])
unfolding convert_to_python
old_values = refl

extended :
    extend dense_api intervals new_items (null_cell ∷ []) ≡ (ok tt, null_cell ∷ delta_cell ∷ [])
unfolding extend convert_from_python from_python from_python_scalar get_type_info
extended = refl

extend_then_as_list_example :
    as_list dense_api 3 intervals (null_cell ∷ delta_cell ∷ [])
    ≡ some (ok (Value.none ∷ Value.delta short_delta ∷ []), null_cell ∷ delta_cell ∷ [])
unfolding sequence_items
extend_then_as_list_example =
    extend_then_as_list dense_api intervals interval_info intervals-HasElements dense-Collection
      (null_cell ∷ []) (null_cell ∷ delta_cell ∷ []) ((pos 0, Value.none) ∷ []) new_items
      (Value.delta short_delta ∷ []) (Value.delta short_delta ∷ []) old_values refl
      (delta-Survives, tt) extended 3 (omega arith)

-- Elements at -2 and at 4, of which the second is NULL.
abbrev gap_next : ℤ → Option ℤ
gap_next (pos n) = none
gap_next (negsuc n) = some (pos 4)

abbrev gap_element : ℤ → Cell
gap_element (pos n) = null_cell
gap_element (negsuc n) = delta_cell

abbrev gap_api : ObjectApi (List Cell)
gap_api = record dense_api {
  get_first_index = λ o. pure (some (negsuc 1));
  get_next_index = λ o i. pure (gap_next i);
  get_element_value_by_index = λ o i t b. pure (gap_element i);
}

abbrev gap_cells : Cells
gap_cells = (negsuc 1, delta_cell) ∷ (pos 4, null_cell) ∷ []

gap-Shows : Shows gap_api intervals interval_info [] gap_cells
gap-Shows = record { first = refl; linked = (refl, refl, (refl, refl, tt)) }

gap_values :
    values gap_api intervals interval_info gap_cells
    ≡ ok ((negsuc 1, Value.delta short_delta) ∷ (pos 4, Value.none) ∷ [])
unfolding convert_to_python to_python to_python_scalar ◌+ℤ◌ floor_div scale quot floor_mod
gap_values = refl

as_list-as_dict_example :
    (as_list gap_api 3 intervals [] ≡ some (ok (Value.delta short_delta ∷ Value.none ∷ []), []))
    × (as_dict gap_api 3 intervals []
        ≡ some (ok ((negsuc 1, Value.delta short_delta) ∷ (pos 4, Value.none) ∷ []), []))
as_list-as_dict_example =
    let r =
      as_list-as_dict gap_api intervals interval_info intervals-HasElements [] gap_cells 3 gap-Shows
        (omega arith) in
    (
      r.0 ∙ ap (λ x. some (x >>= λ es. ok (map second es), [])) gap_values,
      r.1 ((refl, tt), (tt, tt)) ∙ ap (λ x. some (x >>= λ es. ok es, [])) gap_values,
    )

-- -2 is followed by 4, and 4 by nothing.
gap_follows :
    (i j : ℤ) (w v : List Cell)
    → gap_api.get_next_index 5 i w ≡ (ok (some j), v)
    → InInt32 j × IsBefore i j
gap_follows (pos n) j w v e = cc
gap_follows (negsuc n) (pos m) w v e =
    let h : pos 4 ≡ pos m = cc in let four : 4 ≡ m = ap pos_part h in (omega (arith, four), tt)
gap_follows (negsuc n) (negsuc m) w v e = cc

gap_starts : (i : ℤ) (w v : List Cell) → gap_api.get_first_index 5 w ≡ (ok (some i), v) → InInt32 i
gap_starts (pos m) w v e = cc
gap_starts (negsuc m) w v e =
    let h : negsuc 1 ≡ negsuc m = cc in let two : 2 ≡ suc m = ap neg_part h in omega (arith, two)

gap-Advances : Advances gap_api intervals
gap-Advances = record {
  first_fits = λ w v i e. gap_starts i w v e;
  next_fits = λ w v i j e. (gap_follows i j w v e).0;
  next_after = λ w v i j e. (gap_follows i j w v e).1;
}

loops_end_example :
    ((r : Result (List Value) × List Cell) × (as_list gap_api (2 ^ 32 + 1) intervals [] ≡ some r))
    × ((r : Result (List (ℤ × Value)) × List Cell) × (as_dict gap_api (2 ^ 32 + 1) intervals []
          ≡ some r))
loops_end_example = loops_end gap_api intervals gap-Advances [] (2 ^ 32 + 1) (omega arith)

abbrev interval_type : DataTypeInfo
interval_type = record {
  oracle_type_num = OracleTypeNum.interval_ds;
  precision = pos 2;
  scale = pos 0;
  fs_precision = 6;
  size_in_chars = 0;
  client_size_in_bytes = 11;
}

-- The dictionary has one collection type of timedeltas with one attribute.
abbrev types_api : TypeApi (List Cell)
types_api = record {
  runtime = sample_runtime;
  encodings = sample_encodings;
  connection = 0;
  type_info = λ h. pure (record {
    schema = codes "SYS";
    name = codes "T";
    is_collection = true;
    element_type_info = interval_type;
    element_object_type = none;
    num_attributes = 1;
  });
  attributes = λ h n. pure (3 ∷ []);
  attr_info =
      λ h. pure (record { name = codes "A"; type_info = interval_type; object_type = none });
  add_ref = λ h. pure tt;
  release = λ h. pure tt;
  get_object_type = λ n. pure 9;
  create_object = λ h. pure 5;
}

object_type_new-AllSupported_example : AllSupported (object_type_new types_api 1 9 ([], [])).1.0
object_type_new-AllSupported_example = object_type_new-AllSupported types_api 1 9 [] [] tt
