-- ===== src/Var/Tests.antt =====
-- The theorems on variables, at a variable of two elements whose buffer is too small for a new text.
use python_cx_oracle.Prelude.{
  ℕ, ◌+◌, ap, sym, ◌≤◌, ◌≡◌, refl, false, true, none, some, [], ◌∷◌, map, set, replicate, arith,
}
use python_cx_oracle.Prelude.Int.{pos}
use python_cx_oracle.Error.{ok, err}
use python_cx_oracle.Action.{pure}
use python_cx_oracle.Types.{TransformNum, NativeTypeNum, DbType}
use python_cx_oracle.Py.{Value, Values, items, codes}
use python_cx_oracle.Transform.{DbValue, Buffer}
use python_cx_oracle.Transform.Tests.{sample_runtime, sample_encodings}
use python_cx_oracle.Var.{Var, Dpi, null_cell, bytes_cell, set_value_bytes, set_value, get_value}
use python_cx_oracle.Var.Copy.{Writes, view}
use python_cx_oracle.Var.Grow.{set_value_bytes-view}
use python_cx_oracle.Var.{Binder, created, new_by_type, new_by_value}
use python_cx_oracle.Var.Made.{ArrayFor, new_by_value-ArrayFor}
use python_cx_oracle.Var.Bounds.{none_roundtrip}

-- Variables are not told apart, and the state is the number of variables made.
abbrev dpi : Dpi ℕ
dpi = record {
  new_var = λ o n k size a t s. (ok (s, replicate k null_cell), s + 1);
  size_in_bytes = λ h. pure 4;
  release = λ h. pure tt;
  get_num_elements = λ h. pure 2;
  set_num_elements = λ h n. pure tt;
  set_from_bytes = λ h cells i b. pure (set cells i (bytes_cell b));
  write = λ h cells i w. pure cells;
  set_cursor = λ h cells i v. pure cells;
  convert = λ f v. pure v;
  returned_data = λ h i. pure [];
  add_ref = λ x. pure tt;
  to_python = λ v x. pure (Value.str []);
}

dpi-Writes : Writes dpi
dpi-Writes = record {
  all_null = λ o n k size a t s u r e. ap (λ q. elim q.0 [ ok p ↦ p.1 | err x ↦ [] ]) (sym e);
  sets_one = λ h i cells after b s u e. ap (λ q. elim q.0 [ ok p ↦ p | err x ↦ [] ]) (sym e);
}

-- "ab" and NULL, in a buffer of four bytes
abbrev short_var : Var
short_var = record {
  handle = 0;
  elements = bytes_cell (codes "ab") ∷ null_cell ∷ [];
  in_converter = none;
  out_converter = none;
  object_type = none;
  allocated_elements = 2;
  size = 4;
  buffer_size = 4;
  is_array = false;
  is_value_set = false;
  get_returned_data = false;
  transform_num = TransformNum.string;
  native_type_num = NativeTypeNum.bytes;
  db_type = DbType.varchar;
}

abbrev long_text : Buffer
long_text = record { ptr = codes "abcdef"; size = 6; num_characters = 6 }

abbrev grown_var : Var
grown_var = record short_var {
  handle = 7;
  elements = bytes_cell (codes "ab") ∷ bytes_cell (codes "abcdef") ∷ [];
  size = 6;
  buffer_size = 6;
}

grown : set_value_bytes dpi 1 long_text (short_var, 7) ≡ (ok tt, (grown_var, 8))
unfolding set_value_bytes
grown = refl

set_value_bytes-view_example :
    (map view grown_var.elements
      ≡ some (DbValue.as_bytes (codes "ab")) ∷ some (DbValue.as_bytes (codes "abcdef")) ∷ [])
    × (6 ≤ 6)
    × (grown_var.allocated_elements ≡ 2)
set_value_bytes-view_example =
    set_value_bytes-view dpi dpi-Writes 1 long_text short_var 7 (grown_var, 8) refl grown

none_roundtrip_example :
    (w : Var) × (set_value dpi sample_runtime sample_encodings 0 Value.none (short_var, 7)
      ≡ (ok tt, (w, 7)))
    × (get_value dpi w 0 7 ≡ (ok Value.none, 7))
none_roundtrip_example =
    none_roundtrip dpi sample_runtime sample_encodings 0 short_var 7 refl refl refl refl
      (omega arith)

-- No input type handler, and binds that succeed.
abbrev binder : Binder ℕ
binder = record {
  input_type_handler = none;
  call_input_type_handler = λ h v n. pure Value.none;
  bind_by_name = λ s n h. pure tt;
  bind_by_pos = λ s p h. pure tt;
}

-- [None, "ab"]
abbrev two_values : Values
two_values = Values.cons Value.none (Values.cons (Value.str (codes "ab")) Values.nil)

abbrev array_var : Var
array_var = record short_var {
  handle = 7;
  elements = null_cell ∷ null_cell ∷ [];
  size = 2;
  is_array = true;
}

array_made :
    new_by_value sample_runtime dpi binder true (Value.list two_values) 9 7
    ≡ (ok (created array_var), 8)
unfolding new_by_value
array_made = refl

new_by_value-ArrayFor_example :
    (v : Var) × (created array_var ≡ created v)
    × ArrayFor sample_runtime.version (items two_values) v
new_by_value-ArrayFor_example =
    new_by_value-ArrayFor dpi dpi-Writes sample_runtime binder true two_values 9 7 8
      (created array_var) refl (omega arith) (omega arith, (omega arith, tt)) array_made

-- setinputsizes(20) makes a text variable of that size.
text_of_size :
    (new_by_type sample_runtime dpi (Value.int (pos 20)) 2 7).0
    ≡ ok (
        created (record short_var { handle = 7; elements = null_cell ∷ null_cell ∷ []; size = 20 }))
unfolding new_by_type
text_of_size = refl
