-- ===== src/Cursor/BindTests.antt =====
-- The theorems on binding, on REF cursors and on preparing, at sample cursors.
use python_cx_oracle.Prelude.{
  Option, ℕ, ◌+◌, ◌≡◌, refl, false, none, some, List, [], ◌∷◌, ◌==◌, if◌then◌else◌,
}
use python_cx_oracle.Prelude.Int.{pos}
use python_cx_oracle.Error.{ok, err, undefined, database, expecting_string_or_bytes, python}
use python_cx_oracle.Action.{pure}
use python_cx_oracle.Py.{Value, codes}
use python_cx_oracle.Transform.{buffer_from_object}
use python_cx_oracle.Transform.Tests.{sample_runtime}
use python_cx_oracle.Cursor.{
  by_position, Slot, holds, Cursor, Variables, Parameters, Executor, verify_fetch, create_row,
  set_bind_variables, perform_bind, internal_prepare, column_variable,
}
use python_cx_oracle.Cursor.Slots.{Held, set_bind_variables-Held}
use python_cx_oracle.Cursor.Performed.{bound_sequence_performs}
use python_cx_oracle.Cursor.RefCursor.{ColumnFails, ref_cursor, retry_after_failed_define}
use python_cx_oracle.Cursor.Prepare.{prepared, rejected_statement_is_kept}
use python_cx_oracle.Cursor.Tests.{Server, server_driver, query_cursor, start}

-- Variables that are numbered as they are made, on a state that counts them.
abbrev counting : Variables ℕ
counting = record {
  is_none_transform = λ s v. false;
  allocated = λ s v. 2;
  resized = λ v n s. (ok s, s + 1);
  new_by_value = λ v n s. (ok s, s + 1);
  set_value = λ v p x. pure tt;
  bind_name = λ h v k. pure tt;
  bind_position = λ h v p. pure tt;
  same_key = λ a b. false;
}

abbrev two_values : Parameters
two_values = Parameters.sequence (Value.int (pos 1) ∷ Value.none ∷ [])

two_values_bound :
    set_bind_variables counting two_values 1 0 false (query_cursor, 7)
    ≡ (ok tt, (record query_cursor { bind_variables = by_position (holds 7 ∷ holds 8 ∷ []) }, 9))
unfolding set_bind_variables
two_values_bound = refl

set_bind_variables-Held_example :
    (slots : List Slot) × (by_position (holds 7 ∷ holds 8 ∷ []) ≡ by_position slots) × Held 2 slots
set_bind_variables-Held_example =
    set_bind_variables-Held counting 1 0 (Value.int (pos 1) ∷ Value.none ∷ []) query_cursor 7
      (record query_cursor { bind_variables = by_position (holds 7 ∷ holds 8 ∷ []) }, 9)
      two_values_bound

always_bound :
    (handle : Option ℕ) (v k : ℕ) (u : ℕ)
    → (w : ℕ) × (counting.bind_position handle v k u ≡ (ok tt, w))
always_bound handle v k u = (u, refl)

bound_sequence_performs_example :
    (u : Cursor × ℕ) × (perform_bind counting
        (record query_cursor { bind_variables = by_position (holds 7 ∷ holds 8 ∷ []) }, 9)
      ≡ (ok tt, u))
bound_sequence_performs_example =
    bound_sequence_performs counting 1 0 (Value.int (pos 1) ∷ Value.none ∷ []) query_cursor 7
      (record query_cursor { bind_variables = by_position (holds 7 ∷ holds 8 ∷ []) }, 9)
      always_bound two_values_bound

-- The output type handler of the server raises an exception for the first column.
handler_raises : ColumnFails server_driver (some 5) 0 start.1
unfolding column_variable
handler_raises = record {
  connected = refl;
  sized = λ k. refl;
  columns = refl;
  error = python 1;
  fails = λ k. refl;
}

retry_after_failed_define_example :
    (t : Cursor × Server) × (u : Cursor × Server) × (v : Cursor × Server) × (verify_fetch
        server_driver
        (ref_cursor query_cursor, start.1)
      ≡ (err database, t))
    × (verify_fetch server_driver t ≡ (ok tt, u))
    × (create_row server_driver 0 u ≡ (err undefined, v))
retry_after_failed_define_example =
    retry_after_failed_define server_driver query_cursor start.1 0 0 handler_raises

-- The object 3 is the integer 123, any other a text.
abbrev object_of : ℕ → Value
object_of n = if n == 3 then Value.int (pos 123) else Value.str (codes "select 1 from dual")

abbrev pub sample_executor : Executor Server
sample_executor = record {
  object_value = object_of;
  encoding = 0;
  autocommit = λ s. false;
  release = λ h. pure tt;
  prepare_stmt = λ b t g. pure 6;
  get_info = λ h. pure query_cursor.stmt_info;
  default_prefetch_rows = 2;
  set_prefetch_rows = λ h n. pure tt;
  execute_stmt = λ h m. pure 1;
  execute_many_stmt = λ h a b c n. pure tt;
}

abbrev pub no_variables : Variables Server
no_variables = record {
  is_none_transform = λ s v. false;
  allocated = λ s v. 2;
  resized = λ v n. pure 0;
  new_by_value = λ v n. pure 0;
  set_value = λ v p x. pure tt;
  bind_name = λ h v k. pure tt;
  bind_position = λ h v p. pure tt;
  same_key = λ a b. false;
}

integer_is_no_text :
    buffer_from_object sample_runtime (object_of 3) 0 ≡ err expecting_string_or_bytes
unfolding buffer_from_object
integer_is_no_text = refl

rejected_statement_is_kept_example :
    (t : Cursor) × (internal_prepare sample_runtime server_driver no_variables sample_executor
        (some 3)
        none
        (prepared 5 9 query_cursor, start.1)
      ≡ (err expecting_string_or_bytes, (t, start.1)))
    × (internal_prepare sample_runtime server_driver no_variables sample_executor none none
          (t, start.1)
        ≡ (ok tt, (t, start.1)))
    × (internal_prepare sample_runtime server_driver no_variables sample_executor
          (some 3)
          none
          (t, start.1)
        ≡ (ok tt, (t, start.1)))
    × (t.handle ≡ some 5)
    × (t.statement ≡ some 3)
rejected_statement_is_kept_example =
    rejected_statement_is_kept sample_runtime server_driver no_variables sample_executor
      query_cursor start.1 5 9 3 expecting_string_or_bytes refl integer_is_no_text
