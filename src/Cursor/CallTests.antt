-- ===== src/Cursor/CallTests.antt =====
-- The theorems on callproc and setinputsizes, and a description, at sample cursors.
use python_cx_oracle.Prelude.{
  ℕ, ◌+◌, ◌≡◌, refl, true, false, Option, none, some, List, [], ◌∷◌, ◌++◌, map, arith,
}
use python_cx_oracle.Prelude.Int.{pos}
use python_cx_oracle.Error.{ok, err, oracle_type_not_supported}
use python_cx_oracle.Action.{pure}
use python_cx_oracle.Py.{Value, Values, Fields, codes, of_items}
use python_cx_oracle.Types.{DbType, OracleTypeNum, TransformNum}
use python_cx_oracle.Transform.Tests.{sample_runtime}
use python_cx_oracle.Call.{positional_arguments}
use python_cx_oracle.Cursor.{
  Slot, none_object, holds, unbound, by_position, Cursor, Variables, Executor, Caller, run_call,
  call_proc, set_input_sizes, internal_prepare, prepare_new, perform_bind, set_bind_variables,
  get_description, item_description, column_variable, column_size, QueryInfo, Driver,
}
use python_cx_oracle.Cursor.Fills.{BoundTo}
use python_cx_oracle.Cursor.Reading.{Each, returned}
use python_cx_oracle.Cursor.Returned.{call_proc-returned}
use python_cx_oracle.Cursor.InputSizes.{set_input_sizes-kept_once}
use python_cx_oracle.Cursor.JsonColumn.{HasJson, IsErr, json_column_undescribed}
use python_cx_oracle.Cursor.Tests.{number_info, Server, server_driver, query_cursor, start}
use python_cx_oracle.Cursor.BindTests.{sample_executor, no_variables}

abbrev number_of : Value → ℕ
number_of (Value.int (pos n)) = n
number_of _ = 0

-- A variable has the number of the integer that it is made for.
abbrev numbered : Variables Server
numbered = record no_variables { new_by_value = λ v n. pure (number_of v) }

-- Statements that are no queries.
abbrev procedure_executor : Executor Server
procedure_executor = record sample_executor { execute_stmt = λ h m. pure 0 }

abbrev caller : Caller Server
caller = record {
  format_text = λ f args. pure 9;
  new_by_type = λ v n. pure 4;
  get_value = λ v i. pure (Value.int (pos (v + 10)));
}

abbrev two_arguments : Option Value
two_arguments =
    some (Value.list (Values.cons (Value.int (pos 1)) (Values.cons (Value.int (pos 2)) Values.nil)))

abbrev one_keyword : Option Value
one_keyword =
    some (Value.dict (Fields.field (Value.str (codes "c")) (Value.int (pos 3)) Fields.end))

abbrev procedure_name : Value
procedure_name = Value.str (codes "p")

abbrev called : Cursor × Server
called =
    (run_call sample_runtime server_driver numbered procedure_executor caller none procedure_name
      two_arguments one_keyword (query_cursor, start.1)).1

two_positional :
    positional_arguments two_arguments ≡ ok (Value.int (pos 1) ∷ Value.int (pos 2) ∷ [])
unfolding positional_arguments
two_positional = refl

call_runs :
    run_call sample_runtime server_driver numbered procedure_executor caller none procedure_name
      two_arguments one_keyword
      (query_cursor, start.1)
    ≡ (ok tt, called)
unfolding run_call internal_prepare set_bind_variables perform_bind
call_runs = refl

call_proc-returned_example :
    (vs : List ℕ) × (rest : List Slot) × (called.0.bind_variables
      ≡ by_position (map holds vs ++ rest))
    × Each (BoundTo numbered 0) (Value.int (pos 1) ∷ Value.int (pos 2) ∷ []) vs
    × (call_proc sample_runtime server_driver numbered procedure_executor caller procedure_name
          two_arguments one_keyword none
          (query_cursor, start.1)
        ≡ returned sample_runtime server_driver numbered procedure_executor caller vs called)
call_proc-returned_example =
    call_proc-returned sample_runtime server_driver numbered procedure_executor caller
      procedure_name two_arguments one_keyword (Value.int (pos 1) ∷ Value.int (pos 2) ∷ [])
      (query_cursor, start.1) called two_positional call_runs

call_proc_result :
    (call_proc sample_runtime server_driver numbered procedure_executor caller procedure_name
      two_arguments one_keyword none
      (query_cursor, start.1)).0
    ≡ ok (Value.list (of_items (Value.int (pos 11) ∷ Value.int (pos 12) ∷ [])))
unfolding call_proc internal_prepare set_bind_variables perform_bind
call_proc_result = refl

-- None, and a type.
abbrev sizes : List Value
sizes = Value.none ∷ Value.int (pos 20) ∷ []

abbrev sized : Cursor × Server
sized = (
  record query_cursor {
    bind_variables = by_position (none_object ∷ holds 4 ∷ []);
    set_input_sizes = true;
  },
  start.1,
)

sizes_set :
    set_input_sizes server_driver numbered caller sizes none (query_cursor, start.1)
    ≡ (ok (by_position (none_object ∷ holds 4 ∷ [])), sized)
unfolding set_input_sizes
sizes_set = refl

set_input_sizes-kept_once_example :
    (sized.0.bind_variables ≡ by_position (none_object ∷ holds 4 ∷ []))
    × ((internal_prepare sample_runtime server_driver numbered procedure_executor
          (some 8)
          none
          sized).1.0.bind_variables
        ≡ by_position (none_object ∷ holds 4 ∷ []))
    × ((prepare_new sample_runtime server_driver numbered procedure_executor
          (some 7)
          none
          (perform_bind numbered
            (internal_prepare sample_runtime server_driver numbered procedure_executor
              (some 8)
              none
              sized).1).1).1.0.bind_variables
        ≡ unbound)
set_input_sizes-kept_once_example =
    set_input_sizes-kept_once sample_runtime server_driver numbered procedure_executor caller sizes
      none (some 8) none (some 7) none (query_cursor, start.1) sized
      (by_position (none_object ∷ holds 4 ∷ [])) (omega arith) sizes_set

-- A NUMBER without a precision.
number_described :
    (get_description sample_runtime 0 server_driver (query_cursor, start.1)).0
    ≡ ok (
        Value.list (
          of_items (
            Value.tuple (
              of_items (
                Value.str (codes "ID")
                ∷ Value.db_type DbType.number
                ∷ Value.int (pos 127)
                ∷ Value.int (pos 22)
                ∷ Value.none
                ∷ Value.none
                ∷ Value.int (pos 1)
                ∷ []))
            ∷ [])))
unfolding get_description
number_described = refl

abbrev json_info : QueryInfo
json_info = record number_info {
  type_info = record number_info.type_info { oracle_type_num = OracleTypeNum.json };
}

-- One column, of JSON, and no output type handler.
abbrev json_driver : Driver Server
json_driver = record server_driver {
  get_query_info = λ h i. pure json_info;
  output_type_handler = λ s. none;
}

abbrev json_query : HasJson sample_runtime 0 json_driver 5 1 start.1
json_query = record {
  columns = 1;
  counted = λ t. refl;
  first = omega arith;
  last = omega arith;
  info = json_info;
  is_json = refl;
  no_object = refl;
  queried = λ t. refl;
  no_handler = refl;
}

json_column_undescribed_example :
    (column_variable json_driver (some 5) 3 1 start.1
      ≡ json_driver.var_new 3 TransformNum.json
          (column_size json_info.type_info)
          false
          none
          start.1)
    × (item_description sample_runtime 0 json_driver 1 (query_cursor, start.1)
        ≡ (err oracle_type_not_supported, (query_cursor, start.1)))
    × IsErr (get_description sample_runtime 0 json_driver (query_cursor, start.1)).0
json_column_undescribed_example =
    json_column_undescribed sample_runtime 0 json_driver 5 1 start.1 json_query query_cursor 3 refl
