-- ===== src/Cursor/State.antt =====
-- The fields of struct cxoCursor (src/cxoModule.h), and the calls that leave src/: ODPI-C, type
-- handlers and row factories.
use python_cx_oracle.Prelude.{ℕ, Bool, Option, List}
use python_cx_oracle.Prelude.Int.{ℤ}
use python_cx_oracle.Action.{Action}
use python_cx_oracle.Types.{DbType, TransformNum, DataTypeInfo}
use python_cx_oracle.Py.{Value, Values}

-- An item of a list of variables: NULL where PyList_New has made it and nothing has set it, None,
-- or a reference to a cxoVar object.
pub data Slot : Type 0 where
  null none_object : Slot
  holds : ℕ → Slot

-- cursor->bindVariables: NULL, a list, or a dictionary
pub data Binds : Type 0 where
  unbound : Binds
  by_position : List Slot → Binds
  by_name : List (Value × ℕ) → Binds

-- The fields of dpiStmtInfo that the code reads.
pub record StmtInfo : Type 0 where
  pub is_query : Bool
  pub is_plsql : Bool
  pub is_ddl : Bool
  pub is_returning : Bool
  pub is_select : Bool

-- A statement text and a row factory are references to Python objects: the code compares statements
-- by identity.
pub record Cursor : Type 0 where
  pub handle : Option ℕ
  pub stmt_info : StmtInfo
  pub statement : Option ℕ
  pub statement_tag : Option ℕ
  pub bind_variables : Binds
  pub fetch_variables : Option (List (Option ℕ))
  pub row_factory : Option ℕ
  pub array_size : ℕ
  pub bind_array_size : ℕ
  pub fetch_array_size : ℕ
  pub prefetch_rows : ℕ
  pub set_input_sizes : Bool
  pub row_count : ℕ
  pub fetch_buffer_row_index : ℕ
  pub num_rows_in_fetch_buffer : ℕ
  pub more_rows_to_fetch : Bool
  pub is_scrollable : Bool
  pub fixup_ref_cursor : Bool
  pub is_open : Bool

-- What dpiStmt_fetchRows returns through its pointers.
pub record Fetched : Type 0 where
  pub buffer_row_index : ℕ
  pub num_rows_fetched : ℕ
  pub more_rows : Bool

-- dpiQueryInfo: the type of a column, and its object type if it has one.
pub record QueryInfo : Type 0 where
  pub name : List ℕ
  pub type_info : DataTypeInfo
  pub object_type : Option ℕ
  pub null_ok : Bool

-- dpiFetchMode, for scrolling
pub data FetchMode : Type 0 where
  relative absolute first last : FetchMode

-- The calls of a cursor that leave this file, on a state `S` that they share: the server, the
-- variables and the Python objects. A statement is known by its handle, a variable by its
-- reference.
pub record Driver (S : Type 0) : Type 0 where
  -- cxoConnection_isConnected
  pub is_connected : Action S (Unit {0})
  pub fetch_rows : Option ℕ → ℕ → Action S Fetched
  pub set_fetch_array_size : Option ℕ → ℕ → Action S (Unit {0})
  pub num_query_columns : Option ℕ → Action S ℕ
  pub get_query_info : Option ℕ → ℕ → Action S QueryInfo
  pub define : Option ℕ → ℕ → ℕ → Action S (Unit {0})
  -- cxoObjectType_new
  pub object_type_new : ℕ → Action S ℕ
  -- the handler on the cursor, else that on the connection; a handler that is None counts as none
  pub output_type_handler : S → Option ℕ
  pub call_output_type_handler : ℕ → QueryInfo → DbType → ℕ → Action S Value
  -- cxoVar_new, and the field allocatedElements of a variable
  pub var_new : ℕ → TransformNum → ℕ → Bool → Option ℕ → Action S ℕ
  pub allocated_elements : S → ℕ → ℕ
  -- cxoVar_getSingleValue on the data of the variable
  pub single_value : ℕ → ℕ → Action S Value
  pub call_row_factory : ℕ → Values → Action S Value
  -- dpiStmt_scroll, with the offset and the number of rows it is corrected by
  pub scroll : Option ℕ → FetchMode → ℤ → ℤ → Action S (Unit {0})
  pub get_row_count : Option ℕ → Action S ℕ
  -- dpiStmt_close
  pub close_statement : ℕ → Action S (Unit {0})
