-- ===== src/Cursor/Tests.antt =====
-- The theorems on cursors, on a server that holds a list of rows of one column and delivers two of
-- them with every fetch.
use python_cx_oracle.Prelude.{
  ℕ, zero, suc, ◌+◌, ◌<◌, ◌≡◌, refl, true, false, none, some, List, [], ◌∷◌, ◌++◌, map, drop, ◌^◌,
  arith,
}
use python_cx_oracle.Prelude.Int.{pos}
use python_cx_oracle.Error.{ok, python}
use python_cx_oracle.Action.{pure, raise}
use python_cx_oracle.Types.{OracleTypeNum}
use python_cx_oracle.Py.{Value, Values, codes}
use python_cx_oracle.Cursor.{
  unbound, Cursor, Driver, Fetched, QueryInfo, Source, remaining, rows_at, Fetchable, fetch_many,
  fetch_all, fetch_one, get_next,
}
use python_cx_oracle.Cursor.Methods.{Ready, fetch_all_returns_all, fetch_many_then_all}
use python_cx_oracle.Cursor.Single.{one_row}

-- The values of the rows that are left, and those in the variable.
pub record Server : Type 0 where
  pub pending : List Value
  pub first : Value
  pub second : Value

abbrev pub fetched_of : List Value → Fetched
fetched_of [] = record { buffer_row_index = 0; num_rows_fetched = 0; more_rows = false }
fetched_of (a ∷ []) = record { buffer_row_index = 0; num_rows_fetched = 1; more_rows = false }
fetched_of (a ∷ b ∷ rest) = record { buffer_row_index = 0; num_rows_fetched = 2; more_rows = true }

abbrev pub server_after : List Value → Server
server_after [] = record { pending = []; first = Value.none; second = Value.none }
server_after (a ∷ []) = record { pending = []; first = a; second = Value.none }
server_after (a ∷ b ∷ rest) = record { pending = rest; first = a; second = b }

abbrev pub sample_cell : Server → ℕ → ℕ → Value
sample_cell s v zero = s.first
sample_cell s v (suc i) = s.second

abbrev row_of : Value → Values
row_of a = Values.cons a Values.nil

-- A NUMBER column without an object type; a row factory is the identity.
abbrev pub number_info : QueryInfo
number_info = record {
  name = codes "ID";
  type_info = record {
    oracle_type_num = OracleTypeNum.number;
    precision = pos 0;
    scale = pos 0;
    fs_precision = 0;
    size_in_chars = 0;
    client_size_in_bytes = 22;
  };
  object_type = none;
  null_ok = true;
}

abbrev pub server_driver : Driver Server
server_driver = record {
  is_connected = pure tt;
  fetch_rows = λ h n s. (ok (fetched_of s.pending), server_after s.pending);
  set_fetch_array_size = λ h n. pure tt;
  num_query_columns = λ h. pure 1;
  get_query_info = λ h i. pure number_info;
  define = λ h i v. pure tt;
  object_type_new = λ t. pure t;
  output_type_handler = λ s. some 0;
  call_output_type_handler = λ h i t n. raise (python 1);
  var_new = λ n t k a o. pure 0;
  allocated_elements = λ s v. 2;
  single_value = λ v i s. (ok (sample_cell s v i), s);
  call_row_factory = λ k r. pure (Value.list r);
  scroll = λ h m o n. pure tt;
  get_row_count = λ h. pure 0;
  close_statement = λ h. pure tt;
}

sample_moved :
    (xs : List Value)
    → rows_at sample_cell
          (server_after xs)
          (0 ∷ [])
          (fetched_of xs).buffer_row_index
          (fetched_of xs).num_rows_fetched
        ++ map row_of (server_after xs).pending
      ≡ map row_of xs
sample_moved [] = refl
sample_moved (a ∷ []) = refl
sample_moved (a ∷ b ∷ rest) = refl

sample_no_rows :
    (xs : List Value)
    → (fetched_of xs).num_rows_fetched ≡ 0
    → map row_of (server_after xs).pending ≡ []
sample_no_rows [] e = refl
sample_no_rows (a ∷ []) e = refl
sample_no_rows (a ∷ b ∷ rest) e = absurd (omega arith)

sample_no_more :
    (xs : List Value)
    → (fetched_of xs).more_rows ≡ false
    → map row_of (server_after xs).pending ≡ []
sample_no_more [] e = refl
sample_no_more (a ∷ []) e = refl
sample_no_more (a ∷ b ∷ rest) e = cc

sample_indexes :
    (xs : List Value) → (fetched_of xs).buffer_row_index + (fetched_of xs).num_rows_fetched < 2 ^ 32
sample_indexes [] = omega arith
sample_indexes (a ∷ []) = omega arith
sample_indexes (a ∷ b ∷ rest) = omega arith

abbrev server_source : Source server_driver (some 5) (0 ∷ [])
server_source = record {
  cell = sample_cell;
  pending = λ s. map row_of s.pending;
  reads = λ s v i. refl;
  fetched = λ s n. fetched_of s.pending;
  after = λ s n. server_after s.pending;
  fetches = λ s n h. refl;
  moved = λ s n h. sample_moved s.pending;
  no_rows = λ s n h. sample_no_rows s.pending;
  no_more = λ s n h. sample_no_more s.pending;
  indexes = λ s n h. sample_indexes s.pending;
  made = λ k r. Value.list r;
  makes = λ k r s. refl;
}

abbrev pub query_cursor : Cursor
query_cursor = record {
  handle = some 5;
  stmt_info = record {
    is_query = true;
    is_plsql = false;
    is_ddl = false;
    is_returning = false;
    is_select = true;
  };
  statement = some 9;
  statement_tag = none;
  bind_variables = unbound;
  fetch_variables = some (some 0 ∷ []);
  row_factory = none;
  array_size = 2;
  bind_array_size = 1;
  fetch_array_size = 2;
  prefetch_rows = 2;
  set_input_sizes = false;
  row_count = 0;
  fetch_buffer_row_index = 0;
  num_rows_in_fetch_buffer = 0;
  more_rows_to_fetch = true;
  is_scrollable = false;
  fixup_ref_cursor = false;
  is_open = true;
}

abbrev pub five : List Value
five =
    Value.int (pos 1)
    ∷ Value.int (pos 2)
    ∷ Value.int (pos 3)
    ∷ Value.int (pos 4)
    ∷ Value.int (pos 5)
    ∷ []

abbrev pub start : Cursor × Server
start = (query_cursor, record { pending = five; first = Value.none; second = Value.none })

start-Ready : Ready server_driver start
start-Ready = record { opened = refl; defined = refl; connected = λ s. refl }

start-Fetchable : Fetchable (some 5) (0 ∷ []) query_cursor
start-Fetchable = record {
  same_handle = refl;
  variables = refl;
  some_rows = omega arith;
  in_range = omega arith;
  counted = omega arith;
}

abbrev row_tuples : List Value → List Value
row_tuples xs = map (λ a. Value.tuple (row_of a)) xs

fetch_many_then_all_example :
    (rows : List Value) × (others : List Value) × (t : Cursor × Server) × (u : Cursor × Server)
    × (fetch_many server_driver 6 (some (pos 3)) start ≡ (ok rows, t))
    × (fetch_all server_driver 6 t ≡ (ok others, u))
    × (rows ++ others ≡ row_tuples five)
    × (remaining server_source u ≡ [])
fetch_many_then_all_example =
    fetch_many_then_all server_source 6 (some (pos 3)) start start-Ready start-Fetchable
      (omega arith)

fetch_all_returns_all_example :
    (t : Cursor × Server) × (fetch_all server_driver 6 start ≡ (ok (row_tuples five), t))
    × (remaining server_source t ≡ [])
fetch_all_returns_all_example =
    fetch_all_returns_all server_source 6 start start-Ready start-Fetchable (omega arith)

one_row_example :
    (t : Cursor × Server) × (fetch_one server_driver start
      ≡ (ok (Value.tuple (row_of (Value.int (pos 1)))), t))
    × (get_next server_driver start ≡ (ok (some (Value.tuple (row_of (Value.int (pos 1))))), t))
    × (remaining server_source t ≡ drop 1 (map row_of five))
one_row_example = one_row server_source start start-Ready start-Fetchable
