-- ===== src/Cursor/Execute.antt =====
-- Preparing and executing: cxoCursor_internalPrepare, cxoCursor_prepare, cxoCursor_parse,
-- cxoCursor_execute, cxoCursor_executeMany and cxoCursor_executeManyPrepared.
use python_cx_oracle.Prelude.{
  ℕ, Bool, true, false, not, ◌&&◌, Option, none, some, List, length, ◌==◌, if◌then◌else◌,
}
use python_cx_oracle.Error.{ok, err, no_statement}
use python_cx_oracle.Action.{Action, pure, raise, lift, gets, ◌>>=◌, ◌>>◌, foreign, update}
use python_cx_oracle.Py.{Value}
use python_cx_oracle.Transform.{Runtime, Buffer, buffer_from_object, to_uint32}
use python_cx_oracle.Cursor.State.{unbound, StmtInfo, Cursor, Driver}
use python_cx_oracle.Cursor.Bind.{
  Variables, Parameters, set_bind_variables, perform_bind, bind_rows,
}
use python_cx_oracle.Cursor.Define.{M, is_open, perform_define}

pub data ExecMode : Type 0 where
  default_mode commit_on_success describe_only parse_only : ExecMode

-- The calls of the methods that run a statement.
pub record Executor (S : Type 0) : Type 0 where
  -- the value of an object reference, the encoding and the autocommit flag of the connection
  pub object_value : ℕ → Value
  pub encoding : ℕ
  pub autocommit : S → Bool
  -- dpiStmt_release, and dpiConn_prepareStmt: scrollable, text, tag
  pub release : ℕ → Action S (Unit {0})
  pub prepare_stmt : Bool → Buffer → Buffer → Action S ℕ
  pub get_info : Option ℕ → Action S StmtInfo
  pub default_prefetch_rows : ℕ
  pub set_prefetch_rows : Option ℕ → ℕ → Action S (Unit {0})
  -- dpiStmt_execute: the number of query columns
  pub execute_stmt : Option ℕ → ExecMode → Action S ℕ
  -- dpiStmt_executeMany: commit on success, batch errors, array DML row counts, number of rows
  pub execute_many_stmt : Option ℕ → Bool → Bool → Bool → ℕ → Action S (Unit {0})

module _ (rt : Runtime) {S : Type 0} (d : Driver S) (vars : Variables S) (x : Executor S) where
  -- The second test of cxoCursor_internalPrepare: the statement is None or the one that is stored.
  abbrev pub same_statement : Option ℕ → Option ℕ → Bool
  same_statement none stored = true
  same_statement (some s) none = false
  same_statement (some s) (some t) = s == t

  abbrev pub has_handle : Option ℕ → Bool
  has_handle none = false
  has_handle (some h) = true

  abbrev pub statement_or : Option ℕ → Option ℕ → Option ℕ
  statement_or none stored = stored
  statement_or (some s) stored = some s

  -- Keeping the statement and the tag, and clearing what belonged to the last statement.
  abbrev pub keep_statement : Option ℕ → Option ℕ → Cursor → Cursor
  keep_statement statement tag c = record c {
    statement = statement;
    statement_tag = tag;
    fetch_variables = none;
    bind_variables = if c.set_input_sizes then c.bind_variables else unbound;
  }

  abbrev pub value_of : Option ℕ → Value
  value_of none = Value.none
  value_of (some r) = x.object_value r

  abbrev release_handle : Option ℕ → Action S (Unit {0})
  release_handle none = pure tt
  release_handle (some h) = x.release h

  -- The rest of cxoCursor_internalPrepare, from the conversion of the tag on. A failing call leaves
  -- the handle as it was.
  abbrev pub prepare_text : Option ℕ → Buffer → M d (Unit {0})
  prepare_text tag text = do
    tag_text ← lift (buffer_from_object rt (value_of tag) x.encoding)
    c ← gets (λ s. s.0)
    foreign (release_handle c.handle)
    h ← foreign (x.prepare_stmt c.is_scrollable text tag_text)
    update (λ t. record t { handle = some h })
    info ← foreign (x.get_info (some h))
    update (λ t. record t { stmt_info = info })
    if info.is_select then foreign (d.set_fetch_array_size (some h) c.array_size) else pure tt
    if c.prefetch_rows == x.default_prefetch_rows
        then pure tt
        else foreign (x.set_prefetch_rows (some h) c.prefetch_rows)
    update (λ t. record t { row_factory = none })

  -- cxoCursor_internalPrepare, after its early returns
  unfoldable pub prepare_new : Option ℕ → Option ℕ → M d (Unit {0})
  unfolding buffer_from_object
  prepare_new statement tag = do
    update (keep_statement statement tag)
    text ← lift (buffer_from_object rt (value_of statement) x.encoding)
    prepare_text tag text

  -- cxoCursor_internalPrepare
  unfoldable pub internal_prepare : Option ℕ → Option ℕ → M d (Unit {0})
  unfolding prepare_new
  internal_prepare statement tag = do
    c ← gets (λ s. s.0)
    if not (has_handle statement) && not (has_handle c.statement)
        then raise no_statement
        else if same_statement statement c.statement
            && (has_handle c.handle && not c.stmt_info.is_ddl)
        then pure tt
        else prepare_new (statement_or statement c.statement) tag

  -- cxoCursor_prepare
  unfoldable pub prepare : Option ℕ → Option ℕ → M d (Unit {0})
  prepare statement tag = do is_open d; internal_prepare statement tag

  -- cxoCursor_parse
  unfoldable pub parse : Option ℕ → M d (Unit {0})
  parse statement = do
    is_open d
    internal_prepare statement none
    c ← gets (λ s. s.0)
    info ← foreign (x.get_info c.handle)
    foreign (
        x.execute_stmt c.handle
          (if info.is_query then ExecMode.describe_only else ExecMode.parse_only))
    pure tt

  abbrev pub bind_arguments : Option Parameters → M d (Unit {0})
  bind_arguments none = pure tt
  bind_arguments (some p) = set_bind_variables vars p 1 0 false

  -- The define after a query; a failure clears the fetch variables.
  abbrev pub define_or_clear : ℕ → M d (Unit {0})
  define_or_clear columns s =
      let (r, t) = perform_define d columns s in
      elim r [ ok a ↦ (ok a, t) | err e ↦ (err e, (record t.0 { fetch_variables = none }, t.1)) ]

  abbrev pub commit_mode : Bool → ExecMode
  commit_mode true = ExecMode.commit_on_success
  commit_mode false = ExecMode.default_mode

  -- cxoCursor_execute, with arguments that were recognised: true where the cursor is returned
  unfoldable pub execute : Option ℕ → Option Parameters → M d Bool
  execute statement arguments = do
    is_open d
    internal_prepare statement none
    bind_arguments arguments
    perform_bind vars
    c ← gets (λ s. s.0)
    commit ← gets (λ s. x.autocommit s.1)
    columns ← foreign (x.execute_stmt c.handle (commit_mode commit))
    n ← foreign (d.get_row_count c.handle)
    update (λ t. record t { row_count = n })
    if columns == 0 then pure false else do define_or_clear columns; pure true

  -- The count after a run that failed is read as well, and its own failure passed over.
  abbrev pub run_many : Bool → Bool → Bool → ℕ → M d (Unit {0})
  run_many commit batch_errors row_counts num_rows s =
      let (r, t) = x.execute_many_stmt s.0.handle commit batch_errors row_counts num_rows s.1 in
      let (k, u) = d.get_row_count s.0.handle t in
      elim r [
        | ok a ↦ elim k [
          | ok n ↦ (ok tt, (record s.0 { row_count = n }, u))
          | err e ↦ (err e, (s.0, u))
        ]
        | err e ↦ elim k [
          | ok n ↦ (err e, (record s.0 { row_count = n }, u))
          | err f ↦ (err e, (s.0, u))
        ]
      ]

  -- The rows of executemany, or the number of times that was given.
  pub data Batch : Type 0 where
    rows : List (Option Parameters) → Batch
    times : ℕ → Batch

  abbrev pub batch_size : Batch → ℕ
  batch_size (rows ps) = to_uint32 (length ps)
  batch_size (times n) = to_uint32 n

  abbrev pub bind_batch : Batch → M d (Unit {0})
  bind_batch (rows ps) = bind_rows vars (to_uint32 (length ps)) 0 ps
  bind_batch (times n) = pure tt

  -- cxoCursor_executeMany, with a batch that was recognised
  unfoldable pub execute_many : Option ℕ → Batch → Bool → Bool → M d (Unit {0})
  execute_many statement batch batch_errors row_counts = do
    is_open d
    commit ← gets (λ s. x.autocommit s.1)
    internal_prepare statement none
    bind_batch batch
    perform_bind vars
    if batch_size batch == 0
        then pure tt
        else run_many commit batch_errors row_counts (batch_size batch)

  -- cxoCursor_executeManyPrepared
  unfoldable pub execute_many_prepared : ℕ → M d (Unit {0})
  execute_many_prepared num_iters = do
    is_open d
    perform_bind vars
    c ← gets (λ s. s.0)
    foreign (x.execute_many_stmt c.handle false false false num_iters)
    n ← foreign (d.get_row_count c.handle)
    update (λ t. record t { row_count = n })
