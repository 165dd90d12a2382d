-- ===== src/Cursor/Fetching.antt =====
-- Fetching rows: cxoCursor_fetchRow, cxoCursor_createRow, cxoCursor_multiFetch and the methods that
-- call them, cxoCursor_scroll and cxoCursor_close.
use python_cx_oracle.Prelude.{
  ℕ, zero, suc, ◌+◌, ◌-◌, ◌%◌, ◌^◌, false, Option, none, some, List, [], ◌∷◌, ltb, ◌==◌, ◌&&◌,
  if◌then◌else◌,
}
use python_cx_oracle.Prelude.Int.{ℤ, pos, negsuc}
use python_cx_oracle.Error.{undefined, rows_exceed_array_size, bad_scroll_mode}
use python_cx_oracle.Action.{Action, pure, raise, gets, ◌>>=◌, ◌>>◌, foreign, update}
use python_cx_oracle.Py.{Value, Values}
use python_cx_oracle.Transform.{to_uint32}
use python_cx_oracle.Cursor.State.{unbound, Cursor, Driver, Fetched, FetchMode}
use python_cx_oracle.Cursor.Define.{M, is_open, verify_fetch}

abbrev pub to_uint64 : ℕ → ℕ
to_uint64 n = n % 2 ^ 64

-- What dpiStmt_fetchRows writes into the cursor.
abbrev pub filled : Fetched → Cursor → Cursor
filled f c = record c {
  fetch_buffer_row_index = f.buffer_row_index;
  num_rows_in_fetch_buffer = f.num_rows_fetched;
  more_rows_to_fetch = f.more_rows;
}

abbrev pub next_in_buffer : Cursor → Cursor
next_in_buffer c = record c {
  fetch_buffer_row_index = to_uint32 (c.fetch_buffer_row_index + 1);
  num_rows_in_fetch_buffer = c.num_rows_in_fetch_buffer - 1;
}

abbrev pub count_row : Cursor → Cursor
count_row c = record c { row_count = to_uint64 (c.row_count + 1) }

-- The number of rounds of `for (rowNum = 0; rowLimit == 0 || rowNum < rowLimit; rowNum++)`, where
-- `rounds` stands for no limit.
abbrev pub loop_rounds : ℕ → ℤ → ℕ
loop_rounds rounds (pos zero) = rounds
loop_rounds rounds (pos (suc n)) = suc n
loop_rounds rounds (negsuc n) = 0

-- The conversion of a uint32_t to an int.
abbrev pub to_int32 : ℕ → ℤ
to_int32 n = if ltb n (2 ^ 31) then pos n else negsuc (2 ^ 32 - 1 - n)

-- The row limit of fetchmany: `numRows`, else the array size, which is cast to int.
abbrev pub row_limit_of : Option ℤ → ℕ → ℤ
row_limit_of none array_size = to_int32 array_size
row_limit_of (some n) array_size = n

module _ {S : Type 0} (d : Driver S) where
  -- The call of dpiStmt_fetchRows in cxoCursor_fetchRow.
  abbrev pub refill : M d (Unit {0})
  refill = do
    c ← gets (λ s. s.0)
    f ← foreign (d.fetch_rows c.handle c.fetch_array_size)
    update (filled f)

  abbrev pub take_buffered : ℕ → ℕ → M d (Option ℕ)
  take_buffered index zero = pure none
  take_buffered index (suc n) = update next_in_buffer >> pure (some index)

  -- cxoCursor_fetchRow: `*bufferRowIndex` if `*found`
  unfoldable pub fetch_row : M d (Option ℕ)
  fetch_row = do
    c ← gets (λ s. s.0)
    if c.num_rows_in_fetch_buffer == 0 && c.more_rows_to_fetch then refill else pure tt
    t ← gets (λ s. s.0)
    take_buffered t.fetch_buffer_row_index t.num_rows_in_fetch_buffer

  -- The items of the tuple. A variable that was never set is NULL.
  unfoldable pub row_items : List (Option ℕ) → ℕ → Action S Values
  row_items [] i = pure Values.nil
  row_items (none ∷ vs) i = raise undefined
  row_items (some v ∷ vs) i = do
    item ← d.single_value v i
    items ← row_items vs i
    pure (Values.cons item items)

  abbrev pub apply_row_factory : Option ℕ → Values → Action S Value
  apply_row_factory none items = pure (Value.tuple items)
  apply_row_factory (some k) items = d.call_row_factory k items

  abbrev pub variables_of : Option (List (Option ℕ)) → Action S (List (Option ℕ))
  variables_of none = raise undefined
  variables_of (some vs) = pure vs

  -- cxoCursor_createRow
  unfoldable pub create_row : ℕ → M d Value
  unfolding row_items
  create_row i = do
    update count_row
    c ← gets (λ s. s.0)
    vs ← foreign (variables_of c.fetch_variables)
    items ← foreign (row_items vs i)
    foreign (apply_row_factory c.row_factory items)

  -- The loop of cxoCursor_multiFetch, for a number of rounds.
  unfoldable pub fetch_loop : ℕ → M d (List Value)
  fetch_loop zero = pure []
  fetch_loop (suc n) = do
    found ← fetch_row
    elim found [
      | none ↦ pure []
      | some i ↦ do row ← create_row i; rows ← fetch_loop n; pure (row ∷ rows)
    ]

  -- cxoCursor_multiFetch
  unfoldable pub multi_fetch : ℕ → ℤ → M d (List Value)
  multi_fetch rounds row_limit = do verify_fetch d; fetch_loop (loop_rounds rounds row_limit)

  -- cxoCursor_fetchOne; None at the end
  unfoldable pub fetch_one : M d Value
  fetch_one = do
    verify_fetch d
    found ← fetch_row
    elim found [ none ↦ pure Value.none | some i ↦ create_row i ]

  -- cxoCursor_getNext; NULL without an exception at the end
  unfoldable pub get_next : M d (Option Value)
  get_next = do
    verify_fetch d
    found ← fetch_row
    elim found [ none ↦ pure none | some i ↦ create_row i >>= λ v. pure (some v) ]

  -- cxoCursor_fetchMany, with numRows if it is given.
  unfoldable pub fetch_many : ℕ → Option ℤ → M d (List Value)
  fetch_many rounds num_rows = do
    c ← gets (λ s. s.0)
    multi_fetch rounds (row_limit_of num_rows c.array_size)

  -- cxoCursor_fetchAll
  unfoldable pub fetch_all : ℕ → M d (List Value)
  fetch_all rounds = multi_fetch rounds (pos 0)

  abbrev pub fetched_raw : ℕ → Cursor → Cursor
  fetched_raw n c = record c {
    row_count = to_uint64 (c.row_count + n);
    num_rows_in_fetch_buffer = 0;
  }

  -- cxoCursor_fetchRaw, with the number of rows that was given, or fetchArraySize
  unfoldable pub fetch_raw : Option ℕ → M d ℕ
  fetch_raw given = do
    c ← gets (λ s. s.0)
    let n : ℕ = elim given [ none ↦ c.fetch_array_size | some n ↦ n ]
    if ltb c.fetch_array_size n then raise rows_exceed_array_size else do
      f ← foreign (d.fetch_rows c.handle n)
      update (fetched_raw f.num_rows_fetched)
      pure f.num_rows_fetched

  -- `0 - cursor->numRowsInFetchBuffer`, passed as int32_t
  abbrev pub minus : ℕ → ℤ
  minus n = to_int32 (to_uint32 (2 ^ 32 - n))

  -- cxoCursor_scroll, with the mode that was recognised
  unfoldable pub scroll : ℤ → Option FetchMode → M d (Unit {0})
  unfolding is_open
  scroll offset none = raise bad_scroll_mode
  scroll offset (some mode) = do
    is_open d
    c ← gets (λ s. s.0)
    foreign (d.scroll c.handle mode offset (minus c.num_rows_in_fetch_buffer))
    f ← foreign (d.fetch_rows c.handle c.fetch_array_size)
    update (filled f)
    n ← foreign (d.get_row_count c.handle)
    update (λ t. record t { row_count = to_uint64 (n + 2 ^ 64 - t.num_rows_in_fetch_buffer) })

  abbrev close_handle : Option ℕ → Action S (Unit {0})
  close_handle none = pure tt
  close_handle (some h) = d.close_statement h

  -- cxoCursor_close
  unfoldable pub close : M d (Unit {0})
  unfolding is_open
  close = do
    is_open d
    update (λ c. record c { bind_variables = unbound; fetch_variables = none })
    c ← gets (λ s. s.0)
    foreign (close_handle c.handle)
    update (λ t. record t { handle = none; is_open = false })
