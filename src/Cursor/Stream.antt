-- ===== src/Cursor/Stream.antt =====
-- What a cursor's fetches promise: the rows of the query, each once and in order. The rows that are
-- left are those in the fetch buffer and then those that the server still has.
use python_cx_oracle.Prelude.{
  ℕ, zero, suc, ◌+◌, ◌^◌, ◌<◌, ◌≡◌, false, Option, none, some, List, [], ◌∷◌, ◌++◌, map,
  if◌then◌else◌,
}
use python_cx_oracle.Error.{ok}
use python_cx_oracle.Py.{Value, Values}
use python_cx_oracle.Cursor.State.{Cursor, Driver, Fetched}

module _ {S : Type 0} where
  -- The row at an index of the fetch buffer: the cell of each variable.
  abbrev pub row_at : (S → ℕ → ℕ → Value) → S → List ℕ → ℕ → Values
  row_at cell s [] i = Values.nil
  row_at cell s (v ∷ vs) i = Values.cons (cell s v i) (row_at cell s vs i)

  -- The `n` rows of the buffer from index `i`.
  abbrev pub rows_at : (S → ℕ → ℕ → Value) → S → List ℕ → ℕ → ℕ → List Values
  rows_at cell s vs i zero = []
  rows_at cell s vs i (suc n) = row_at cell s vs i ∷ rows_at cell s vs (i + 1) n

-- What the code relies on in the calls that leave src/. `pending` are the rows that the server has
-- not yet put into the variables.
pub record Source {S : Type 0} (d : Driver S) (handle : Option ℕ) (vs : List ℕ) : Type 0 where
  pub cell : S → ℕ → ℕ → Value
  pub pending : S → List Values
  -- Reading a cell changes nothing.
  pub reads : (s : S) (v i : ℕ) → d.single_value v i s ≡ (ok (cell s v i), s)
  -- dpiStmt_fetchRows puts the next rows into the buffer.
  pub fetched : S → ℕ → Fetched
  pub after : S → ℕ → S
  pub fetches : (s : S) (n : ℕ) → 0 < n → d.fetch_rows handle n s ≡ (ok (fetched s n), after s n)
  pub moved :
      (s : S) (n : ℕ)
      → 0 < n
      → rows_at cell (after s n) vs (fetched s n).buffer_row_index (fetched s n).num_rows_fetched
          ++ pending (after s n)
        ≡ pending s
  -- It finds no row only where none is left, and says so of more rows only then.
  pub no_rows :
      (s : S) (n : ℕ) → 0 < n → (fetched s n).num_rows_fetched ≡ 0 → pending (after s n) ≡ []
  pub no_more : (s : S) (n : ℕ) → 0 < n → (fetched s n).more_rows ≡ false → pending (after s n) ≡ []
  -- The indexes of a buffer are below 2 ^ 32.
  pub indexes :
      (s : S) (n : ℕ)
      → 0 < n
      → (fetched s n).buffer_row_index + (fetched s n).num_rows_fetched < 2 ^ 32
  -- A row factory returns a value and leaves the cursor's variables alone.
  pub made : ℕ → Values → Value
  pub makes : (k : ℕ) (r : Values) (s : S) → d.call_row_factory k r s ≡ (ok (made k r), s)

module _ {S : Type 0} {d : Driver S} {handle : Option ℕ} {vs : List ℕ}
    (o : Source d handle vs) where
  -- The rows that a cursor has not yet returned.
  abbrev pub remaining : Cursor × S → List Values
  remaining s =
      rows_at o.cell s.1 vs s.0.fetch_buffer_row_index s.0.num_rows_in_fetch_buffer
      ++ (if s.0.more_rows_to_fetch then o.pending s.1 else [])

  -- The object that a row becomes.
  abbrev pub row_object : Option ℕ → Values → Value
  row_object none r = Value.tuple r
  row_object (some k) r = o.made k r

-- A cursor on an executed query: its fetch variables are set, and no define is due.
pub record Fetchable (handle : Option ℕ) (vs : List ℕ) (c : Cursor) : Type 0 where
  pub same_handle : c.handle ≡ handle
  pub variables : c.fetch_variables ≡ some (map some vs)
  pub some_rows : 0 < c.fetch_array_size
  pub in_range : c.fetch_buffer_row_index + c.num_rows_in_fetch_buffer < 2 ^ 32
  pub counted : c.row_count < 2 ^ 64
