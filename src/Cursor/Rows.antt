-- ===== src/Cursor/Rows.antt =====
-- The fetch methods against the stream of rows in Cursor/Stream.antt: what one fetch does to the
-- rows that are left.
use python_cx_oracle.Prelude.{
  ℕ, ◌≡◌, inl, inr, refl, ap, sym, ◌∙◌, true, Option, none, some, List, [], ◌∷◌, map, Bool-cases,
}
use python_cx_oracle.Error.{ok}
use python_cx_oracle.Action.{◌>>=◌, >>=-ok, foreign, foreign-ok, pure}
use python_cx_oracle.Py.{Value, Values}
use python_cx_oracle.Cursor.{
  Cursor, Driver, M, filled, count_row, row_items, apply_row_factory, variables_of, create_row,
  row_at, Source, remaining, row_object, Fetchable,
}

module _ {S : Type 0} {d : Driver S} {handle : Option ℕ} {vs : List ℕ}
    (o : Source d handle vs) where
  -- The items of a row are read off the buffer, which stays as it is.
  pub row_items_lem :
      (s : S) (us : List ℕ) (i : ℕ) → row_items d (map some us) i s ≡ (ok (row_at o.cell s us i), s)
  unfolding row_items
  row_items_lem s [] i = refl
  row_items_lem s (u ∷ us) i =
      >>=-ok (d.single_value u i)
        (λ item. row_items d (map some us) i >>= λ items. pure (Values.cons item items))
        (o.reads s u i)
      ∙ >>=-ok (row_items d (map some us) i) (λ items. pure (Values.cons (o.cell s u i) items))
          (row_items_lem s us i)

  pub apply_row_factory_lem :
      (k : Option ℕ) (r : Values) (s : S) → apply_row_factory d k r s ≡ (ok (row_object o k r), s)
  apply_row_factory_lem none r s = refl
  apply_row_factory_lem (some k) r s = o.makes k r s

  -- The rest of cxoCursor_createRow, once it has the variables.
  abbrev create_from : Option ℕ → ℕ → List (Option ℕ) → M d Value
  create_from k i us = do items ← foreign (row_items d us i); foreign (apply_row_factory d k items)

  -- Creating a row counts it and reads it off the buffer.
  pub create_row_lem :
      (c : Cursor) (s : S) (i : ℕ)
      → Fetchable handle vs c
      → create_row d i (c, s)
        ≡ (ok (row_object o c.row_factory (row_at o.cell s vs i)), (count_row c, s))
  unfolding create_row
  create_row_lem c s i f =
      ap (λ us. (foreign (variables_of d us) >>= create_from c.row_factory i) (count_row c, s))
        f.variables
      ∙ >>=-ok (foreign (row_items d (map some vs) i))
          (λ items. foreign (apply_row_factory d c.row_factory items))
          (foreign-ok (row_items d (map some vs) i) (row_items_lem s vs i))
      ∙ foreign-ok (apply_row_factory d c.row_factory (row_at o.cell s vs i))
          (apply_row_factory_lem c.row_factory (row_at o.cell s vs i) s)

  -- Filling the buffer keeps the rows that are left.
  pub refill-remaining :
      (c : Cursor) (s : S)
      → Fetchable handle vs c
      → c.num_rows_in_fetch_buffer ≡ 0
      → c.more_rows_to_fetch ≡ true
      → remaining o (filled (o.fetched s c.fetch_array_size) c, o.after s c.fetch_array_size)
        ≡ remaining o (c, s)
  refill-remaining c s f e m =
      rw (e, m)
        (elim (Bool-cases (o.fetched s c.fetch_array_size).more_rows) [
          | inl t ↦ rw t (o.moved s c.fetch_array_size f.some_rows)
          | inr t ↦
              rw (t, sym (o.no_more s c.fetch_array_size f.some_rows t))
                (o.moved s c.fetch_array_size f.some_rows)
        ])
