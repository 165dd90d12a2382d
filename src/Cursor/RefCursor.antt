-- ===== src/Cursor/RefCursor.antt =====
-- A REF cursor whose define fails, in cxoCursor_verifyFetch: what the next fetch finds.
use python_cx_oracle.Prelude.{
  ℕ, suc, ◌≡◌, refl, ap, ◌∙◌, true, false, Option, none, some, List, if◌then◌else◌,
}
use python_cx_oracle.Error.{Error, ok, err, database, undefined, not_open, not_a_query}
use python_cx_oracle.Action.{
  ◌>>=◌, ◌>>◌, >>=-ok, >>=-err, foreign, foreign-ok, foreign-err, pure, raise, update,
}
use python_cx_oracle.Cursor.{
  Cursor, Driver, M, is_open, column_variable, define_columns, perform_define, or_database, fixup,
  verify_fetch, create_row, reset_fetch, new_fetch_variables, set_fetch_variable, count_row,
  row_items,
}

-- A driver where the first of `suc n` columns gets no variable: its type is not supported, say, or
-- the output type handler raises an exception. The calls leave the state as it is.
pub record ColumnFails {S : Type 0} (d : Driver S) (handle : Option ℕ) (n : ℕ) (s : S)
    : Type 0 where
  pub connected : d.is_connected s ≡ (ok tt, s)
  pub sized : (k : ℕ) → d.set_fetch_array_size handle k s ≡ (ok tt, s)
  pub columns : d.num_query_columns handle s ≡ (ok (suc n), s)
  pub error : Error
  pub fails : (k : ℕ) → column_variable d handle k 1 s ≡ (err error, s)

-- A cursor that has come out of a fetch as a value and was not fetched from: cxoTransform_toPython
-- sets fixupRefCursor.
abbrev pub ref_cursor : Cursor → Cursor
ref_cursor c = record c { is_open = true; fixup_ref_cursor = true; fetch_variables = none }

-- The cursor after a define that failed at the first column.
abbrev pub half_defined : ℕ → Cursor → Cursor
half_defined n c =
    new_fetch_variables (suc n) (reset_fetch (record c { fetch_array_size = c.array_size }))

-- The cursor after a fixup that found the variables already there.
abbrev pub undefined_cursor : ℕ → Cursor → Cursor
undefined_cursor n c =
    record (reset_fetch (record (half_defined n c) { fetch_array_size = c.array_size })) {
      fixup_ref_cursor = false;
    }

module _ {S : Type 0} (d : Driver S) where
  abbrev rest_of_columns : Option ℕ → ℕ → ℕ → M d (Unit {0})
  rest_of_columns handle n v = do
    update (set_fetch_variable 0 v)
    foreign (d.define handle 1 v)
    define_columns d n 2

  abbrev clear_fixup : M d (Unit {0})
  clear_fixup = update (λ c. record c { fixup_ref_cursor = false })

  abbrev define_all : ℕ → M d (Unit {0})
  define_all columns = do or_database d (perform_define d columns); clear_fixup

  abbrev count_and_define : Option ℕ → M d (Unit {0})
  count_and_define handle = foreign (d.num_query_columns handle) >>= define_all

  abbrev query_or_error : Option (List (Option ℕ)) → M d (Unit {0})
  query_or_error none = raise not_a_query
  query_or_error (some us) = pure tt

  abbrev check_query : M d (Unit {0})
  check_query w = query_or_error w.0.fetch_variables w

  -- fixup, up to the define
  sized_and_counted :
      (c : Cursor) (s : S) (n : ℕ)
      → ColumnFails d c.handle n s
      → fixup d (c, s) ≡ define_all (suc n) (record c { fetch_array_size = c.array_size }, s)
  unfolding fixup
  sized_and_counted c s n f =
      >>=-ok (foreign (d.set_fetch_array_size c.handle c.array_size))
        (λ _. count_and_define c.handle)
        (foreign-ok (d.set_fetch_array_size c.handle c.array_size) (f.sized c.array_size))
      ∙ >>=-ok (foreign (d.num_query_columns c.handle)) define_all
          (foreign-ok (d.num_query_columns c.handle) f.columns)

  failing_define :
      (c : Cursor) (s : S) (n : ℕ) (f : ColumnFails d c.handle n s)
      → define_columns d (suc n) 1 (c, s) ≡ (err f.error, (c, s))
  unfolding define_columns
  failing_define c s n f =
      >>=-err (foreign (column_variable d c.handle c.fetch_array_size 1))
        (rest_of_columns c.handle n)
        (foreign-err (column_variable d c.handle c.fetch_array_size 1) (f.fails c.fetch_array_size))

  first_fetch :
      (c : Cursor) (s : S) (n : ℕ)
      → ColumnFails d c.handle n s
      → fixup d (ref_cursor c, s) ≡ (err database, (half_defined n (ref_cursor c), s))
  unfolding perform_define
  first_fetch c s n f =
      sized_and_counted (ref_cursor c) s n f
      ∙ >>=-err (or_database d (perform_define d (suc n))) (λ _. clear_fixup)
          {w = (record (ref_cursor c) { fetch_array_size = c.array_size }, s)}
          (ap (λ p. elim p.0 [ ok a ↦ (ok a, p.1) | err e ↦ (err database, p.1) ])
            (failing_define (half_defined n (ref_cursor c)) s n f))

  second_fetch :
      (c : Cursor) (s : S) (n : ℕ)
      → ColumnFails d c.handle n s
      → fixup d (half_defined n (ref_cursor c), s) ≡ (ok tt, (undefined_cursor n (ref_cursor c), s))
  unfolding perform_define
  second_fetch c s n f = sized_and_counted (half_defined n (ref_cursor c)) s n f

  is_open_lem :
      (c : Cursor) (s : S) (n : ℕ)
      → ColumnFails d c.handle n s
      → c.is_open ≡ true
      → is_open d (c, s) ≡ (ok tt, (c, s))
  unfolding is_open
  is_open_lem c s n f e =
      ap (λ b. (if b then foreign d.is_connected else raise not_open) (c, s)) e
      ∙ foreign-ok d.is_connected f.connected

  -- cxoCursor_verifyFetch on an open REF cursor that is not yet defined, where the define of the
  -- first column fails: the call raises an error. The next call on the same cursor succeeds, and a
  -- row created then reads a variable that was never set.
  pub retry_after_failed_define :
      (c : Cursor) (s : S) (n i : ℕ)
      → ColumnFails d c.handle n s
      → (t : Cursor × S) × (u : Cursor × S) × (v : Cursor × S) × (verify_fetch d (ref_cursor c, s)
          ≡ (err database, t))
        × (verify_fetch d t ≡ (ok tt, u))
        × (create_row d i u ≡ (err undefined, v))
  unfolding verify_fetch create_row row_items
  retry_after_failed_define c s n i f = (
    (half_defined n (ref_cursor c), s),
    (undefined_cursor n (ref_cursor c), s),
    (count_row (undefined_cursor n (ref_cursor c)), s),
    >>=-ok (is_open d)
          (λ _ v. ((if v.0.fixup_ref_cursor then fixup d else pure tt) >> check_query) v)
          {w = (ref_cursor c, s)} (is_open_lem (ref_cursor c) s n f refl)
        ∙ >>=-err (fixup d) (λ _. check_query) {w = (ref_cursor c, s)} (first_fetch c s n f),
    >>=-ok (is_open d)
          (λ _ v. ((if v.0.fixup_ref_cursor then fixup d else pure tt) >> check_query) v)
          {w = (half_defined n (ref_cursor c), s)}
          (is_open_lem (half_defined n (ref_cursor c)) s n f refl)
        ∙ >>=-ok (fixup d) (λ _. check_query) {w = (half_defined n (ref_cursor c), s)}
            (second_fetch c s n f),
    refl,
  )
