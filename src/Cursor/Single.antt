-- ===== src/Cursor/Single.antt =====
-- fetchone and iteration, which take one row at a time.
use python_cx_oracle.Prelude.{◌≡◌, ap, sym, ◌∙◌, Option, none, some, List, [], ◌∷◌, drop, ℕ}
use python_cx_oracle.Error.{ok}
use python_cx_oracle.Action.{◌>>=◌, >>=-ok, pure}
use python_cx_oracle.Py.{Value, Values}
use python_cx_oracle.Cursor.{
  Cursor, Driver, M, count_row, fetch_row, fetch_one, get_next, verify_fetch, create_row, row_at,
  Source, remaining, row_object, Fetchable,
}
use python_cx_oracle.Cursor.Rows.{create_row_lem}
use python_cx_oracle.Cursor.Step.{at_end, at_row, fetch_row-Step}
use python_cx_oracle.Cursor.Methods.{Ready, verify_fetch_lem}

-- What fetchone returns where some rows are left, and what iteration returns.
abbrev pub first_or_none : (Values → Value) → List Values → Value
first_or_none f [] = Value.none
first_or_none f (r ∷ rs) = f r

abbrev pub first : (Values → Value) → List Values → Option Value
first f [] = none
first f (r ∷ rs) = some (f r)

module _ {S : Type 0} {d : Driver S} {handle : Option ℕ} {vs : List ℕ}
    (o : Source d handle vs) where
  abbrev one_found : Option ℕ → M d Value
  one_found none = pure Value.none
  one_found (some i) = create_row d i

  abbrev next_found : Option ℕ → M d (Option Value)
  next_found none = pure none
  next_found (some i) = create_row d i >>= λ v. pure (some v)

  -- On a cursor that is open and needs no define, cxoCursor_fetchOne returns the first row that is
  -- left, or None where none is, and leaves the rows after it. cxoCursor_getNext does the same to
  -- the cursor; it returns no object where fetchone returns None.
  pub one_row :
      (w : Cursor × S)
      → Ready d w
      → Fetchable handle vs w.0
      → (t : Cursor × S) × (fetch_one d w
          ≡ (ok (first_or_none (row_object o w.0.row_factory) (remaining o w)), t))
        × (get_next d w ≡ (ok (first (row_object o w.0.row_factory) (remaining o w)), t))
        × (remaining o t ≡ drop 1 (remaining o w))
  unfolding fetch_one get_next
  one_row w r f = elim (fetch_row-Step o w.0 w.1 f) [
    | at_end t p q q' b y g ↦ (
      t,
      >>=-ok (verify_fetch d) (λ _. fetch_row d >>= one_found) (verify_fetch_lem o w r f)
          ∙ >>=-ok (fetch_row d) one_found p
          ∙ ap (λ rs. (ok (first_or_none (row_object o w.0.row_factory) rs), t)) (sym q),
      >>=-ok (verify_fetch d) (λ _. fetch_row d >>= next_found) (verify_fetch_lem o w r f)
          ∙ >>=-ok (fetch_row d) next_found p
          ∙ ap (λ rs. (ok (first (row_object o w.0.row_factory) rs), t)) (sym q),
      q' ∙ ap (drop 1) (sym q),
    )
    | at_row i t p q b y g ↦ (
      (count_row t.0, t.1),
      >>=-ok (verify_fetch d) (λ _. fetch_row d >>= one_found) (verify_fetch_lem o w r f)
          ∙ >>=-ok (fetch_row d) one_found p
          ∙ create_row_lem o t.0 t.1 i g
          ∙ ap (λ k. (ok (row_object o k (row_at o.cell t.1 vs i)), (count_row t.0, t.1)))
              b.row_factory
          ∙ ap (λ rs. (ok (first_or_none (row_object o w.0.row_factory) rs), (count_row t.0, t.1)))
              (sym q),
      >>=-ok (verify_fetch d) (λ _. fetch_row d >>= next_found) (verify_fetch_lem o w r f)
          ∙ >>=-ok (fetch_row d) next_found p
          ∙ >>=-ok (create_row d i) (λ v. pure (some v)) (create_row_lem o t.0 t.1 i g)
          ∙ ap (λ k. (ok (some (row_object o k (row_at o.cell t.1 vs i))), (count_row t.0, t.1)))
              b.row_factory
          ∙ ap (λ rs. (ok (first (row_object o w.0.row_factory) rs), (count_row t.0, t.1))) (sym q),
      ap (drop 1) (sym q),
    )
  ]
