-- ===== src/Cursor/Delivery.antt =====
-- What the loop of cxoCursor_multiFetch does to the rows that are left.
use python_cx_oracle.Prelude.{
  ℕ, zero, suc, ◌+◌, ◌≡◌, refl, ap, sym, ◌∙◌, Option, none, some, List, [], ◌∷◌, map, length, take,
  drop, arith,
}
use python_cx_oracle.Error.{ok}
use python_cx_oracle.Action.{◌>>=◌, >>=-ok, pure}
use python_cx_oracle.Py.{Value}
use python_cx_oracle.Cursor.{
  Cursor, Driver, M, count_row, to_uint64, fetch_row, fetch_loop, create_row, row_at, Source,
  remaining, row_object, Fetchable,
}
use python_cx_oracle.Cursor.Rows.{create_row_lem}
use python_cx_oracle.Cursor.Step.{Same, same, Same-trans, at_end, at_row, fetch_row-Step}

module _ {S : Type 0} {d : Driver S} {handle : Option ℕ} {vs : List ℕ}
    (o : Source d handle vs) where
  -- What a loop of fetches has done: the rows that it returns are a first part of those that were
  -- left, and the others are still left.
  pub record Delivered (n : ℕ) (w : Cursor × S) : Type 0 where
    pub final : Cursor × S
    pub returned :
        fetch_loop d n w ≡ (ok (map (row_object o w.0.row_factory) (take n (remaining o w))), final)
    pub left : remaining o final ≡ drop n (remaining o w)
    pub count : final.0.row_count ≡ to_uint64 (w.0.row_count + length (take n (remaining o w)))
    pub kept : Same w.0 final.0
    pub again : Fetchable handle vs final.0

  counted_row : (c : Cursor) → Fetchable handle vs c → Fetchable handle vs (count_row c)
  counted_row c f = record {
    same_handle = f.same_handle;
    variables = f.variables;
    some_rows = f.some_rows;
    in_range = f.in_range;
    counted = omega arith;
  }

  abbrev rows_after : ℕ → Value → M d (List Value)
  rows_after n row = do rows ← fetch_loop d n; pure (row ∷ rows)

  -- The rest of a round, once cxoCursor_fetchRow has returned.
  abbrev pub after_found : ℕ → Option ℕ → M d (List Value)
  after_found n none = pure []
  after_found n (some i) = create_row d i >>= rows_after n

  -- A round that finds a row, before the other rounds.
  row_then :
      (n : ℕ) (c : Cursor) (s : S) (i : ℕ) (t : Cursor × S)
      → fetch_row d (c, s) ≡ (ok (some i), t)
      → remaining o (c, s) ≡ row_at o.cell t.1 vs i ∷ remaining o t
      → Same c t.0
      → t.0.row_count ≡ c.row_count
      → Fetchable handle vs t.0
      → Delivered n (count_row t.0, t.1)
      → Delivered (suc n) (c, s)
  unfolding fetch_loop
  row_then n c s i t p q b y g next = record {
    final = next.final;
    returned =
        >>=-ok (fetch_row d) (after_found n) p
        ∙ >>=-ok (create_row d i) (rows_after n) (create_row_lem o t.0 t.1 i g)
        ∙ >>=-ok (fetch_loop d n) (λ rows. pure (row ∷ rows)) next.returned
        ∙ ap
            (λ k. (
              ok (map (row_object o k) (row_at o.cell t.1 vs i ∷ take n (remaining o t))),
              next.final,
            ))
            b.row_factory
        ∙ ap (λ rs. (ok (map (row_object o c.row_factory) (take (suc n) rs)), next.final)) (sym q);
    left = next.left ∙ ap (drop (suc n)) (sym q);
    count = rw q (omega (arith, y, next.count));
    kept = Same-trans b (record {
      row_factory = next.kept.row_factory;
      is_open = next.kept.is_open;
      fixup_ref_cursor = next.kept.fixup_ref_cursor;
    });
    again = next.again;
  }
    where
      row : Value
      row = row_object o t.0.row_factory (row_at o.cell t.1 vs i)

  -- The loop of cxoCursor_multiFetch returns the next rows, each once and in order, as many as it
  -- has rounds or as are left; the cursor's row count grows by their number.
  pub fetch_loop_delivers :
      (n : ℕ) (c : Cursor) (s : S) → Fetchable handle vs c → Delivered n (c, s)
  unfolding fetch_loop
  fetch_loop_delivers zero c s f = record {
    final = (c, s);
    returned = refl;
    left = refl;
    count = omega (arith, f.counted);
    kept = same c;
    again = f;
  }
  fetch_loop_delivers (suc n) c s f = elim (fetch_row-Step o c s f) [
    | at_end t p q q' b y g ↦ record {
      final = t;
      returned =
          >>=-ok (fetch_row d) (after_found n) p
          ∙ ap (λ rs. (ok (map (row_object o c.row_factory) (take (suc n) rs)), t)) (sym q);
      left = q' ∙ ap (drop (suc n)) (sym q);
      count = rw q (omega (arith, y, f.counted));
      kept = b;
      again = g;
    }
    | at_row i t p q b y g ↦
        row_then n c s i t p q b y g (fetch_loop_delivers n (count_row t.0) t.1 (counted_row t.0 g))
  ]
