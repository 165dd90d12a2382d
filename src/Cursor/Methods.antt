-- ===== src/Cursor/Methods.antt =====
-- The fetch methods of an open cursor on a query: fetchone, fetchmany, fetchall and iteration.
use python_cx_oracle.Prelude.{
  ℕ, ◌+◌, ◌<◌, ◌≡◌, ap, sym, ◌∙◌, subst, true, false, Option, none, some, List, [], ◌++◌, map,
  length, take, drop, take_all, drop_all, length-drop, map-take-drop, arith, if◌then◌else◌,
}
use python_cx_oracle.Prelude.Int.{ℤ, pos}
use python_cx_oracle.Error.{ok, not_a_query, not_open}
use python_cx_oracle.Action.{◌>>◌, >>=-ok, foreign, foreign-ok, pure, raise}
use python_cx_oracle.Py.{Value, Values}
use python_cx_oracle.Cursor.{
  Cursor, Driver, M, fetch_loop, multi_fetch, fetch_many, fetch_all, loop_rounds, row_limit_of,
  is_open, fixup, verify_fetch, Source, remaining, row_object, Fetchable, to_uint64,
}
use python_cx_oracle.Cursor.Step.{Same}
use python_cx_oracle.Cursor.Delivery.{Delivered, fetch_loop_delivers}

-- An open cursor whose connection stays alive and that needs no define.
pub record Ready {S : Type 0} (d : Driver S) (w : Cursor × S) : Type 0 where
  pub opened : w.0.is_open ≡ true
  pub defined : w.0.fixup_ref_cursor ≡ false
  pub connected : (s : S) → d.is_connected s ≡ (ok tt, s)

module _ {S : Type 0} {d : Driver S} {handle : Option ℕ} {vs : List ℕ}
    (o : Source d handle vs) where
  is_open_lem : (w : Cursor × S) → Ready d w → is_open d w ≡ (ok tt, w)
  unfolding is_open
  is_open_lem w r =
      ap (λ b. (if b then foreign d.is_connected else raise not_open) w) r.opened
      ∙ foreign-ok d.is_connected (r.connected w.1)

  abbrev check_query : Option (List (Option ℕ)) → M d (Unit {0})
  check_query none = raise not_a_query
  check_query (some us) = pure tt

  -- A cursor that is ready passes cxoCursor_verifyFetch and is left as it is.
  pub verify_fetch_lem :
      (w : Cursor × S) → Ready d w → Fetchable handle vs w.0 → verify_fetch d w ≡ (ok tt, w)
  unfolding verify_fetch
  verify_fetch_lem w r f =
      >>=-ok (is_open d)
        (λ _ v.
          ((if v.0.fixup_ref_cursor then fixup d else pure tt) >> λ u.
          check_query u.0.fetch_variables u)
            v)
        (is_open_lem w r)
      ∙ ap (λ b. ((if b then fixup d else pure tt) >> λ u. check_query u.0.fetch_variables u) w)
          r.defined
      ∙ ap (λ us. check_query us w) f.variables

  -- A method that has returned the first `n` rows that were left.
  pub record Returns (n : ℕ) (m : M d (List Value)) (w : Cursor × S) : Type 0 where
    pub final : Cursor × S
    pub returned : m w ≡ (ok (map (row_object o w.0.row_factory) (take n (remaining o w))), final)
    pub left : remaining o final ≡ drop n (remaining o w)
    pub count : final.0.row_count ≡ to_uint64 (w.0.row_count + length (take n (remaining o w)))
    pub kept : Same w.0 final.0
    pub again : Fetchable handle vs final.0

  -- On a cursor that is open and needs no define, whose query has the rows `remaining` left,
  -- cxoCursor_multiFetch returns the first rows of these, in order and each once, as many as its
  -- loop has rounds; the others are left, and the row count grows by the number of rows returned.
  pub multi_fetch-Returns :
      (rounds : ℕ) (row_limit : ℤ) (w : Cursor × S)
      → Ready d w
      → Fetchable handle vs w.0
      → Returns (loop_rounds rounds row_limit) (multi_fetch d rounds row_limit) w
  unfolding multi_fetch
  multi_fetch-Returns rounds row_limit w r f = record {
    final = it.final;
    returned =
        >>=-ok (verify_fetch d) (λ _. fetch_loop d (loop_rounds rounds row_limit))
          (verify_fetch_lem w r f)
        ∙ it.returned;
    left = it.left;
    count = it.count;
    kept = it.kept;
    again = it.again;
  }
    where
      it : Delivered o (loop_rounds rounds row_limit) w
      it = fetch_loop_delivers o (loop_rounds rounds row_limit) w.0 w.1 f

  -- cxoCursor_fetchAll, whose loop has no limit, returns every row that is left and leaves none,
  -- once its rounds are more than these rows.
  pub fetch_all_returns_all :
      (rounds : ℕ) (w : Cursor × S)
      → Ready d w
      → Fetchable handle vs w.0
      → length (remaining o w) < rounds
      → (t : Cursor × S) × (fetch_all d rounds w
          ≡ (ok (map (row_object o w.0.row_factory) (remaining o w)), t))
        × (remaining o t ≡ [])
  unfolding fetch_all
  fetch_all_returns_all rounds w r f h =
      let it : Returns rounds (multi_fetch d rounds (pos 0)) w =
        multi_fetch-Returns rounds (pos 0) w r f in
      (
        it.final,
        it.returned
            ∙ ap (λ rs. (ok (map (row_object o w.0.row_factory) rs), it.final))
                (take_all rounds (remaining o w) (omega (arith, h))),
        it.left ∙ drop_all rounds (remaining o w) (omega (arith, h)),
      )

  Returns-Ready :
      (n : ℕ) (m : M d (List Value)) (w : Cursor × S)
      → Ready d w
      → (it : Returns n m w) → Ready d it.final
  Returns-Ready n m w r it = record {
    opened = it.kept.is_open ∙ r.opened;
    defined = it.kept.fixup_ref_cursor ∙ r.defined;
    connected = r.connected;
  }

  -- cxoCursor_fetchMany, with `numRows` or the array size, and then cxoCursor_fetchAll, on a cursor
  -- that is open and needs no define: together they return the rows that were left, in order and
  -- each once, and leave none, once the rounds of the unlimited loop are more than these rows.
  pub fetch_many_then_all :
      (rounds : ℕ) (num_rows : Option ℤ) (w : Cursor × S)
      → Ready d w
      → Fetchable handle vs w.0
      → length (remaining o w) < rounds
      → (rows : List Value) × (others : List Value) × (t : Cursor × S) × (u : Cursor × S)
        × (fetch_many d rounds num_rows w ≡ (ok rows, t))
        × (fetch_all d rounds t ≡ (ok others, u))
        × (rows ++ others ≡ map (row_object o w.0.row_factory) (remaining o w))
        × (remaining o u ≡ [])
  unfolding fetch_many
  fetch_many_then_all rounds num_rows w r f h = (
    map row (take n rs),
    map (row_object o it.final.0.row_factory) (remaining o it.final),
    it.final,
    rest.0,
    it.returned,
    rest.1,
    ap (λ k. map row (take n rs) ++ map (row_object o k) (remaining o it.final)) it.kept.row_factory
        ∙ ap (λ ys. map row (take n rs) ++ map row ys) it.left
        ∙ map-take-drop row n rs,
    rest.2,
  )
    where
      l : ℤ
      l = row_limit_of num_rows w.0.array_size

      n : ℕ
      n = loop_rounds rounds l

      rs : List Values
      rs = remaining o w

      row : Values → Value
      row = row_object o w.0.row_factory

      it : Returns n (multi_fetch d rounds l) w
      it = multi_fetch-Returns rounds l w r f

      rest :
          (t : Cursor × S) × (fetch_all d rounds it.final
            ≡ (ok (map (row_object o it.final.0.row_factory) (remaining o it.final)), t))
          × (remaining o t ≡ [])
      rest =
          fetch_all_returns_all rounds it.final (Returns-Ready n (multi_fetch d rounds l) w r it)
            it.again
            (subst (λ ys. length ys < rounds) (sym it.left) (omega (arith, h, length-drop n rs)))
