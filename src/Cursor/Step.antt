-- ===== src/Cursor/Step.antt =====
-- What cxoCursor_fetchRow does to the rows that are left.
use python_cx_oracle.Prelude.{
  ℕ, zero, suc, ◌+◌, ◌-◌, ◌≡◌, inl, inr, refl, ap, sym, ◌∙◌, subst, Bool, true, false, ◌&&◌, Option,
  none, some, List, [], ◌∷◌, arith, if◌then◌else◌, ◌==◌, Bool-cases, ==_iff,
}
use python_cx_oracle.Error.{ok}
use python_cx_oracle.Action.{◌>>=◌, >>=-ok, foreign, foreign-ok, pure, update}
use python_cx_oracle.Py.{Values}
use python_cx_oracle.Transform.{to_uint32}
use python_cx_oracle.Cursor.{
  Cursor, Driver, Fetched, M, filled, next_in_buffer, refill, take_buffered, fetch_row, row_at,
  Source, remaining, Fetchable,
}
use python_cx_oracle.Cursor.Rows.{refill-remaining}

-- What a fetch leaves alone.
pub record Same (c t : Cursor) : Type 0 where
  pub row_factory : t.row_factory ≡ c.row_factory
  pub is_open : t.is_open ≡ c.is_open
  pub fixup_ref_cursor : t.fixup_ref_cursor ≡ c.fixup_ref_cursor

pub same : (c : Cursor) → Same c c
same c = record { row_factory = refl; is_open = refl; fixup_ref_cursor = refl }

pub Same-trans : {a b c : Cursor} → Same a b → Same b c → Same a c
Same-trans p q = record {
  row_factory = q.row_factory ∙ p.row_factory;
  is_open = q.is_open ∙ p.is_open;
  fixup_ref_cursor = q.fixup_ref_cursor ∙ p.fixup_ref_cursor;
}

nothing : (b : Bool) → Path (List Values) (if b then [] else []) []
nothing true = refl
nothing false = refl

both : (a b : Bool) → (a && b) ≡ true → (a ≡ true) × (b ≡ true)
both true b h = (refl, h)
both false b h = cc

module _ {S : Type 0} {d : Driver S} {handle : Option ℕ} {vs : List ℕ}
    (o : Source d handle vs) where
  -- The two ways in which an action that looks for a row ends.
  pub data Step (m : M d (Option ℕ)) (w : Cursor × S) : Type 0 where
    at_end :
        (t : Cursor × S)
        → m w ≡ (ok none, t)
        → remaining o w ≡ []
        → remaining o t ≡ []
        → Same w.0 t.0
        → t.0.row_count ≡ w.0.row_count
        → Fetchable handle vs t.0
        → Step m w
    at_row :
        (i : ℕ) (t : Cursor × S)
        → m w ≡ (ok (some i), t)
        → remaining o w ≡ row_at o.cell t.1 vs i ∷ remaining o t
        → Same w.0 t.0
        → t.0.row_count ≡ w.0.row_count
        → Fetchable handle vs t.0
        → Step m w

  -- Taking a row from the buffer, where an empty buffer means that no row is left.
  take_buffered-Step :
      (c : Cursor) (s : S) (n : ℕ)
      → c.num_rows_in_fetch_buffer ≡ n
      → Fetchable handle vs c
      → (n ≡ 0 → remaining o (c, s) ≡ [])
      → Step (take_buffered d c.fetch_buffer_row_index n) (c, s)
  take_buffered-Step c s zero e f none_left =
      at_end (c, s) refl (none_left refl) (none_left refl) (same c) refl f
  take_buffered-Step c s (suc n) e f none_left =
      at_row c.fetch_buffer_row_index (next_in_buffer c, s) refl (rw (e, index, one_less))
        (record { row_factory = refl; is_open = refl; fixup_ref_cursor = refl }) refl
        (record {
          same_handle = f.same_handle;
          variables = f.variables;
          some_rows = f.some_rows;
          in_range = omega (arith, f.in_range, e);
          counted = f.counted;
        })
    where
      index : to_uint32 (c.fetch_buffer_row_index + 1) ≡ c.fetch_buffer_row_index + 1
      index = omega (arith, f.in_range, e)

      one_less : suc n - 1 ≡ n
      one_less = omega arith

  -- An action that does at `w` what another does at `v`, where as many rows are left.
  shift :
      (m k : M d (Option ℕ)) (w v : Cursor × S)
      → m w ≡ k v
      → remaining o w ≡ remaining o v
      → Same w.0 v.0
      → v.0.row_count ≡ w.0.row_count
      → Step k v
      → Step m w
  shift m k w v e r a x (at_end t p q q' b y f) =
      at_end t (e ∙ p) (r ∙ q) q' (Same-trans a b) (y ∙ x) f
  shift m k w v e r a x (at_row i t p q b y f) =
      at_row i t (e ∙ p) (r ∙ q) (Same-trans a b) (y ∙ x) f

  -- The rest of cxoCursor_fetchRow, once the buffer has been looked after.
  abbrev take_next : M d (Option ℕ)
  take_next w = take_buffered d w.0.fetch_buffer_row_index w.0.num_rows_in_fetch_buffer w

  refill_lem :
      (c : Cursor) (s : S)
      → Fetchable handle vs c
      → refill d (c, s)
        ≡ (ok tt, (filled (o.fetched s c.fetch_array_size) c, o.after s c.fetch_array_size))
  refill_lem c s f =
      ap (λ h. (foreign (d.fetch_rows h c.fetch_array_size) >>= λ g. update (filled g)) (c, s))
        f.same_handle
      ∙ >>=-ok (foreign (d.fetch_rows handle c.fetch_array_size)) (λ g. update (filled g))
          (foreign-ok (d.fetch_rows handle c.fetch_array_size)
            (o.fetches s c.fetch_array_size f.some_rows))

  filled-Fetchable :
      (c : Cursor) (s : S)
      → Fetchable handle vs c
      → Fetchable handle vs (filled (o.fetched s c.fetch_array_size) c)
  filled-Fetchable c s f = record {
    same_handle = f.same_handle;
    variables = f.variables;
    some_rows = f.some_rows;
    in_range = o.indexes s c.fetch_array_size f.some_rows;
    counted = f.counted;
  }

  -- A full buffer, or one that stays empty.
  kept-Step :
      (c : Cursor) (s : S)
      → Fetchable handle vs c
      → (c.num_rows_in_fetch_buffer == 0 && c.more_rows_to_fetch) ≡ false
      → Step (fetch_row d) (c, s)
  unfolding fetch_row
  kept-Step c s f e =
      shift (fetch_row d) (take_buffered d c.fetch_buffer_row_index c.num_rows_in_fetch_buffer)
        (c, s) (c, s) (ap (λ b. ((if b then refill d else pure tt) >>= λ _. take_next) (c, s)) e)
        refl (same c) refl (take_buffered-Step c s c.num_rows_in_fetch_buffer refl f none_left)
    where
      none_left : c.num_rows_in_fetch_buffer ≡ 0 → remaining o (c, s) ≡ []
      none_left z = rw (z, more) refl
        where
          more : c.more_rows_to_fetch ≡ false
          more = subst (λ n. (n == 0 && c.more_rows_to_fetch) ≡ false) z e

  filled-Step :
      (c : Cursor) (s : S)
      → Fetchable handle vs c
      → c.num_rows_in_fetch_buffer ≡ 0
      → c.more_rows_to_fetch ≡ true
      → Step (fetch_row d) (c, s)
  unfolding fetch_row
  filled-Step c s f e m =
      shift (fetch_row d) (take_buffered d g.buffer_row_index g.num_rows_fetched) (c, s)
        (filled g c, t)
        (ap (λ b. ((if b then refill d else pure tt) >>= λ _. take_next) (c, s))
            (ap (λ n. (n == 0) && c.more_rows_to_fetch) e ∙ m)
          ∙ >>=-ok (refill d) (λ _. take_next) (refill_lem c s f))
        (sym (refill-remaining o c s f e m))
        (record { row_factory = refl; is_open = refl; fixup_ref_cursor = refl }) refl
        (take_buffered-Step (filled g c) t g.num_rows_fetched refl (filled-Fetchable c s f)
          none_left)
    where
      g : Fetched
      g = o.fetched s c.fetch_array_size

      t : S
      t = o.after s c.fetch_array_size

      none_left : g.num_rows_fetched ≡ 0 → remaining o (filled g c, t) ≡ []
      none_left z = rw (z, o.no_rows s c.fetch_array_size f.some_rows z) (nothing g.more_rows)

  -- cxoCursor_fetchRow finds the next row that is left, or there is none.
  pub fetch_row-Step : (c : Cursor) (s : S) → Fetchable handle vs c → Step (fetch_row d) (c, s)
  fetch_row-Step c s f =
      elim (Bool-cases (c.num_rows_in_fetch_buffer == 0 && c.more_rows_to_fetch)) [
        | inr e ↦ kept-Step c s f e
        | inl e ↦
            let (z, m) = both (c.num_rows_in_fetch_buffer == 0) c.more_rows_to_fetch e in
            filled-Step c s f ((==_iff c.num_rows_in_fetch_buffer 0).0 z) m
      ]
