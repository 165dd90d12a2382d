-- ===== src/Var/Grow.antt =====
-- cxoVar_setValueBytes: what the variable holds afterwards, also where its buffer had to grow.
use python_cx_oracle.Prelude.{
  ℕ, ◌≤◌, ◌≡◌, inl, inr, refl, ap, sym, ◌∙◌, subst, none, some, List, [], map, length, set,
  replicate, ltb, arith, if◌then◌else◌, Bool-cases,
}
use python_cx_oracle.Error.{ok}
use python_cx_oracle.Action.{Action, ◌>>=◌, ◌>>◌, >>=-inv, foreign, foreign-inv, lift, pure, update}
use python_cx_oracle.Types.{Transform}
use python_cx_oracle.Transform.{DbValue, Buffer}
use python_cx_oracle.Json.{buffer_bytes}
use python_cx_oracle.Var.{
  Cell, Var, Dpi, null_cell, bytes_cell, copy_cells, grow, set_value_bytes, store_bytes_at,
  copy_num_elements, type_info,
}
use python_cx_oracle.Var.Copy.{Writes, view, kept, map-set, kept-set, ltb→le, copy_cells_lem}

module _ {S : Type 0} (d : Dpi S) (laws : Writes d) where
  -- What the larger variable holds before the new value is set.
  grow_lem :
      (pos : ℕ) (buffer : Buffer) (v : Var) (s : S) (w : Var × S)
      → length v.elements ≡ v.allocated_elements
      → grow d pos buffer (v, s) ≡ (ok tt, w)
      → (w.0.elements ≡ kept pos 0 v.elements)
        × (w.0.buffer_size ≡ buffer.size)
        × (w.0.allocated_elements ≡ v.allocated_elements)
  unfolding grow
  grow_lem pos buffer v s w l e =
      let (r, x1, e1, f1) = >>=-inv (lift (type_info v.transform_num)) with_type (v, s) w tt e in
      let (temp, x2, e2, f2) = >>=-inv (foreign (make r)) with_temp x1 w tt f1 in
      let (a, x3, e3, f3) =
        >>=-inv (foreign (copy_num_elements d v.is_array v.handle temp.0)) (λ _. with_number temp)
          x2 w tt f2 in
      let (cells, x4, e4, f4) =
        >>=-inv (foreign (copy_cells d temp.0 pos 0 v.elements temp.1)) (with_cells temp) x3 w tt
          f3 in
      let (b, x5, e5, f5) =
        >>=-inv (foreign (d.release v.handle)) (λ _. finish temp cells) x4 w tt f4 in
      let fresh : temp.1 ≡ replicate (length v.elements) null_cell =
        laws.all_null r.oracle_type_num r.native_type_num v.allocated_elements buffer.size
          v.is_array none x1.1 x2.1 temp ((foreign-inv (make r) x1.0 x1.1 temp x2 e2).0)
        ∙ ap (λ n. replicate n null_cell) (sym l) in
      let all : cells ≡ kept pos 0 v.elements =
        copy_cells_lem d laws temp.0 pos 0 v.elements [] cells x3.1 x4.1 refl (
          subst (λ t. copy_cells d temp.0 pos 0 v.elements t x3.1 ≡ (ok cells, x4.1)) fresh
            ((foreign-inv (copy_cells d temp.0 pos 0 v.elements temp.1) x3.0 x3.1 cells x4
              e4).0)) in
      (
        ap (λ q. q.1.0.elements) (sym f5) ∙ all,
        ap (λ q. q.1.0.buffer_size) (sym f5),
        ap (λ q. q.1.0.allocated_elements) (sym f5)
            ∙ ap (λ p. p.allocated_elements)
                ((foreign-inv (d.release v.handle) x4.0 x4.1 b x5 e5).1)
            ∙ ap (λ p. p.allocated_elements)
                ((foreign-inv (copy_cells d temp.0 pos 0 v.elements temp.1) x3.0 x3.1 cells x4
                  e4).1)
            ∙ ap (λ p. p.allocated_elements)
                ((foreign-inv (copy_num_elements d v.is_array v.handle temp.0) x2.0 x2.1 a x3 e3).1)
            ∙ ap (λ p. p.allocated_elements) ((foreign-inv (make r) x1.0 x1.1 temp x2 e2).1)
            ∙ ap (λ q. q.1.0.allocated_elements) (sym e1),
      )
    where
      finish : ℕ × List Cell → List Cell → Action (Var × S) (Unit {0})
      finish temp cells = update (λ w. record w {
        handle = temp.0;
        elements = cells;
        size = buffer.num_characters;
        buffer_size = buffer.size;
      })

      with_cells : ℕ × List Cell → List Cell → Action (Var × S) (Unit {0})
      with_cells temp cells = foreign (d.release v.handle) >> finish temp cells

      with_number : ℕ × List Cell → Action (Var × S) (Unit {0})
      with_number temp = foreign (copy_cells d temp.0 pos 0 v.elements temp.1) >>= with_cells temp

      with_temp : ℕ × List Cell → Action (Var × S) (Unit {0})
      with_temp temp = foreign (copy_num_elements d v.is_array v.handle temp.0) >> with_number temp

      make : Transform → Action S (ℕ × List Cell)
      make r =
          d.new_var r.oracle_type_num r.native_type_num v.allocated_elements buffer.size v.is_array
            none

      with_type : Transform → Action (Var × S) (Unit {0})
      with_type r = foreign (make r) >>= with_temp

  -- Setting the new value.
  store_bytes_at_lem :
      (pos : ℕ) (buffer : Buffer) (v : Var) (s : S) (w : Var × S)
      → store_bytes_at d pos buffer (v, s) ≡ (ok tt, w)
      → (w.0.elements ≡ set v.elements pos (bytes_cell (buffer_bytes buffer)))
        × (w.0.buffer_size ≡ v.buffer_size)
        × (w.0.allocated_elements ≡ v.allocated_elements)
  store_bytes_at_lem pos buffer v s w e =
      let (cells, x, e1, e2) =
        >>=-inv (foreign (d.set_from_bytes v.handle v.elements pos (buffer_bytes buffer)))
          (λ cells. update (λ w. record w { elements = cells })) (v, s) w tt e in
      let (p, q) =
        foreign-inv (d.set_from_bytes v.handle v.elements pos (buffer_bytes buffer)) v s cells x
          e1 in
      (
        ap (λ r. r.1.0.elements) (sym e2)
            ∙ laws.sets_one v.handle pos v.elements cells (buffer_bytes buffer) s x.1 p,
        ap (λ r. r.1.0.buffer_size) (sym e2) ∙ ap (λ p. p.buffer_size) q,
        ap (λ r. r.1.0.allocated_elements) (sym e2) ∙ ap (λ p. p.allocated_elements) q,
      )

  -- cxoVar_setValueBytes, where it succeeds on a variable with all its elements: the element at the
  -- position shows the new bytes and every other element what it showed before, whether or not a
  -- larger buffer had to be made; afterwards the buffer is as large as the value, and the number of
  -- elements is what it was.
  pub set_value_bytes-view :
      (pos : ℕ) (buffer : Buffer) (v : Var) (s : S) (w : Var × S)
      → length v.elements ≡ v.allocated_elements
      → set_value_bytes d pos buffer (v, s) ≡ (ok tt, w)
      → (map view w.0.elements
          ≡ set (map view v.elements) pos (some (DbValue.as_bytes (buffer_bytes buffer))))
        × (buffer.size ≤ w.0.buffer_size)
        × (w.0.allocated_elements ≡ v.allocated_elements)
  unfolding set_value_bytes
  set_value_bytes-view pos buffer v s w l e = elim (Bool-cases (ltb v.buffer_size buffer.size)) [
    | inr f ↦
        let (p, q, z) = store_bytes_at_lem pos buffer v s w (
          subst
            (λ k.
              ((if k then grow d pos buffer else pure tt) >> store_bytes_at d pos buffer) (v, s)
              ≡ (ok tt, w))
            f e) in
        (
          ap (map view) p ∙ map-set view v.elements pos (bytes_cell (buffer_bytes buffer)),
          omega (arith, q, ltb→le v.buffer_size buffer.size f),
          z,
        )
    | inl t ↦
        let (a, x, e1, e2) =
          >>=-inv (grow d pos buffer) (λ _. store_bytes_at d pos buffer) (v, s) w tt
            (subst
              (λ k.
                ((if k then grow d pos buffer else pure tt) >> store_bytes_at d pos buffer) (v, s)
                ≡ (ok tt, w))
              t e) in
        let g = grow_lem pos buffer v s x l e1 in
        let (p, q, z) = store_bytes_at_lem pos buffer x.0 x.1 w e2 in
        (
          ap (map view) p
              ∙ ap (λ cs. map view (set cs pos (bytes_cell (buffer_bytes buffer)))) g.0
              ∙ kept-set pos 0 pos v.elements (bytes_cell (buffer_bytes buffer)) (omega arith),
          omega (arith, q, g.1),
          z ∙ g.2,
        )
  ]
