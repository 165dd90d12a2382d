-- ===== src/Cursor/Performed.antt =====
-- cxoCursor_setBindVariables and then cxoCursor_performBind, for a sequence of parameters.
use python_cx_oracle.Prelude.{
  ℕ, zero, suc, ◌+◌, ◌≤◌, ◌<◌, ◌≡◌, refl, ap, sym, ◌∙◌, false, Option, none, some, List, [], ◌∷◌,
  length, length-set, length-replicate, replicate, lt→ltb, arith,
}
use python_cx_oracle.Error.{ok}
use python_cx_oracle.Action.{◌>>◌, >>=-inv, >>=-ok, foreign, foreign-ok, update}
use python_cx_oracle.Py.{Value}
use python_cx_oracle.Cursor.{
  Slot, null, none_object, holds, Binds, unbound, by_position, Cursor, Variables, Parameters,
  orig_var, store_new, set_bind_variable_helper, bind_positions, set_bind_variables,
  perform_positions, perform_binds, perform_bind,
}
use python_cx_oracle.Cursor.Slots.{Held, one_more, set_bind_variables-Held}

module _ {S : Type 0} (d : Variables S) where
  length-store_new :
      (slots : List Slot) (i : ℕ) (new : Option ℕ)
      → i < length slots
      → length (store_new d slots i new) ≡ length slots
  length-store_new slots i none h = refl
  length-store_new slots i (some v) h =
      rw (lt→ltb i (length slots) h) (length-set slots i (holds v))

  -- Parameters that a list has room for leave its length as it is.
  length-bind_positions :
      (n p orig i : ℕ) (values : List Value) (slots : List Slot) (c : Cursor) (s : S)
      (t : Cursor × S)
      → c.bind_variables ≡ by_position slots
      → i + length values ≤ length slots
      → bind_positions d n p false orig slots i values (c, s) ≡ (ok tt, t)
      → (after : List Slot) × (t.0.bind_variables ≡ by_position after)
        × (length after ≡ length slots)
  unfolding bind_positions
  length-bind_positions n p orig i [] slots c s t b l e =
      (slots, ap (λ r. r.1.0.bind_variables) (sym e) ∙ b, refl)
  length-bind_positions n p orig i (value ∷ values) slots c s t b l e =
      let (new, u, e1, e2) =
        >>=-inv (foreign (set_bind_variable_helper d n p value (orig_var orig slots i) false))
          (λ new.
            update (λ c. record c { bind_variables = by_position (store_new d slots i new) })
            >> bind_positions d n p false orig (store_new d slots i new) (i + 1) values)
          (c, s) t tt e in
      let same : length (store_new d slots i new) ≡ length slots =
        length-store_new slots i new (omega (arith, l)) in
      let (after, q, k) =
        length-bind_positions n p orig (i + 1) values (store_new d slots i new)
          (record u.0 { bind_variables = by_position (store_new d slots i new) }) u.1 t refl
          (omega (arith, l, same)) e2 in
      (after, q, k ∙ same)

  -- A list of variables is bound without following a NULL.
  performed :
      (handle : Option ℕ) (i n : ℕ) (slots : List Slot) (s : S)
      → ((v k : ℕ) (u : S) → (w : S) × (d.bind_position handle v k u ≡ (ok tt, w)))
      → Held n slots
      → length slots ≡ n
      → (t : S) × (perform_positions d handle i slots s ≡ (ok tt, t))
  unfolding perform_positions
  performed handle i zero [] s b h l = (s, refl)
  performed handle i zero (x ∷ slots) s b h l = absurd (omega (arith, l))
  performed handle i (suc n) [] s b h l = elim h [ ]
  performed handle i (suc n) (null ∷ slots) s b h l = elim h [ ]
  performed handle i (suc n) (none_object ∷ slots) s b h l = elim h [ ]
  performed handle i (suc n) (holds v ∷ slots) s b (one_more h) l =
      let (w, e) = b v (i + 1) s in
      let (t, f) = performed handle (i + 1) n slots w b h (omega (arith, l)) in
      (
        t,
        >>=-ok (d.bind_position handle v (i + 1)) (λ _. perform_positions d handle (i + 1) slots) e
            ∙ f,
      )

  -- On a cursor without bind variables, a sequence of parameters whose types are not deferred is
  -- bound by cxoCursor_performBind once cxoCursor_setBindVariables has succeeded, provided that
  -- binding one variable always succeeds: no NULL is left in the list.
  pub bound_sequence_performs :
      (n p : ℕ) (values : List Value) (c : Cursor) (s : S) (t : Cursor × S)
      → ((handle : Option ℕ) (v k : ℕ) (u : S)
          → (w : S) × (d.bind_position handle v k u ≡ (ok tt, w)))
      → set_bind_variables d
          (Parameters.sequence values)
          n
          p
          false
          (record c { bind_variables = unbound }, s)
        ≡ (ok tt, t)
      → (u : Cursor × S) × (perform_bind d t ≡ (ok tt, u))
  unfolding set_bind_variables perform_bind
  bound_sequence_performs n p values c s t b e =
      let (slots, q, h) =
        set_bind_variables-Held d n p values (record c { bind_variables = unbound }) s t e in
      let (after, r, l) =
        length-bind_positions n p 0 0 values (replicate (length values) null)
          (record c { bind_variables = by_position (replicate (length values) null) }) s t refl
          (omega (arith, length-replicate (length values) null)) e in
      let same : after ≡ slots = ap items_of (sym r ∙ q) in
      let (u, f) =
        performed t.0.handle 0 (length values) slots t.1 (b t.0.handle) h
          (ap (λ xs. length xs) (sym same) ∙ l ∙ length-replicate (length values) null) in
      (
        (record t.0 { set_input_sizes = false }, u),
        foreign-ok (perform_binds d t.0.handle t.0.bind_variables)
            (ap (λ k. perform_binds d t.0.handle k t.1) q ∙ f),
      )
    where
      items_of : Binds → List Slot
      items_of (by_position slots) = slots
      items_of _ = []
