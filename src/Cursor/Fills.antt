-- ===== src/Cursor/Fills.antt =====
-- Positional binds: which variable stands at which position of the list of bind variables, and
-- what it has to do with the parameter of that position.
use mathlib.Core.List.{append_assoc, append-nil}
use python_cx_oracle.Prelude.{
  ℕ, ◌+◌, ◌≤◌, ◌<◌, ◌≡◌, inl, inr, refl, ap, sym, ◌∙◌, subst, Bool, true, false, not, ◌&&◌, ◌⊎◌,
  Option, none, some, List, [], ◌∷◌, ◌++◌, length, length-append, get_elem?, set, replicate, ltb,
  ltb→lt, ◌==◌, ==_iff, arith, if◌then◌else◌, Bool-cases, Option-cases,
}
use python_cx_oracle.Error.{Result, ok, err}
use python_cx_oracle.Action.{◌>>◌, ◌>>=◌, >>=-inv, foreign, pure, update}
use python_cx_oracle.Py.{Value, is_none}
use python_cx_oracle.Cursor.{
  Slot, null, none_object, holds, Binds, unbound, by_position, by_name, Cursor, Variables,
  Parameters, orig_var, slot_var, as_variable, make_variable, create_for, larger_variable,
  var_to_set, set_or_create, reuse_variable, store, store_new, bind_onto, create_variable,
  set_bind_variable_helper, bind_positions, set_bind_variables,
}

-- The first items of a list are variables, each of which is related to its value.
pub data Fills (R : Value → ℕ → Type 0) : List Value → List Slot → Type 0 where
  nothing_left : {slots : List Slot} → Fills R [] slots
  one_filled :
      {value : Value} {v : ℕ} {values : List Value} {slots : List Slot}
      → R value v
      → Fills R values slots
      → Fills R (value ∷ values) (holds v ∷ slots)

ltb→le : (a b : ℕ) → ltb a b ≡ false → b ≤ a
ltb→le a b h = ground arith

same_slot : (u v : ℕ) → Path (Option Slot) (some (holds u)) (some (holds v)) → v ≡ u
same_slot u v e = cc

module _ {R : Value → ℕ → Type 0} where
  set-Fills :
      (before : List Value) (value : Value) (v : ℕ) (slots : List Slot)
      → Fills R before slots
      → R value v
      → length before < length slots
      → Fills R (before ++ (value ∷ [])) (set slots (length before) (holds v))
  set-Fills [] value v [] h r l = absurd (omega arith)
  set-Fills [] value v (x ∷ slots) h r l = one_filled r nothing_left
  set-Fills (b ∷ before) value v [] h r l = elim h [ ]
  set-Fills (b ∷ before) value v (_ ∷ slots) (one_filled q h) r l =
      one_filled q (set-Fills before value v slots h r (omega arith))

  append-Fills :
      (before : List Value) (value : Value) (v : ℕ) (slots : List Slot)
      → Fills R before slots
      → R value v
      → length slots ≤ length before
      → Fills R (before ++ (value ∷ [])) (slots ++ (holds v ∷ []))
  append-Fills [] value v [] h r l = one_filled r nothing_left
  append-Fills [] value v (x ∷ slots) h r l = absurd (omega arith)
  append-Fills (b ∷ before) value v [] h r l = elim h [ ]
  append-Fills (b ∷ before) value v (_ ∷ slots) (one_filled q h) r l =
      one_filled q (append-Fills before value v slots h r (omega arith))

  -- Storing a variable at a position, where all before it are filled.
  store-Fills :
      (before : List Value) (value : Value) (v : ℕ) (slots : List Slot)
      → Fills R before slots
      → R value v
      → Fills R (before ++ (value ∷ [])) (store slots (length before) v)
  store-Fills before value v slots h r = elim (Bool-cases (ltb (length before) (length slots))) [
    | inl e ↦ rw e (set-Fills before value v slots h r (ltb→lt (length before) (length slots) e))
    | inr e ↦ rw e (append-Fills before value v slots h r (ltb→le (length before) (length slots) e))
  ]

  kept-Fills :
      (before : List Value) (value : Value) (v : ℕ) (slots : List Slot)
      → Fills R before slots
      → R value v
      → get_elem? slots (length before) ≡ some (holds v)
      → Fills R (before ++ (value ∷ [])) slots
  kept-Fills [] value v [] h r e = cc
  kept-Fills [] value v (null ∷ slots) h r e = cc
  kept-Fills [] value v (none_object ∷ slots) h r e = cc
  kept-Fills [] value v (holds u ∷ slots) h r e =
      one_filled (subst (λ k. R value k) (same_slot u v e) r) nothing_left
  kept-Fills (b ∷ before) value v [] h r e = elim h [ ]
  kept-Fills (b ∷ before) value v (_ ∷ slots) (one_filled q h) r e =
      one_filled q (kept-Fills before value v slots h r e)

held_item : (o : Option Slot) (v : ℕ) → slot_var o ≡ some v → o ≡ some (holds v)
held_item none v e = cc
held_item (some null) v e = cc
held_item (some none_object) v e = cc
held_item (some (holds u)) v e = cc

none_is_not_some : (v : ℕ) → Option.none ≡ Option.some v → ⊥
none_is_not_some v e = cc

orig_var-holds :
    (orig i v : ℕ) (slots : List Slot)
    → orig_var orig slots i ≡ some v
    → get_elem? slots i ≡ some (holds v)
orig_var-holds orig i v slots e = elim (Bool-cases (ltb i orig)) [
  | inl l ↦
      held_item (get_elem? slots i) v
        (subst (λ b. (if b then slot_var (get_elem? slots i) else none) ≡ some v) l e)
  | inr l ↦ absurd (
      none_is_not_some v
        (subst (λ b. (if b then slot_var (get_elem? slots i) else none) ≡ some v) l e))
]

module _ {S : Type 0} (d : Variables S) where
  -- A variable is the value itself, or a call of cxoVar_setValue gave it the value.
  abbrev pub BoundTo : ℕ → Value → ℕ → Type 0
  BoundTo p value v =
      (as_variable value ≡ some v) ⊎ ((s : S) × (t : S) × (d.set_value v p value s ≡ (ok tt, t)))

  -- What stands at the position after cxoCursor_setBindVariableHelper: the new variable, or else
  -- the old one.
  abbrev Stands : ℕ → Value → Option ℕ → Option ℕ → Type 0
  Stands p value old (some v) = BoundTo p value v
  Stands p value (some u) none = BoundTo p value u
  Stands p value none none = ⊥

  same_new : (a b : Option ℕ) (s t : S) → Path (Result (Option ℕ) × S) (ok a, s) (ok b, t) → a ≡ b
  same_new a b s t e = cc

  -- A variable that is made at once is there.
  any_old :
      (p : ℕ) (value : Value) (old new : Option ℕ)
      → Stands p value none new
      → Stands p value old new
  any_old p value old (some v) h = h
  any_old p value old none h = absurd h

  make_variable-Stands :
      (n p : ℕ) (value : Value) (new : Option ℕ) (s t : S)
      → make_variable d n p value s ≡ (ok new, t)
      → Stands p value none new
  make_variable-Stands n p value new s t e =
      let (v, u, e1, e2) =
        >>=-inv (d.new_by_value value n) (λ v. d.set_value v p value >> pure (Option.some v)) s t
          new e in
      let (a, x, e3, e4) = >>=-inv (d.set_value v p value) (λ _. pure (Option.some v)) u t new e2 in
      subst (λ k. Stands p value none k) (same_new (some v) new x t e4) (inr (u, x, e3))

  not_deferred :
      (b : Bool) (n p : ℕ) (value : Value) (new : Option ℕ) (s t : S)
      → (if b && false then pure none else make_variable d n p value) s ≡ (ok new, t)
      → make_variable d n p value s ≡ (ok new, t)
  not_deferred true n p value new s t e = e
  not_deferred false n p value new s t e = e

  create_variable-Stands :
      (n p : ℕ) (value : Value) (old new : Option ℕ) (s t : S)
      → create_variable d n p value false s ≡ (ok new, t)
      → Stands p value old new
  create_variable-Stands n p value old new s t e =
      any_old p value old new (go (as_variable value) refl e)
    where
      go :
          (o : Option ℕ)
          → as_variable value ≡ o
          → create_for d n p value false o s ≡ (ok new, t)
          → Stands p value none new
      go none q h =
          make_variable-Stands n p value new s t (not_deferred (is_none value) n p value new s t h)
      go (some u) q h = subst (λ k. Stands p value none k) (same_new (some u) new s t h) (inl q)

  reuse_variable-Stands :
      (n p v : ℕ) (value : Value) (new : Option ℕ) (s t : S)
      → reuse_variable d n p value false v (as_variable value) s ≡ (ok new, t)
      → Stands p value (some v) new
  reuse_variable-Stands n p v value new s t e = go (as_variable value) refl e
    where
      -- The value is a variable: it is the old one, or it becomes the new one.
      is_variable :
          (b : Bool) (u : ℕ)
          → as_variable value ≡ some u
          → (v == u) ≡ b
          → (if b then none else some u) ≡ new
          → Stands p value (some v) new
      is_variable true u q l h =
          subst (λ k. Stands p value (some v) k) h (inl (q ∙ ap some (sym ((==_iff v u).0 l))))
      is_variable false u q l h = subst (λ k. Stands p value (some v) k) h (inl q)

      is_set :
          (larger : Option ℕ)
          → BoundTo p value (var_to_set d v larger)
          → Stands p value (some v) larger
      is_set none b = b
      is_set (some u) b = b

      tried :
          (larger : Option ℕ) (s u : S) (r : Result (Unit {0}))
          → d.set_value (var_to_set d v larger) p value s ≡ (r, u)
          → Path
              (Result (Option ℕ) × S)
              (elim r [
                | ok a ↦ (ok larger, u)
                | err z ↦ if ltb 0 p then (err z, u) else create_variable d n p value false u
              ])
              (ok new, t)
          → Stands p value (some v) new
      tried larger s u (ok a) q h =
          subst (λ k. Stands p value (some v) k) (same_new larger new u t h)
            (is_set larger (inr (s, u, q)))
      tried larger s u (err z) q h = created (ltb 0 p) h
        where
          created :
              (b : Bool)
              → Path
                  (Result (Option ℕ) × S)
                  (if b then (err z, u) else create_variable d n p value false u)
                  (ok new, t)
              → Stands p value (some v) new
          created true h = cc
          created false h = create_variable-Stands n p value (some v) new u t h

      reused :
          (b : Bool) (s : S)
          → (if b && not (is_none value)
                then create_variable d n p value false
                else larger_variable d n v >>= set_or_create d n p value false v)
              s
            ≡ (ok new, t)
          → Stands p value (some v) new
      reused b s h = elim (Bool-cases (b && not (is_none value))) [
        | inl l ↦ create_variable-Stands n p value (some v) new s t (
            subst
              (λ c.
                (if c
                    then create_variable d n p value false
                    else larger_variable d n v >>= set_or_create d n p value false v)
                  s
                ≡ (ok new, t))
              l h)
        | inr l ↦
            let (larger, u, e1, e2) =
              >>=-inv (larger_variable d n v) (set_or_create d n p value false v) s t new (
                subst
                  (λ c.
                    (if c
                        then create_variable d n p value false
                        else larger_variable d n v >>= set_or_create d n p value false v)
                      s
                    ≡ (ok new, t))
                  l h) in
            tried larger u (d.set_value (var_to_set d v larger) p value u).1
              (d.set_value (var_to_set d v larger) p value u).0 refl e2
      ]

      go :
          (o : Option ℕ)
          → as_variable value ≡ o
          → reuse_variable d n p value false v o s ≡ (ok new, t)
          → Stands p value (some v) new
      go (some u) q h =
          is_variable (v == u) u q refl (same_new (if v == u then none else some u) new s t h)
      go none q h = reused (d.is_none_transform s v) s h

  helper-Stands :
      (n p : ℕ) (value : Value) (old new : Option ℕ) (s t : S)
      → set_bind_variable_helper d n p value old false s ≡ (ok new, t)
      → Stands p value old new
  unfolding set_bind_variable_helper
  helper-Stands n p value none new s t e = create_variable-Stands n p value none new s t e
  helper-Stands n p value (some v) new s t e = reuse_variable-Stands n p v value new s t e

  -- The positions that are filled, after one parameter.
  position-Fills :
      (p orig : ℕ) (before : List Value) (value : Value) (slots : List Slot) (new : Option ℕ)
      → Fills (BoundTo p) before slots
      → Stands p value (orig_var orig slots (length before)) new
      → Fills (BoundTo p) (before ++ (value ∷ [])) (store_new d slots (length before) new)
  position-Fills p orig before value slots (some v) h b = store-Fills before value v slots h b
  position-Fills p orig before value slots none h b =
      elim (Option-cases (orig_var orig slots (length before))) [
        | inl o ↦ absurd (subst (λ k. Stands p value k none) o b)
        | inr (v, o) ↦
            kept-Fills before value v slots h (subst (λ k. Stands p value k none) o b)
              (orig_var-holds orig (length before) v slots o)
      ]

  -- The loop fills the positions that it is given.
  positions-Fills :
      (n p orig : ℕ) (before values : List Value) (i : ℕ) (slots : List Slot) (c : Cursor) (s : S)
      (t : Cursor × S)
      → i ≡ length before
      → c.bind_variables ≡ by_position slots
      → Fills (BoundTo p) before slots
      → bind_positions d n p false orig slots i values (c, s) ≡ (ok tt, t)
      → (after : List Slot) × (t.0.bind_variables ≡ by_position after)
        × Fills (BoundTo p) (before ++ values) after
  unfolding bind_positions
  positions-Fills n p orig before [] i slots c s t l b h e = (
    slots,
    ap (λ r. r.1.0.bind_variables) (sym e) ∙ b,
    subst (λ k. Fills (BoundTo p) k slots) (sym (append-nil before)) h,
  )
  positions-Fills n p orig before (value ∷ values) i slots c s t l b h e =
      let (new, u, e1, e2) =
        >>=-inv (foreign (set_bind_variable_helper d n p value (orig_var orig slots i) false))
          (λ new.
            update (λ c. record c { bind_variables = by_position (store_new d slots i new) })
            >> bind_positions d n p false orig (store_new d slots i new) (i + 1) values)
          (c, s) t tt e in
      let (after, q, k) =
        positions-Fills n p orig (before ++ (value ∷ [])) values (i + 1) (store_new d slots i new)
          (record u.0 { bind_variables = by_position (store_new d slots i new) }) u.1 t
          (ap (λ k. k + 1) l ∙ sym (length-append before (value ∷ []))) refl
          (filled new u.1 (ap (λ r. (r.0, r.1.1)) e1)) e2 in
      (after, q, subst (λ k. Fills (BoundTo p) k after) (append_assoc before (value ∷ []) values) k)
    where
      filled :
          (new : Option ℕ) (u : S)
          → set_bind_variable_helper d n p value (orig_var orig slots i) false s ≡ (ok new, u)
          → Fills (BoundTo p) (before ++ (value ∷ [])) (store_new d slots i new)
      filled new u e1 =
          subst (λ j. Fills (BoundTo p) (before ++ (value ∷ [])) (store_new d slots j new)) (sym l)
            (position-Fills p orig before value slots new h (
              subst (λ j. Stands p value (orig_var orig slots j) new) l
                (helper-Stands n p value (orig_var orig slots i) new s u e1)))

  -- cxoCursor_setBindVariables with a sequence, where no type is deferred: where it succeeds, the
  -- variable at each position of the sequence is the value of that position, or was given it.
  pub set_bind_variables-Fills :
      (n p : ℕ) (values : List Value) (c : Cursor) (s : S) (t : Cursor × S)
      → set_bind_variables d (Parameters.sequence values) n p false (c, s) ≡ (ok tt, t)
      → (slots : List Slot) × (t.0.bind_variables ≡ by_position slots)
        × Fills (BoundTo p) values slots
  unfolding set_bind_variables
  set_bind_variables-Fills n p values c s t e = go c.bind_variables refl e
    where
      go :
          (b : Binds)
          → c.bind_variables ≡ b
          → bind_onto d n p false b (Parameters.sequence values) (c, s) ≡ (ok tt, t)
          → (slots : List Slot) × (t.0.bind_variables ≡ by_position slots)
            × Fills (BoundTo p) values slots
      go unbound q h =
          positions-Fills n p 0 [] values 0 (replicate (length values) null)
            (record c { bind_variables = by_position (replicate (length values) null) }) s t refl
            refl nothing_left h
      go (by_position slots) q h =
          positions-Fills n p (length slots) [] values 0 slots c s t refl q nothing_left h
      go (by_name vs) q h = cc
