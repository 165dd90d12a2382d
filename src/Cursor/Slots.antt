-- ===== src/Cursor/Slots.antt =====
-- Positional binds: which positions of the list of bind variables are filled.
use python_cx_oracle.Prelude.{ℕ, suc, ◌≡◌, false, List, [], ◌∷◌, length}
use python_cx_oracle.Error.{ok}
use python_cx_oracle.Py.{Value}
use python_cx_oracle.Cursor.{
  Slot, holds, by_position, Cursor, Variables, Parameters, set_bind_variables,
}
use python_cx_oracle.Cursor.Fills.{Fills, one_filled, set_bind_variables-Fills}

-- The first `n` items of a list are variables.
pub data Held : ℕ → List Slot → Type 0 where
  none_yet : {slots : List Slot} → Held 0 slots
  one_more : {v n : ℕ} {slots : List Slot} → Held n slots → Held (suc n) (holds v ∷ slots)

Fills-Held :
    {R : Value → ℕ → Type 0} (values : List Value) (slots : List Slot)
    → Fills R values slots
    → Held (length values) slots
Fills-Held [] slots h = none_yet
Fills-Held (value ∷ values) [] h = elim h [ ]
Fills-Held (value ∷ values) (_ ∷ slots) (one_filled b h) = one_more (Fills-Held values slots h)

module _ {S : Type 0} (d : Variables S) where
  -- cxoCursor_setBindVariables with a sequence, where no type is deferred: where it succeeds, the
  -- cursor has a list of bind variables, and every position of the sequence holds a variable in it,
  -- neither NULL nor None.
  pub set_bind_variables-Held :
      (n p : ℕ) (values : List Value) (c : Cursor) (s : S) (t : Cursor × S)
      → set_bind_variables d (Parameters.sequence values) n p false (c, s) ≡ (ok tt, t)
      → (slots : List Slot) × (t.0.bind_variables ≡ by_position slots) × Held (length values) slots
  set_bind_variables-Held n p values c s t e =
      let (slots, b, h) = set_bind_variables-Fills d n p values c s t e in
      (slots, b, Fills-Held values slots h)
