-- ===== src/Var/Bounds.antt =====
-- The elements of a variable: their number, and None at one of them.
use python_cx_oracle.Prelude.{
  ℕ, zero, suc, ◌<◌, ◌≡◌, refl, ap, sym, ◌∙◌, true, false, none, some, List, [], ◌∷◌, map, length,
  length-set, get_elem?, subst, leb, arith,
}
use python_cx_oracle.Error.{ok}
use python_cx_oracle.Py.{Value}
use python_cx_oracle.Transform.{DbValue, Runtime, EncodingInfo, Buffer}
use python_cx_oracle.Json.{buffer_bytes}
use python_cx_oracle.Var.{
  Cell, Var, Dpi, set_value_bytes, set_value, get_value, set_null, value_from,
}
use python_cx_oracle.Var.Copy.{Writes, view}
use python_cx_oracle.Var.Grow.{set_value_bytes-view}

-- The variable has as many elements as it says.
abbrev pub IsWhole : Var → Type 0
IsWhole v = length v.elements ≡ v.allocated_elements

length-map : {A B : Type 0} (f : A → B) (xs : List A) → length (map f xs) ≡ length xs
length-map f [] = refl
length-map f (x ∷ xs) = omega (arith, length-map f xs)

within : (n pos : ℕ) → pos < n → leb n pos ≡ false
within n pos h = ground arith

-- The element that was set to NULL is NULL, whatever it held.
set_null_lem :
    (i : ℕ) (xs : List Cell)
    → i < length xs
    → (c : Cell) × (get_elem? (set_null i true xs) i ≡ some (record c { is_null = true }))
set_null_lem i [] h = absurd (omega arith)
set_null_lem zero (x ∷ xs) h = (x, refl)
set_null_lem (suc i) (x ∷ xs) h = set_null_lem i xs (omega arith)

module _ {S : Type 0} (d : Dpi S) where
  -- cxoVar_setValueBytes keeps a variable whole where it succeeds.
  pub set_value_bytes-IsWhole :
      (laws : Writes d) (pos : ℕ) (buffer : Buffer) (v : Var) (s : S) (w : Var × S)
      → IsWhole v
      → set_value_bytes d pos buffer (v, s) ≡ (ok tt, w)
      → IsWhole w.0
  set_value_bytes-IsWhole laws pos buffer v s w h e =
      let (p, q, z) = set_value_bytes-view d laws pos buffer v s w h e in
      sym (length-map view w.0.elements)
      ∙ ap (λ xs. length xs) p
      ∙ length-set (map view v.elements) pos (some (DbValue.as_bytes (buffer_bytes buffer)))
      ∙ length-map view v.elements
      ∙ h
      ∙ sym z

  -- On a variable that is no array, has no converter for input and does not hold the rows that DML
  -- returned, None that is set at a position inside of it is what is got from there.
  pub none_roundtrip :
      (rt : Runtime) (enc : EncodingInfo) (pos : ℕ) (v : Var) (s : S)
      → v.is_array ≡ false
      → v.get_returned_data ≡ false
      → v.in_converter ≡ none
      → IsWhole v
      → pos < v.allocated_elements
      → (w : Var) × (set_value d rt enc pos Value.none (v, s) ≡ (ok tt, (w, s)))
        × (get_value d w pos s ≡ (ok Value.none, s))
  unfolding set_value get_value
  none_roundtrip rt enc pos v s a g c l h = (
    w,
    rw (a, within v.allocated_elements pos h, c) refl,
    let (x, e) = set_null_lem pos v.elements (subst (λ n. pos < n) (sym l) h) in
        rw (a, within v.allocated_elements pos h, g)
          (ap (λ o. value_from d (record w { is_array = false; get_returned_data = false }) o s) e),
  )
    where
      w : Var
      w = record v { is_value_set = true; elements = set_null pos true v.elements }
