-- ===== src/Cursor/Reading.antt =====
-- The loop of cxoCursor_callProc over its arguments reads one variable after the other.
use mathlib.Core.List.{append_assoc}
use python_cx_oracle.Prelude.{
  ℕ, suc, ◌+◌, ◌≡◌, refl, sym, ap, ◌∙◌, some, List, [], ◌∷◌, ◌++◌, map, length, length-append,
  get_elem?, get_elem?-middle,
}
use python_cx_oracle.Error.{Result, ok, err}
use python_cx_oracle.Action.{Action, pure, ◌>>=◌, foreign}
use python_cx_oracle.Py.{Value, of_items}
use python_cx_oracle.Transform.{Runtime}
use python_cx_oracle.Cursor.{
  Slot, holds, by_position, Cursor, Driver, Variables, Executor, Caller, M, argument_values,
  item_of, slot_value,
}
use python_cx_oracle.Cursor.Fills.{Fills, one_filled}

-- The variables that stand at the first positions, one for each value.
pub data Each (R : Value → ℕ → Type 0) : List Value → List ℕ → Type 0 where
  no_values : Each R [] []
  one_each :
      {value : Value} {v : ℕ} {values : List Value} {vs : List ℕ}
      → R value v
      → Each R values vs
      → Each R (value ∷ values) (v ∷ vs)

pub Fills-split :
    {R : Value → ℕ → Type 0} (values others : List Value) (slots : List Slot)
    → Fills R (values ++ others) slots
    → (vs : List ℕ) × (rest : List Slot) × (slots ≡ map holds vs ++ rest) × Each R values vs
Fills-split [] others slots h = ([], slots, refl, no_values)
Fills-split (value ∷ values) others [] h = elim h [ ]
Fills-split (value ∷ values) others (_ ∷ slots) (one_filled {v = v} b h) =
    let (vs, rest, e, k) = Fills-split values others slots h in
    (v ∷ vs, rest, ap (λ k. holds v ∷ k) e, one_each b k)

pub length-Each :
    {R : Value → ℕ → Type 0} (values : List Value) (vs : List ℕ)
    → Each R values vs
    → length vs ≡ length values
length-Each [] [] h = refl
length-Each [] (v ∷ vs) h = elim h [ ]
length-Each (value ∷ values) [] h = elim h [ ]
length-Each (value ∷ values) (v ∷ vs) (one_each b h) = ap suc (length-Each values vs h)

module _ (rt : Runtime) {S : Type 0} (d : Driver S) (vars : Variables S) (x : Executor S)
    (y : Caller S) where
  -- cxoVar_getValue of one variable after the other.
  abbrev pub reads : List ℕ → Action S (List Value)
  reads [] = pure []
  reads (v ∷ vs) = y.get_value v 0 >>= λ a. reads vs >>= λ rs. pure (a ∷ rs)

  pub argument_values-reads :
      (vs : List ℕ) (before rest : List Slot) (i : ℕ) (c : Cursor) (s : S)
      → length before ≡ i
      → c.bind_variables ≡ by_position (before ++ (map holds vs ++ rest))
      → argument_values rt d vars x y (length vs) i (c, s) ≡ foreign (reads vs) (c, s)
  unfolding argument_values
  argument_values-reads [] before rest i c s l e = refl
  argument_values-reads (v ∷ vs) before rest i c s l e =
      ap (λ o. (foreign (slot_value rt d vars x y o) >>= others) (c, s)) item
      ∙ go
          (λ t.
            argument_values-reads vs (before ++ (holds v ∷ [])) rest (i + 1) c t
              (length-append before (holds v ∷ []) ∙ ap (λ k. k + 1) l) shifted)
          (y.get_value v 0 s)
    where
      others : Value → M d (List Value)
      others a = argument_values rt d vars x y (length vs) (i + 1) >>= λ rs. pure (a ∷ rs)

      item : item_of rt d vars x y c.bind_variables i ≡ some (holds v)
      item =
          ap (λ b. item_of rt d vars x y b i) e
          ∙ ap (λ k. get_elem? (before ++ (holds v ∷ (map holds vs ++ rest))) k) (sym l)
          ∙ get_elem?-middle before (holds v) (map holds vs ++ rest)

      continue : (p : Result Value × S) → Result (List Value) × (Cursor × S)
      continue p = elim p.0 [ ok a ↦ others a (c, p.1) | err e ↦ (err e, (c, p.1)) ]

      read_on : (p : Result Value × S) → Result (List Value) × S
      read_on p = elim p.0 [ ok a ↦ (reads vs >>= λ rs. pure (a ∷ rs)) p.1 | err e ↦ (err e, p.1) ]

      put_first : Value → Result (List Value) × (Cursor × S) → Result (List Value) × (Cursor × S)
      put_first a r = elim r.0 [ ok rs ↦ (ok (a ∷ rs), r.1) | err e ↦ (err e, r.1) ]

      shifted :
          c.bind_variables ≡ by_position ((before ++ (holds v ∷ [])) ++ (map holds vs ++ rest))
      shifted = e ∙ ap by_position (sym (append_assoc before (holds v ∷ []) (map holds vs ++ rest)))

      extend : Value → Result (List Value) × S → Result (List Value) × S
      extend a p = elim p.0 [ ok rs ↦ (ok (a ∷ rs), p.1) | err e ↦ (err e, p.1) ]

      same_after :
          (a : Value) (p : Result (List Value) × S)
          → put_first a (p.0, (c, p.1)) ≡ ((extend a p).0, (c, (extend a p).1))
      same_after a (ok rs, t) = refl
      same_after a (err e, t) = refl

      go :
          ((t : S)
            → argument_values rt d vars x y (length vs) (i + 1) (c, t) ≡ foreign (reads vs) (c, t))
          → (p : Result Value × S) → continue p ≡ ((read_on p).0, (c, (read_on p).1))
      go ih (err e, t) = refl
      go ih (ok a, t) = ap (put_first a) (ih t) ∙ same_after a (reads vs t)

  -- The list of these values.
  abbrev pub returned : List ℕ → M d Value
  returned vs = foreign (reads vs) >>= λ rs. pure (Value.list (of_items rs))
