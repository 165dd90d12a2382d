-- ===== src/Var/Copy.antt =====
-- The copy of the elements of a variable into a larger one, in cxoVar_setValueBytes.
use python_cx_oracle.Prelude.{
  ℕ, zero, suc, ◌+◌, ◌≤◌, ◌<◌, ◌≡◌, ◌⊎◌, inl, inr, refl, ap, sym, ◌∙◌, subst, Bool, true, false,
  ◌||◌, Option, none, some, List, [], ◌∷◌, ◌++◌, map, length, length-append, set, replicate, ltb,
  ◌==◌, arith, if◌then◌else◌, Bool-cases,
}
use python_cx_oracle.Error.{ok}
use python_cx_oracle.Action.{Action, ◌>>=◌, >>=-inv, lift}
use python_cx_oracle.Types.{OracleTypeNum, NativeTypeNum}
use python_cx_oracle.Transform.{DbValue, read_bytes}
use python_cx_oracle.Var.{Cell, Dpi, null_cell, bytes_cell, copy_cells}

-- What an element shows: nothing, or its value.
abbrev pub view : Cell → Option DbValue
view c = if c.is_null then none else some c.value

-- What ODPI-C documents of the two calls: a new variable has as many elements as were asked for, all
-- NULL, and setting an element from bytes that succeeds changes this one and no other.
pub record Writes {S : Type 0} (d : Dpi S) : Type 0 where
  pub all_null :
      (o : OracleTypeNum) (n : NativeTypeNum) (k size : ℕ) (a : Bool) (t : Option ℕ) (s u : S)
      (r : ℕ × List Cell)
      → d.new_var o n k size a t s ≡ (ok r, u)
      → r.1 ≡ replicate k null_cell
  pub sets_one :
      (h i : ℕ) (cells after : List Cell) (b : List ℕ) (s u : S)
      → d.set_from_bytes h cells i b s ≡ (ok after, u)
      → after ≡ set cells i (bytes_cell b)

-- The elements of the larger variable after the copy: all but the one that is set afterwards.
abbrev pub kept : ℕ → ℕ → List Cell → List Cell
kept pos i [] = []
kept pos i (c ∷ cells) = (if (i == pos) || c.is_null then null_cell else c) ∷ kept pos (i + 1) cells

set-append :
    (done rest : List Cell) (c x : Cell) (i : ℕ)
    → length done ≡ i
    → set (done ++ c ∷ rest) i x ≡ done ++ x ∷ rest
set-append [] rest c x zero e = refl
set-append [] rest c x (suc i) e = absurd (omega (arith, e))
set-append (y ∷ done) rest c x zero e = absurd (omega (arith, e))
set-append (y ∷ done) rest c x (suc i) e =
    ap (◌∷◌ y) (set-append done rest c x i (omega (arith, e)))

append_cons : (xs : List Cell) (c : Cell) (ys : List Cell) → (xs ++ c ∷ []) ++ ys ≡ xs ++ c ∷ ys
append_cons [] c ys = refl
append_cons (x ∷ xs) c ys = ap (◌∷◌ x) (append_cons xs c ys)

length-snoc : (xs : List Cell) (c : Cell) (i : ℕ) → length xs ≡ i → length (xs ++ c ∷ []) ≡ i + 1
length-snoc xs c i e = omega (arith, e, length-append xs (c ∷ []))

read_value : (v : DbValue) (b : List ℕ) → read_bytes v ≡ ok b → DbValue.as_bytes b ≡ v
read_value (DbValue.as_bytes c) b e = cc
read_value _ b e = cc

-- An element whose bytes can be read is a cell of these bytes, if it is not NULL.
read_cell :
    (c : Cell) (b : List ℕ) → c.is_null ≡ false → read_bytes c.value ≡ ok b → bytes_cell b ≡ c
read_cell c b n e = λ i. record { is_null = sym n i; value = read_value c.value b e i }

pub ltb→le : (a b : ℕ) → ltb a b ≡ false → b ≤ a
ltb→le a b h = ground arith

pub map-set :
    {A B : Type 0} (f : A → B) (xs : List A) (i : ℕ) (x : A)
    → map f (set xs i x) ≡ set (map f xs) i (f x)
map-set f [] i x = refl
map-set f (y ∷ xs) zero x = refl
map-set f (y ∷ xs) (suc i) x = ap (◌∷◌ (f y)) (map-set f xs i x)

other : (i pos : ℕ) → (i < pos) ⊎ (pos < i) → (i == pos) ≡ false
other i pos (inl h) = ground arith
other i pos (inr h) = ground arith

shown : (c : Cell) (b : Bool) → b ≡ false → view (if b || c.is_null then null_cell else c) ≡ view c
shown c true e = cc
shown c false e = elim (Bool-cases c.is_null) [ inl t ↦ rw t refl | inr f ↦ rw f refl ]

-- Behind the position the copy shows what the elements showed.
kept-view : (pos i : ℕ) (cells : List Cell) → pos < i → map view (kept pos i cells) ≡ map view cells
kept-view pos i [] h = refl
kept-view pos i (c ∷ cells) h = λ j.
    shown c (i == pos) (other i pos (inr h)) j ∷ kept-view pos (i + 1) cells (omega (arith, h)) j

-- Setting the element at the position that the copy has left out.
pub kept-set :
    (pos i k : ℕ) (cells : List Cell) (x : Cell)
    → i + k ≡ pos
    → map view (set (kept pos i cells) k x) ≡ set (map view cells) k (view x)
kept-set pos i k [] x h = refl
kept-set pos i zero (c ∷ cells) x h =
    ap (◌∷◌ (view x)) (kept-view pos (i + 1) cells (omega (arith, h)))
kept-set pos i (suc k) (c ∷ cells) x h = λ j.
    shown c (i == pos) (other i pos (inl (omega (arith, h)))) j
    ∷ kept-set pos (i + 1) k cells x (omega (arith, h)) j

not_null : (c : Cell) (b : Bool) → (b || c.is_null) ≡ false → c.is_null ≡ false
not_null c true e = cc
not_null c false e = e

module _ {S : Type 0} (d : Dpi S) (laws : Writes d) where
  pub copy_cells_lem :
      (h pos i : ℕ) (cells done after : List Cell) (s u : S)
      → length done ≡ i
      → copy_cells d h pos i cells (done ++ replicate (length cells) null_cell) s ≡ (ok after, u)
      → after ≡ done ++ kept pos i cells
  unfolding copy_cells
  copy_cells_lem h pos i [] done after s u l e = cc
  copy_cells_lem h pos i (c ∷ cells) done after s u l e =
      let next : (x : Cell) (t : S)
          → copy_cells d h pos (i + 1) cells (done ++ x ∷ rest) t ≡ (ok after, u)
          → after ≡ done ++ x ∷ kept pos (i + 1) cells =
        λ x t q.
          copy_cells_lem h pos (i + 1) cells (done ++ x ∷ []) after t u (length-snoc done x i l) (
            subst (λ cs. copy_cells d h pos (i + 1) cells cs t ≡ (ok after, u))
              (sym (append_cons done x rest)) q)
          ∙ append_cons done x (kept pos (i + 1) cells) in
      elim (Bool-cases ((i == pos) || c.is_null)) [
        | inl t ↦
            let skipped : copy_cells d h pos (i + 1) cells (done ++ null_cell ∷ rest) s
                ≡ (ok after, u) =
              subst (λ k. (if k then skip else copy) s ≡ (ok after, u)) t e in
            next null_cell s skipped
            ∙ sym (ap (λ k. done ++ (if k then null_cell else c) ∷ kept pos (i + 1) cells) t)
        | inr t ↦
            let copied : copy s ≡ (ok after, u) =
              subst (λ k. (if k then skip else copy) s ≡ (ok after, u)) t e in
            let (b, v, e1, e2) = >>=-inv (lift (read_bytes c.value)) write s u after copied in
            let (written, w, e3, e4) =
              >>=-inv (d.set_from_bytes h (done ++ null_cell ∷ rest) i b)
                (λ written. copy_cells d h pos (i + 1) cells written) v u after e2 in
            let put : written ≡ done ++ c ∷ rest =
              laws.sets_one h i (done ++ null_cell ∷ rest) written b v w e3
              ∙ set-append done rest null_cell (bytes_cell b) i l
              ∙ ap (λ x. done ++ x ∷ rest)
                  (read_cell c b (not_null c (i == pos) t) (ap (λ r. r.0) e1)) in
            next c w (subst (λ cs. copy_cells d h pos (i + 1) cells cs w ≡ (ok after, u)) put e4)
            ∙ sym (ap (λ k. done ++ (if k then null_cell else c) ∷ kept pos (i + 1) cells) t)
      ]
    where
      rest : List Cell
      rest = replicate (length cells) null_cell

      skip : Action S (List Cell)
      skip = copy_cells d h pos (i + 1) cells (done ++ null_cell ∷ rest)

      write : List ℕ → Action S (List Cell)
      write b = d.set_from_bytes h (done ++ null_cell ∷ rest) i b >>= λ written.
          copy_cells d h pos (i + 1) cells written

      copy : Action S (List Cell)
      copy = lift (read_bytes c.value) >>= write
