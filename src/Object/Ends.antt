-- ===== src/Object/Ends.antt =====
-- The loops of aslist and asdict end, whatever the elements are.
use python_cx_oracle.Prelude.{
  ℕ, zero, suc, ◌+◌, ◌-◌, ◌^◌, ◌<◌, ◌≡◌, refl, ap, ◌∙◌, Option, none, some, List, [], arith,
}
use python_cx_oracle.Prelude.Int.{ℤ, pos, negsuc}
use python_cx_oracle.Error.{Result, ok, err}
use python_cx_oracle.Action.{Action, pure, ◌>>=◌, >>=-inv}
use python_cx_oracle.Py.{Value}
use python_cx_oracle.Object.State.{Object, ObjectApi}
use python_cx_oracle.Object.Methods.{
  get_element, visit, walk, walk_first, put_item, put_entry, as_list, as_dict,
}

-- An index is an int32_t.
abbrev pub InInt32 : ℤ → Type 0
InInt32 (pos n) = n < 2 ^ 31
InInt32 (negsuc n) = n < 2 ^ 31

abbrev pub IsBefore : ℤ → ℤ → Type 0
IsBefore (pos m) (pos n) = m < n
IsBefore (negsuc m) (negsuc n) = n < m
IsBefore (negsuc m) (pos n) = Unit
IsBefore (pos m) (negsuc n) = ⊥

-- The place of an index among all of them.
place : ℤ → ℕ
place (pos n) = 2 ^ 31 + n
place (negsuc n) = 2 ^ 31 - 1 - n

place_bound : (i : ℤ) → InInt32 i → place i < 2 ^ 32
unfolding place
place_bound (pos n) h = omega arith
place_bound (negsuc n) h = omega arith

place_grows : (i j : ℤ) → InInt32 i → IsBefore i j → place i < place j
unfolding place
place_grows (pos m) (pos n) a h = omega arith
place_grows (pos m) (negsuc n) a h = absurd h
place_grows (negsuc m) (pos n) a h = omega arith
place_grows (negsuc m) (negsuc n) a h = omega arith

module _ {S : Type 0} (api : ObjectApi S) (obj : Object) where
  -- What ODPI-C documents of indexes: they are int32_t, and the next one is behind the one given.
  pub record Advances : Type 0 where
    pub first_fits :
        (w v : S) (i : ℤ) → api.get_first_index obj.handle w ≡ (ok (some i), v) → InInt32 i
    pub next_fits :
        (w v : S) (i j : ℤ) → api.get_next_index obj.handle i w ≡ (ok (some j), v) → InInt32 j
    pub next_after :
        (w v : S) (i j : ℤ) → api.get_next_index obj.handle i w ≡ (ok (some j), v) → IsBefore i j

  Ended : {A : Type 0} → Option (Result A × S) → Type 0
  Ended {A} r = (x : Result A × S) × (r ≡ some x)

  module _ {A : Type 0} (put : ℤ → Value → A → A) where
    following : ℤ → A → Value → Action S (Option ℤ × A)
    following i acc v = api.get_next_index obj.handle i >>= λ next. pure (next, put i v acc)

    returned : ℤ → Value → A → Option ℤ → Action S (Option ℤ × A)
    returned i v acc next = pure (next, put i v acc)

    -- The index that a round leaves has come from ODPI-C.
    visit_next :
        (i : ℤ) (acc : A) (w v : S) (next : Option ℤ) (b : A)
        → visit api put obj i acc w ≡ (ok (next, b), v)
        → (u : S) × (api.get_next_index obj.handle i u ≡ (ok next, v))
    unfolding visit following returned
    visit_next i acc w v next b h =
        let (x, u, e, g) = >>=-inv (get_element api obj i) (following i acc) w v (next, b) h in
        let (o, t, f, k) =
          >>=-inv (api.get_next_index obj.handle i) (returned i x acc) u v (next, b) g in
        (u, f ∙ λ j. (ok (same o next t k j), last o t k j))
      where
        same :
            (o next' : Option ℤ) (t : S) {x : Value}
            → returned i x acc o t ≡ (ok (next', b), v)
            → o ≡ next'
        same o next' t k = cc

        last : (o : Option ℤ) (t : S) {x : Value} → returned i x acc o t ≡ (ok (next, b), v) → t ≡ v
        last o t k = ap (λ p. p.1) k

    after_round : ℕ → Result (Option ℤ × A) × S → Option (Result A × S)
    after_round n r = elim r.0 [ ok q ↦ walk api put n obj q.0 q.1 r.1 | err x ↦ some (err x, r.1) ]

    none_ends : (n : ℕ) (acc : A) (w : S) → 0 < n → Ended (walk api put n obj none acc w)
    unfolding walk Ended
    none_ends zero acc w h = absurd (omega arith)
    none_ends (suc n) acc w h = ((ok acc, w), refl)

    walk_ends :
        Advances
        → (n : ℕ) (i : ℤ) (acc : A) (w : S) → InInt32 i
        → 2 ^ 32 < n + place i
        → Ended (walk api put n obj (some i) acc w)
    unfolding walk Ended after_round
    walk_ends a zero i acc w b h = absurd (let p = place_bound i b in omega (arith, p))
    walk_ends a (suc n) i acc w b h =
        go (λ j x v. walk_ends a n j x v) (visit api put obj i acc w) refl
      where
        go :
            ((j : ℤ) (x : A) (v : S)
              → InInt32 j
              → 2 ^ 32 < n + place j
              → Ended (walk api put n obj (some j) x v))
            → (r : Result (Option ℤ × A) × S) → visit api put obj i acc w ≡ r
            → Ended (after_round n r)
        go rest (err e, v) q = ((err e, v), refl)
        go rest (ok (none, x), v) q = none_ends n x v (let p = place_bound i b in omega (arith, p))
        go rest (ok (some j, x), v) q =
            let (u, e) = visit_next i acc w v (some j) x q in
            let p = place_grows i j b (a.next_after u v i j e) in
            rest j x v (a.next_fits u v i j e) (omega (arith, p))

    after_first : ℕ → A → Result (Option ℤ) × S → Option (Result A × S)
    after_first n acc r = elim r.0 [
      | ok f ↦ walk api put n obj f acc r.1
      | err x ↦ some (err x, r.1)
    ]

    first_ends :
        Advances → (n : ℕ) (acc : A) (w : S) → 2 ^ 32 < n → Ended (walk_first api put n obj acc w)
    unfolding walk_first Ended after_first
    first_ends a n acc w h = go (api.get_first_index obj.handle w) refl
      where
        go :
            (r : Result (Option ℤ) × S)
            → api.get_first_index obj.handle w ≡ r
            → Ended (after_first n acc r)
        go (err e, v) q = ((err e, v), refl)
        go (ok none, v) q = none_ends n acc v (omega arith)
        go (ok (some i), v) q = walk_ends a n i acc v (a.first_fits w v i q) (omega arith)

  -- If ODPI-C only returns indexes that an int32_t can hold and that are behind the index given, the
  -- loops of aslist and asdict end in every state, with a value or an error, before they have made
  -- more than 2 ^ 32 rounds.
  pub loops_end :
      Advances
      → (w : S) (rounds : ℕ) → 2 ^ 32 < rounds
      → ((r : Result (List Value) × S) × (as_list api rounds obj w ≡ some r))
        × ((r : Result (List (ℤ × Value)) × S) × (as_dict api rounds obj w ≡ some r))
  unfolding as_list as_dict Ended
  loops_end a w rounds h =
      (first_ends (put_item api) a rounds [] w h, first_ends (put_entry api) a rounds [] w h)
