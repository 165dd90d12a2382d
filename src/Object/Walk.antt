-- ===== src/Object/Walk.antt =====
-- What aslist and asdict return for a collection that ODPI-C shows as a list of indexed elements.
use python_cx_oracle.Prelude.{
  ℕ, zero, suc, ◌<◌, ◌≡◌, refl, sym, ap, ◌∙◌, false, Option, none, some, List, [], ◌∷◌, inl, inr,
  length, arith,
}
use python_cx_oracle.Prelude.Int.{ℤ}
use python_cx_oracle.Error.{Error, Result, ok, err, Result-cases, ◌>>=◌ as ◌and_then◌}
use python_cx_oracle.Action.{Action, lift, pure, ◌>>=◌, >>=-ok, >>=-err}
use python_cx_oracle.Types.{TransformNum, Transform}
use python_cx_oracle.Py.{Value}
use python_cx_oracle.Var.{Cell, type_info}
use python_cx_oracle.Object.State.{Object, ObjectApi}
use python_cx_oracle.Object.Values.{convert_to_python, number_buffer}
use python_cx_oracle.Object.Methods.{is_unsupported_type, get_element, visit, walk, walk_first}

abbrev pub Cells : Type 0
Cells = List (ℤ × Cell)

abbrev pub first_of : Cells → Option ℤ
first_of [] = none
first_of ((i, c) ∷ es) = some i

abbrev pub element_transform : Object → TransformNum
element_transform obj = obj.object_type.element_transform_num

-- The elements of the collection can be read: their transform has a row in the table.
pub record HasElements (obj : Object) (info : Transform) : Type 0 where
  pub supported : is_unsupported_type (element_transform obj) ≡ false
  pub known : type_info (element_transform obj) ≡ ok info

module _ {S : Type 0} (api : ObjectApi S) (obj : Object) (info : Transform) where
  -- Each element is at its index, and the next index is that of the next element.
  abbrev pub Linked : S → Cells → Type 0
  Linked w [] = Unit
  Linked w ((i, c) ∷ es) =
      (api.get_next_index obj.handle i w ≡ (ok (first_of es), w))
      × (api.get_element_value_by_index obj.handle i info.native_type_num (number_buffer info) w
          ≡ (ok c, w))
      × Linked w es

  -- What ODPI-C documents of the elements of a collection: reading them changes nothing.
  pub record Shows (w : S) (es : Cells) : Type 0 where
    pub first : api.get_first_index obj.handle w ≡ (ok (first_of es), w)
    pub linked : Linked w es

  abbrev pub element_value_at : Cell → Result Value
  element_value_at =
      convert_to_python api obj (element_transform obj) obj.object_type.element_object_type

  -- The Python values of the elements, with their indexes, or the first error of a conversion.
  abbrev pub values : Cells → Result (List (ℤ × Value))
  values [] = ok []
  values ((i, c) ∷ es) = element_value_at c and_then λ v. values es and_then λ vs. ok ((i, v) ∷ vs)

  abbrev pub read_cells : {A : Type 0} → (ℤ → Value → A → A) → Cells → A → Result A
  read_cells put [] acc = ok acc
  read_cells put ((i, c) ∷ es) acc =
      element_value_at c and_then λ v. read_cells put es (put i v acc)

  after_info : ℤ → Transform → Action S Value
  after_info i t =
      api.get_element_value_by_index obj.handle i t.native_type_num (number_buffer t) >>= λ c.
      lift (element_value_at c)

  pub get_element-value :
      HasElements obj info
      → (w : S) (i : ℤ) (c : Cell)
      → api.get_element_value_by_index obj.handle i info.native_type_num (number_buffer info) w
        ≡ (ok c, w)
      → get_element api obj i w ≡ (element_value_at c, w)
  unfolding get_element after_info
  get_element-value h w i c e = rw h.supported (
      >>=-ok (lift (type_info (element_transform obj))) (after_info i) {w = w}
        (ap (λ r. (r, w)) h.known)
      ∙ >>=-ok
          (api.get_element_value_by_index obj.handle i info.native_type_num (number_buffer info))
          (λ d. lift (element_value_at d)) e)

  module _ {A : Type 0} (put : ℤ → Value → A → A) where
    go_on : ℤ → A → Value → Action S (Option ℤ × A)
    go_on i acc v = api.get_next_index obj.handle i >>= λ next. pure (next, put i v acc)

    visit-ok :
        (w : S) (i : ℤ) (v : Value) (acc : A) (next : Option ℤ)
        → get_element api obj i w ≡ (ok v, w)
        → api.get_next_index obj.handle i w ≡ (ok next, w)
        → visit api put obj i acc w ≡ (ok (next, put i v acc), w)
    unfolding visit go_on
    visit-ok w i v acc next e n =
        >>=-ok (get_element api obj i) (go_on i acc) e
        ∙ >>=-ok (api.get_next_index obj.handle i) (λ j. pure (j, put i v acc)) n

    visit-err :
        (w : S) (i : ℤ) (e : Error) (acc : A)
        → get_element api obj i w ≡ (err e, w)
        → visit api put obj i acc w ≡ (err e, w)
    unfolding visit go_on
    visit-err w i e acc h = >>=-err (get_element api obj i) (go_on i acc) h

    after_visit : ℕ → Result (Option ℤ × A) × S → Option (Result A × S)
    after_visit n r = elim r.0 [ ok q ↦ walk api put n obj q.0 q.1 r.1 | err x ↦ some (err x, r.1) ]

    walk-reads :
        HasElements obj info
        → (w : S) (es : Cells) (n : ℕ) (acc : A) → Linked w es
        → length es < n
        → walk api put n obj (first_of es) acc w ≡ some (read_cells put es acc, w)
    unfolding walk after_visit
    walk-reads h w [] zero acc l p = absurd (omega arith)
    walk-reads h w [] (suc n) acc l p = refl
    walk-reads h w ((i, c) ∷ es) zero acc l p = absurd (omega arith)
    walk-reads h w ((i, c) ∷ es) (suc n) acc l p = elim (Result-cases (element_value_at c)) [
      | inl (v, e) ↦
          ap (after_visit n) (
            visit-ok w i v acc (first_of es) (get_element-value h w i c l.1 ∙ ap (λ r. (r, w)) e)
              l.0)
          ∙ walk-reads h w es n (put i v acc) l.2 (omega arith)
          ∙ ap (λ r. some (r and_then λ x. read_cells put es (put i x acc), w)) (sym e)
      | inr (x, e) ↦
          ap (after_visit n)
            (visit-err w i x acc (get_element-value h w i c l.1 ∙ ap (λ r. (r, w)) e))
          ∙ ap (λ r. some (r and_then λ x. read_cells put es (put i x acc), w)) (sym e)
    ]

    pub walk_first-reads :
        HasElements obj info
        → (w : S) (es : Cells) (n : ℕ) (acc : A) → Shows w es
        → length es < n
        → walk_first api put n obj acc w ≡ some (read_cells put es acc, w)
    unfolding walk_first
    walk_first-reads h w es n acc s p =
        ap (λ r. elim r.0 [ ok f ↦ walk api put n obj f acc r.1 | err x ↦ some (err x, r.1) ])
          s.first
        ∙ walk-reads h w es n acc s.linked p
