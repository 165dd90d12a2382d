-- ===== src/Cursor/JsonColumn.antt =====
-- A query with a JSON column: it is defined, but the attribute `description` raises an error.
use native.Mathlib.Decide.{dec_lt}
use python_cx_oracle.Prelude.{
  ℕ, zero, suc, ◌+◌, ◌≤◌, ◌<◌, ◌≡◌, refl, sym, ap, ◌∙◌, subst, false, Option, none, some, List, ◌∷◌,
  ◌==◌, arith,
}
use python_cx_oracle.Error.{Result, ok, err, oracle_type_not_supported, ◌>>=◌ as ◌and_then◌}
use python_cx_oracle.Action.{Action, pure, lift, gets, ◌>>=◌, >>=-ok, foreign}
use python_cx_oracle.Types.{
  OracleTypeNum, TransformNum, DbType, get_num_from_data_type_info, db_type_from_transform,
  db_type_from_oracle_type,
}
use python_cx_oracle.Py.{Value, of_items}
use python_cx_oracle.Transform.{Runtime}
use python_cx_oracle.Cursor.{
  Cursor, Driver, QueryInfo, M, is_open, column_size, column_variable, object_type_of,
  supported_transform, handler_variable, variable_or_new, silently, described, item_description,
  item_descriptions, describe_columns, describe_handle, get_description, description_items,
}
use python_cx_oracle.Cursor.Keeps.{Keeps, Keeps->>=, Keeps-is_open}

abbrev pub IsErr : {A : Type 0} → Result A → Type 0
IsErr (ok a) = ⊥
IsErr (err e) = Unit

abbrev handle_of : Cursor → Option ℕ
handle_of c = c.handle

module _ (rt : Runtime) (encoding : ℕ) {S : Type 0} (d : Driver S) (h : ℕ) where
  -- The statement has a JSON column at a position, which ODPI-C describes without a change of the
  -- state, and there is no output type handler.
  pub record HasJson (position : ℕ) (s : S) : Type 0 where
    pub columns : ℕ
    pub counted : (t : S) → d.num_query_columns (some h) t ≡ (ok columns, t)
    pub first : 1 ≤ position
    pub last : position ≤ columns
    pub info : QueryInfo
    pub is_json : info.type_info.oracle_type_num ≡ OracleTypeNum.json
    pub no_object : info.object_type ≡ none
    pub queried : (t : S) → d.get_query_info (some h) position t ≡ (ok info, t)
    pub no_handler : d.output_type_handler s ≡ none

  -- A chain fails if its second part does, wherever the first succeeds.
  later :
      {A B : Type 0} (m : M d A) (f : A → M d B) (w : Cursor × S)
      → ((a : A) (v : Cursor × S) → m w ≡ (ok a, v) → IsErr (f a v).0)
      → IsErr ((m >>= f) w).0
  later {A} {B} m f w k = go (m w) refl
    where
      go :
          (r : Result A × (Cursor × S))
          → m w ≡ r
          → IsErr
              (elim r.0 as (λ x. Result B × (Cursor × S)) [
                | ok a ↦ f a r.1
                | err e ↦ (err e, r.1)
              ]).0
      go (ok a, v) e = k a v e
      go (err z, v) e = tt

  first_fails :
      {A B : Type 0} (m : M d A) (f : A → M d B) (w : Cursor × S)
      → IsErr (m w).0
      → IsErr ((m >>= f) w).0
  first_fails {A} {B} m f w = go (m w)
    where
      go :
          (r : Result A × (Cursor × S))
          → IsErr r.0
          → IsErr
              (elim r.0 as (λ x. Result B × (Cursor × S)) [
                | ok a ↦ f a r.1
                | err e ↦ (err e, r.1)
              ]).0
      go (ok a, v) e = absurd e
      go (err z, v) e = tt

  item-Keeps : (position : ℕ) → Keeps d handle_of (item_description rt encoding d position)
  unfolding item_description
  item-Keeps position =
      Keeps->>= d handle_of (gets (λ s. s.0.handle)) query (λ w. refl)
        (λ handle.
          Keeps->>= d handle_of
            (foreign (silently rt encoding d (d.get_query_info handle position)))
            (λ info. lift (described rt encoding d info)) (λ w. refl) (λ info w. refl))
    where
      query : Option ℕ → M d Value
      query handle = foreign (silently rt encoding d (d.get_query_info handle position)) >>= λ info.
          lift (described rt encoding d info)

  module _ (position : ℕ) (s : S) (j : HasJson position s) where
    described-json : described rt encoding d j.info ≡ err oracle_type_not_supported
    unfolding db_type_from_oracle_type
    described-json =
        ap
          (λ o. db_type_from_oracle_type o and_then λ t.
            rt.decode encoding none j.info.name and_then λ name.
            ok (Value.tuple (of_items (description_items name t j.info))))
          j.is_json

    item_undescribed :
        (w : Cursor × S)
        → w.0.handle ≡ some h
        → item_description rt encoding d position w ≡ (err oracle_type_not_supported, w)
    unfolding item_description
    item_undescribed w e =
        ap
          (λ o.
            (foreign (silently rt encoding d (d.get_query_info o position)) >>= λ i.
            lift (described rt encoding d i))
              w)
          e
        ∙ ap (λ r. queried_to r) (j.queried w.1)
        ∙ ap (λ r. (r, w)) described-json
      where
        queried_to : Result QueryInfo × S → Result Value × (Cursor × S)
        queried_to r =
            (foreign (silently rt encoding d (λ t. r)) >>= λ i. lift (described rt encoding d i)) w

    items_fail :
        (left at : ℕ) (w : Cursor × S)
        → w.0.handle ≡ some h
        → at ≤ position
        → position < at + left
        → IsErr (item_descriptions rt encoding d left at w).0
    unfolding item_descriptions
    items_fail zero at w e l b = absurd (omega arith)
    items_fail (suc left) at w e l b = elim (dec_lt at position) [
      | no q ↦
          let same : position ≡ at = omega (arith, q) in
          first_fails (item_description rt encoding d at) rest w (
            subst (λ k. IsErr (item_description rt encoding d k w).0) same
              (subst (λ r. IsErr r.0) (sym (item_undescribed w e)) tt))
      | yes g ↦ later (item_description rt encoding d at) rest w (λ a v f.
          first_fails (item_descriptions rt encoding d left (at + 1)) (λ vs. pure (a ∷ vs)) v
            (items_fail left (at + 1) v (ap (λ r. handle_of r.1.0) (sym f) ∙ item-Keeps at w ∙ e)
              (omega (arith, g)) (omega (arith, b))))
    ]
      where
        rest : Value → M d (List Value)
        rest a = item_descriptions rt encoding d left (at + 1) >>= λ vs. pure (a ∷ vs)

    columns_fail :
        (n : ℕ) (w : Cursor × S)
        → w.0.handle ≡ some h
        → position ≤ n
        → IsErr (describe_columns rt encoding d n w).0
    columns_fail n w e l =
        let some_columns : (n == 0) ≡ false = let f = j.first in ground (arith, f, l) in
        rw some_columns (
          first_fails (item_descriptions rt encoding d n 1) (λ vs. pure (Value.list (of_items vs)))
            w (items_fail n 1 w e j.first (omega (arith, l))))

    description_fails :
        (c : Cursor) → c.handle ≡ some h → IsErr (get_description rt encoding d (c, s)).0
    unfolding get_description
    description_fails c e =
        later (is_open d) (λ _. gets (λ s. s.0.handle) >>= describe_handle rt encoding d) (c, s)
          (λ a v f.
            with_handle v
              (ap (λ r. handle_of r.1.0) (sym f) ∙ Keeps-is_open d handle_of (c, s) ∙ e))
      where
        counted_to : Cursor × S → Result ℕ × S → Result Value × (Cursor × S)
        counted_to v r = (foreign (λ t. r) >>= describe_columns rt encoding d) v

        with_handle :
            (v : Cursor × S)
            → v.0.handle ≡ some h
            → IsErr (describe_handle rt encoding d v.0.handle v).0
        with_handle v e =
            subst (λ o. IsErr (describe_handle rt encoding d o v).0) (sym e)
              (subst (λ r. IsErr (counted_to v r).0) (sym (j.counted v.1))
                (columns_fail j.columns v e j.last))

    -- The round of the define, once the column is known, by what it depends on.
    json_defined :
        (n : ℕ)
        → column_variable d (some h) n position s
          ≡ d.var_new n TransformNum.json (column_size j.info.type_info) false none s
    unfolding column_variable get_num_from_data_type_info db_type_from_transform
    json_defined n =
        >>=-ok (d.get_query_info (some h) position) with_info (j.queried s)
        ∙ (λ i. known (j.no_object i) (j.is_json i))
        ∙ ap made_by j.no_handler
      where
        -- the round, by the object type and the type number
        known : Option ℕ → OracleTypeNum → Result ℕ × S
        known object_type o =
            (object_type_of d object_type >>= λ object_type.
            lift (supported_transform (record j.info.type_info { oracle_type_num = o })) >>= λ t.
            lift (db_type_from_transform t) >>= λ db_type. gets d.output_type_handler >>= λ handler.
            handler_variable d handler n j.info db_type (column_size j.info.type_info) >>= λ v.
            variable_or_new d v n t (column_size j.info.type_info) object_type)
              s

        -- its end, by the handler
        made_by : Option ℕ → Result ℕ × S
        made_by handler =
            (handler_variable d handler n j.info DbType.json (column_size j.info.type_info) >>= λ v.
            variable_or_new d v n TransformNum.json (column_size j.info.type_info) none)
              s

        with_info : QueryInfo → Action S ℕ
        with_info info = object_type_of d info.object_type >>= λ object_type.
            lift (supported_transform info.type_info) >>= λ t.
            lift (db_type_from_transform t) >>= λ db_type. gets d.output_type_handler >>= λ handler.
            handler_variable d handler n info db_type (column_size info.type_info) >>= λ v.
            variable_or_new d v n t (column_size info.type_info) object_type

    -- Where a column of a statement is JSON and has no object type or output type handler: the define
    -- makes a variable with the transform for JSON for it. But describing that column raises
    -- NotSupportedError, and so the attribute `description` raises an error, whatever the other
    -- columns are. ODPI-C must describe the column without a change of the state.
    pub json_column_undescribed :
        (c : Cursor) (n : ℕ)
        → c.handle ≡ some h
        → (column_variable d (some h) n position s
            ≡ d.var_new n TransformNum.json (column_size j.info.type_info) false none s)
          × (item_description rt encoding d position (c, s)
              ≡ (err oracle_type_not_supported, (c, s)))
          × IsErr (get_description rt encoding d (c, s)).0
    json_column_undescribed c n e =
        (json_defined n, item_undescribed (c, s) e, description_fails c e)
