-- ===== src/Cursor/InputSizes.antt =====
-- How long the variables of setinputsizes are kept.
use python_cx_oracle.Prelude.{
  ℕ, ◌+◌, ◌<◌, ◌≡◌, refl, sym, ap, ◌∙◌, subst, Bool, true, false, not, ◌&&◌, Option, List, [], ◌∷◌,
  length, set, replicate, ltb, lt→ltb, if◌then◌else◌,
}
use python_cx_oracle.Error.{Result, ok, arguments_and_keywords, no_statement}
use python_cx_oracle.Action.{pure, raise, lift, gets, ◌>>=◌, ◌>>◌, foreign, update, >>=-inv}
use python_cx_oracle.Py.{Value}
use python_cx_oracle.Transform.{Runtime, buffer_from_object}
use python_cx_oracle.Cursor.{
  Slot, null, no_sizes, Binds, unbound, by_position, by_name, Cursor, Driver, Variables, Executor,
  Caller, M, is_open, perform_bind, keep_statement, prepare_text, prepare_new, internal_prepare,
  set_input_sizes, input_positions, input_names, input_slot, set_sizes, use_sizes, keywords_of,
  set_key, statement_or, has_handle, same_statement, value_of, set_bind,
}
use python_cx_oracle.Cursor.Preparing.{binding, prepare_text-Keeps}
use python_cx_oracle.Cursor.Keeps.{Keeps, Keeps->>=, Keeps->>}

abbrev from_sizes : Cursor → Bool
from_sizes c = c.set_input_sizes

module _ (rt : Runtime) {S : Type 0} (d : Driver S) (vars : Variables S) (x : Executor S) where
  -- The variables are kept if they come from setinputsizes, and dropped otherwise.
  after_text :
      (statement tag : Option ℕ) (w : Cursor × S)
      → binding (prepare_new rt d vars x statement tag w).1.0
        ≡ binding (keep_statement rt d vars x statement tag w.0)
  unfolding prepare_new
  after_text statement tag w =
      Keeps->>= d binding (lift (buffer_from_object rt (value_of rt d vars x statement) x.encoding))
        (prepare_text rt d vars x tag) (λ v. refl) (prepare_text-Keeps rt d vars x tag)
        (keep_statement rt d vars x statement tag w.0, w.1)

  prepare_new-flagged :
      (statement tag : Option ℕ) (w : Cursor × S)
      → w.0.set_input_sizes ≡ true
      → (prepare_new rt d vars x statement tag w).1.0.bind_variables ≡ w.0.bind_variables
  prepare_new-flagged statement tag w e =
      ap (λ p. p.0) (after_text statement tag w)
      ∙ ap (λ b. if b then w.0.bind_variables else unbound) e

  prepare_new-unflagged :
      (statement tag : Option ℕ) (w : Cursor × S)
      → w.0.set_input_sizes ≡ false
      → (prepare_new rt d vars x statement tag w).1.0.bind_variables ≡ unbound
  prepare_new-unflagged statement tag w e =
      ap (λ p. p.0) (after_text statement tag w)
      ∙ ap (λ b. if b then w.0.bind_variables else unbound) e

  prepare-flagged :
      (statement tag : Option ℕ) (w : Cursor × S)
      → w.0.set_input_sizes ≡ true
      → (internal_prepare rt d vars x statement tag w).1.0.bind_variables ≡ w.0.bind_variables
  unfolding internal_prepare
  prepare-flagged statement tag w e =
      choose (not (has_handle rt d vars x statement) && not (has_handle rt d vars x w.0.statement))
        (same_statement rt d vars x statement w.0.statement
          && (has_handle rt d vars x w.0.handle && not w.0.stmt_info.is_ddl))
    where
      new : M d (Unit {0})
      new = prepare_new rt d vars x (statement_or rt d vars x statement w.0.statement) tag

      choose :
          (b c : Bool)
          → ((if b then raise no_statement else if c then pure tt else new) w).1.0.bind_variables
            ≡ w.0.bind_variables
      choose true c = refl
      choose false true = refl
      choose false false =
          prepare_new-flagged (statement_or rt d vars x statement w.0.statement) tag w e

  perform_bind-unflags : (w : Cursor × S) → (perform_bind vars w).1.0.set_input_sizes ≡ false
  unfolding perform_bind
  perform_bind-unflags w = refl

  module _ (y : Caller S) where
    positions-Keeps :
        (slots : List Slot) (i : ℕ) (values : List Value)
        → Keeps d from_sizes (input_positions d vars y slots i values)
    unfolding input_positions
    positions-Keeps slots i [] = λ w. refl
    positions-Keeps slots i (value ∷ values) =
        Keeps->>= d from_sizes (gets (λ s. s.0.bind_array_size))
          (λ n. foreign (input_slot d vars y value n) >>= rest) (λ w. refl)
          (λ n.
            Keeps->>= d from_sizes (foreign (input_slot d vars y value n)) rest (λ w. refl)
              (λ slot.
                Keeps->> d from_sizes (set_bind d vars y (by_position (set slots i slot)))
                  (input_positions d vars y (set slots i slot) (i + 1) values) (λ w. refl)
                  (positions-Keeps (set slots i slot) (i + 1) values)))
      where
        rest : Slot → M d (Unit {0})
        rest slot =
            set_bind d vars y (by_position (set slots i slot))
            >> input_positions d vars y (set slots i slot) (i + 1) values

    names-Keeps :
        (kvs : List (Value × ℕ)) (fields : List (Value × Value))
        → Keeps d from_sizes (input_names d vars y kvs fields)
    unfolding input_names
    names-Keeps kvs [] = λ w. refl
    names-Keeps kvs ((key, value) ∷ fields) =
        Keeps->>= d from_sizes (gets (λ s. s.0.bind_array_size))
          (λ n. foreign (y.new_by_type value n) >>= rest) (λ w. refl)
          (λ n.
            Keeps->>= d from_sizes (foreign (y.new_by_type value n)) rest (λ w. refl)
              (λ v.
                Keeps->> d from_sizes (set_bind d vars y (by_name (set_key vars kvs key v)))
                  (input_names d vars y (set_key vars kvs key v) fields) (λ w. refl)
                  (names-Keeps (set_key vars kvs key v) fields)))
      where
        rest : ℕ → M d (Unit {0})
        rest v =
            set_bind d vars y (by_name (set_key vars kvs key v))
            >> input_names d vars y (set_key vars kvs key v) fields

    set_sizes-Keeps :
        (positional : List Value) (kvs : List (Value × Value))
        → Keeps d from_sizes (set_sizes d vars y positional kvs)
    set_sizes-Keeps positional [] =
        Keeps->> d from_sizes (set_bind d vars y (by_position (replicate (length positional) null)))
          (input_positions d vars y (replicate (length positional) null) 0 positional) (λ w. refl)
          (positions-Keeps (replicate (length positional) null) 0 positional)
    set_sizes-Keeps positional (kv ∷ kvs) =
        Keeps->> d from_sizes (set_bind d vars y (by_name [])) (input_names d vars y [] (kv ∷ kvs))
          (λ w. refl) (names-Keeps [] (kv ∷ kvs))

    -- What the end of setinputsizes leaves: the variables that it returns, with the flag.
    used :
        (positional : List Value) (keywords : Option (List (Value × Value))) (w v : Cursor × S)
        (b : Binds)
        → ltb 0 (length positional + length (keywords_of d vars y keywords)) ≡ true
        → use_sizes d vars y positional keywords w ≡ (ok b, v)
        → (v.0.bind_variables ≡ b) × (v.0.set_input_sizes ≡ true)
    used positional keywords w v b n e =
        let sizes : M d (Unit {0}) =
          set_sizes d vars y positional (keywords_of d vars y keywords) in
        let g =
          subst
            (λ k.
              (if k
                  then (update (λ c. record c { set_input_sizes = true })
                      >> (sizes >> gets (λ s. s.0.bind_variables)))
                  else pure (no_sizes d vars y keywords))
                w
              ≡ (ok b, v))
            n e in
        let start : Cursor × S = (record w.0 { set_input_sizes = true }, w.1) in
        let (a, u, e1, e2) = >>=-inv sizes (λ _. gets (λ s. s.0.bind_variables)) start v b g in
        (
          ap (λ r. r.1.0.bind_variables) (sym e2) ∙ returned (u.0.bind_variables) b u v e2,
          ap (λ r. r.1.0.set_input_sizes) (sym e2)
              ∙ ap (λ r. r.1.0.set_input_sizes) (sym e1)
              ∙ set_sizes-Keeps positional (keywords_of d vars y keywords) start,
        )
      where
        returned :
            (a b : Binds) (u v : Cursor × S)
            → Path (Result Binds × (Cursor × S)) (ok a, u) (ok b, v)
            → a ≡ b
        returned a b u v h = cc

    -- Where setinputsizes succeeds with arguments, the cursor has the variables that it returns, and
    -- the next statement that is prepared keeps them, whether preparing succeeds or fails. Once the
    -- binds have been performed, a statement that is new to the cursor drops them.
    pub set_input_sizes-kept_once :
        (positional : List Value) (keywords : Option (List (Value × Value)))
        (statement tag next next_tag : Option ℕ) (w v : Cursor × S) (b : Binds)
        → 0 < length positional + length (keywords_of d vars y keywords)
        → set_input_sizes d vars y positional keywords w ≡ (ok b, v)
        → (v.0.bind_variables ≡ b)
          × ((internal_prepare rt d vars x statement tag v).1.0.bind_variables ≡ b)
          × ((prepare_new rt d vars x next next_tag
                (perform_bind vars
                  (internal_prepare rt d vars x statement tag v).1).1).1.0.bind_variables
              ≡ unbound)
    unfolding set_input_sizes
    set_input_sizes-kept_once positional keywords statement tag next next_tag w v b n e =
        let (k, f) = kept in
        (
          k,
          prepare-flagged statement tag v f ∙ k,
          prepare_new-unflagged next next_tag
              (perform_bind vars (internal_prepare rt d vars x statement tag v).1).1
              (perform_bind-unflags (internal_prepare rt d vars x statement tag v).1),
        )
      where
        one_kind : M d Binds
        one_kind =
            is_open d >> (set_bind d vars y unbound >> use_sizes d vars y positional keywords)

        chosen :
            (g : Bool)
            → (if g then raise arguments_and_keywords else one_kind) w ≡ (ok b, v)
            → one_kind w ≡ (ok b, v)
        chosen true h = cc
        chosen false h = h

        kept : (v.0.bind_variables ≡ b) × (v.0.set_input_sizes ≡ true)
        kept =
            let (a, u, e1, e2) =
              >>=-inv (is_open d)
                (λ _. set_bind d vars y unbound >> use_sizes d vars y positional keywords) w v b
                (chosen
                  (ltb 0 (length (keywords_of d vars y keywords)) && ltb 0 (length positional))
                  e) in
            used positional keywords (record u.0 { bind_variables = unbound }, u.1) v b
              (lt→ltb 0 (length positional + length (keywords_of d vars y keywords)) n) e2
