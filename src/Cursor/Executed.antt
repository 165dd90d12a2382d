-- ===== src/Cursor/Executed.antt =====
-- The bind variables of a cursor after `execute`.
use python_cx_oracle.Prelude.{
  ℕ, zero, suc, ◌+◌, ◌-◌, ◌≡◌, refl, sym, ap, ◌∙◌, Bool, true, false, Option, none, some, List,
  ◌==◌, if◌then◌else◌,
}
use python_cx_oracle.Error.{Result, ok, err}
use python_cx_oracle.Action.{pure, gets, ◌>>=◌, ◌>>◌, foreign, update, >>=-inv}
use python_cx_oracle.Py.{Value}
use python_cx_oracle.Transform.{Runtime}
use python_cx_oracle.Cursor.{
  Slot, Binds, by_position, Cursor, Driver, Variables, Parameters, Executor, M, is_open,
  define_columns, column_variable, set_fetch_variable, perform_define, reset_fetch,
  new_fetch_variables, internal_prepare, perform_bind, define_or_clear, commit_mode, execute,
  set_bind_variables,
}
use python_cx_oracle.Cursor.Keeps.{Keeps, Keeps->>=, Keeps->>, Keeps-if}
use python_cx_oracle.Cursor.Fills.{Fills, BoundTo, set_bind_variables-Fills}

abbrev binds : Cursor → Binds
binds c = c.bind_variables

module _ {S : Type 0} (d : Driver S) where
  define_columns-Keeps : (left position : ℕ) → Keeps d binds (define_columns d left position)
  unfolding define_columns
  define_columns-Keeps zero position = λ w. refl
  define_columns-Keeps (suc left) position =
      Keeps->>= d binds (gets (λ s. s.0.handle)) (λ h. gets (λ s. s.0.fetch_array_size) >>= sized h)
        (λ w. refl)
        (λ h.
          Keeps->>= d binds (gets (λ s. s.0.fetch_array_size)) (sized h) (λ w. refl)
            (λ n.
              Keeps->>= d binds (foreign (column_variable d h n position)) (defined h) (λ w. refl)
                (λ v.
                  Keeps->> d binds (update (set_fetch_variable (position - 1) v))
                    (foreign (d.define h position v) >> define_columns d left (position + 1))
                    (λ w. refl)
                    (Keeps->> d binds (foreign (d.define h position v))
                      (define_columns d left (position + 1)) (λ w. refl)
                      (define_columns-Keeps left (position + 1))))))
    where
      defined : Option ℕ → ℕ → M d (Unit {0})
      defined h v =
          update (set_fetch_variable (position - 1) v)
          >> (foreign (d.define h position v) >> define_columns d left (position + 1))

      sized : Option ℕ → ℕ → M d (Unit {0})
      sized h n = foreign (column_variable d h n position) >>= defined h

  perform_define-Keeps : (columns : ℕ) → Keeps d binds (perform_define d columns)
  unfolding perform_define
  perform_define-Keeps columns =
      Keeps->> d binds (update reset_fetch) (gets (λ s. s.0.fetch_variables) >>= chosen) (λ w. refl)
        (Keeps->>= d binds (gets (λ s. s.0.fetch_variables)) chosen (λ w. refl) chosen-Keeps)
    where
      chosen : Option (List (Option ℕ)) → M d (Unit {0})
      chosen fetch_variables = elim fetch_variables [
        | some vs ↦ pure tt
        | none ↦ update (new_fetch_variables columns) >> define_columns d columns 1
      ]

      chosen-Keeps : (o : Option (List (Option ℕ))) → Keeps d binds (chosen o)
      chosen-Keeps (some vs) = λ w. refl
      chosen-Keeps none =
          Keeps->> d binds (update (new_fetch_variables columns)) (define_columns d columns 1)
            (λ w. refl) (define_columns-Keeps columns 1)

module _ (rt : Runtime) {S : Type 0} (d : Driver S) (vars : Variables S) (x : Executor S) where
  define_or_clear-Keeps : (columns : ℕ) → Keeps d binds (define_or_clear rt d vars x columns)
  define_or_clear-Keeps columns w =
      go (perform_define d columns w) (perform_define-Keeps d columns w)
    where
      clear : Result (Unit {0}) × (Cursor × S) → Result (Unit {0}) × (Cursor × S)
      clear r = elim r.0 [
        | ok a ↦ (ok a, r.1)
        | err e ↦ (err e, (record r.1.0 { fetch_variables = none }, r.1.1))
      ]

      go :
          (r : Result (Unit {0}) × (Cursor × S))
          → binds r.1.0 ≡ binds w.0
          → binds (clear r).1.0 ≡ binds w.0
      go (ok a, v) h = h
      go (err e, v) h = h

  perform_bind-Keeps : Keeps d binds (perform_bind vars)
  unfolding perform_bind
  perform_bind-Keeps w = refl

  -- The parts of cxoCursor_execute that follow the binding.
  abbrev define_query : ℕ → M d Bool
  define_query columns =
      if columns == 0 then pure false else (define_or_clear rt d vars x columns >> pure true)

  abbrev set_row_count : ℕ → ℕ → M d Bool
  set_row_count columns n = update (λ t. record t { row_count = n }) >> define_query columns

  abbrev count_rows : Option ℕ → ℕ → M d Bool
  count_rows handle columns = foreign (d.get_row_count handle) >>= set_row_count columns

  abbrev run_bound : Option ℕ → Bool → M d Bool
  run_bound handle commit =
      foreign (x.execute_stmt handle (commit_mode rt d vars x commit)) >>= count_rows handle

  abbrev with_cursor : Cursor → M d Bool
  with_cursor c = gets (λ s. x.autocommit s.1) >>= run_bound c.handle

  abbrev after_bind : M d Bool
  after_bind = perform_bind vars >> (gets (λ s. s.0) >>= with_cursor)

  define_query-Keeps : (columns : ℕ) → Keeps d binds (define_query columns)
  define_query-Keeps columns =
      Keeps-if d binds (columns == 0) (pure false)
        (define_or_clear rt d vars x columns >> pure true) (λ w. refl)
        (Keeps->> d binds (define_or_clear rt d vars x columns) (pure true)
          (define_or_clear-Keeps columns) (λ w. refl))

  run_bound-Keeps : (handle : Option ℕ) (commit : Bool) → Keeps d binds (run_bound handle commit)
  run_bound-Keeps handle commit =
      Keeps->>= d binds (foreign (x.execute_stmt handle (commit_mode rt d vars x commit)))
        (count_rows handle) (λ w. refl)
        (λ columns.
          Keeps->>= d binds (foreign (d.get_row_count handle)) (set_row_count columns) (λ w. refl)
            (λ n.
              Keeps->> d binds (update (λ t. record t { row_count = n })) (define_query columns)
                (λ w. refl) (define_query-Keeps columns)))

  after_bind-Keeps : Keeps d binds after_bind
  after_bind-Keeps =
      Keeps->> d binds (perform_bind vars) (gets (λ s. s.0) >>= with_cursor) perform_bind-Keeps (
        Keeps->>= d binds (gets (λ s. s.0)) with_cursor (λ w. refl)
          (λ c.
            Keeps->>= d binds (gets (λ s. x.autocommit s.1)) (run_bound c.handle) (λ w. refl)
              (run_bound-Keeps c.handle)))

  -- Where `execute` succeeds with a sequence, the cursor has a variable for each of its values, which
  -- is that value or was given it.
  pub execute-Fills :
      (statement : Option ℕ) (values : List Value) (w v : Cursor × S) (q : Bool)
      → execute rt d vars x statement (some (Parameters.sequence values)) w ≡ (ok q, v)
      → (slots : List Slot) × (v.0.bind_variables ≡ by_position slots)
        × Fills (BoundTo vars 0) values slots
  unfolding execute
  execute-Fills statement values w v q e =
      let bound : M d Bool =
        set_bind_variables vars (Parameters.sequence values) 1 0 false >> after_bind in
      let (a1, w1, o1, e1) =
        >>=-inv (is_open d) (λ _. internal_prepare rt d vars x statement none >> bound) w v q e in
      let (a2, w2, o2, e2) =
        >>=-inv (internal_prepare rt d vars x statement none) (λ _. bound) w1 v q e1 in
      let (a3, w3, o3, e3) =
        >>=-inv (set_bind_variables vars (Parameters.sequence values) 1 0 false) (λ _. after_bind)
          w2 v q e2 in
      let (slots, b, h) = set_bind_variables-Fills vars 1 0 values w2.0 w2.1 w3 o3 in
      (slots, ap (λ r. r.1.0.bind_variables) (sym e3) ∙ after_bind-Keeps w3 ∙ b, h)
