-- ===== src/Cursor/Returned.antt =====
-- What callproc returns: the values of the variables that were bound for its positional arguments.
use python_cx_oracle.Prelude.{
  ℕ, ◌≡◌, refl, sym, ap, ◌∙◌, subst, false, Option, none, some, List, [], ◌++◌, map, length,
}
use python_cx_oracle.Error
use python_cx_oracle.Error.{Result, ok, err}
use python_cx_oracle.Action.{pure, lift, ◌>>=◌, ◌>>◌, foreign, >>=-inv, >>=-ok}
use python_cx_oracle.Py.{Value, of_items}
use python_cx_oracle.Transform.{Runtime}
use python_cx_oracle.Call.{
  Built, Arguments, call, call_calculate_size, call_build_statement, positional_arguments,
  keyword_arguments,
}
use python_cx_oracle.Cursor.{
  Slot, holds, by_position, Cursor, Driver, Variables, Parameters, Executor, Caller, M, is_open,
  argument_values, returned_arguments, run_call, run_statement, call_proc, execute,
}
use python_cx_oracle.Cursor.Executed.{execute-Fills}
use python_cx_oracle.Cursor.Fills.{Fills, BoundTo}
use python_cx_oracle.Cursor.Reading.{
  Each, Fills-split, length-Each, returned, argument_values-reads,
}

module _ (rt : Runtime) {S : Type 0} (d : Driver S) (vars : Variables S) (x : Executor S)
    (y : Caller S) where
  same_list : (p q : List Value) → Path (Result (List Value)) (ok p) (ok q) → p ≡ q
  same_list p q h = cc

  same_built :
      (n : ℕ) (b : Built) (c : ℕ × Built) → Path (Result (ℕ × Built)) (ok (n, b)) (ok c) → c.1 ≡ b
  same_built n b c h = cc

  -- The values that the statement is run with start with the positional arguments.
  call-starts :
      (name : Value) (args keywords : Option Value) (ps : List Value) (b : ℕ × Built)
      → positional_arguments args ≡ ok ps
      → call rt.version (ok tt) none name args keywords ≡ ok b
      → (others : List Value) × (b.1.bind_variables ≡ ps ++ others)
  unfolding call call_build_statement
  call-starts name args keywords ps b p e =
      let (qs, eq, e1) = Error.>>=-inv (positional_arguments args) _ e in
      let (ks, ek, e2) = Error.>>=-inv (keyword_arguments keywords) _ e1 in
      let arguments : Arguments = record { returns = false; positional = qs; keyword = ks } in
      let (size, es, e3) = Error.>>=-inv (call_calculate_size arguments) _ e2 in
      let built : Built = call_build_statement rt.version name none arguments in
      (
        map (λ kv. kv.1) ks,
        ap (λ c. c.bind_variables) (same_built size built b e3)
            ∙ ap (λ k. k ++ map (λ kv. kv.1) ks) (same_list qs ps (sym eq ∙ p)),
      )

  arguments_at :
      (args : Option Value) (ps : List Value) (n : ℕ) (v : Cursor × S)
      → positional_arguments args ≡ ok ps
      → n ≡ length ps
      → returned_arguments rt d vars x y args v
        ≡ (argument_values rt d vars x y n 0 >>= λ rs. pure (Value.list (of_items rs))) v
  arguments_at args ps n v p l =
      ap (λ r. (lift r >>= listed) v) p
      ∙ ap (λ k. (argument_values rt d vars x y k 0 >>= λ rs. pure (Value.list (of_items rs))) v)
          (sym l)
    where
      listed : List Value → M d Value
      listed vs =
          argument_values rt d vars x y (length vs) 0 >>= λ rs. pure (Value.list (of_items rs))

  abbrev run_positional : Built → ℕ → M d (Unit {0})
  run_positional b statement =
      execute rt d vars x (some statement) (some (Parameters.sequence b.bind_variables)) >> pure tt

  run_statement-Fills :
      (b : Built) (w v : Cursor × S)
      → run_statement rt d vars x y b w ≡ (ok tt, v)
      → (slots : List Slot) × (v.0.bind_variables ≡ by_position slots)
        × Fills (BoundTo vars 0) b.bind_variables slots
  run_statement-Fills b w v e =
      let (statement, u, o, f) =
        >>=-inv (foreign (y.format_text b.format b.format_args)) (run_positional b) w v tt e in
      let (q, t, k, g) =
        >>=-inv (execute rt d vars x (some statement) (some (Parameters.sequence b.bind_variables)))
          (λ _. pure tt) u v tt f in
      let (slots, h, held) = execute-Fills rt d vars x (some statement) b.bind_variables u t q k in
      (slots, ap (λ r. r.1.0.bind_variables) (sym g) ∙ h, held)

  abbrev built : Value → Option Value → Option Value → Result (ℕ × Built)
  built name args keywords = call rt.version (ok tt) none name args keywords

  abbrev run_built : Value → Option Value → Option Value → M d (Unit {0})
  run_built name args keywords =
      lift (built name args keywords) >>= λ b. run_statement rt d vars x y b.1

  -- Running the call runs a statement that has been built from the arguments.
  run_call-built :
      (name : Value) (args keywords : Option Value) (w v : Cursor × S)
      → run_call rt d vars x y none name args keywords w ≡ (ok tt, v)
      → (b : ℕ × Built) × (u : Cursor × S) × (built name args keywords ≡ ok b)
        × (run_statement rt d vars x y b.1 u ≡ (ok tt, v))
  unfolding run_call
  run_call-built name args keywords w v e =
      let (a1, w1, o1, e1) =
        >>=-inv (lift (positional_arguments args))
          (λ _. lift (keyword_arguments keywords) >> (is_open d >> run_built name args keywords)) w
          v tt e in
      let (a2, w2, o2, e2) =
        >>=-inv (lift (keyword_arguments keywords)) (λ _. is_open d >> run_built name args keywords)
          w1 v tt e1 in
      let (a3, w3, o3, e3) = >>=-inv (is_open d) (λ _. run_built name args keywords) w2 v tt e2 in
      let (b, u, o4, e4) =
        >>=-inv (lift (built name args keywords)) (λ b. run_statement rt d vars x y b.1) w3 v tt
          e3 in
      (b, u, ap (λ r. r.0) o4, e4)

  -- It leaves a variable for each positional argument, and behind them those of others.
  run_call-Fills :
      (name : Value) (args keywords : Option Value) (ps : List Value) (w v : Cursor × S)
      → positional_arguments args ≡ ok ps
      → run_call rt d vars x y none name args keywords w ≡ (ok tt, v)
      → (slots : List Slot) × (others : List Value) × (v.0.bind_variables ≡ by_position slots)
        × Fills (BoundTo vars 0) (ps ++ others) slots
  run_call-Fills name args keywords ps w v p e =
      let (b, u, o, f) = run_call-built name args keywords w v e in
      let (slots, h, k) = run_statement-Fills b.1 u v f in
      let (others, s) = call-starts name args keywords ps b p o in
      (slots, others, h, subst (λ values. Fills (BoundTo vars 0) values slots) s k)

  -- Where the statement of a callproc has been run, the bind variables start with one for each
  -- positional argument, in order, which is the argument itself or was given it by cxoVar_setValue;
  -- and callproc returns the list of the values of these, or the first error of reading one.
  pub call_proc-returned :
      (name : Value) (args keywords : Option Value) (ps : List Value) (w v : Cursor × S)
      → positional_arguments args ≡ ok ps
      → run_call rt d vars x y none name args keywords w ≡ (ok tt, v)
      → (vs : List ℕ) × (rest : List Slot) × (v.0.bind_variables
          ≡ by_position (map holds vs ++ rest))
        × Each (BoundTo vars 0) ps vs
        × (call_proc rt d vars x y name args keywords none w ≡ returned rt d vars x y vs v)
  unfolding call_proc
  call_proc-returned name args keywords ps w v p e =
      let (slots, others, b, h) = run_call-Fills name args keywords ps w v p e in
      let (vs, rest, f, k) = Fills-split ps others slots h in
      (
        vs,
        rest,
        b ∙ ap by_position f,
        k,
        >>=-ok (run_call rt d vars x y none name args keywords)
              (λ _. returned_arguments rt d vars x y args) e
            ∙ arguments_at args ps (length vs) v p (length-Each ps vs k)
            ∙ ap (λ r. list_of r)
                (argument_values-reads rt d vars x y vs [] rest 0 v.0 v.1 refl
                  (b ∙ ap by_position f)),
      )
    where
      list_of : Result (List Value) × (Cursor × S) → Result Value × (Cursor × S)
      list_of r = elim r.0 [ ok rs ↦ (ok (Value.list (of_items rs)), r.1) | err z ↦ (err z, r.1) ]
