-- ===== src/Cursor/Prepare.antt =====
-- What cxoCursor_internalPrepare leaves behind when the statement is no text.
use python_cx_oracle.Prelude.{
  ℕ, ◌≡◌, refl, ap, ◌∙◌, true, false, ◌&&◌, none, some, ◌==◌, ==_iff, if◌then◌else◌,
}
use python_cx_oracle.Error.{Error, ok, err}
use python_cx_oracle.Action.{>>=-err, lift, pure}
use python_cx_oracle.Transform.{Runtime, buffer_from_object}
use python_cx_oracle.Cursor.{
  Cursor, Driver, Variables, Executor, keep_statement, prepare_text, prepare_new, internal_prepare,
}

-- A cursor on which the statement object `q` was prepared, which is no DDL.
abbrev pub prepared : ℕ → ℕ → Cursor → Cursor
prepared h q c = record c {
  handle = some h;
  statement = some q;
  stmt_info = record c.stmt_info { is_ddl = false };
}

module _ (rt : Runtime) {S : Type 0} (d : Driver S) (vars : Variables S) (x : Executor S) where
  -- Preparing another object, whose text cannot be had, without a tag and on a cursor whose prepared
  -- statement is no DDL: the call fails, and the cursor keeps the handle of the old statement with the
  -- new object as its statement. A call with None, or with the new object again, then succeeds and
  -- changes nothing.
  pub rejected_statement_is_kept :
      (c : Cursor) (s : S) (h q r : ℕ) (e : Error)
      → (r == q) ≡ false
      → buffer_from_object rt (x.object_value r) x.encoding ≡ err e
      → (t : Cursor) × (internal_prepare rt d vars x (some r) none (prepared h q c, s)
          ≡ (err e, (t, s)))
        × (internal_prepare rt d vars x none none (t, s) ≡ (ok tt, (t, s)))
        × (internal_prepare rt d vars x (some r) none (t, s) ≡ (ok tt, (t, s)))
        × (t.handle ≡ some h)
        × (t.statement ≡ some r)
  unfolding internal_prepare prepare_new
  rejected_statement_is_kept c s h q r e n b = (
    keep_statement rt d vars x (some r) none (prepared h q c),
    ap
          (λ k.
            (if k && true then pure tt else prepare_new rt d vars x (some r) none)
              (prepared h q c, s))
          n
        ∙ >>=-err (lift (buffer_from_object rt (x.object_value r) x.encoding))
            (prepare_text rt d vars x none)
            {w = (keep_statement rt d vars x (some r) none (prepared h q c), s)}
            (ap (λ k. (k, (keep_statement rt d vars x (some r) none (prepared h q c), s))) b),
    refl,
    ap
        (λ k.
          (if k && true then pure tt else prepare_new rt d vars x (some r) none)
            (keep_statement rt d vars x (some r) none (prepared h q c), s))
        ((==_iff r r).1 refl),
    refl,
    refl,
  )
