-- ===== src/Connection/Closed.antt =====
-- A connection that has been closed.
use python_cx_oracle.Prelude.{
  ℕ, ◌≡◌, refl, sym, ap, ◌∙◌, subst, Option, none, some, List, [], inl, inr,
}
use python_cx_oracle.Error.{Error, ok, err, Result-cases, not_connected}
use python_cx_oracle.Action.{lift, ◌>>=◌, >>=-ok, >>=-err}
use python_cx_oracle.Py.{Value}
use python_cx_oracle.Connection.State.{ConnApi, CloseMode, World, C, odpi, is_connected}
use python_cx_oracle.Connection.Methods.{
  on_handle, returns_none, encoded_object, bytes_of_object, encoding_of, close_handle_with,
  close_mode, get_attr_text, set_attr_text, change_password, get_stmt_cache_size, get_call_timeout,
  set_stmt_cache_size, set_call_timeout, create_lob, get_ltxid, get_handle, commit, rollback,
  cancel, ping, begin, prepare_transaction, shutdown, startup, close_connection,
  context_manager_exit,
}
use python_cx_oracle.Connection.Pool.{give_back, without_pool, tag_or_own, pool_release, pool_drop}
use python_cx_oracle.Connection.Operations.{Operation, run}

module _ {S : Type 0} (api : ConnApi S) where
  -- What ODPI-C documents of a NULL handle: it is refused, and nothing happens.
  abbrev pub RefusesNull : Type 0
  RefusesNull =
      (mode : CloseMode) (tag : List ℕ) (s : S)
      → (e : Error) × (api.close none mode tag s ≡ (err e, s))

  -- The operation fails and changes nothing.
  abbrev pub Fails : {A : Type 0} → C S A → World S → Type 0
  Fails m w = (e : Error) × (m w ≡ (err e, w))

  Fails->>= :
      {A B : Type 0} (m : C S A) (f : A → C S B) (w : World S) → Fails m w → Fails (m >>= f) w
  Fails->>= m f w h = (h.0, >>=-err m f h.1)

  module _ (w : World S) (closed : w.0.handle ≡ none) where
    unconnected : Fails (is_connected api) w
    unfolding is_connected
    unconnected = (not_connected, rw closed refl)

    after_encoding :
        {A : Type 0} (v : Option Value) (f : List ℕ → C S A)
        → ((b : List ℕ) → Fails (f b) w)
        → Fails (encoded_object api v >>= f) w
    unfolding encoded_object
    after_encoding v f g = elim (Result-cases (bytes_of_object api (encoding_of api w) v)) [
      | inl (b, e) ↦ ((g b).0, >>=-ok (encoded_object api v) f (ap (λ r. (r, w)) e) ∙ (g b).1)
      | inr (x, e) ↦ (x, >>=-err (encoded_object api v) f (ap (λ r. (r, w)) e))
    ]

    null_given :
        (h : Option ℕ) (mode : CloseMode) (tag : List ℕ)
        → RefusesNull
        → h ≡ none
        → Fails (give_back api h mode tag) w
    null_given h mode tag refuses e =
        let (x, q) = refuses mode tag w.1.1 in
        subst (λ o. Fails (give_back api o mode tag) w) (sym e)
          (
            x,
            >>=-err (close_handle_with api none mode tag) finish (
                >>=-err (odpi api (api.close none mode tag)) mark
                  (ap (λ r. (r.0, (w.0, (w.1.0, r.1)))) q)),
          )
      where
        mark : Unit {0} → C S Value
        mark u v = (ok Value.none, (record v.0 { handle = none }, v.1))

        finish : Value → C S Value
        finish x v = (ok x, without_pool api v)

    -- A connection that is closed: whatever is called, it fails and changes nothing.
    pub closed-Fails : RefusesNull → (op : Operation) → Fails (run api op) w
    unfolding is_connected close_connection context_manager_exit pool_drop pool_release commit
        rollback cancel ping prepare_transaction begin get_attr_text set_attr_text change_password
        get_stmt_cache_size get_call_timeout get_ltxid get_handle set_stmt_cache_size
        set_call_timeout create_lob shutdown startup
    closed-Fails r Operation.close = (not_connected, rw closed refl)
    closed-Fails r Operation.exit = (not_connected, rw closed refl)
    closed-Fails r Operation.drop = null_given w.0.handle CloseMode.drop [] r closed
    closed-Fails r (Operation.release pool tag) =
        let t = tag_or_own api tag w.0 in
        elim (Result-cases (bytes_of_object api pool.encodings.encoding t)) [
          | inl (b, e) ↦
              let f = null_given w.0.handle (close_mode t) b r closed in
              (
                f.0,
                >>=-ok (lift (bytes_of_object api pool.encodings.encoding t))
                      (give_back api w.0.handle (close_mode t)) (ap (λ x. (x, w)) e)
                    ∙ f.1,
              )
          | inr (x, e) ↦ (
            x,
            >>=-err (lift (bytes_of_object api pool.encodings.encoding t))
                (give_back api w.0.handle (close_mode t)) (ap (λ y. (y, w)) e),
          )
        ]
    closed-Fails r (Operation.begin none t b) = (not_connected, rw closed refl)
    closed-Fails r (Operation.begin (some f) t b) = (not_connected, rw closed refl)
    closed-Fails r (Operation.create_lob (Value.db_type d)) = (not_connected, rw closed refl)
    closed-Fails r (Operation.startup force restrict pfile) =
        after_encoding pfile
          (λ b. on_handle api (λ h. api.startup h b force restrict) (returns_none api))
          (λ b. (not_connected, rw closed refl))
    closed-Fails r _ = (not_connected, rw closed refl)
