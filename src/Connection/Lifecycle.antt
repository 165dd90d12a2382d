-- ===== src/Connection/Lifecycle.antt =====
-- The life of a connection: its handle is released once, when it is closed.
use python_cx_oracle.Prelude.{
  ℕ, Bool, ◌≡◌, refl, sym, ap, ◌∙◌, subst, ◌⊎◌, inl, inr, Option, none, some, List, [], ◌∷◌, ◌++◌,
}
use python_cx_oracle.Prelude.Int.{pos, negsuc}
use python_cx_oracle.Error.{Error, Result, ok, err}
use python_cx_oracle.Action.{pure, ◌>>=◌, >>=-ok}
use python_cx_oracle.Py.{Value}
use python_cx_oracle.Connection.State.{
  SessionPool, ConnApi, CloseMode, World, C, release_conn, is_connected,
}
use python_cx_oracle.Connection.Methods.{
  encoded_object, bytes_of_object, close_mode, close_handle_with, close_connected, close_connection,
  context_manager_exit, free, returns_none, get_stmt_cache_size, get_call_timeout, get_ltxid,
  get_handle, commit, rollback, cancel, ping, begin, prepare_transaction, shutdown, get_attr_text,
  set_attr_text, change_password, set_stmt_cache_size, set_call_timeout, create_lob, startup,
}
use python_cx_oracle.Connection.Pool.{give_back, without_pool, tag_or_own, pool_release, pool_drop}
use python_cx_oracle.Connection.Operations.{Operation, run, run_all}
use python_cx_oracle.Connection.Closed.{RefusesNull, closed-Fails}
use python_cx_oracle.Connection.Stays.{
  Stays, Stays-on_handle, Stays-get_attr_text, Stays-set_attr_text, Stays-change_password,
  Stays-set_stmt_cache_size, Stays-set_call_timeout, Stays-create_lob, Stays-startup,
}

-- The connection has a handle, which has not been released since; or it has none, and the handle is
-- what has been released since.
abbrev pub Lives : {S : Type 0} → ℕ → List ℕ → World S → Type 0
Lives h rel w =
    ((w.0.handle ≡ some h) × (w.1.0 ≡ rel)) ⊎ ((w.0.handle ≡ none) × (w.1.0 ≡ rel ++ (h ∷ [])))

module _ {S : Type 0} (api : ConnApi S) (h : ℕ) (rel : List ℕ) where
  abbrev Open : World S → Type 0
  Open w = (w.0.handle ≡ some h) × (w.1.0 ≡ rel)

  -- What a chain leaves, where its first part leaves a living connection.
  then-Lives :
      {A B : Type 0} (m : C S A) (f : A → C S B) (w : World S)
      → Lives h rel (m w).1
      → ((a : A) (v : World S) → Lives h rel v → Lives h rel (f a v).1)
      → Lives h rel ((m >>= f) w).1
  then-Lives {A} {B} m f w l g = go (m w) l
    where
      resume : Result A × World S → Result B × World S
      resume r = elim r.0 [ ok a ↦ f a r.1 | err e ↦ (err e, r.1) ]

      go : (r : Result A × World S) → Lives h rel r.1 → Lives h rel (resume r).1
      go (ok a, v) l = g a v l
      go (err e, v) l = l

  Stays-Open : {A : Type 0} (m : C S A) (w : World S) → Stays api m → Open w → Lives h rel (m w).1
  Stays-Open m w s o = inl ((s w).0 ∙ o.0, (s w).1 ∙ o.1)

  close_with-Lives :
      (o : Option ℕ) (mode : CloseMode) (tag : List ℕ) (w : World S)
      → o ≡ some h
      → Open w
      → Lives h rel (close_handle_with api o mode tag w).1
  close_with-Lives none mode tag w e o = cc
  close_with-Lives (some g) mode tag w e o = go (api.close (some g) mode tag w.1.1)
    where
      same : g ≡ h
      same = cc

      closed_by : Result (Unit {0}) × S → Result Value × World S
      closed_by r = elim r.0 [
        | ok u ↦
            let v = release_conn api (some g) (w.0, (w.1.0, r.1)) in
            (ok Value.none, (record v.0 { handle = none }, v.1))
        | err e ↦ (err e, (w.0, (w.1.0, r.1)))
      ]

      go : (r : Result (Unit {0}) × S) → Lives h rel (closed_by r).1
      go (ok u, s) = inr (refl, (λ i. o.1 i ++ (same i ∷ [])))
      go (err x, s) = inl o

  give_back-Lives :
      (o : Option ℕ) (mode : CloseMode) (tag : List ℕ) (w : World S)
      → o ≡ some h
      → Open w
      → Lives h rel (give_back api o mode tag w).1
  give_back-Lives o mode tag w e p =
      then-Lives (close_handle_with api o mode tag) (λ v u. (ok v, without_pool api u)) w
        (close_with-Lives o mode tag w e p) (λ v u l. l)

  connected : (w : World S) → Open w → is_connected api w ≡ (ok h, w)
  unfolding is_connected
  connected w o =
      ap
        (λ g. elim g as (λ x. Result ℕ × World S) [
          | some g ↦ (ok g, w)
          | none ↦ (err Error.not_connected, w)
        ])
        o.0

  close-Lives : (w : World S) → Open w → Lives h rel (close_connection api w).1
  unfolding close_connection is_connected encoded_object
  close-Lives w o =
      subst (λ r. Lives h rel r.1)
        (sym (>>=-ok (is_connected api) (close_connected api) (connected w o)))
        (after_tag (bytes_of_object api w.0.encodings.encoding w.0.tag))
    where
      finish : Result (List ℕ) → Result Value × World S
      finish r = elim r [
        | ok b ↦ close_handle_with api (some h) (close_mode w.0.tag) b w
        | err e ↦ (err e, w)
      ]

      after_tag : (r : Result (List ℕ)) → Lives h rel (finish r).1
      after_tag (ok b) = close_with-Lives (some h) (close_mode w.0.tag) b w refl o
      after_tag (err e) = inl o

  release-Lives :
      (pool : SessionPool) (tag : Option Value) (w : World S)
      → Open w
      → Lives h rel (pool_release api pool tag w).1
  unfolding pool_release
  release-Lives pool tag w o =
      finish (bytes_of_object api pool.encodings.encoding (tag_or_own api tag w.0))
    where
      back : Result (List ℕ) → Result Value × World S
      back r = elim r [
        | ok b ↦ give_back api w.0.handle (close_mode (tag_or_own api tag w.0)) b w
        | err e ↦ (err e, w)
      ]

      finish : (r : Result (List ℕ)) → Lives h rel (back r).1
      finish (ok b) = give_back-Lives w.0.handle (close_mode (tag_or_own api tag w.0)) b w o.0 o
      finish (err e) = inl o

  Open-Lives : (op : Operation) (w : World S) → Open w → Lives h rel (run api op w).1
  unfolding context_manager_exit pool_drop commit rollback cancel ping prepare_transaction begin
      get_stmt_cache_size get_call_timeout get_ltxid get_handle shutdown
  Open-Lives Operation.close w o = close-Lives w o
  Open-Lives Operation.exit w o =
      then-Lives (close_connection api) (λ v. pure (Value.bool Bool.false)) w (close-Lives w o)
        (λ v u l. l)
  Open-Lives Operation.drop w o = give_back-Lives w.0.handle CloseMode.drop [] w o.0 o
  Open-Lives (Operation.release pool tag) w o = release-Lives pool tag w o
  Open-Lives Operation.commit w o =
      Stays-Open (commit api) w (Stays-on_handle api api.commit (returns_none api)) o
  Open-Lives Operation.rollback w o =
      Stays-Open (rollback api) w (Stays-on_handle api api.rollback (returns_none api)) o
  Open-Lives Operation.cancel w o =
      Stays-Open (cancel api) w (Stays-on_handle api api.break_execution (returns_none api)) o
  Open-Lives Operation.ping w o =
      Stays-Open (ping api) w (Stays-on_handle api api.ping (returns_none api)) o
  Open-Lives Operation.prepare w o =
      Stays-Open (prepare_transaction api) w
        (Stays-on_handle api api.prepare_distrib_trans Value.bool) o
  Open-Lives (Operation.begin none t b) w o =
      Stays-Open (begin api none t b) w
        (Stays-on_handle api (λ g. api.begin_distrib_trans g (negsuc 0) t b) (returns_none api)) o
  Open-Lives (Operation.begin (some f) t b) w o =
      Stays-Open (begin api (some f) t b) w
        (Stays-on_handle api (λ g. api.begin_distrib_trans g f t b) (returns_none api)) o
  Open-Lives (Operation.get_text a) w o =
      Stays-Open (get_attr_text api a) w (Stays-get_attr_text api a) o
  Open-Lives (Operation.set_text a v) w o =
      Stays-Open (set_attr_text api a v) w (Stays-set_attr_text api a v) o
  Open-Lives (Operation.change_password old new) w o =
      Stays-Open (change_password api old new) w (Stays-change_password api old new) o
  Open-Lives Operation.get_stmt_cache_size w o =
      Stays-Open (get_stmt_cache_size api) w
        (Stays-on_handle api api.get_stmt_cache_size (λ n. Value.int (pos n))) o
  Open-Lives Operation.get_call_timeout w o =
      Stays-Open (get_call_timeout api) w
        (Stays-on_handle api api.get_call_timeout (λ n. Value.int (pos n))) o
  Open-Lives Operation.get_ltxid w o =
      Stays-Open (get_ltxid api) w (Stays-on_handle api api.ltxid Value.bytes) o
  Open-Lives Operation.get_handle w o =
      Stays-Open (get_handle api) w (Stays-on_handle api api.oci_handle (λ n. Value.int (pos n))) o
  Open-Lives (Operation.set_stmt_cache_size v) w o =
      Stays-Open (set_stmt_cache_size api v) w (Stays-set_stmt_cache_size api v) o
  Open-Lives (Operation.set_call_timeout v) w o =
      Stays-Open (set_call_timeout api v) w (Stays-set_call_timeout api v) o
  Open-Lives (Operation.create_lob v) w o =
      Stays-Open (create_lob api v) w (Stays-create_lob api v) o
  Open-Lives (Operation.shutdown mode) w o =
      Stays-Open (shutdown api mode) w
        (Stays-on_handle api (λ g. api.shutdown g mode) (returns_none api)) o
  Open-Lives (Operation.startup force restrict pfile) w o =
      Stays-Open (startup api force restrict pfile) w (Stays-startup api force restrict pfile) o

  run-Lives :
      RefusesNull api
      → (op : Operation) (w : World S) → Lives h rel w
      → Lives h rel (run api op w).1
  run-Lives r op w (inl o) = Open-Lives op w o
  run-Lives r op w (inr c) =
      subst (λ v. Lives h rel v) (sym (ap (λ p. p.1) (closed-Fails api w c.0 r op).1)) (inr c)

  all-Lives :
      RefusesNull api
      → (ops : List Operation) (w : World S) → Lives h rel w
      → Lives h rel (run_all api ops w)
  all-Lives r [] w l = l
  all-Lives r (op ∷ ops) w l = all-Lives r ops (run api op w).1 (run-Lives r op w l)

  free_releases : (w : World S) → Lives h rel w → (free api w).1.0 ≡ rel ++ (h ∷ [])
  unfolding free
  free_releases w (inl o) = rw (o.0) (λ i. o.1 i ++ (h ∷ []))
  free_releases w (inr c) = rw (c.0) (c.1)

  -- The same, with an operation that fails and changes nothing where there is no handle.
  abbrev pub LivesWith : Operation → World S → Type 0
  LivesWith op w =
      ((w.0.handle ≡ some h) × (w.1.0 ≡ rel))
      ⊎ ((w.0.handle ≡ none)
          × (w.1.0 ≡ rel ++ (h ∷ []))
          × ((e : Error) × (run api op w ≡ (err e, w))))

  Lives-LivesWith :
      RefusesNull api → (op : Operation) (w : World S) → Lives h rel w → LivesWith op w
  Lives-LivesWith r op w (inl o) = inl o
  Lives-LivesWith r op w (inr c) = inr (c.0, c.1, closed-Fails api w c.0 r op)

  -- However a program uses a connection, and whichever of its calls fail: as long as the connection
  -- has its handle this has not been released, and once it has none the handle has been released
  -- exactly once, whether the connection was closed, left as a context manager, or given back to or
  -- dropped from a pool; every further operation then fails and changes nothing. When the object is
  -- freed in the end, the handle has been released once in all. ODPI-C must refuse to close a NULL
  -- handle.
  pub run_all-Lives :
      RefusesNull api
      → (ops : List Operation) (op : Operation) (w : World S) → w.0.handle ≡ some h
      → w.1.0 ≡ rel
      → LivesWith op (run_all api ops w) × ((free api (run_all api ops w)).1.0 ≡ rel ++ (h ∷ []))
  run_all-Lives r ops op w o q =
      let l = all-Lives r ops w (inl (o, q)) in
      (Lives-LivesWith r op (run_all api ops w) l, free_releases (run_all api ops w) l)
