-- ===== src/Connection/Stays.antt =====
-- The operations that do not close the connection leave its handle and the handles that have been
-- released as they are.
use python_cx_oracle.Prelude.{
  ℕ, ◌≡◌, refl, ◌∙◌, Bool, Bool-cases, inl, inr, Option, none, some, List, if◌then◌else◌,
}
use python_cx_oracle.Error.{Error, Result, ok, err}
use python_cx_oracle.Action.{Action, pure, raise, lift, gets, ◌>>=◌}
use python_cx_oracle.Py.{Value}
use python_cx_oracle.Connection.State.{ConnApi, TextAttr, World, C, odpi, is_connected}
use python_cx_oracle.Connection.Methods.{
  encoded_object, decoded_text, on_handle, returns_none, get_attr_text, set_attr_text,
  change_password, cache_size_of, late_error, set_stmt_cache_size, timeout_of, set_call_timeout,
  is_temp_lob_type, create_lob, startup,
}

module _ {S : Type 0} (api : ConnApi S) where
  abbrev pub Kept : World S → World S → Type 0
  Kept w v = (v.0.handle ≡ w.0.handle) × (v.1.0 ≡ w.1.0)

  abbrev pub Stays : {A : Type 0} → C S A → Type 0
  Stays m = (w : World S) → Kept w (m w).1

  Stays->>= :
      {A B : Type 0} (m : C S A) (f : A → C S B)
      → Stays m
      → ((a : A) → Stays (f a))
      → Stays (m >>= f)
  Stays->>= {A} {B} m f s t w = go (m w) (s w)
    where
      resume : Result A × World S → Result B × World S
      resume r = elim r.0 [ ok a ↦ f a r.1 | err e ↦ (err e, r.1) ]

      go : (r : Result A × World S) → Kept w r.1 → Kept w (resume r).1
      go (ok a, v) k = ((t a v).0 ∙ k.0, (t a v).1 ∙ k.1)
      go (err e, v) k = k

  Stays-odpi : {A : Type 0} (m : Action S A) → Stays (odpi api m)
  Stays-odpi m w = (refl, refl)

  Stays-is_connected : Stays (is_connected api)
  unfolding is_connected
  Stays-is_connected w = go w.0.handle
    where
      go :
          (h : Option ℕ)
          → Kept w
              (elim h as (λ x. Result ℕ × World S) [
                | some h ↦ (ok h, w)
                | none ↦ (err Error.not_connected, w)
              ]).1
      go none = (refl, refl)
      go (some h) = (refl, refl)

  pub Stays-encoded_object : (v : Option Value) → Stays (encoded_object api v)
  unfolding encoded_object
  Stays-encoded_object v w = (refl, refl)

  Stays-decoded : (b : Option (List ℕ)) → Stays (decoded_text api b)
  unfolding decoded_text
  Stays-decoded none w = (refl, refl)
  Stays-decoded (some b) w = (refl, refl)

  -- A call of ODPI-C with a result that is handed on.
  Stays-call :
      {A : Type 0} (m : Action S A) (f : A → Value) → Stays (odpi api m >>= λ a. pure (f a))
  Stays-call m f = Stays->>= (odpi api m) (λ a. pure (f a)) (Stays-odpi m) (λ a w. (refl, refl))

  pub Stays-connected :
      {A : Type 0} (f : ℕ → C S A) → ((h : ℕ) → Stays (f h)) → Stays (is_connected api >>= f)
  Stays-connected f s = Stays->>= (is_connected api) f Stays-is_connected s

  pub Stays-on_handle :
      {A : Type 0} (call : ℕ → Action S A) (f : A → Value) → Stays (on_handle api call f)
  Stays-on_handle call f =
      Stays-connected (λ h. odpi api (call h) >>= λ a. pure (f a)) (λ h. Stays-call (call h) f)

  pub Stays-get_attr_text : (a : TextAttr) → Stays (get_attr_text api a)
  unfolding get_attr_text
  Stays-get_attr_text a =
      Stays-connected (λ h. odpi api (api.get_text a h) >>= decoded_text api)
        (λ h.
          Stays->>= (odpi api (api.get_text a h)) (decoded_text api) (Stays-odpi (api.get_text a h))
            Stays-decoded)

  pub Stays-set_attr_text : (a : TextAttr) (v : Value) → Stays (set_attr_text api a v)
  unfolding set_attr_text
  Stays-set_attr_text a v =
      Stays-connected (λ h. encoded_object api (some v) >>= set h)
        (λ h.
          Stays->>= (encoded_object api (some v)) (set h) (Stays-encoded_object (some v))
            (λ b. Stays-call (api.set_text a h b) (returns_none api)))
    where
      set : ℕ → List ℕ → C S Value
      set h b = odpi api (api.set_text a h b) >>= λ u. pure Value.none

  pub Stays-change_password : (old new : Value) → Stays (change_password api old new)
  unfolding change_password
  Stays-change_password old new = Stays-connected with_user (λ h w.
      Stays->>= (encoded_object api w.0.username) (with_old h) (Stays-encoded_object w.0.username)
        (λ user.
          Stays->>= (encoded_object api (some old)) (with_new h user)
            (Stays-encoded_object (some old))
            (λ b.
              Stays->>= (encoded_object api (some new)) (change h user b)
                (Stays-encoded_object (some new))
                (λ c. Stays-call (api.change_password h user b c) (returns_none api))))
        w)
    where
      change : ℕ → List ℕ → List ℕ → List ℕ → C S Value
      change h user b c = odpi api (api.change_password h user b c) >>= λ u. pure Value.none

      with_new : ℕ → List ℕ → List ℕ → C S Value
      with_new h user b = encoded_object api (some new) >>= change h user b

      with_old : ℕ → List ℕ → C S Value
      with_old h user = encoded_object api (some old) >>= with_new h user

      with_user : ℕ → C S Value
      with_user h = gets (λ w. w.0) >>= λ c. encoded_object api c.username >>= with_old h

  -- A value that is made without the state, and then used.
  Stays-lift :
      {A B : Type 0} (r : Result A) (f : A → C S B) → ((a : A) → Stays (f a)) → Stays (lift r >>= f)
  Stays-lift (ok a) f s = s a
  Stays-lift (err e) f s = λ w. (refl, refl)

  pub Stays-set_stmt_cache_size : (v : Value) → Stays (set_stmt_cache_size api v)
  unfolding set_stmt_cache_size
  Stays-set_stmt_cache_size v =
      Stays-connected (λ h. lift (cache_size_of api v) >>= set h)
        (λ h. Stays-lift (cache_size_of api v) (set h) (λ n.
          Stays->>= (odpi api (api.set_stmt_cache_size h n.0)) (λ u. late_error api n.1)
            (Stays-odpi (api.set_stmt_cache_size h n.0)) (λ u. late n.1)))
    where
      set : ℕ → ℕ × Option Error → C S Value
      set h n = odpi api (api.set_stmt_cache_size h n.0) >>= λ u. late_error api n.1

      late : (o : Option Error) → Stays (late_error api o)
      late none w = (refl, refl)
      late (some e) w = (refl, refl)

  pub Stays-set_call_timeout : (v : Value) → Stays (set_call_timeout api v)
  unfolding set_call_timeout
  Stays-set_call_timeout v =
      Stays-connected (λ h. lift (timeout_of api v) >>= set h)
        (λ h.
          Stays-lift (timeout_of api v) (set h)
            (λ n. Stays-call (api.set_call_timeout h n) (returns_none api)))
    where
      set : ℕ → ℕ → C S Value
      set h n = odpi api (api.set_call_timeout h n) >>= λ u. pure Value.none

  pub Stays-create_lob : (v : Value) → Stays (create_lob api v)
  unfolding create_lob
  Stays-create_lob (Value.db_type d) = Stays-connected make (λ h.
      elim (Bool-cases (is_temp_lob_type d)) [
        | inl e ↦ rw e (Stays-call (api.new_temp_lob h d) (Value.lob d))
        | inr e ↦ rw e (λ w. (refl, refl))
      ])
    where
      make : ℕ → C S Value
      make h =
          if is_temp_lob_type d
          then (odpi api (api.new_temp_lob h d) >>= λ l. pure (Value.lob d l))
          else raise Error.expecting_lob_type
  Stays-create_lob _ = Stays-connected (λ h. raise Error.expecting_lob_type) (λ h w. (refl, refl))

  pub Stays-startup :
      (force restrict : Bool) (pfile : Option Value) → Stays (startup api force restrict pfile)
  unfolding startup
  Stays-startup force restrict pfile =
      Stays->>= (encoded_object api pfile)
        (λ b. on_handle api (λ h. api.startup h b force restrict) (returns_none api))
        (Stays-encoded_object pfile)
        (λ b. Stays-on_handle (λ h. api.startup h b force restrict) (returns_none api))
