-- ===== src/Queue/Handles.antt =====
-- Messages made of handles, and what the cleanup releases.
use mathlib.Core.List.{append-nil, append_assoc}
use python_cx_oracle.Prelude.{
  ℕ, suc, ◌≡◌, refl, sym, ap, ◌∙◌, subst, none, some, List, [], ◌∷◌, ◌++◌, map, length, drop,
  take-middle, drop-middle,
}
use python_cx_oracle.Error.{Result, ok, err}
use python_cx_oracle.Action.{
  pure, ◌>>=◌, ◌>>◌, foreign, >>=-ok, >>=-err, >>=-inv, foreign-ok, foreign-err,
}
use python_cx_oracle.Py.{Value}
use python_cx_oracle.Queue.State.{
  MsgProps, Queue, QueueApi, Entry, as_handle, as_props, Q, release, on_error, on_error-ok,
  on_error-err,
}
use python_cx_oracle.Queue.Deq.{
  drop_props, release_handles, cleanup, props_new, payload_of, filled_with, get_payload, message,
}

abbrev pub handle_of : MsgProps → ℕ
handle_of p = p.handle

abbrev pub HasPayload : MsgProps → Type 0
HasPayload p = (v : Value) × (p.payload ≡ some v)

abbrev pub AllFilled : List MsgProps → Type 0
AllFilled [] = Unit
AllFilled (p ∷ ps) = HasPayload p × AllFilled ps

-- Messages for the handles before a position, and the handles from there on.
abbrev pub half_done : List MsgProps → List ℕ → List Entry
half_done ps hs = map as_props ps ++ map as_handle hs

pub half_done-step :
    (ps : List MsgProps) (p : MsgProps) (hs : List ℕ)
    → map as_props ps ++ (as_props p ∷ map as_handle hs) ≡ half_done (ps ++ (p ∷ [])) hs
half_done-step [] p hs = refl
half_done-step (r ∷ ps) p hs = λ i. as_props r ∷ half_done-step ps p hs i

pub handles-step :
    (ps : List MsgProps) (p : MsgProps) (hs : List ℕ)
    → map handle_of ps ++ (p.handle ∷ hs) ≡ map handle_of (ps ++ (p ∷ [])) ++ hs
handles-step [] p hs = refl
handles-step (r ∷ ps) p hs = λ i. r.handle ∷ handles-step ps p hs i

pub length-step :
    (ps : List MsgProps) (p : MsgProps)
    → suc (length (map as_props ps)) ≡ length (map as_props (ps ++ (p ∷ [])))
length-step [] p = refl
length-step (r ∷ ps) p = ap suc (length-step ps p)

pub AllFilled-append :
    (ps : List MsgProps) (p : MsgProps) → AllFilled ps → HasPayload p → AllFilled (ps ++ (p ∷ []))
AllFilled-append [] p f h = (h, tt)
AllFilled-append (r ∷ ps) p f h = (f.0, AllFilled-append ps p f.1 h)

module _ {S : Type 0} where
  drop_props-all :
      (ps : List MsgProps) (rel : List ℕ) (s : S)
      → drop_props (map as_props ps) (rel, s) ≡ (ok tt, (rel ++ map handle_of ps, s))
  unfolding drop_props
  drop_props-all [] rel s = λ i. (ok tt, (sym (append-nil rel) i, s))
  drop_props-all (p ∷ ps) rel s = drop_props-all ps (rel ++ (p.handle ∷ [])) s ∙ λ i.
      (ok tt, (append_assoc rel (p.handle ∷ []) (map handle_of ps) i, s))

  release_handles-all :
      (hs rel : List ℕ) (s : S)
      → release_handles (map as_handle hs) (rel, s) ≡ (ok tt, (rel ++ hs, s))
  unfolding release_handles
  release_handles-all [] rel s = λ i. (ok tt, (sym (append-nil rel) i, s))
  release_handles-all (h ∷ hs) rel s =
      release_handles-all hs (rel ++ (h ∷ [])) s ∙ λ i. (ok tt, (append_assoc rel (h ∷ []) hs i, s))

  -- The cleanup at a position releases all handles but the one there.
  pub cleanup-half :
      (ps : List MsgProps) (h : ℕ) (hs rel : List ℕ) (s : S)
      → cleanup (half_done ps (h ∷ hs)) (length (map as_props ps)) (rel, s)
        ≡ (ok tt, (rel ++ map handle_of ps ++ hs, s))
  unfolding cleanup
  cleanup-half ps h hs rel s =
      let xs = map as_props ps in
      let ys = map as_handle hs in
      ap
        (λ t.
          (drop_props t >> release_handles (drop (suc (length xs)) (half_done ps (h ∷ hs))))
            (rel, s))
        (take-middle xs (as_handle h) ys)
      ∙ ap (λ t. (drop_props xs >> release_handles t) (rel, s)) (drop-middle xs (as_handle h) ys)
      ∙ >>=-ok (drop_props xs) (λ u. release_handles ys) (drop_props-all ps rel s)
      ∙ release_handles-all hs (rel ++ map handle_of ps) s

module _ {S : Type 0} (api : QueueApi S) (q : Queue) where
  -- What making a message of a handle leaves: the handle is in the message, or has been released.
  abbrev pub Made : ℕ → List ℕ → Result MsgProps × (List ℕ × S) → Type 0
  Made h rel (ok p, w) = (p.handle ≡ h) × HasPayload p × (w.0 ≡ rel)
  Made h rel (err e, w) = w.0 ≡ rel ++ (h ∷ [])

  abbrev new_props : ℕ → MsgProps
  new_props h = record { handle = h; payload = none; encoding = q.encoding }

  get_payload-filled :
      (p r : MsgProps) (s t : S)
      → get_payload api q p s ≡ (ok r, t)
      → (v : Value) × (r ≡ filled_with api p v)
  unfolding get_payload
  get_payload-filled p r s t e =
      let (v, u, f, g) =
        >>=-inv (api.get_payload p.handle >>= payload_of api q) (λ v. pure (filled_with api p v)) s
          t r e in
      (v, ap (λ x. elim x.0 [ ok y ↦ y | err z ↦ r ]) (sym g))

  pub message-Made : (h : ℕ) (rel : List ℕ) (s : S) → Made h rel (message api q h (rel, s))
  unfolding message props_new
  message-Made h rel s = allocated (api.alloc_props s) refl
    where
      fill : MsgProps → Q S MsgProps
      fill p = on_error (foreign (get_payload api q p)) (release p.handle)

      by_payload :
          (t : S) (r : Result MsgProps × S)
          → get_payload api q (new_props h) t ≡ r
          → Made h rel (fill (new_props h) (rel, t))
      by_payload t (ok p, u) e =
          let (v, f) = get_payload-filled (new_props h) p t u e in
          subst (Made h rel)
            (sym (
              on_error-ok (foreign (get_payload api q (new_props h))) (release h)
                (foreign-ok (get_payload api q (new_props h)) e)))
            (ap handle_of f, (v, ap (λ r. r.payload) f), refl)
      by_payload t (err x, u) e =
          subst (Made h rel)
            (sym (
              on_error-err (foreign (get_payload api q (new_props h))) (release h)
                (foreign-err (get_payload api q (new_props h)) e) refl))
            refl

      allocated :
          (r : Result (Unit {0}) × S)
          → api.alloc_props s ≡ r
          → Made h rel (message api q h (rel, s))
      allocated (ok u, t) e =
          subst (Made h rel)
            (sym (
              >>=-ok (props_new api q h) fill (
                >>=-ok (on_error (foreign api.alloc_props) (release h)) (λ u. pure (new_props h))
                  (on_error-ok (foreign api.alloc_props) (release h)
                    (foreign-ok api.alloc_props e)))))
            (by_payload t (get_payload api q (new_props h) t) refl)
      allocated (err x, t) e =
          subst (Made h rel)
            (sym (
              >>=-err (props_new api q h) fill (
                >>=-err (on_error (foreign api.alloc_props) (release h)) (λ u. pure (new_props h))
                  (on_error-err (foreign api.alloc_props) (release h)
                    (foreign-err api.alloc_props e) refl))))
            refl
