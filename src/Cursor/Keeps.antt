-- ===== src/Cursor/Keeps.antt =====
-- What the actions of a cursor leave as it is: a lemma for each way in which they are put together.
use python_cx_oracle.Prelude.{◌≡◌, refl, ◌∙◌, Bool, true, false, if◌then◌else◌}
use python_cx_oracle.Error.{Result, ok, err}
use python_cx_oracle.Action.{Action, ◌>>=◌, ◌>>◌, foreign}
use python_cx_oracle.Cursor.{Cursor, Driver, M, is_open}

module _ {S : Type 0} (d : Driver S) {A : Type 0} (part : Cursor → A) where
  -- A part of the cursor is what it was, whether the action succeeds or fails.
  abbrev pub Keeps : {B : Type 0} → M d B → Type 0
  Keeps m = (w : Cursor × S) → part (m w).1.0 ≡ part w.0

  pub Keeps->>= :
      {B C : Type 0} (m : M d B) (f : B → M d C)
      → Keeps m
      → ((b : B) → Keeps (f b))
      → Keeps (m >>= f)
  Keeps->>= {B} {C} m f k l w = go (m w) (k w)
    where
      resume : Result B × (Cursor × S) → Result C × (Cursor × S)
      resume r = elim r.0 [ ok b ↦ f b r.1 | err e ↦ (err e, r.1) ]

      go : (r : Result B × (Cursor × S)) → part r.1.0 ≡ part w.0 → part (resume r).1.0 ≡ part w.0
      go (ok b, v) h = l b v ∙ h
      go (err e, v) h = h

  pub Keeps->> : {B C : Type 0} (m : M d B) (k : M d C) → Keeps m → Keeps k → Keeps (m >> k)
  Keeps->> m k h l = Keeps->>= m (λ _. k) h (λ _. l)

  pub Keeps-if :
      {B : Type 0} (b : Bool) (m k : M d B) → Keeps m → Keeps k → Keeps (if b then m else k)
  Keeps-if true m k h l = h
  Keeps-if false m k h l = l

  pub Keeps-foreign : {B : Type 0} (m : Action S B) → Keeps (foreign m)
  Keeps-foreign m w = refl

  pub Keeps-is_open : Keeps (is_open d)
  unfolding is_open
  Keeps-is_open w =
      Keeps-if w.0.is_open (foreign d.is_connected) _ (Keeps-foreign d.is_connected) (λ v. refl) w
