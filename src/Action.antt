-- ===== src/Action.antt =====
-- Calls that change state and may fail. The state comes back after an error too: what the C code has
-- written before it returns -1 or NULL stays written.
use python_cx_oracle.Prelude.{◌≡◌, ap, refl, sym}
use python_cx_oracle.Error.{Error, Result, ok, err}

abbrev pub Action : Type 0 → Type 0 → Type 0
Action W A = W → Result A × W

module _ {W : Type 0} where
  abbrev pub pure : {A : Type 0} → A → Action W A
  pure a w = (ok a, w)

  abbrev pub raise : {A : Type 0} → Error → Action W A
  raise e w = (err e, w)

  abbrev pub lift : {A : Type 0} → Result A → Action W A
  lift r w = (r, w)

  abbrev pub gets : {A : Type 0} → (W → A) → Action W A
  gets f w = (ok (f w), w)

  abbrev pub modify : (W → W) → Action W (Unit {0})
  modify f w = (ok tt, f w)

infixl 5 ◌>>=◌ ◌>>◌
abbrev pub ◌>>=◌ : {W A B : Type 0} → Action W A → (A → Action W B) → Action W B
◌>>=◌ m f w = let (r, v) = m w in elim r [ ok a ↦ f a v | err e ↦ (err e, v) ]

abbrev pub ◌>>◌ : {W A B : Type 0} → Action W A → Action W B → Action W B
m >> k = m >>= λ _. k

-- An action on the second part of the state.
abbrev pub foreign : {V W A : Type 0} → Action W A → Action (V × W) A
foreign m s = let (r, w) = m s.1 in (r, (s.0, w))

-- A change of the first part.
abbrev pub update : {V W : Type 0} → (V → V) → Action (V × W) (Unit {0})
update f s = (ok tt, (f s.0, s.1))

-- A chain whose first action succeeds goes on in the state that it leaves.
pub >>=-ok :
    {W A B : Type 0} (m : Action W A) (f : A → Action W B) {w v : W} {a : A}
    → m w ≡ (ok a, v)
    → (m >>= f) w ≡ f a v
>>=-ok m f e = ap (λ p. elim p.0 [ ok a ↦ f a p.1 | err e ↦ (err e, p.1) ]) e

-- A chain whose first action fails fails with that error.
pub >>=-err :
    {W A B : Type 0} (m : Action W A) (f : A → Action W B) {w v : W} {e : Error}
    → m w ≡ (err e, v)
    → (m >>= f) w ≡ (err e, v)
>>=-err m f h = ap (λ p. elim p.0 [ ok a ↦ f a p.1 | err e ↦ (err e, p.1) ]) h

pub foreign-ok :
    {V W A : Type 0} (m : Action W A) {u : V} {w v : W} {a : A}
    → m w ≡ (ok a, v)
    → foreign m (u, w) ≡ (ok a, (u, v))
foreign-ok m e = rw e

pub foreign-err :
    {V W A : Type 0} (m : Action W A) {u : V} {w v : W} {e : Error}
    → m w ≡ (err e, v)
    → foreign m (u, w) ≡ (err e, (u, v))
foreign-err m h = rw h

-- A chain that succeeds has a first action that succeeds.
pub >>=-inv :
    {W A B : Type 0} (m : Action W A) (f : A → Action W B) (w v : W) (b : B)
    → (m >>= f) w ≡ (ok b, v)
    → (a : A) × (u : W) × (m w ≡ (ok a, u)) × (f a u ≡ (ok b, v))
>>=-inv {W} {A} {B} m f w v b h = go (m w) refl h
  where
    go :
        (p : Result A × W)
        → m w ≡ p
        → Path (Result B × W) (elim p.0 [ ok a ↦ f a p.1 | err e ↦ (err e, p.1) ]) (ok b, v)
        → (a : A) × (u : W) × (m w ≡ (ok a, u)) × (f a u ≡ (ok b, v))
    go (ok a, u) e g = (a, u, e, g)
    go (err x, u) e g = cc

-- An action on the second part leaves the first part alone.
pub foreign-inv :
    {V W A : Type 0} (m : Action W A) (p : V) (w : W) (a : A) (x : V × W)
    → foreign m (p, w) ≡ (ok a, x)
    → (m w ≡ (ok a, x.1)) × (x.0 ≡ p)
foreign-inv m p w a x e = (ap (λ r. (r.0, r.1.1)) e, ap (λ r. r.1.0) (sym e))
