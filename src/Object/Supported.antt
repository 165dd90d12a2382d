-- ===== src/Object/Supported.antt =====
-- The object types that are made: their attributes and elements have a transform that the table of
-- transforms has a row for, so that neither getting nor setting reads behind the table.
use python_cx_oracle.Prelude.{ℕ, ◌≡◌, refl, false, Bool-cases, inl, inr, List, [], ◌∷◌, ◌++◌}
use python_cx_oracle.Error.{Result, ok, err, Ensures}
use python_cx_oracle.Action.{Action, pure, lift, ◌>>=◌, foreign}
use python_cx_oracle.Types.{TransformNum, DbType, Transform, get_type_info, db_type_from_transform}
use python_cx_oracle.Json.{same_text}
use python_cx_oracle.Var.{type_info}
use python_cx_oracle.Object.State.{ObjectAttr, ObjectType}
use python_cx_oracle.Object.Methods.{is_unsupported_type}
use python_cx_oracle.Object.Types.{set_attribute_named}

-- The transform is not the one that NotSupportedError is raised for, and the table has its row.
abbrev pub IsSupported : TransformNum → Type 0
IsSupported t = (is_unsupported_type t ≡ false) × (i : Transform) × (type_info t ≡ ok i)

abbrev pub AllNamed : List (List ℕ × ObjectAttr) → Type 0
AllNamed [] = Unit
AllNamed ((name, a) ∷ rest) = IsSupported a.transform_num × AllNamed rest

pub record HasSupported (t : ObjectType) : Type 0 where
  pub element : IsSupported t.element_transform_num
  pub attributes : AllNamed t.attributes_by_name

abbrev pub AllSupported : List ObjectType → Type 0
AllSupported [] = Unit
AllSupported (t ∷ ts) = HasSupported t × AllSupported ts

-- A transform with a database type has a row.
pub described-IsSupported :
    (t : TransformNum) (d : DbType) → db_type_from_transform t ≡ ok d → IsSupported t
unfolding db_type_from_transform get_type_info
described-IsSupported TransformNum.unsupported d h = cc
described-IsSupported _ d h = (refl, _, refl)

pub none-IsSupported : IsSupported TransformNum.none
unfolding get_type_info
none-IsSupported = (refl, _, refl)

pub set_attribute_named-AllNamed :
    (as' : List (List ℕ × ObjectAttr)) (name : List ℕ) (a : ObjectAttr)
    → AllNamed as'
    → IsSupported a.transform_num
    → AllNamed (set_attribute_named as' name a)
set_attribute_named-AllNamed [] name a h s = (s, tt)
set_attribute_named-AllNamed ((k, b) ∷ rest) name a h s = elim (Bool-cases (same_text k name)) [
  | inl e ↦ rw e (s, h.1)
  | inr e ↦ rw e (h.0, set_attribute_named-AllNamed rest name a h.1 s)
]

pub AllSupported-append :
    (ts : List ObjectType) (t : ObjectType)
    → AllSupported ts
    → HasSupported t
    → AllSupported (ts ++ (t ∷ []))
AllSupported-append [] t h s = (s, tt)
AllSupported-append (x ∷ ts) t h s = (h.0, AllSupported-append ts t h.1 s)

module _ {S : Type 0} where
  resume :
      {A B : Type 0}
      → (A → Action (List ObjectType × S) B)
      → Result A × (List ObjectType × S)
      → Result B × (List ObjectType × S)
  resume f r = elim r.0 [ ok a ↦ f a r.1 | err e ↦ (err e, r.1) ]

  -- Whether it succeeds or fails, the action keeps the types supported; its result has a property.
  abbrev pub Gives : {A : Type 0} → (A → Type 0) → Action (List ObjectType × S) A → Type 0
  Gives P m =
      (w : List ObjectType × S) → AllSupported w.0 → Ensures P (m w).0 × AllSupported (m w).1.0

  pub Gives->>= :
      {A B : Type 0} (P : A → Type 0) (Q : B → Type 0) (m : Action (List ObjectType × S) A)
      (f : A → Action (List ObjectType × S) B)
      → Gives P m
      → ((a : A) → P a → Gives Q (f a))
      → Gives Q (m >>= f)
  unfolding resume
  Gives->>= {A} {B} P Q m f g k w h = go (m w) (g w h)
    where
      go :
          (r : Result A × (List ObjectType × S))
          → Ensures P r.0 × AllSupported r.1.0
          → Ensures Q (resume f r).0 × AllSupported (resume f r).1.0
      go (ok a, v) q = k a q.0 v q.1
      go (err e, v) q = (tt, q.1)

  pub Gives-pure : {A : Type 0} (P : A → Type 0) (a : A) → P a → Gives P (pure a)
  Gives-pure P a p w h = (p, h)

  pub Gives-foreign : {A : Type 0} (m : Action S A) → Gives (λ a. Unit {0}) (foreign m)
  Gives-foreign {A} m w h = go (m w.1)
    where
      go : (r : Result A × S) → Ensures (λ a. Unit {0}) r.0 × AllSupported w.0
      go (ok a, v) = (tt, h)
      go (err e, v) = (tt, h)

  pub Gives-lift : {A : Type 0} (r : Result A) → Gives (λ a. r ≡ ok a) (lift r)
  Gives-lift (ok a) w h = (refl, h)
  Gives-lift (err e) w h = (tt, h)
