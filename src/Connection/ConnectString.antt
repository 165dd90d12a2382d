-- ===== src/Connection/ConnectString.antt =====
-- The parts of a connect string come back from it.
use python_cx_oracle.Prelude.{
  ℕ, suc, ◌≡◌, refl, ap, ◌∙◌, false, ◌==◌, ==_iff, Option, none, some, List, [], ◌∷◌, ◌++◌, length,
  take-middle, drop-middle, if◌then◌else◌,
}
use python_cx_oracle.Error.{Result, ok, ◌>>=◌}
use python_cx_oracle.Py.{Value}
use python_cx_oracle.Connection.Credentials.{
  find, rfind, split_at, split_component, slash, at_sign, with_password, after_slash,
  parse_credentials,
}

-- The character does not occur.
abbrev pub Without : ℕ → List ℕ → Type 0
Without c [] = Unit
Without c (x ∷ xs) = ((x == c) ≡ false) × Without c xs

abbrev shifted : Option ℕ → Option ℕ
shifted o = elim o [ some n ↦ some (suc n) | none ↦ none ]

find-absent : (c : ℕ) (xs : List ℕ) → Without c xs → find c xs ≡ none
unfolding find
find-absent c [] h = refl
find-absent c (x ∷ xs) h = rw (h.0) (ap shifted (find-absent c xs h.1))

find-first : (c : ℕ) (xs ys : List ℕ) → Without c xs → find c (xs ++ (c ∷ ys)) ≡ some (length xs)
unfolding find
find-first c [] ys h = rw ((==_iff c c).1 refl) refl
find-first c (x ∷ xs) ys h = rw (h.0) (ap shifted (find-first c xs ys h.1))

abbrev later : ℕ → ℕ → Option ℕ → Option ℕ
later x c o = elim o [ some n ↦ some (suc n) | none ↦ if x == c then some 0 else none ]

rfind-absent : (c : ℕ) (xs : List ℕ) → Without c xs → rfind c xs ≡ none
unfolding rfind
rfind-absent c [] h = refl
rfind-absent c (x ∷ xs) h = ap (later x c) (rfind-absent c xs h.1) ∙ rw (h.0) refl

rfind-last : (c : ℕ) (xs ys : List ℕ) → Without c ys → rfind c (xs ++ (c ∷ ys)) ≡ some (length xs)
unfolding rfind
rfind-last c [] ys h = ap (later c c) (rfind-absent c ys h) ∙ rw ((==_iff c c).1 refl) refl
rfind-last c (x ∷ xs) ys h = ap (later x c) (rfind-last c xs ys h)

split-middle :
    (xs ys : List ℕ) (c : ℕ) → split_at (xs ++ (c ∷ ys)) (some (length xs)) ≡ some (xs, ys)
split-middle xs ys c = λ i. some (take-middle xs c ys i, drop-middle xs c ys i)

abbrev as_values : Option (List ℕ × List ℕ) → Result (Option (Value × Value))
as_values o = ok (elim o [ none ↦ none | some p ↦ some (Value.str p.0, Value.str p.1) ])

split_found :
    (position : List ℕ → Option ℕ) (xs ys : List ℕ) (c : ℕ)
    → position (xs ++ (c ∷ ys)) ≡ some (length xs)
    → split_component position (Value.str (xs ++ (c ∷ ys))) ≡ ok (some (Value.str xs, Value.str ys))
unfolding split_component
split_found position xs ys c h =
    ap (λ o. as_values (split_at (xs ++ (c ∷ ys)) o)) h ∙ ap as_values (split-middle xs ys c)

split_missing :
    (position : List ℕ → Option ℕ) (xs : List ℕ)
    → position xs ≡ none
    → split_component position (Value.str xs) ≡ ok none
unfolding split_component
split_missing position xs h = ap (λ o. as_values (split_at xs o)) h

-- Where only a user name is given, a text of the form user/password@dsn is taken apart into the
-- three, if the user has no slash and the connect string no @; the password may have either. A text
-- of the form user/plain without an @ behind the slash gives these two, and one without a slash the
-- user alone. Where a password, a connect string or both are given, or no user name is, nothing is
-- taken apart.
pub parse_credentials_lem :
    (user password dsn plain : List ℕ) (v p q : Value) (given other : Option Value)
    → Without slash user
    → Without at_sign dsn
    → Without at_sign plain
    → (parse_credentials
          (some (Value.str (user ++ (slash ∷ (password ++ (at_sign ∷ dsn))))))
          none
          none
        ≡ ok (record {
          username = some (Value.str user);
          password = some (Value.str password);
          dsn = some (Value.str dsn);
        }))
      × (parse_credentials (some (Value.str (user ++ (slash ∷ plain)))) none none
          ≡ ok (record {
            username = some (Value.str user);
            password = some (Value.str plain);
            dsn = none;
          }))
      × (parse_credentials (some (Value.str user)) none none
          ≡ ok (record { username = some (Value.str user); password = none; dsn = none }))
      × (parse_credentials (some v) (some p) none
          ≡ ok (record { username = some v; password = some p; dsn = none }))
      × (parse_credentials (some v) none (some q)
          ≡ ok (record { username = some v; password = none; dsn = some q }))
      × (parse_credentials (some v) (some p) (some q)
          ≡ ok (record { username = some v; password = some p; dsn = some q }))
      × (parse_credentials none given other
          ≡ ok (record { username = none; password = given; dsn = other }))
unfolding parse_credentials
parse_credentials_lem user password dsn plain v p q given other h d f = (
  ap (λ r. r >>= after_slash connect_string)
        (split_found (find slash) user (password ++ (at_sign ∷ dsn)) slash
          (find-first slash user (password ++ (at_sign ∷ dsn)) h))
      ∙ ap
          (λ r. r >>= λ q.
            ok (with_password (Value.str user) (Value.str (password ++ (at_sign ∷ dsn))) q))
          (split_found (rfind at_sign) password dsn at_sign (rfind-last at_sign password dsn d)),
  ap (λ r. r >>= after_slash (Value.str (user ++ (slash ∷ plain))))
        (split_found (find slash) user plain slash (find-first slash user plain h))
      ∙ ap (λ r. r >>= λ q. ok (with_password (Value.str user) (Value.str plain) q))
          (split_missing (rfind at_sign) plain (rfind-absent at_sign plain f)),
  ap (λ r. r >>= after_slash (Value.str user))
      (split_missing (find slash) user (find-absent slash user h)),
  refl,
  refl,
  refl,
  refl,
)
  where
    connect_string : Value
    connect_string = Value.str (user ++ (slash ∷ (password ++ (at_sign ∷ dsn))))
