-- ===== src/Connection/Credentials.antt =====
-- The user name, the password and the connect string: what cxoConnection_init makes of one argument
-- of the form user/password@dsn.
use python_cx_oracle.Prelude.{
  ℕ, suc, ◌==◌, Option, none, some, List, [], ◌∷◌, take, drop, if◌then◌else◌,
}
use python_cx_oracle.Error.{Error, Result, ok, err, ◌>>=◌}
use python_cx_oracle.Py.{Value}

-- The method `find`: the first position of a character.
unfoldable pub find : ℕ → List ℕ → Option ℕ
find c [] = none
find c (x ∷ xs) =
    let rest = find c xs in
    if x == c then some 0 else elim rest [ some n ↦ some (suc n) | none ↦ none ]

-- The method `rfind`: the last one.
unfoldable pub rfind : ℕ → List ℕ → Option ℕ
rfind c [] = none
rfind c (x ∷ xs) =
    let rest = rfind c xs in
    elim rest [ some n ↦ some (suc n) | none ↦ if x == c then some 0 else none ]

abbrev pub split_at : List ℕ → Option ℕ → Option (List ℕ × List ℕ)
split_at s none = none
split_at s (some n) = some (take n s, drop (suc n) s)

-- Python's error for an object without such a method, or with another one.
abbrev pub method_error : Error
method_error = Error.python 7

-- cxoConnection_splitComponent: none where the character is not found.
unfoldable pub split_component : (List ℕ → Option ℕ) → Value → Result (Option (Value × Value))
split_component position (Value.str s) =
    ok (elim (split_at s (position s)) [
      | none ↦ none
      | some p ↦ some (Value.str p.0, Value.str p.1)
    ])
split_component position v = err method_error

-- The arguments that may be given; one that is not is NULL.
pub record Credentials : Type 0 where
  pub username : Option Value
  pub password : Option Value
  pub dsn : Option Value

abbrev pub slash : ℕ
slash = 47

abbrev pub at_sign : ℕ
at_sign = 64

abbrev pub with_password : Value → Value → Option (Value × Value) → Credentials
with_password user password none = record {
  username = some user;
  password = some password;
  dsn = none;
}
with_password user password (some p) = record {
  username = some user;
  password = some p.0;
  dsn = some p.1;
}

abbrev pub after_slash : Value → Option (Value × Value) → Result Credentials
after_slash user none = ok (record { username = some user; password = none; dsn = none })
after_slash user (some p) =
    split_component (rfind at_sign) p.1 >>= λ q. ok (with_password p.0 p.1 q)

-- The parsing in cxoConnection_init, which takes place if only a user name is given.
unfoldable pub parse_credentials : Option Value → Option Value → Option Value → Result Credentials
unfolding split_component find rfind
parse_credentials (some user) none none = split_component (find slash) user >>= after_slash user
parse_credentials username password dsn =
    ok (record { username = username; password = password; dsn = dsn })
