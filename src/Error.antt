-- ===== src/Error.antt =====
-- Errors as values. The C code returns NULL or -1 with a Python exception set; here a call returns
-- `err` with that exception. Each constructor is one `PyErr_SetString`, `cxoError_raiseFromString`
-- or failing foreign call.
use python_cx_oracle.Prelude.{ℕ, ◌≡◌, ◌⊎◌, inl, inr, refl, subst}

pub data Error : Type 0 where
  -- raised by the Python runtime or by a callback, and passed on
  python : ℕ → Error
  -- `cxoError_raiseAndReturnInt`, `cxoError_raiseAndReturnNull`: the error of an ODPI-C call
  database : Error
  -- a read of another member of a union than the one that was set, or out of bounds: undefined in C
  undefined : Error
  expecting_string_or_bytes expecting_number expecting_number_or_boolean expecting_float : Error
  expecting_date expecting_timedelta expecting_object expecting_cursor expecting_type : Error
  expecting_array expecting_input_variable expecting_output_variable : Error
  wrong_lob_type array_size_exceeded output_variable_too_small : Error
  value_not_convertible type_not_supported value_not_supported : Error
  element_not_supported element_type_differs : ℕ → Error
  transform_not_supported oracle_type_not_supported : Error
  array_of_arrays bad_array_type binds_intermixed no_statement : Error
  not_open not_connected not_a_query too_many_arguments : Error
  arguments_not_sequence keywords_not_dict expecting_rows : Error
  rows_exceed_array_size bad_scroll_mode : Error
  message_without_payload expecting_messages no_memory : Error
  size_specified_twice expecting_integer expecting_lob_type expecting_context_tuples : Error
  expecting_sequence expecting_boolean : Error
  keyword_parameters_twice arguments_and_keywords : Error
  -- NULL is returned and no exception is set
  no_exception : Error

-- What a call returns: the exception that it has raised, or a value.
pub data Result {u} (A : Type u) : Type u where
  err : (e : Error) → Result A
  ok : (a : A) → Result A

-- The next call is made only if the first has not failed.
infixl 5 ◌>>=◌
abbrev pub ◌>>=◌ {u v} : {A : Type u} {B : Type v} → Result A → (A → Result B) → Result B
m >>= f = elim m [ err e ↦ err e | ok a ↦ f a ]

-- A chain that succeeds has a first call that succeeds.
pub >>=-inv {u v} :
    {A : Type u} {B : Type v} (m : Result A) (f : A → Result B) {y : B}
    → (m >>= f) ≡ ok y
    → (x : A) × (m ≡ ok x) × (f x ≡ ok y)
>>=-inv (err e) f h = cc
>>=-inv (ok x) f h = (x, refl, h)

infixl 5 ◌>>◌
abbrev pub ◌>>◌ {v} : {B : Type v} → Result (Unit {0}) → Result B → Result B
m >> k = elim m [ err e ↦ err e | ok u ↦ k ]

-- A split on the outcome of a call.
pub Result-cases {u} :
    {A : Type u} (m : Result A) → ((x : A) × (m ≡ ok x)) ⊎ ((e : Error) × (m ≡ err e))
Result-cases (err e) = inr (e, refl)
Result-cases (ok x) = inl (x, refl)

-- The result has a property, if there is one.
abbrev pub Ensures {ℓ κ} : {A : Type ℓ} → (A → Type κ) → Result A → Type κ
Ensures P (ok a) = P a
Ensures P (err e) = Unit

pub Ensures->>= {ℓ κ μ} :
    {A : Type ℓ} {B : Type κ} (P : B → Type μ) (m : Result A) (f : A → Result B)
    → ((a : A) → Ensures P (f a))
    → Ensures P (m >>= f)
Ensures->>= P (ok a) f h = h a
Ensures->>= P (err e) f h = tt

pub Ensures-ok {ℓ κ} :
    {A : Type ℓ} (P : A → Type κ) (m : Result A) (a : A) → Ensures P m → m ≡ ok a → P a
Ensures-ok P m a h e = subst (λ r. Ensures P r) e h

-- The same, where what the first result satisfies is needed for the rest.
pub Ensures-then {ℓ κ μ ν} :
    {A : Type ℓ} {B : Type κ} (P : A → Type μ) (Q : B → Type ν) (m : Result A) (f : A → Result B)
    → Ensures P m
    → ((a : A) → P a → Ensures Q (f a))
    → Ensures Q (m >>= f)
Ensures-then P Q (ok a) f p h = h a p
Ensures-then P Q (err e) f p h = tt
