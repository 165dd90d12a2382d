-- ===== src/Call/Fits.antt =====
-- The buffer that cxoCursor_call allocates against what cxoCursor_callBuildStatement writes to it.
use python_cx_oracle.Prelude.{
  ℕ, zero, suc, ◌+◌, ◌*◌, ◌/◌, ◌%◌, ◌≤◌, ◌<◌, ◌≡◌, refl, Bool, not, ◌&&◌, ◌||◌, List, [], ◌∷◌,
  arith, length, length-append, ltb, le→ltb, if◌then◌else◌, Bool-cases, inl, inr,
}
use python_cx_oracle.Error.{ok}
use python_cx_oracle.Py.{Value, is_bool}
use python_cx_oracle.Call.Statement.{
  print_digits, decimal, Arguments, return_count, call_calculate_size, bool_suffix, put_positional,
  put_keyword, statement,
}

-- The bound 10 ^ k is spelled out, since omega reads numerals.
abbrev pub Below : ℕ → ℕ → Type 0
Below zero n = n < 1
Below (suc k) n = Below k (n / 10)

print_digits_bound :
    (fuel n k : ℕ) (acc : List ℕ)
    → Below k n
    → length (print_digits fuel n acc) ≤ length acc + k + 1
unfolding print_digits
print_digits_bound zero n k acc h = omega arith
print_digits_bound (suc fuel) n zero acc h = ground arith
print_digits_bound (suc fuel) n (suc k) acc h =
    ground (arith, print_digits_bound fuel (n / 10) k ((48 + n % 10) ∷ acc) h)

-- A number above 0 and below 10 ^ k has k digits at most.
print_digits-le :
    (fuel n k : ℕ) (acc : List ℕ)
    → 0 < n
    → Below k n
    → length (print_digits fuel n acc) ≤ length acc + k
unfolding print_digits
print_digits-le zero n k acc p h = omega arith
print_digits-le (suc fuel) n zero acc p h = absurd (omega arith)
print_digits-le (suc fuel) n (suc k) acc p h =
    ground (arith, print_digits-le fuel (n / 10) k ((48 + n % 10) ∷ acc))

decimal-le5 : (n : ℕ) → 0 < n → n < 100000 → length (decimal n) ≤ 5
unfolding decimal
decimal-le5 n p h = omega (arith, print_digits-le (suc n) n 5 [] p (omega arith))

decimal-le3 : (n : ℕ) → 0 < n → n < 1000 → length (decimal n) ≤ 3
unfolding decimal
decimal-le3 n p h = omega (arith, print_digits-le (suc n) n 3 [] p (omega arith))

-- The length of one round of each loop.
pub length-put_positional :
    (version i a : ℕ) (v : Value) (vs : List Value)
    → length (put_positional version i a (v ∷ vs))
      ≡ (if ltb 0 i then 1 else 0)
        + (1
            + (length (decimal a)
                + (length (bool_suffix version v)
                    + length (put_positional version (i + 1) (a + 1) vs))))
unfolding put_positional
length-put_positional version i a v vs = simp length-append (ground arith)

length-put_keyword :
    (version : ℕ) (returns : Bool) (a : ℕ) (k v : Value) (kvs : List (Value × Value))
    → length (put_keyword version returns a ((k, v) ∷ kvs))
      ≡ (if (ltb 1 a && not returns) || (ltb 2 a && returns) then 1 else 0)
        + (7
            + (length (decimal a)
                + (length (bool_suffix version v)
                    + length (put_keyword version returns (a + 1) kvs))))
unfolding put_keyword
length-put_keyword version returns a k v kvs = simp length-append (ground arith)

bool_suffix_new : (version : ℕ) (v : Value) → 12 ≤ version → length (bool_suffix version v) ≡ 0
bool_suffix_new version v h = rw (le→ltb version 12 h) refl

bool_suffix-le4 : (version : ℕ) (v : Value) → length (bool_suffix version v) ≤ 4
bool_suffix-le4 version v = elim (Bool-cases (ltb version 12 && is_bool v)) [
  | inl e ↦ rw e (omega arith)
  | inr e ↦ rw e (omega arith)
]

put_positional_new :
    (version i a : ℕ) (vs : List Value)
    → 12 ≤ version
    → 0 < a
    → a + length vs < 100000
    → length (put_positional version i a vs) ≤ length vs * 9
unfolding put_positional
put_positional_new version i a [] w p h = omega arith
put_positional_new version i a (v ∷ vs) w p h = ground (
  arith,
  length-put_positional version i a v vs,
  bool_suffix_new version v w,
  decimal-le5 a p,
  put_positional_new version (i + 1) (a + 1) vs w,
)

put_keyword_new :
    (version : ℕ) (returns : Bool) (a : ℕ) (kvs : List (Value × Value))
    → 12 ≤ version
    → 0 < a
    → a + length kvs < 100000
    → length (put_keyword version returns a kvs) ≤ length kvs * 15
unfolding put_keyword
put_keyword_new version returns a [] w p h = omega arith
put_keyword_new version returns a ((k, v) ∷ kvs) w p h = ground (
  arith,
  length-put_keyword version returns a k v kvs,
  bool_suffix_new version v w,
  decimal-le5 a p,
  put_keyword_new version returns (a + 1) kvs w,
)

put_positional_few :
    (version i a : ℕ) (vs : List Value)
    → 0 < a
    → a + length vs ≤ 1000
    → length (put_positional version i a vs) ≤ length vs * 9
unfolding put_positional
put_positional_few version i a [] p h = omega arith
put_positional_few version i a (v ∷ vs) p h = ground (
  arith,
  length-put_positional version i a v vs,
  bool_suffix-le4 version v,
  decimal-le3 a p,
  put_positional_few version (i + 1) (a + 1) vs,
)

put_keyword_few :
    (version : ℕ) (returns : Bool) (a : ℕ) (kvs : List (Value × Value))
    → 0 < a
    → a + length kvs ≤ 1000
    → length (put_keyword version returns a kvs) ≤ length kvs * 15
unfolding put_keyword
put_keyword_few version returns a [] p h = omega arith
put_keyword_few version returns a ((k, v) ∷ kvs) p h = ground (
  arith,
  length-put_keyword version returns a k v kvs,
  bool_suffix-le4 version v,
  decimal-le3 a p,
  put_keyword_few version returns (a + 1) kvs,
)

pub length-statement :
    (version : ℕ) (args : Arguments)
    → length (statement version args) + 1
      ≡ 17
        + (if args.returns then 6 else 0)
        + length (put_positional version 0 (1 + return_count args.returns) args.positional)
        + length (
            put_keyword version args.returns
              (1 + return_count args.returns + length args.positional)
              args.keyword)
unfolding statement
length-statement version args = simp length-append (ground arith)

-- With Oracle Client 12 or later the statement and its final NUL fit into the buffer of the size
-- that was calculated, for every list of arguments that is accepted.
pub statement_fits :
    (version : ℕ) (args : Arguments) (size : ℕ)
    → 12 ≤ version
    → call_calculate_size args ≡ ok size
    → length (statement version args) + 1 ≤ size
unfolding call_calculate_size
statement_fits version args size w e = ground (
  arith,
  length-statement version args,
  put_positional_new version 0 (1 + return_count args.returns) args.positional w,
  put_keyword_new version args.returns (1 + return_count args.returns + length args.positional)
      args.keyword w,
)

-- With any client it fits if no placeholder has more than three digits.
pub statement_fits_few :
    (version : ℕ) (args : Arguments) (size : ℕ)
    → return_count args.returns + length args.positional + length args.keyword ≤ 999
    → call_calculate_size args ≡ ok size
    → length (statement version args) + 1 ≤ size
unfolding call_calculate_size
statement_fits_few version args size few e = ground (
  arith,
  length-statement version args,
  put_positional_few version 0 (1 + return_count args.returns) args.positional,
  put_keyword_few version args.returns (1 + return_count args.returns + length args.positional)
      args.keyword,
)
