-- ===== src/Call/Overflow.antt =====
-- Where the buffer of cxoCursor_call is too small: many Boolean arguments and a client before 12.
use native.Mathlib.Decide.{dec_lt}
use python_cx_oracle.Prelude.{
  ℕ, zero, suc, ◌+◌, ◌-◌, ◌*◌, ◌/◌, ◌%◌, ◌≤◌, ◌<◌, ◌≡◌, refl, Bool, false, List, [], ◌∷◌, arith,
  length, lt→ltb, le→ltb, ap, if◌then◌else◌, map,
}
use python_cx_oracle.Error.{ok}
use python_cx_oracle.Py.{Value}
use python_cx_oracle.Call.Statement.{
  print_digits, decimal, Arguments, call_calculate_size, bool_suffix, put_positional, statement,
}
use python_cx_oracle.Call.Fits.{length-put_positional, length-statement}

-- n has more than k digits.
abbrev Above : ℕ → ℕ → Type 0
Above zero n = Unit {0}
Above (suc k) n = (10 ≤ n) × Above k (n / 10)

print_digits-ge :
    (k fuel n : ℕ) (acc : List ℕ)
    → k < fuel
    → Above k n
    → length acc + k + 1 ≤ length (print_digits fuel n acc)
unfolding print_digits
print_digits-ge k zero n acc f h = absurd (omega arith)
print_digits-ge zero (suc zero) n acc f h = ground arith
print_digits-ge zero (suc (suc fuel)) n acc f h =
    ground (arith, print_digits-ge zero (suc fuel) (n / 10) ((48 + n % 10) ∷ acc))
print_digits-ge (suc k) (suc fuel) n acc f h =
    ground (arith, print_digits-ge k fuel (n / 10) ((48 + n % 10) ∷ acc))

-- The digits that the numbers from `a` on have fewer than four each.
abbrev shortfall : ℕ → ℕ
shortfall a = (10 - a) + (100 - a) + (1000 - a)

decimal-shortfall : (n : ℕ) → 4 + shortfall (n + 1) ≤ length (decimal n) + shortfall n
unfolding decimal
decimal-shortfall n = by_size (dec_lt n 10) (dec_lt n 100) (dec_lt n 1000)
  where
    grown : (k : ℕ) → k < suc n → Above k n → k + 1 ≤ length (print_digits (suc n) n [])
    grown k f h = omega (arith, print_digits-ge k (suc n) n [] f h)

    by_size :
        Dec (n < 10)
        → Dec (n < 100)
        → Dec (n < 1000)
        → 4 + shortfall (n + 1) ≤ length (print_digits (suc n) n []) + shortfall n
    by_size (yes a) b c = omega (arith, grown 0 (omega arith) tt)
    by_size (no a) (yes b) c = omega (arith, grown 1 (omega arith) (omega arith))
    by_size (no a) (no b) (yes c) = omega (arith, grown 2 (omega arith) (omega arith))
    by_size (no a) (no b) (no c) = omega (arith, grown 3 (omega arith) (omega arith))

-- The arguments, all of them Booleans.
abbrev pub bools : List Bool → List Value
bools = map Value.bool

bool_suffix_old :
    (version : ℕ) (b : Bool) → version < 12 → length (bool_suffix version (Value.bool b)) ≡ 4
bool_suffix_old version b w = rw (lt→ltb version 12 w) refl

put_positional-bools :
    (version i a : ℕ) (bs : List Bool)
    → version < 12
    → 0 < i
    → length bs * 10 ≤ length (put_positional version i a (bools bs)) + shortfall a
unfolding put_positional
put_positional-bools version i a [] w p = omega arith
put_positional-bools version i a (b ∷ bs) w p = omega (
  arith,
  length-put_positional version i a (Value.bool b) (bools bs),
  ap {B = ℕ} (λ t. if t then 1 else 0) (lt→ltb 0 i p),
  bool_suffix_old version b w,
  decimal-shortfall a,
  put_positional-bools version (i + 1) (a + 1) bs w (omega arith),
)

-- The arguments of a procedure that takes Booleans by position.
abbrev pub bool_arguments : List Bool → Arguments
bool_arguments bs = record { returns = false; positional = bools bs; keyword = [] }

length-bools : (bs : List Bool) → length (bools bs) ≡ length bs
length-bools [] = refl
length-bools (b ∷ bs) = omega (arith, length-bools bs)

-- A procedure called with at least 1109 and at most 10000 Boolean arguments under a client before
-- version 12 is accepted, and its statement with the final NUL is longer than the buffer.
pub statement_overflows :
    (version : ℕ) (bs : List Bool)
    → version < 12
    → 1109 ≤ length bs
    → length bs ≤ 10000
    → (size : ℕ) × (call_calculate_size (bool_arguments bs) ≡ ok size)
      × (size < length (statement version (bool_arguments bs)) + 1)
unfolding call_calculate_size put_positional
statement_overflows version [] w few many = absurd (omega arith)
statement_overflows version (b ∷ bs) w few many = (
  17 + 0 + length (bools (b ∷ bs)) * 9 + 0,
  rw (le→ltb 10000 (length (bools (b ∷ bs)) + 0) (omega (arith, length-bools (b ∷ bs)))) refl,
  omega (
    arith,
    length-bools bs,
    length-statement version (bool_arguments (b ∷ bs)),
    length-put_positional version 0 1 (Value.bool b) (bools bs),
    bool_suffix_old version b w,
    decimal-shortfall 1,
    put_positional-bools version 1 2 bs w (omega arith),
  ),
)
