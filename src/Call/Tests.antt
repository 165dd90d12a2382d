-- ===== src/Call/Tests.antt =====
-- The theorems on calls of procedures, at sample calls.
use python_cx_oracle.Prelude.{
  ℕ, ◌+◌, ◌≤◌, ◌<◌, ◌≡◌, refl, true, [], ◌∷◌, ◌++◌, length, replicate, length-replicate, arith,
}
use python_cx_oracle.Prelude.Int.{pos}
use python_cx_oracle.Error.{ok}
use python_cx_oracle.Py.{Value, codes}
use python_cx_oracle.Call.Statement.{Arguments, call_calculate_size, statement}
use python_cx_oracle.Call.Text.{statement-join, join, positional_texts, keyword_texts}
use python_cx_oracle.Call.Fits.{statement_fits}
use python_cx_oracle.Call.Overflow.{statement_overflows, bool_arguments}

-- f(1, True, name="x")
abbrev sample : Arguments
sample = record {
  returns = true;
  positional = Value.int (pos 1) ∷ Value.bool true ∷ [];
  keyword = (Value.str (codes "name"), Value.str (codes "x")) ∷ [];
}

sample_size : call_calculate_size sample ≡ ok 56
unfolding call_calculate_size
sample_size = refl

statement_fits_example : length (statement 12 sample) + 1 ≤ 56
statement_fits_example = statement_fits 12 sample 56 (omega arith) sample_size

statement-join_example :
    statement 11 sample
    ≡ codes "begin "
      ++ (codes ":1 := "
          ++ (codes "%s("
              ++ (join
                    (positional_texts 11 2 sample.positional ++ keyword_texts 11 4 sample.keyword)
                  ++ codes "); end;")))
statement-join_example = statement-join 11 sample

statement_overflows_example :
    (size : ℕ) × (call_calculate_size (bool_arguments (replicate 1109 true)) ≡ ok size)
    × (size < length (statement 11 (bool_arguments (replicate 1109 true))) + 1)
statement_overflows_example =
    statement_overflows 11 (replicate 1109 true) (omega arith)
      (omega (arith, length-replicate 1109 true)) (omega (arith, length-replicate 1109 true))
