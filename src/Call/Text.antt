-- ===== src/Call/Text.antt =====
-- The statement that callproc and callfunc build, against a description of it as a list of
-- arguments with commas between them.
use mathlib.Core.List.{append_assoc}
use python_cx_oracle.Prelude.{
  ℕ, suc, ◌+◌, ◌<◌, ◌≡◌, refl, Bool, true, false, List, [], ◌∷◌, ◌++◌, arith, length, lt→ltb,
  if◌then◌else◌,
}
use python_cx_oracle.Py.{Value, codes}
use python_cx_oracle.Call.Statement.{
  decimal, Arguments, return_count, bool_suffix, put_positional, put_keyword, statement,
}

-- Texts, each behind a comma.
abbrev pub with_commas : List (List ℕ) → List ℕ
with_commas [] = []
with_commas (x ∷ xs) = codes "," ++ (x ++ with_commas xs)

-- Texts with commas between them.
abbrev pub join : List (List ℕ) → List ℕ
join [] = []
join (x ∷ xs) = x ++ with_commas xs

-- A placeholder, compared with 1 if it stands for a Boolean and the client is old.
abbrev pub placeholder : ℕ → ℕ → Value → List ℕ
placeholder version n v = decimal n ++ bool_suffix version v

-- The arguments by position, numbered from `n`.
abbrev pub positional_texts : ℕ → ℕ → List Value → List (List ℕ)
positional_texts version n [] = []
positional_texts version n (v ∷ vs) =
    (codes ":" ++ placeholder version n v) ∷ positional_texts version (n + 1) vs

-- The arguments by name, numbered from `n`.
abbrev pub keyword_texts : ℕ → ℕ → List (Value × Value) → List (List ℕ)
keyword_texts version n [] = []
keyword_texts version n ((k, v) ∷ kvs) =
    (codes "%s => :" ++ placeholder version n v) ∷ keyword_texts version (n + 1) kvs

with_commas-append :
    (xs ys : List (List ℕ)) → with_commas (xs ++ ys) ≡ with_commas xs ++ with_commas ys
with_commas-append [] ys = refl
with_commas-append (x ∷ xs) ys = simp (with_commas-append xs ys, append_assoc)

put_positional-join :
    (version i n : ℕ) (vs : List Value)
    → 0 < i
    → put_positional version i n vs ≡ with_commas (positional_texts version n vs)
unfolding put_positional
put_positional-join version i n [] p = refl
put_positional-join version i n (v ∷ vs) p =
    rw (lt→ltb 0 i p)
      (simp (put_positional-join version (i + 1) (n + 1) vs (omega arith), append_assoc))

put_keyword-join :
    (version : ℕ) (returns : Bool) (n : ℕ) (kvs : List (Value × Value))
    → 1 + return_count returns < n
    → put_keyword version returns n kvs ≡ with_commas (keyword_texts version n kvs)
unfolding put_keyword
put_keyword-join version returns n [] p = refl
put_keyword-join version true n ((k, v) ∷ kvs) p = rw (lt→ltb 1 n (omega arith)) (
    rw (lt→ltb 2 n p)
      (simp (put_keyword-join version true (n + 1) kvs (omega arith), append_assoc)))
put_keyword-join version false n ((k, v) ∷ kvs) p =
    rw (lt→ltb 1 n (omega arith))
      (simp (put_keyword-join version false (n + 1) kvs (omega arith), append_assoc))

-- The loops together put a comma between any two arguments and none in front of the first.
arguments-join :
    (version : ℕ) (returns : Bool) (vs : List Value) (kvs : List (Value × Value))
    → put_positional version 0 (1 + return_count returns) vs
        ++ put_keyword version returns (1 + return_count returns + length vs) kvs
      ≡ join (
          positional_texts version (1 + return_count returns) vs
          ++ keyword_texts version (1 + return_count returns + length vs) kvs)
unfolding put_positional put_keyword
arguments-join version returns [] [] = refl
arguments-join version true [] ((k, v) ∷ kvs) =
    simp (put_keyword-join version true 3 kvs (omega arith), append_assoc)
arguments-join version false [] ((k, v) ∷ kvs) =
    simp (put_keyword-join version false 2 kvs (omega arith), append_assoc)
arguments-join version returns (v ∷ vs) kvs = simp (
  put_positional-join version 1 (1 + return_count returns + 1) vs (omega arith),
  put_keyword-join version returns (1 + return_count returns + suc (length vs)) kvs (omega arith),
  with_commas-append,
  append_assoc,
)

-- The statement is the call of the procedure, or the assignment of the function's result to the
-- first placeholder, with the positional arguments and then the keyword arguments between
-- parentheses, numbered in turn and separated by commas.
pub statement-join :
    (version : ℕ) (args : Arguments)
    → let first = 1 + return_count args.returns in
      statement version args
      ≡ codes "begin "
        ++ ((if args.returns then codes ":1 := " else [])
            ++ (codes "%s("
                ++ (join (
                      positional_texts version first args.positional
                      ++ keyword_texts version (first + length args.positional) args.keyword)
                    ++ codes "); end;")))
unfolding statement
statement-join version args =
    simp (← arguments-join version args.returns args.positional args.keyword, append_assoc)
