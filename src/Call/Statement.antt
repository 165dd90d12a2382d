-- ===== src/Call/Statement.antt =====
-- cxoCursor_callCalculateSize, cxoCursor_callBuildStatement and cxoCursor_call up to the execution.
use python_cx_oracle.Prelude.{
  ℕ, zero, suc, ◌+◌, ◌*◌, ◌/◌, ◌%◌, Bool, true, false, not, ◌&&◌, ◌||◌, Option, none, some, List,
  [], ◌∷◌, ◌++◌, map, length, ltb, if◌then◌else◌,
}
use python_cx_oracle.Error.{
  Result, ok, err, ◌>>=◌, ◌>>◌, too_many_arguments, arguments_not_sequence, keywords_not_dict,
}
use python_cx_oracle.Prelude.Int.{pos}
use python_cx_oracle.Py.{Value, items, entries, is_bool, codes}

-- `%d` of a number: the digits in front of those in `acc`.
unfoldable pub print_digits : ℕ → ℕ → List ℕ → List ℕ
print_digits zero n acc = acc
print_digits (suc fuel) n acc =
    let more = print_digits fuel (n / 10) ((48 + n % 10) ∷ acc) in
    if ltb n 10 then (48 + n) ∷ acc else more

-- `%d` of a number that is not negative.
unfoldable pub decimal : ℕ → List ℕ
unfolding print_digits
decimal n = print_digits (suc n) n []

-- The arguments of a call: whether there is a return value, the positional and the keyword ones.
pub record Arguments : Type 0 where
  pub returns : Bool
  pub positional : List Value
  pub keyword : List (Value × Value)

abbrev pub return_count : Bool → ℕ
return_count returns = if returns then 1 else 0

-- cxoCursor_callCalculateSize
unfoldable pub call_calculate_size : Arguments → Result ℕ
call_calculate_size args =
    if ltb 10000 (length args.positional + length args.keyword)
    then err too_many_arguments
    else ok (
        17
        + (if args.returns then 6 else 0)
        + length args.positional * 9
        + length args.keyword * 15)

-- The comparison that makes a Boolean of a bind variable before Oracle Client 12.
abbrev pub bool_suffix : ℕ → Value → List ℕ
bool_suffix version v = if ltb version 12 && is_bool v then codes " = 1" else []

-- The loop over the positional arguments, from index `i` and placeholder number `arg_num`.
unfoldable pub put_positional : ℕ → ℕ → ℕ → List Value → List ℕ
unfolding decimal
put_positional version i arg_num [] = []
put_positional version i arg_num (v ∷ vs) =
    (if ltb 0 i then codes "," else [])
    ++ (codes ":"
        ++ (decimal arg_num
            ++ (bool_suffix version v ++ put_positional version (i + 1) (arg_num + 1) vs)))

-- The loop over the keyword arguments.
unfoldable pub put_keyword : ℕ → Bool → ℕ → List (Value × Value) → List ℕ
unfolding decimal
put_keyword version returns arg_num [] = []
put_keyword version returns arg_num ((k, v) ∷ kvs) =
    (if (ltb 1 arg_num && not returns) || (ltb 2 arg_num && returns) then codes "," else [])
    ++ (codes "%s => :"
        ++ (decimal arg_num
            ++ (bool_suffix version v ++ put_keyword version returns (arg_num + 1) kvs)))

-- The statement as it stands in the buffer, without its final NUL. `%s` marks the names that
-- cxoUtils_formatString puts in afterwards.
unfoldable pub statement : ℕ → Arguments → List ℕ
unfolding put_positional put_keyword
statement version args =
    codes "begin "
    ++ ((if args.returns then codes ":1 := " else [])
        ++ (codes "%s("
            ++ (put_positional version 0 (1 + return_count args.returns) args.positional
                ++ (put_keyword version args.returns
                      (1 + return_count args.returns + length args.positional) args.keyword
                    ++ codes "); end;"))))

-- What cxoCursor_callBuildStatement hands on: the format, its arguments, the values to bind.
pub record Built : Type 0 where
  pub format : List ℕ
  pub format_args : List Value
  pub bind_variables : List Value

-- cxoCursor_callBuildStatement
unfoldable pub call_build_statement : ℕ → Value → Option Value → Arguments → Built
unfolding statement
call_build_statement version name return_value args = record {
  format = statement version args;
  format_args = name ∷ map (λ kv. kv.0) args.keyword;
  bind_variables =
      (elim return_value [ none ↦ args.positional | some r ↦ r ∷ args.positional ])
      ++ map (λ kv. kv.1) args.keyword;
}

-- The list of arguments, which may be missing.
unfoldable pub positional_arguments : Option Value → Result (List Value)
positional_arguments none = ok []
positional_arguments (some (Value.list vs)) = ok (items vs)
positional_arguments (some (Value.tuple vs)) = ok (items vs)
positional_arguments (some (Value.str s)) = ok (map (λ c. Value.str (c ∷ [])) s)
positional_arguments (some (Value.bytes s)) = ok (map (λ c. Value.int (pos c)) s)
positional_arguments (some _) = err arguments_not_sequence

unfoldable pub keyword_arguments : Option Value → Result (List (Value × Value))
keyword_arguments none = ok []
keyword_arguments (some (Value.dict fs)) = ok (entries fs)
keyword_arguments (some _) = err keywords_not_dict

abbrev pub is_given : Option Value → Bool
is_given none = false
is_given (some v) = true

-- cxoCursor_call up to the call of `execute`: the size of the buffer and what is written to it.
-- `is_open` is the outcome of cxoCursor_isOpen.
unfoldable pub call :
    ℕ → Result (Unit {0}) → Option Value → Value → Option Value → Option Value → Result (ℕ × Built)
unfolding positional_arguments keyword_arguments call_calculate_size call_build_statement
call version is_open return_value name list_of_arguments keywords = do
  positional ← positional_arguments list_of_arguments
  keyword ← keyword_arguments keywords
  is_open
  let args : Arguments = record {
    returns = is_given return_value;
    positional = positional;
    keyword = keyword;
  }
  size ← call_calculate_size args
  ok (size, call_build_statement version name return_value args)
