-- ===== src/Cursor/Calls.antt =====
-- callproc and callfunc: cxoCursor_call, cxoCursor_callProc and cxoCursor_callFunc.
use python_cx_oracle.Prelude.{
  ℕ, zero, suc, ◌+◌, Option, none, some, List, [], ◌∷◌, length, get_elem?,
}
use python_cx_oracle.Error.{Result, ok, err, undefined, keyword_parameters_twice}
use python_cx_oracle.Action.{Action, pure, raise, lift, gets, ◌>>=◌, ◌>>◌, foreign}
use python_cx_oracle.Py.{Value, of_items}
use python_cx_oracle.Transform.{Runtime}
use python_cx_oracle.Call.{Built, call, positional_arguments, keyword_arguments}
use python_cx_oracle.Cursor.State.{Slot, holds, Binds, by_position, Driver}
use python_cx_oracle.Cursor.Define.{M, is_open}
use python_cx_oracle.Cursor.Bind.{Variables, Parameters}
use python_cx_oracle.Cursor.Execute.{Executor, execute}

-- What the two methods call besides `execute`.
pub record Caller (S : Type 0) : Type 0 where
  -- PyUnicode_Format: the reference of a new text
  pub format_text : List ℕ → List Value → Action S ℕ
  -- cxoVar_newByType with a number of elements, and cxoVar_getValue
  pub new_by_type : Value → ℕ → Action S ℕ
  pub get_value : ℕ → ℕ → Action S Value

-- The keyword arguments under their two names.
abbrev pub keyword_parameters : Option Value → Option Value → Result (Option Value)
keyword_parameters keywords none = ok keywords
keyword_parameters none (some deprecated) = ok (some deprecated)
keyword_parameters (some v) (some deprecated) = err keyword_parameters_twice

module _ (rt : Runtime) {S : Type 0} (d : Driver S) (vars : Variables S) (x : Executor S)
    (y : Caller S) where
  -- The text is formatted, and executed with its bind variables as a list.
  abbrev pub run_statement : Built → M d (Unit {0})
  run_statement b = do
    statement ← foreign (y.format_text b.format b.format_args)
    execute rt d vars x (some statement) (some (Parameters.sequence b.bind_variables))
    pure tt

  -- cxoCursor_call: the arguments are checked before the cursor.
  unfoldable pub run_call : Option Value → Value → Option Value → Option Value → M d (Unit {0})
  unfolding positional_arguments keyword_arguments is_open call execute
  run_call return_value name list_of_arguments keywords = do
    lift (positional_arguments list_of_arguments)
    lift (keyword_arguments keywords)
    is_open d
    b ← lift (call rt.version (ok tt) return_value name list_of_arguments keywords)
    run_statement b.1

  -- `PyList_GET_ITEM` of the bind variables, and the value of the variable.
  abbrev pub item_of : Binds → ℕ → Option Slot
  item_of (by_position slots) i = get_elem? slots i
  item_of _ i = none

  abbrev pub slot_value : Option Slot → Action S Value
  slot_value (some (holds v)) = y.get_value v 0
  slot_value _ = raise undefined

  -- The loop of cxoCursor_callProc, from position `i` for `left` arguments.
  unfoldable pub argument_values : ℕ → ℕ → M d (List Value)
  argument_values zero i = pure []
  argument_values (suc left) i = do
    b ← gets (λ s. s.0.bind_variables)
    v ← foreign (slot_value (item_of b i))
    vs ← argument_values left (i + 1)
    pure (v ∷ vs)

  abbrev pub returned_arguments : Option Value → M d Value
  returned_arguments list_of_arguments = do
    vs ← lift (positional_arguments list_of_arguments)
    rs ← argument_values (length vs) 0
    pure (Value.list (of_items rs))

  -- cxoCursor_callProc
  unfoldable pub call_proc : Value → Option Value → Option Value → Option Value → M d Value
  unfolding run_call argument_values positional_arguments
  call_proc name list_of_arguments keywords deprecated = do
    k ← lift (keyword_parameters keywords deprecated)
    run_call none name list_of_arguments k
    returned_arguments list_of_arguments

  -- cxoCursor_callFunc
  unfoldable pub call_func : Value → Value → Option Value → Option Value → Option Value → M d Value
  unfolding run_call
  call_func name return_type list_of_arguments keywords deprecated = do
    k ← lift (keyword_parameters keywords deprecated)
    v ← foreign (y.new_by_type return_type 1)
    run_call (some (Value.var v)) name list_of_arguments k
    foreign (y.get_value v 0)
