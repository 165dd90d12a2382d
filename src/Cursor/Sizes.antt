-- ===== src/Cursor/Sizes.antt =====
-- cxoCursor_setInputSizes
use python_cx_oracle.Prelude.{
  ℕ, ◌+◌, true, Option, none, some, List, [], ◌∷◌, length, set, replicate, ltb, ◌&&◌, if◌then◌else◌,
}
use python_cx_oracle.Error.{arguments_and_keywords}
use python_cx_oracle.Action.{Action, pure, raise, gets, ◌>>=◌, ◌>>◌, foreign, update}
use python_cx_oracle.Py.{Value, is_none}
use python_cx_oracle.Cursor.State.{
  Slot, null, none_object, holds, Binds, unbound, by_position, by_name, Driver,
}
use python_cx_oracle.Cursor.Define.{M, is_open}
use python_cx_oracle.Cursor.Bind.{Variables, set_key}
use python_cx_oracle.Cursor.Calls.{Caller}

module _ {S : Type 0} (d : Driver S) (vars : Variables S) (y : Caller S) where
  -- cursor->bindVariables
  abbrev pub set_bind : Binds → M d (Unit {0})
  set_bind b = update (λ c. record c { bind_variables = b })

  -- What stands at a position: None is kept, any other value is a type.
  abbrev pub input_slot : Value → ℕ → Action S Slot
  input_slot value n =
      if is_none value then pure none_object else (y.new_by_type value n >>= λ v. pure (holds v))

  -- The loop over positional arguments, from position `i`.
  unfoldable pub input_positions : List Slot → ℕ → List Value → M d (Unit {0})
  input_positions slots i [] = pure tt
  input_positions slots i (value ∷ values) = do
    n ← gets (λ s. s.0.bind_array_size)
    slot ← foreign (input_slot value n)
    set_bind (by_position (set slots i slot))
    input_positions (set slots i slot) (i + 1) values

  -- The loop over keyword arguments.
  unfoldable pub input_names : List (Value × ℕ) → List (Value × Value) → M d (Unit {0})
  input_names kvs [] = pure tt
  input_names kvs ((key, value) ∷ rest) = do
    n ← gets (λ s. s.0.bind_array_size)
    v ← foreign (y.new_by_type value n)
    set_bind (by_name (set_key vars kvs key v))
    input_names (set_key vars kvs key v) rest

  -- Without arguments an empty list or dictionary is returned; the cursor has none.
  abbrev pub no_sizes : Option (List (Value × Value)) → Binds
  no_sizes none = by_position []
  no_sizes (some kvs) = by_name []

  abbrev pub set_sizes : List Value → List (Value × Value) → M d (Unit {0})
  set_sizes positional [] = do
    set_bind (by_position (replicate (length positional) null))
    input_positions (replicate (length positional) null) 0 positional
  set_sizes positional (kv ∷ kvs) = do set_bind (by_name []); input_names [] (kv ∷ kvs)

  abbrev pub keywords_of : Option (List (Value × Value)) → List (Value × Value)
  keywords_of none = []
  keywords_of (some kvs) = kvs

  -- The end of cxoCursor_setInputSizes, with arguments of one kind.
  abbrev pub use_sizes : List Value → Option (List (Value × Value)) → M d Binds
  use_sizes positional keywords =
      if ltb 0 (length positional + length (keywords_of keywords))
      then (update (λ c. record c { set_input_sizes = true })
          >> (set_sizes positional (keywords_of keywords) >> gets (λ s. s.0.bind_variables)))
      else pure (no_sizes keywords)

  -- cxoCursor_setInputSizes: the bind variables that are returned
  unfoldable pub set_input_sizes : List Value → Option (List (Value × Value)) → M d Binds
  unfolding is_open input_positions input_names
  set_input_sizes positional keywords =
      if ltb 0 (length (keywords_of keywords)) && ltb 0 (length positional)
      then raise arguments_and_keywords
      else (is_open d >> (set_bind unbound >> use_sizes positional keywords))
