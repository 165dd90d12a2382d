-- ===== src/Var/Create.antt =====
-- Creating a variable from a value or a type, and binding it: cxoVar_newByValue, cxoVar_newByType
-- and cxoVar_bind.
use python_cx_oracle.Prelude.{
  ℕ, Bool, true, false, not, ◌&&◌, Option, none, some, List, if◌then◌else◌,
}
use python_cx_oracle.Prelude.Int.{ℤ, pos}
use python_cx_oracle.Error.{
  Result, ok, err, ◌>>=◌ as ◌and_then◌, bad_array_type, expecting_input_variable,
}
use python_cx_oracle.Action.{Action, pure, raise, lift, gets, ◌>>=◌, ◌>>◌, foreign, update}
use python_cx_oracle.Types.{TransformNum}
use python_cx_oracle.Py.{Value, Values}
use python_cx_oracle.Transform.{
  Runtime, uint32_of, buffer_from_object, as_long, get_num_from_type, get_num_from_value,
}
use python_cx_oracle.Json.{buffer_bytes}
use python_cx_oracle.Var.State.{Var, Dpi}
use python_cx_oracle.Var.Values.{var_new, array_value}

-- A reference to a variable that exists, or a new one.
pub data Chosen : Type 0 where
  existing : ℕ → Chosen
  created : Var → Chosen

-- What the functions call besides `Dpi`.
pub record Binder (S : Type 0) : Type 0 where
  -- the handler on the cursor, else that on the connection; a handler that is None counts as none
  pub input_type_handler : Option ℕ
  pub call_input_type_handler : ℕ → Value → ℕ → Action S Value
  -- dpiStmt_bindByName, dpiStmt_bindByPos: statement, name or position, variable
  pub bind_by_name : Option ℕ → List ℕ → ℕ → Action S (Unit {0})
  pub bind_by_pos : Option ℕ → ℕ → ℕ → Action S (Unit {0})

module _ (rt : Runtime) {S : Type 0} (d : Dpi S) where
  abbrev pub make : ℕ → TransformNum → ℕ → Bool → Option ℕ → Action S Chosen
  make n t size is_array object_type =
      var_new d n t size is_array object_type >>= λ v. pure (created v)

  -- The number of elements of an array that is defined by a list: a PyLong_Check and its value.
  abbrev pub array_length : Value → Result ℕ
  array_length (Value.int n) = as_long rt n and_then λ m. ok (uint32_of m)
  array_length (Value.bool b) = ok (if b then 1 else 0)
  array_length _ = err bad_array_type

  abbrev pub is_number_object : Value → Bool
  is_number_object (Value.int n) = true
  is_number_object (Value.bool b) = true
  is_number_object _ = false

  -- cxoVar_newArrayByType: the type is looked at before the value of the number.
  unfoldable pub new_array_by_type : Values → Action S Chosen
  unfolding var_new get_num_from_type as_long
  new_array_by_type (Values.cons type (Values.cons n Values.nil)) =
      if is_number_object n
      then (do t ← lift (get_num_from_type type); k ← lift (array_length n); make k t.0 0 true t.1)
      else raise bad_array_type
  new_array_by_type _ = raise bad_array_type

  abbrev pub new_of_size : ℤ → ℕ → Action S Chosen
  new_of_size n num_elements =
      lift (as_long rt n) >>= λ m. make num_elements TransformNum.string (uint32_of m) false none

  abbrev pub new_of_type : Value → ℕ → Action S Chosen
  new_of_type value num_elements =
      lift (get_num_from_type value) >>= λ t. make num_elements t.0 0 false t.1

  -- cxoVar_newByType: an integer, a list, a variable or a type
  unfoldable pub new_by_type : Value → ℕ → Action S Chosen
  unfolding var_new new_array_by_type get_num_from_type as_long
  new_by_type (Value.int n) num_elements = new_of_size n num_elements
  new_by_type (Value.bool b) num_elements = new_of_size (pos (if b then 1 else 0)) num_elements
  new_by_type (Value.list vs) num_elements = new_array_by_type vs
  new_by_type (Value.var u) num_elements = pure (existing u)
  new_by_type value num_elements = new_of_type value num_elements

  -- The object type of a value whose transform is that of objects.
  abbrev pub type_of_object : TransformNum → Value → Option ℕ
  type_of_object TransformNum.object (Value.object t o) = some t
  type_of_object _ _ = none

  module _ (b : Binder S) where
    -- The default processing of cxoVar_newByValue.
    abbrev pub new_of_value : Bool → Value → ℕ → Action S Chosen
    new_of_value is_plsql value num_elements =
        lift (get_num_from_value rt.version value num_elements is_plsql) >>= λ i.
        make i.num_elements i.transform_num i.size i.is_array (type_of_object i.transform_num value)

    -- What an input type handler has returned.
    abbrev pub handled : Bool → Value → ℕ → Value → Action S Chosen
    handled is_plsql value num_elements Value.none = new_of_value is_plsql value num_elements
    handled is_plsql value num_elements (Value.var u) = pure (existing u)
    handled is_plsql value num_elements _ = raise expecting_input_variable

    abbrev pub choose : Option ℕ → Bool → Value → ℕ → Action S Chosen
    choose none is_plsql value num_elements = new_of_value is_plsql value num_elements
    choose (some h) is_plsql value num_elements =
        b.call_input_type_handler h value num_elements >>= handled is_plsql value num_elements

    -- cxoVar_newByValue
    unfoldable pub new_by_value : Bool → Value → ℕ → Action S Chosen
    unfolding var_new get_num_from_value
    new_by_value is_plsql value num_elements =
        choose b.input_type_handler is_plsql value num_elements

    -- The call of ODPI-C in cxoVar_bind, by name or by position.
    abbrev pub bind_handle : Option ℕ → ℕ → Option Value → ℕ → ℕ → Action S (Unit {0})
    bind_handle statement encoding none position handle = b.bind_by_pos statement position handle
    bind_handle statement encoding (some name) position handle =
        lift (buffer_from_object rt name encoding) >>= λ k.
        b.bind_by_name statement (buffer_bytes k) handle

    -- cxoVar_bind
    unfoldable pub bind : Option ℕ → Bool → ℕ → Option Value → ℕ → Action (Var × S) (Unit {0})
    unfolding buffer_from_object
    bind statement is_returning encoding name position = gets (λ s. s.0.handle) >>= λ h.
        foreign (bind_handle statement encoding name position h)
        >> update (λ v.
          if is_returning && not v.is_value_set then record v { get_returned_data = true } else v)

  -- cxoVar_externalGetActualElements, cxoVar_externalGetValues
  abbrev pub count_elements : Var → Action S ℕ
  count_elements v = if v.is_array then d.get_num_elements v.handle else pure v.allocated_elements

  unfoldable pub get_actual_elements : Var → Action S Value
  get_actual_elements v = count_elements v >>= λ n. pure (Value.int (pos n))

  unfoldable pub get_values : Var → Action S Value
  unfolding array_value
  get_values v =
      count_elements v >>= λ n. array_value d v v.elements 0 n >>= λ xs. pure (Value.list xs)

  -- cxoVar_getType
  abbrev pub get_var_type : Var → Value
  get_var_type v = elim v.object_type [
    | some t ↦ Value.object_type t
    | none ↦ Value.db_type v.db_type
  ]
