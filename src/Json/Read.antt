-- ===== src/Json/Read.antt =====
-- cxoTransform_toPythonFromJson, and cxoTransform_toPython with its case for JSON.
use python_cx_oracle.Prelude.{ℕ, Bool, true, false, ◌&&◌, none, List, [], ◌∷◌, ◌==◌, if◌then◌else◌}
use python_cx_oracle.Error.{Result, ok, err, ◌>>=◌, undefined}
use python_cx_oracle.Types.{TransformNum, OracleTypeNum, NativeTypeNum}
use python_cx_oracle.Py.{Value, Values, Fields}
use python_cx_oracle.Transform.{
  Runtime, DbValue, Node, Nodes, NodeFields, Context, to_python_scalar,
}
use python_cx_oracle.Json.Populate.{utf8}

abbrev pub same_text : List ℕ → List ℕ → Bool
same_text [] [] = true
same_text [] (b ∷ bs) = false
same_text (a ∷ as') [] = false
same_text (a ∷ as') (b ∷ bs) = (a == b) && same_text as' bs

-- PyDict_SetItem: a key that is there keeps its place.
abbrev pub set_item : List (List ℕ × Value) → List ℕ → Value → List (List ℕ × Value)
set_item [] k v = (k, v) ∷ []
set_item ((j, w) ∷ kvs) k v = if same_text j k then (j, v) ∷ kvs else (j, w) ∷ set_item kvs k v

abbrev pub dict_of : List (List ℕ × Value) → Fields
dict_of [] = Fields.end
dict_of ((k, v) ∷ kvs) = Fields.field (Value.str k) v (dict_of kvs)

-- The switch on the type of a node that is no array and no object.
unfoldable pub node_transform : OracleTypeNum → NativeTypeNum → TransformNum
node_transform OracleTypeNum.number NativeTypeNum.double = TransformNum.native_double
node_transform OracleTypeNum.number _ = TransformNum.decimal
node_transform OracleTypeNum.varchar _ = TransformNum.string
node_transform OracleTypeNum.raw _ = TransformNum.binary
node_transform OracleTypeNum.date _ = TransformNum.datetime
node_transform OracleTypeNum.timestamp _ = TransformNum.datetime
node_transform OracleTypeNum.boolean _ = TransformNum.boolean
node_transform OracleTypeNum.interval_ds _ = TransformNum.timedelta
node_transform _ _ = TransformNum.unsupported

unfoldable pub read_scalar :
    Runtime → Context → OracleTypeNum → NativeTypeNum → DbValue → Result Value
unfolding node_transform to_python_scalar
read_scalar rt ctx o n db = to_python_scalar rt ctx (node_transform o n) db

-- cxoTransform_toPythonFromJson: a null node first, then by the Oracle type.
unfoldable mutual
  unfolding read_scalar

  pub read_node : Runtime → Context → Node → Result Value
  read_node rt ctx (Node.node o NativeTypeNum.null db) = ok Value.none
  read_node rt ctx (Node.node OracleTypeNum.json_array n db) = read_array rt ctx db
  read_node rt ctx (Node.node OracleTypeNum.json_object n db) = read_object rt ctx db
  read_node rt ctx (Node.node o n db) = read_scalar rt ctx o n db

  pub read_array : Runtime → Context → DbValue → Result Value
  read_array rt ctx (DbValue.as_json_array ns) = read_nodes rt ctx ns >>= λ vs. ok (Value.list vs)
  read_array rt ctx _ = err undefined

  pub read_object : Runtime → Context → DbValue → Result Value
  read_object rt ctx (DbValue.as_json_object fs) =
      read_fields rt ctx fs [] >>= λ kvs. ok (Value.dict (dict_of kvs))
  read_object rt ctx _ = err undefined

  pub read_nodes : Runtime → Context → Nodes → Result Values
  read_nodes rt ctx Nodes.nil = ok Values.nil
  read_nodes rt ctx (Nodes.cons n ns) =
      read_node rt ctx n >>= λ v. read_nodes rt ctx ns >>= λ vs. ok (Values.cons v vs)

  pub read_fields :
      Runtime → Context → NodeFields → List (List ℕ × Value) → Result (List (List ℕ × Value))
  read_fields rt ctx NodeFields.end acc = ok acc
  read_fields rt ctx (NodeFields.field name n fs) acc = rt.decode utf8 none name >>= λ k.
      read_node rt ctx n >>= λ v. read_fields rt ctx fs (set_item acc k v)

-- cxoTransform_toPython, the case for JSON included; `json_value` is dpiJson_getValue with
-- DPI_JSON_OPT_NUMBER_AS_STRING.
unfoldable pub to_python :
    Runtime → Context → (ℕ → Result Node) → TransformNum → DbValue → Result Value
unfolding read_node to_python_scalar
to_python rt ctx json_value TransformNum.json (DbValue.as_json h) =
    json_value h >>= λ n. read_node rt ctx n
to_python rt ctx json_value TransformNum.json _ = err undefined
to_python rt ctx json_value t db = to_python_scalar rt ctx t db
