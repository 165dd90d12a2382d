-- ===== src/Json/Populate.antt =====
-- src/cxoJsonBuffer.c. Allocation does not fail here, and a list or dictionary has fewer than 2^32
-- elements. On an error the C code frees the buffers, so only a success hands them on.
use python_cx_oracle.Prelude.{
  ℕ, ◌+◌, Bool, true, false, Option, none, some, List, [], ◌∷◌, ◌++◌, length, take, ◌==◌,
  if◌then◌else◌,
}
use python_cx_oracle.Error.{Result, ok, err, ◌>>=◌, undefined, type_not_supported}
use python_cx_oracle.Types.{TransformNum, OracleTypeNum, NativeTypeNum, Transform, get_type_info}
use python_cx_oracle.Py.{Value, Values, Fields}
use python_cx_oracle.Transform.{
  Runtime, EncodingInfo, DbValue, Node, Nodes, NodeFields, Buffer, buffer_from_object, Write,
  from_python_scalar, get_num_from_python_value,
}

-- CXO_JSON_ENCODING
abbrev pub utf8 : ℕ
utf8 = 0

abbrev pub json_encodings : EncodingInfo
json_encodings = record { encoding = utf8; nencoding = utf8 }

-- cxoJsonBuffer: the buffers in use, and for how many there is room. `numBuffers` is their number.
pub record JsonBuffer : Type 0 where
  pub allocated_buffers : ℕ
  pub buffers : List Buffer

-- The start of cxoJsonBuffer_fromObject.
abbrev pub empty_json_buffer : JsonBuffer
empty_json_buffer = record { allocated_buffers = 0; buffers = [] }

-- cxoJsonBuffer_getBuffer, and the buffer that the caller then fills.
unfoldable pub get_buffer : JsonBuffer → Buffer → JsonBuffer
get_buffer buf b = record {
  allocated_buffers =
      if length buf.buffers == buf.allocated_buffers
      then buf.allocated_buffers + 16
      else buf.allocated_buffers;
  buffers = buf.buffers ++ b ∷ [];
}

-- What dpiBytes.ptr and dpiBytes.length show of a buffer.
abbrev pub buffer_bytes : Buffer → List ℕ
buffer_bytes b = take b.size b.ptr

-- The dpiDataBuffer after a write that asks nothing of ODPI-C.
abbrev pub write_value : Write → DbValue
write_value (Write.store db) = db
write_value (Write.store_bytes b) = DbValue.as_bytes (buffer_bytes b)
write_value (Write.store_as_bytes b) = DbValue.as_bytes (buffer_bytes b)
write_value _ = DbValue.unset

-- The JSON buffer after that write: one that points into a buffer has acquired it before.
abbrev pub keep_buffer : Write → JsonBuffer → JsonBuffer
keep_buffer (Write.store_bytes b) buf = get_buffer buf b
keep_buffer _ buf = buf

-- The switch on the transform: the transform to use, if the type is supported.
unfoldable pub json_transform : TransformNum → Option TransformNum
json_transform TransformNum.string = some TransformNum.string
json_transform TransformNum.binary = some TransformNum.binary
json_transform TransformNum.int = some TransformNum.int
json_transform TransformNum.float = some TransformNum.float
json_transform TransformNum.decimal = some TransformNum.decimal
json_transform TransformNum.datetime = some TransformNum.timestamp
json_transform TransformNum.boolean = some TransformNum.boolean
json_transform TransformNum.date = some TransformNum.date
json_transform TransformNum.timedelta = some TransformNum.timedelta
json_transform _ = none

-- cxoTransform_getTypeInfo, which fills the node's type numbers.
abbrev pub node_types : TransformNum → Result Transform
node_types t = elim (get_type_info t) [ none ↦ err undefined | some r ↦ ok r ]

unfoldable pub populate_transformed :
    Runtime → TransformNum → Value → JsonBuffer → Result (Node × JsonBuffer)
unfolding get_type_info from_python_scalar get_buffer
populate_transformed rt t v buf = node_types t >>= λ r.
    from_python_scalar rt json_encodings false t v >>= λ w.
    ok (Node.node r.oracle_type_num r.native_type_num (write_value w), keep_buffer w buf)

-- The scalar values of cxoJsonBuffer_populateNode.
unfoldable pub populate_scalar : Runtime → Value → JsonBuffer → Result (Node × JsonBuffer)
unfolding populate_transformed json_transform get_num_from_python_value
populate_scalar rt v buf = elim (json_transform (get_num_from_python_value rt.version true v)) [
  | none ↦ err type_not_supported
  | some t ↦ populate_transformed rt t v buf
]

-- cxoJsonBuffer_populateNode, with its loops over arrays and dictionaries.
unfoldable mutual
  unfolding populate_scalar get_buffer buffer_from_object

  pub populate_node : Runtime → Value → JsonBuffer → Result (Node × JsonBuffer)
  populate_node rt Value.none buf =
      ok (Node.node OracleTypeNum.none NativeTypeNum.null DbValue.unset, buf)
  populate_node rt (Value.list vs) buf = populate_items rt vs buf >>= λ r.
      ok (
        Node.node OracleTypeNum.json_array NativeTypeNum.json_array (DbValue.as_json_array r.0),
        r.1,
      )
  populate_node rt (Value.dict fs) buf = populate_fields rt fs buf >>= λ r. ok (
    Node.node OracleTypeNum.json_object NativeTypeNum.json_object (DbValue.as_json_object r.0),
    r.1,
  )
  populate_node rt v buf = populate_scalar rt v buf

  pub populate_items : Runtime → Values → JsonBuffer → Result (Nodes × JsonBuffer)
  populate_items rt Values.nil buf = ok (Nodes.nil, buf)
  populate_items rt (Values.cons v vs) buf =
      populate_node rt v buf >>= λ n. populate_items rt vs n.1 >>= λ r. ok (Nodes.cons n.0 r.0, r.1)

  pub populate_fields : Runtime → Fields → JsonBuffer → Result (NodeFields × JsonBuffer)
  populate_fields rt Fields.end buf = ok (NodeFields.end, buf)
  populate_fields rt (Fields.field k v fs) buf = buffer_from_object rt k utf8 >>= λ b.
      populate_node rt v (get_buffer buf b) >>= λ n.
      populate_fields rt fs n.1 >>= λ r. ok (NodeFields.field (buffer_bytes b) n.0 r.0, r.1)

-- cxoJsonBuffer_fromObject
unfoldable pub json_from_object : Runtime → Value → Result (Node × JsonBuffer)
unfolding populate_node
json_from_object rt v = populate_node rt v empty_json_buffer

-- cxoTransform_fromPython, the case for JSON included. The JSON buffer is freed after the call.
unfoldable pub from_python : Runtime → EncodingInfo → Bool → TransformNum → Value → Result Write
unfolding json_from_object from_python_scalar
from_python rt enc has_var TransformNum.json v =
    json_from_object rt v >>= λ r. ok (Write.set_json r.0)
from_python rt enc has_var t v = from_python_scalar rt enc has_var t v
