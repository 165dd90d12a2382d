-- ===== src/Json/Buffers.antt =====
-- cxoJsonBuffer_fromObject: the buffers that it leaves hold the texts of the node.
use python_cx_oracle.Prelude.{◌≡◌, ap, ◌∙◌, inl, inr, true, false, Option-cases, map, arith}
use python_cx_oracle.Error.{Result, ok, err, ◌>>=◌, Ensures, Ensures->>=, Ensures-then, Ensures-ok}
use python_cx_oracle.Types.{TransformNum, Transform}
use python_cx_oracle.Py.{Value, Values, Fields}
use python_cx_oracle.Transform.{
  Runtime, Node, Nodes, NodeFields, buffer_from_object, Write, from_python_scalar,
  get_num_from_python_value,
}
use python_cx_oracle.Json.Populate.{
  utf8, json_encodings, JsonBuffer, get_buffer, buffer_bytes, write_value, keep_buffer,
  json_transform, node_types, populate_transformed, populate_scalar, populate_node, populate_items,
  populate_fields, json_from_object, empty_json_buffer,
}
use python_cx_oracle.Json.Texts.{
  texts_of_value, texts_of_node, texts_of_nodes, texts_of_fields, HasRoom, Grows, get_buffer-Grows,
  Grows-refl, Grows-trans, KeepsText, json_write_kept,
}

-- The texts of the node that a call returns are those of the buffers that it has added.
abbrev NodeGrows : JsonBuffer → Node × JsonBuffer → Type 0
NodeGrows buf r = Grows buf r.1 (texts_of_node r.0)

transformed_grows :
    (rt : Runtime) (t : TransformNum) (v : Value) (buf : JsonBuffer)
    → HasRoom buf
    → Ensures KeepsText (from_python_scalar rt json_encodings false t v)
    → Ensures (NodeGrows buf) (populate_transformed rt t v buf)
unfolding populate_transformed texts_of_node
transformed_grows rt t v buf h k =
    Ensures->>= (NodeGrows buf) (node_types t) _
      (λ r. written (from_python_scalar rt json_encodings false t v) k r)
  where
    written :
        (m : Result Write)
        → Ensures KeepsText m
        → (r : Transform)
        → Ensures (NodeGrows buf) (
            m >>= λ w.
            ok (Node.node r.oracle_type_num r.native_type_num (write_value w), keep_buffer w buf))
    written (ok w) k r = k buf h
    written (err e) k r = tt

scalar_grows :
    (rt : Runtime) (v : Value) (buf : JsonBuffer)
    → HasRoom buf
    → Ensures (NodeGrows buf) (populate_scalar rt v buf)
unfolding populate_scalar
scalar_grows rt v buf h =
    let s = get_num_from_python_value rt.version true v in
    elim (Option-cases (json_transform s)) [
      | inl e ↦ rw (e, populate_scalar) tt
      | inr (t, e) ↦
          rw (e, populate_scalar) (transformed_grows rt t v buf h (json_write_kept rt s t v e))
    ]

abbrev NodesGrow : JsonBuffer → Nodes × JsonBuffer → Type 0
NodesGrow buf r = Grows buf r.1 (texts_of_nodes r.0)

abbrev FieldsGrow : JsonBuffer → NodeFields × JsonBuffer → Type 0
FieldsGrow buf r = Grows buf r.1 (texts_of_fields r.0)

mutual
  unfolding populate_node populate_items populate_fields texts_of_node texts_of_nodes
      texts_of_fields texts_of_value

  node_grows :
      (rt : Runtime) (v : Value) (buf : JsonBuffer)
      → HasRoom buf
      → Ensures (NodeGrows buf) (populate_node rt v buf)
  node_grows rt Value.none buf h = Grows-refl buf h
  node_grows rt (Value.list vs) buf h =
      Ensures-then (NodesGrow buf) (NodeGrows buf) (populate_items rt vs buf) _
        (items_grow rt vs buf h) (λ r g. g)
  node_grows rt (Value.dict fs) buf h =
      Ensures-then (FieldsGrow buf) (NodeGrows buf) (populate_fields rt fs buf) _
        (fields_grow rt fs buf h) (λ r g. g)
  node_grows rt v buf h = scalar_grows rt v buf h

  items_grow :
      (rt : Runtime) (vs : Values) (buf : JsonBuffer)
      → HasRoom buf
      → Ensures (NodesGrow buf) (populate_items rt vs buf)
  items_grow rt Values.nil buf h = Grows-refl buf h
  items_grow rt (Values.cons v vs) buf h =
      Ensures-then (NodeGrows buf) (NodesGrow buf) (populate_node rt v buf) _
        (node_grows rt v buf h)
        λ n g.
          Ensures-then (NodesGrow n.1) (NodesGrow buf) (populate_items rt vs n.1) _
            (items_grow rt vs n.1 g.room) (λ r k. Grows-trans g k)

  fields_grow :
      (rt : Runtime) (fs : Fields) (buf : JsonBuffer)
      → HasRoom buf
      → Ensures (FieldsGrow buf) (populate_fields rt fs buf)
  fields_grow rt Fields.end buf h = Grows-refl buf h
  fields_grow rt (Fields.field k v fs) buf h =
      Ensures->>= (FieldsGrow buf) (buffer_from_object rt k utf8) _ λ b.
        let a = get_buffer-Grows buf b h in
        Ensures-then (NodeGrows (get_buffer buf b)) (FieldsGrow buf)
          (populate_node rt v (get_buffer buf b)) _ (node_grows rt v (get_buffer buf b) a.room)
          λ n g.
            Ensures-then (FieldsGrow n.1) (FieldsGrow buf) (populate_fields rt fs n.1) _
              (fields_grow rt fs n.1 g.room) (λ r e. Grows-trans a (Grows-trans g e))

-- When a JSON value has been built, there is room for every buffer in use, and these hold exactly
-- the texts that the node points to, keys included, in the order in which they are met.
pub json_from_object_buffers :
    (rt : Runtime) (v : Value) (n : Node) (buf : JsonBuffer)
    → json_from_object rt v ≡ ok (n, buf)
    → HasRoom buf × (map buffer_bytes buf.buffers ≡ texts_of_node n)
unfolding json_from_object
json_from_object_buffers rt v n buf e =
    let g =
      Ensures-ok (NodeGrows empty_json_buffer) (populate_node rt v empty_json_buffer) (n, buf)
        (node_grows rt v empty_json_buffer (omega arith)) e in
    (g.room, ap (map buffer_bytes) g.kept ∙ g.holds)
