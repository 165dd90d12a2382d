-- ===== src/Json/Roundtrip.antt =====
-- A Python value that is stored as JSON and read back.
use python_cx_oracle.Prelude.{ℕ, ◌≤◌, ◌≡◌, refl, ap, Option, List, [], ◌∷◌, ◌++◌}
use python_cx_oracle.Error.{ok}
use python_cx_oracle.Types.{NativeTypeNum, OracleTypeNum}
use python_cx_oracle.Py.{Value, Values, Fields}
use python_cx_oracle.Transform.{Runtime, Context, DbValue, Node, Nodes, NodeFields}
use python_cx_oracle.Json.Populate.{
  utf8, JsonBuffer, get_buffer, buffer_bytes, populate_node, populate_items, populate_fields,
}
use python_cx_oracle.Json.Read.{
  set_item, dict_of, read_node, read_array, read_object, read_nodes, read_fields,
}
use python_cx_oracle.Json.Back.{Lacks, Encodes, Back, BackAll, BackFields, Decodes, Survives}
use python_cx_oracle.Json.Scalars.{
  shows_all, text_buffer, str-Survives, bytes-Survives, number-Survives, bool-Survives,
  delta-Survives, datetime-Survives, date-Survives,
}

set_item-append :
    (kvs : List (List ℕ × Value)) (k : List ℕ) (v : Value)
    → Lacks kvs k
    → set_item kvs k v ≡ kvs ++ (k, v) ∷ []
set_item-append [] k v h = refl
set_item-append ((j, w) ∷ kvs) k v h = rw h.0 (ap (◌∷◌ (j, w)) (set_item-append kvs k v h.1))

module _ (rt : Runtime) (ctx : Context) (new : 12 ≤ rt.version) (decodes : Decodes rt)
    (in_utf8 : ctx.bytes_encoding ≡ utf8) where
  abbrev ItemsSurvive : JsonBuffer → Values → Values → Type 0
  ItemsSurvive buf vs ws =
      (r : Nodes × JsonBuffer) × (populate_items rt vs buf ≡ ok r) × (read_nodes rt ctx r.0 ≡ ok ws)

  abbrev FieldsSurvive :
      JsonBuffer → List (List ℕ × Value) → Fields → List (List ℕ × Value) → Type 0
  FieldsSurvive buf acc fs kvs =
      (r : NodeFields × JsonBuffer) × (populate_fields rt fs buf ≡ ok r)
      × (read_fields rt ctx r.0 acc ≡ ok kvs)

  cons-Survives :
      (buf : JsonBuffer) (v w : Value) (vs ws : Values)
      → (a : Survives rt ctx buf v w) → ItemsSurvive a.0.1 vs ws
      → ItemsSurvive buf (Values.cons v vs) (Values.cons w ws)
  unfolding populate_items read_nodes
  cons-Survives buf v w vs ws (n, p, q) (r, s, t) =
      ((Nodes.cons n.0 r.0, r.1), rw p (rw s refl), rw q (rw t refl))

  field-Survives :
      (buf : JsonBuffer) (acc kvs : List (List ℕ × Value)) (v w : Value) (fs : Fields) (k : List ℕ)
      → (e : Encodes rt k) → Lacks acc k
      → (a : Survives rt ctx (get_buffer buf (text_buffer k e.bytes)) v w)
      → FieldsSurvive a.0.1 (acc ++ (k, w) ∷ []) fs kvs
      → FieldsSurvive buf acc (Fields.field (Value.str k) v fs) kvs
  unfolding populate_fields read_fields
  field-Survives buf acc kvs v w fs k e l (n, p, q) (r, s, t) = (
    (NodeFields.field (buffer_bytes (text_buffer k e.bytes)) n.0 r.0, r.1),
    rw e.encoded (rw p (rw s refl)),
    rw (shows_all e.bytes e.short)
        (rw (decodes k e.bytes Option.none e.encoded) (rw q (rw (set_item-append acc k w l) t))),
  )

  list-Survives :
      (buf : JsonBuffer) (vs ws : Values)
      → ItemsSurvive buf vs ws
      → Survives rt ctx buf (Value.list vs) (Value.list ws)
  unfolding populate_node populate_items read_node read_array
  list-Survives buf vs ws (r, s, t) = (
    (Node.node OracleTypeNum.json_array NativeTypeNum.json_array (DbValue.as_json_array r.0), r.1),
    rw s refl,
    rw t refl,
  )

  dict-Survives :
      (buf : JsonBuffer) (fs : Fields) (kvs : List (List ℕ × Value))
      → FieldsSurvive buf [] fs kvs
      → Survives rt ctx buf (Value.dict fs) (Value.dict (dict_of kvs))
  unfolding populate_node populate_fields read_node read_object
  dict-Survives buf fs kvs (r, s, t) = (
    (
      Node.node OracleTypeNum.json_object NativeTypeNum.json_object (DbValue.as_json_object r.0),
      r.1,
    ),
    rw s refl,
    rw t refl,
  )

  none-Survives : (buf : JsonBuffer) → Survives rt ctx buf Value.none Value.none
  unfolding populate_node read_node
  none-Survives buf = (_, refl, refl)

  end_survives :
      (buf : JsonBuffer) (acc : List (List ℕ × Value)) → FieldsSurvive buf acc Fields.end acc
  unfolding populate_fields read_fields
  end_survives buf acc = (_, refl, refl)

  nil_survives : (buf : JsonBuffer) → ItemsSurvive buf Values.nil Values.nil
  unfolding populate_items read_nodes
  nil_survives buf = (_, refl, refl)

  mutual
    node-Survives : {v w : Value} (buf : JsonBuffer) → Back rt v w → Survives rt ctx buf v w
    node-Survives buf Back.none = none-Survives buf
    node-Survives buf (Back.bool b) = bool-Survives rt ctx new decodes in_utf8 buf b
    node-Survives buf (Back.str s e) = str-Survives rt ctx new decodes in_utf8 buf s e
    node-Survives buf (Back.bytes s h) = bytes-Survives rt ctx new decodes in_utf8 buf s h
    node-Survives buf (Back.number d k p) = number-Survives rt ctx new decodes in_utf8 buf d k p
    node-Survives buf (Back.datetime t d h) = datetime-Survives rt ctx new decodes in_utf8 buf t d h
    node-Survives buf (Back.date d h) = date-Survives rt ctx new decodes in_utf8 buf d h
    node-Survives buf (Back.delta d n) = delta-Survives rt ctx new decodes in_utf8 buf d n
    node-Survives buf (Back.list {vs = vs} {ws = ws} b) =
        list-Survives buf vs ws (items_survive buf b)
    node-Survives buf (Back.dict {fs = fs} {kvs = kvs} b) =
        dict-Survives buf fs kvs (fields_survive buf b)

    items_survive : {vs ws : Values} (buf : JsonBuffer) → BackAll rt vs ws → ItemsSurvive buf vs ws
    items_survive buf BackAll.nil = nil_survives buf
    items_survive buf (BackAll.cons {v = v} {w = w} {vs = vs} {ws = ws} b bs) =
        let a = node-Survives buf b in cons-Survives buf v w vs ws a (items_survive a.0.1 bs)

    fields_survive :
        {acc kvs : List (List ℕ × Value)} {fs : Fields} (buf : JsonBuffer)
        → BackFields rt acc fs kvs
        → FieldsSurvive buf acc fs kvs
    fields_survive buf (BackFields.end acc) = end_survives buf acc
    fields_survive buf
          (BackFields.field {acc = acc} {kvs = kvs} {v = v} {w = w} {fs = fs} k e l b bs) =
        let a = node-Survives (get_buffer buf (text_buffer k e.bytes)) b in
        field-Survives buf acc kvs v w fs k e l a (fields_survive a.0.1 bs)

-- With Oracle Client 12 or later, and if decoding undoes encoding, every value made of None, bool,
-- texts, bytes, numbers, dates, datetimes, timedeltas, lists and dictionaries with distinct text
-- keys can be stored as JSON, and reading the node gives the value back, numbers as Decimal and
-- dates as midnight.
pub json_roundtrip :
    (rt : Runtime) (ctx : Context) (buf : JsonBuffer) {v w : Value}
    → 12 ≤ rt.version
    → Decodes rt
    → ctx.bytes_encoding ≡ utf8
    → Back rt v w
    → Survives rt ctx buf v w
json_roundtrip rt ctx buf new decodes in_utf8 b = node-Survives rt ctx new decodes in_utf8 buf b
