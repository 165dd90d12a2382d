-- ===== src/Json/Tests.antt =====
-- The theorems on JSON values, at a dictionary with a list, numbers and a date.
use python_cx_oracle.Prelude.{ℕ, ◌<◌, ◌≡◌, refl, List, [], ◌∷◌, map, arith, length, ◌^◌}
use python_cx_oracle.Prelude.Int.{pos}
use python_cx_oracle.Error.{ok}
use python_cx_oracle.Types.{OracleTypeNum, NativeTypeNum}
use python_cx_oracle.Py.{Value, Values, Fields, codes}
use python_cx_oracle.Py.Calendar.{is_valid_date}
use python_cx_oracle.Transform.{Buffer, Node, Nodes, DbValue, buffer_from_object, midnight_of}
use python_cx_oracle.Transform.Tests.{sample_runtime, sample_context, noon}
use python_cx_oracle.Json.{
  dict_of, utf8, JsonBuffer, empty_json_buffer, json_from_object, buffer_bytes,
}
use python_cx_oracle.Json.Back.{
  Encodes, Prints, Number, Back, BackAll, BackFields, Decodes, Survives,
}
use python_cx_oracle.Json.Texts.{HasRoom, texts_of_node}
use python_cx_oracle.Json.Buffers.{json_from_object_buffers}
use python_cx_oracle.Json.Roundtrip.{json_roundtrip}

-- {"a": [7, None], "b": date(2020, 2, 29)}
abbrev sample : Value
sample = Value.dict (
    Fields.field (Value.str (codes "a"))
      (Value.list (Values.cons (Value.int (pos 7)) (Values.cons Value.none Values.nil)))
      (Fields.field (Value.str (codes "b")) (Value.date noon.date) Fields.end))

encodes : (s : List ℕ) → length s < 2 ^ 32 → Encodes sample_runtime s
encodes s h = record { bytes = s; encoded = refl; short = h }

decodes : Decodes sample_runtime
decodes s b e h = cc

abbrev sample_read : Value
sample_read = Value.dict (
    dict_of (
      (
        codes "a",
        Value.list (Values.cons (Value.decimal (codes "7")) (Values.cons Value.none Values.nil)),
      )
      ∷ (codes "b", Value.datetime (midnight_of noon.date))
      ∷ []))

seven-Prints : Prints sample_runtime (Value.int (pos 7)) (codes "7")
seven-Prints = record {
  text = codes "7";
  printed = refl;
  encodes = encodes (codes "7") (omega arith);
  parsed = refl;
}

sample-Back : Back sample_runtime sample sample_read
unfolding is_valid_date
sample-Back = Back.dict (
    BackFields.field (codes "a") (encodes (codes "a") (omega arith)) tt
      (Back.list (
        BackAll.cons (Back.number (codes "7") (Number.int (pos 7)) seven-Prints)
          (BackAll.cons Back.none BackAll.nil)))
      (BackFields.field (codes "b") (encodes (codes "b") (omega arith)) (refl, tt)
        (Back.date noon.date refl) (BackFields.end _)))

json_roundtrip_example :
    Survives sample_runtime
      (record sample_context { bytes_encoding = utf8 })
      empty_json_buffer
      sample
      sample_read
json_roundtrip_example =
    json_roundtrip sample_runtime (record sample_context { bytes_encoding = utf8 })
      empty_json_buffer (omega arith) decodes refl sample-Back

-- ["ab", "c"]
abbrev texts : Value
texts =
    Value.list
      (Values.cons (Value.str (codes "ab")) (Values.cons (Value.str (codes "c")) Values.nil))

abbrev buffer_of : List ℕ → ℕ → Buffer
buffer_of s n = record { ptr = s; size = n; num_characters = n }

abbrev texts_buffer : JsonBuffer
texts_buffer = record {
  allocated_buffers = 16;
  buffers = buffer_of (codes "ab") 2 ∷ buffer_of (codes "c") 1 ∷ [];
}

abbrev text_node : List ℕ → Node
text_node s = Node.node OracleTypeNum.varchar NativeTypeNum.bytes (DbValue.as_bytes s)

abbrev texts_node : Node
texts_node = Node.node OracleTypeNum.json_array NativeTypeNum.json_array (
    DbValue.as_json_array
      (Nodes.cons (text_node (codes "ab")) (Nodes.cons (text_node (codes "c")) Nodes.nil)))

texts_built : json_from_object sample_runtime texts ≡ ok (texts_node, texts_buffer)
unfolding json_from_object buffer_from_object
texts_built = refl

json_from_object_buffers_example :
    HasRoom texts_buffer × (map buffer_bytes texts_buffer.buffers ≡ texts_of_node texts_node)
json_from_object_buffers_example =
    json_from_object_buffers sample_runtime texts texts_node texts_buffer texts_built
