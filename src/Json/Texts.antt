-- ===== src/Json/Texts.antt =====
-- The texts of a JSON node, and the buffers that a conversion keeps them in (src/cxoJsonBuffer.c).
use mathlib.Core.List.{append_assoc, append-nil, map-append}
use python_cx_oracle.Prelude.{
  ℕ, ◌≤◌, ◌≡◌, refl, sym, ap, subst, ◌∙◌, inl, inr, false, some, List, [], ◌∷◌, ◌++◌, map, arith,
  length, length-append, Bool-cases,
}
use python_cx_oracle.Error.{ok, ◌>>=◌, Ensures, Ensures->>=}
use python_cx_oracle.Types.{TransformNum}
use python_cx_oracle.Py.{Value}
use python_cx_oracle.Transform.{
  Runtime, DbValue, Node, Nodes, NodeFields, Buffer, buffer_from_object, Write, from_text,
  from_number, text_of_number, from_datetime, from_timedelta, from_boolean, object_is_true,
  is_number, from_python_scalar,
}
use python_cx_oracle.Json.Populate.{
  utf8, json_encodings, JsonBuffer, get_buffer, buffer_bytes, write_value, keep_buffer,
  json_transform,
}

-- The texts that a node points to, in the order in which they are met.
unfoldable mutual
  pub texts_of_value : DbValue → List (List ℕ)
  texts_of_value (DbValue.as_bytes b) = b ∷ []
  texts_of_value (DbValue.as_json_array ns) = texts_of_nodes ns
  texts_of_value (DbValue.as_json_object fs) = texts_of_fields fs
  texts_of_value _ = []

  pub texts_of_node : Node → List (List ℕ)
  texts_of_node (Node.node o n db) = texts_of_value db

  pub texts_of_nodes : Nodes → List (List ℕ)
  texts_of_nodes Nodes.nil = []
  texts_of_nodes (Nodes.cons n ns) = texts_of_node n ++ texts_of_nodes ns

  pub texts_of_fields : NodeFields → List (List ℕ)
  texts_of_fields NodeFields.end = []
  texts_of_fields (NodeFields.field k n fs) = k ∷ (texts_of_node n ++ texts_of_fields fs)

-- There is room for the buffers in use.
abbrev pub HasRoom : JsonBuffer → Type 0
HasRoom buf = length buf.buffers ≤ buf.allocated_buffers

-- From one state of the JSON buffer to a later one: buffers were added behind those that were
-- there, these hold the given texts, and there is still room.
pub record Grows (buf later : JsonBuffer) (texts : List (List ℕ)) : Type 0 where
  pub added : List Buffer
  pub kept : later.buffers ≡ buf.buffers ++ added
  pub holds : map buffer_bytes added ≡ texts
  pub room : HasRoom later

get_buffer-HasRoom : (buf : JsonBuffer) (b : Buffer) → HasRoom buf → HasRoom (get_buffer buf b)
unfolding get_buffer
get_buffer-HasRoom buf b h = ground (arith, length-append buf.buffers (b ∷ []))

pub get_buffer-Grows :
    (buf : JsonBuffer) (b : Buffer)
    → HasRoom buf
    → Grows buf (get_buffer buf b) (buffer_bytes b ∷ [])
unfolding get_buffer
get_buffer-Grows buf b h = record {
  added = b ∷ [];
  kept = refl;
  holds = refl;
  room = get_buffer-HasRoom buf b h;
}

pub Grows-refl : (buf : JsonBuffer) → HasRoom buf → Grows buf buf []
Grows-refl buf h = record {
  added = [];
  kept = sym (append-nil buf.buffers);
  holds = refl;
  room = h;
}

pub Grows-trans :
    {a b c : JsonBuffer} {s t : List (List ℕ)} → Grows a b s → Grows b c t → Grows a c (s ++ t)
Grows-trans {a} {s = s} g h = record {
  added = g.added ++ h.added;
  kept = h.kept ∙ ap (λ l. l ++ h.added) g.kept ∙ append_assoc a.buffers g.added h.added;
  holds =
      map-append buffer_bytes g.added h.added
      ∙ ap (λ l. l ++ map buffer_bytes h.added) g.holds
      ∙ ap (◌++◌ s) h.holds;
  room = h.room;
}

-- A write keeps a buffer exactly for the text that it points to.
abbrev pub KeepsText : Write → Type 0
KeepsText w =
    (buf : JsonBuffer)
    → HasRoom buf
    → Grows buf (keep_buffer w buf) (texts_of_value (write_value w))

bytes_kept : (b : Buffer) → KeepsText (Write.store_bytes b)
unfolding texts_of_value
bytes_kept b buf h = get_buffer-Grows buf b h

text_kept : (rt : Runtime) (e : ℕ) (v : Value) → Ensures KeepsText (from_text rt e v)
unfolding from_text
text_kept rt e v =
    Ensures->>= KeepsText (buffer_from_object rt v e) (λ b. ok (Write.store_bytes b)) bytes_kept

number_text_kept : (rt : Runtime) (e : ℕ) (v : Value) → Ensures KeepsText (text_of_number rt e v)
unfolding text_of_number
number_text_kept rt e v = elim (Bool-cases (is_number v)) [
  | inl n ↦ rw n (
      Ensures->>= KeepsText (rt.str_of v)
        (λ s. buffer_from_object rt (Value.str s) e >>= λ b. ok (Write.store_bytes b))
        (λ s.
          Ensures->>= KeepsText (buffer_from_object rt (Value.str s) e)
            (λ b. ok (Write.store_bytes b)) bytes_kept))
  | inr n ↦ rw n tt
]

number_kept : (rt : Runtime) (e : ℕ) (v : Value) → Ensures KeepsText (from_number rt e v)
unfolding from_number
number_kept rt e (Value.bool b) = bytes_kept _
number_kept rt e v = number_text_kept rt e v

datetime_kept : (v : Value) → Ensures KeepsText (from_datetime v)
unfolding from_datetime texts_of_value
datetime_kept (Value.datetime t) = Grows-refl
datetime_kept (Value.date d) = Grows-refl
datetime_kept _ = tt

timedelta_kept : (v : Value) → Ensures KeepsText (from_timedelta v)
unfolding from_timedelta texts_of_value
timedelta_kept (Value.delta d) = Grows-refl
timedelta_kept _ = tt

boolean_kept : (rt : Runtime) (v : Value) → Ensures KeepsText (from_boolean rt v)
unfolding from_boolean texts_of_value
boolean_kept rt v =
    Ensures->>= KeepsText (object_is_true rt v) (λ b. ok (Write.store (DbValue.as_boolean b)))
      (λ b. Grows-refl)

-- The transforms that JSON values use write texts into acquired buffers only.
as_transform :
    (rt : Runtime) (v : Value) (u t : TransformNum)
    → u ≡ t
    → Ensures KeepsText (from_python_scalar rt json_encodings false u v)
    → Ensures KeepsText (from_python_scalar rt json_encodings false t v)
as_transform rt v u t e h =
    subst (λ x. Ensures KeepsText (from_python_scalar rt json_encodings false x v)) e h

-- What the conversion of a JSON scalar writes: no bytes, or bytes in a buffer that is kept.
pub json_write_kept :
    (rt : Runtime) (s t : TransformNum) (v : Value)
    → json_transform s ≡ some t
    → Ensures KeepsText (from_python_scalar rt json_encodings false t v)
unfolding json_transform from_python_scalar
json_write_kept rt TransformNum.string t v e =
    as_transform rt v TransformNum.string t (cc) (text_kept rt utf8 v)
json_write_kept rt TransformNum.binary t v e =
    as_transform rt v TransformNum.binary t (cc) (text_kept rt utf8 v)
json_write_kept rt TransformNum.int t v e =
    as_transform rt v TransformNum.int t (cc) (number_kept rt utf8 v)
json_write_kept rt TransformNum.float t v e =
    as_transform rt v TransformNum.float t (cc) (number_kept rt utf8 v)
json_write_kept rt TransformNum.decimal t v e =
    as_transform rt v TransformNum.decimal t (cc) (number_kept rt utf8 v)
json_write_kept rt TransformNum.datetime t v e =
    as_transform rt v TransformNum.timestamp t (cc) (datetime_kept v)
json_write_kept rt TransformNum.boolean t v e =
    as_transform rt v TransformNum.boolean t (cc) (boolean_kept rt v)
json_write_kept rt TransformNum.date t v e =
    as_transform rt v TransformNum.date t (cc) (datetime_kept v)
json_write_kept rt TransformNum.timedelta t v e =
    as_transform rt v TransformNum.timedelta t (cc) (timedelta_kept v)
json_write_kept rt _ t v e = cc
