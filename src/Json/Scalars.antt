-- ===== src/Json/Scalars.antt =====
-- The scalar values that are stored as JSON and read back.
use python_cx_oracle.Prelude.{
  take_all, ℕ, ◌≤◌, ◌<◌, ◌^◌, ◌≡◌, refl, ap, Bool, true, le→ltb, List, arith, length, take,
}
use python_cx_oracle.Error.{ok, ◌>>=◌}
use python_cx_oracle.Types.{TransformNum, NativeTypeNum, OracleTypeNum}
use python_cx_oracle.Py.{Value, Date, DateTime, Delta}
use python_cx_oracle.Py.Calendar.{is_valid_date, is_valid_time, IsNormal}
use python_cx_oracle.Transform.{
  Runtime, Context, DbValue, Node, Buffer, get_num_from_python_value, midnight_of, timestamp_of,
  interval_of, to_uint32,
}
use python_cx_oracle.Transform.Roundtrip.{to_timedelta-interval_of, make_datetime_valid}
use python_cx_oracle.Json.Populate.{
  utf8, JsonBuffer, get_buffer, buffer_bytes, populate_scalar, populate_node,
}
use python_cx_oracle.Json.Read.{read_node}
use python_cx_oracle.Json.Back.{Encodes, Prints, Number, Decodes, Survives}

-- A buffer shows all of its bytes if there are fewer than 2^32.
pub shows_all : (xs : List ℕ) → length xs < 2 ^ 32 → take (to_uint32 (length xs)) xs ≡ xs
shows_all xs h = take_all (to_uint32 (length xs)) xs (omega arith)

-- The buffer of a text with its encoded bytes.
abbrev pub text_buffer : List ℕ → List ℕ → Buffer
text_buffer s b = record {
  ptr = b;
  size = to_uint32 (length b);
  num_characters = to_uint32 (length s);
}

module _ (rt : Runtime) (ctx : Context) (new : 12 ≤ rt.version) (decodes : Decodes rt)
    (in_utf8 : ctx.bytes_encoding ≡ utf8) where
  pub decodes_back :
      (s : List ℕ) (e : Encodes rt s)
      → rt.decode ctx.bytes_encoding ctx.encoding_errors (take (to_uint32 (length e.bytes)) e.bytes)
        ≡ ok s
  decodes_back s e =
      rw (in_utf8)
        (rw (shows_all e.bytes e.short) (decodes s e.bytes ctx.encoding_errors e.encoded))

  pub str-Survives :
      (buf : JsonBuffer) (s : List ℕ)
      → Encodes rt s
      → Survives rt ctx buf (Value.str s) (Value.str s)
  unfolding populate_node populate_scalar read_node
  str-Survives buf s e = (
    (
      Node.node OracleTypeNum.varchar NativeTypeNum.bytes
          (DbValue.as_bytes (buffer_bytes (text_buffer s e.bytes))),
      get_buffer buf (text_buffer s e.bytes),
    ),
    rw e.encoded refl,
    rw (decodes_back s e) refl,
  )

  pub bytes-Survives :
      (buf : JsonBuffer) (s : List ℕ)
      → length s < 2 ^ 32
      → Survives rt ctx buf (Value.bytes s) (Value.bytes s)
  unfolding populate_node populate_scalar read_node
  bytes-Survives buf s h = (
    (
      Node.node OracleTypeNum.raw NativeTypeNum.bytes
          (DbValue.as_bytes (buffer_bytes (text_buffer s s))),
      get_buffer buf (text_buffer s s),
    ),
    refl,
    rw (shows_all s h) refl,
  )

  pub number_populates :
      (buf : JsonBuffer) {v : Value} (d : List ℕ) (p : Prints rt v d)
      → Number v
      → populate_node rt v buf
        ≡ ok (
          Node.node OracleTypeNum.number NativeTypeNum.bytes
              (DbValue.as_bytes (buffer_bytes (text_buffer p.text p.encodes.bytes))),
          get_buffer buf (text_buffer p.text p.encodes.bytes),
        )
  unfolding populate_node populate_scalar
  number_populates buf d p (Number.int n) = rw p.printed (rw p.encodes.encoded refl)
  number_populates buf d p (Number.float x) = rw p.printed (rw p.encodes.encoded refl)
  number_populates buf d p (Number.decimal x) = rw p.printed (rw p.encodes.encoded refl)

  pub number-Survives :
      (buf : JsonBuffer) {v : Value} (d : List ℕ)
      → Number v
      → Prints rt v d
      → Survives rt ctx buf v (Value.decimal d)
  unfolding read_node
  number-Survives buf d k p =
      (_, number_populates buf d p k, rw (decodes_back p.text p.encodes) (rw p.parsed refl))

  pub is_boolean :
      (b : Bool) → get_num_from_python_value rt.version true (Value.bool b) ≡ TransformNum.boolean
  unfolding get_num_from_python_value
  is_boolean b = rw (le→ltb rt.version 12 new) refl

  pub bool-Survives :
      (buf : JsonBuffer) (b : Bool) → Survives rt ctx buf (Value.bool b) (Value.bool b)
  unfolding populate_node populate_scalar read_node
  bool-Survives buf b = (
    (Node.node OracleTypeNum.boolean NativeTypeNum.boolean (DbValue.as_boolean b), buf),
    rw (is_boolean b, populate_node, populate_scalar) refl,
    refl,
  )

  pub delta-Survives :
      (buf : JsonBuffer) (d : Delta)
      → IsNormal d
      → Survives rt ctx buf (Value.delta d) (Value.delta d)
  unfolding populate_node populate_scalar read_node
  delta-Survives buf d n = (
    (
      Node.node OracleTypeNum.interval_ds NativeTypeNum.interval_ds
          (DbValue.as_interval_ds (interval_of d)),
      buf,
    ),
    refl,
    to_timedelta-interval_of d n,
  )

  pub datetime-Survives :
      (buf : JsonBuffer) (t : DateTime)
      → is_valid_date t.date ≡ true
      → is_valid_time t ≡ true
      → Survives rt ctx buf (Value.datetime t) (Value.datetime t)
  unfolding populate_node populate_scalar read_node
  datetime-Survives buf t d h = (
    (
      Node.node OracleTypeNum.timestamp NativeTypeNum.timestamp
          (DbValue.as_timestamp (timestamp_of t)),
      buf,
    ),
    refl,
    ap (λ m. m >>= λ e. ok (Value.datetime e)) (make_datetime_valid t d h),
  )

  pub date-Survives :
      (buf : JsonBuffer) (d : Date)
      → is_valid_date d ≡ true
      → Survives rt ctx buf (Value.date d) (Value.datetime (midnight_of d))
  unfolding populate_node populate_scalar read_node is_valid_time
  date-Survives buf d h = (
    (
      Node.node OracleTypeNum.date NativeTypeNum.timestamp
          (DbValue.as_timestamp (timestamp_of (midnight_of d))),
      buf,
    ),
    refl,
    ap (λ m. m >>= λ e. ok (Value.datetime e)) (make_datetime_valid (midnight_of d) h refl),
  )
