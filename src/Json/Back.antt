-- ===== src/Json/Back.antt =====
-- Which Python value comes back for one that is stored as JSON, and what that takes.
use python_cx_oracle.Prelude.{
  ℕ, ◌<◌, ◌^◌, ◌≡◌, Bool, true, false, Option, List, [], ◌∷◌, ◌++◌, length,
}
use python_cx_oracle.Prelude.Int.{ℤ}
use python_cx_oracle.Error.{ok}
use python_cx_oracle.Py.{Value, Values, Fields, Date, DateTime, Delta}
use python_cx_oracle.Py.Calendar.{is_valid_date, is_valid_time, IsNormal}
use python_cx_oracle.Transform.{Runtime, Context, Node, midnight_of}
use python_cx_oracle.Json.Populate.{utf8, JsonBuffer, populate_node}
use python_cx_oracle.Json.Read.{same_text, dict_of, read_node}

-- No entry has the key.
abbrev pub Lacks : List (List ℕ × Value) → List ℕ → Type 0
Lacks [] k = Unit {0}
Lacks ((j, v) ∷ kvs) k = (same_text j k ≡ false) × Lacks kvs k

-- A text that has an encoding shorter than 2^32 bytes.
pub record Encodes (rt : Runtime) (s : List ℕ) : Type 0 where
  pub bytes : List ℕ
  pub encoded : rt.encode utf8 s ≡ ok bytes
  pub short : length bytes < 2 ^ 32

-- A number that has a text, which can be encoded, and which Decimal() reads as `d`.
pub record Prints (rt : Runtime) (v : Value) (d : List ℕ) : Type 0 where
  pub text : List ℕ
  pub printed : rt.str_of v ≡ ok text
  pub encodes : Encodes rt text
  pub parsed : rt.parse_decimal text ≡ ok d

-- The numbers, without the Booleans that Python counts among them.
pub data Number : Value → Type 0 where
  int : (n : ℤ) → Number (Value.int n)
  float : (x : ℕ) → Number (Value.float x)
  decimal : (x : List ℕ) → Number (Value.decimal x)

-- Which value comes back for a value: numbers of any kind as Decimal, dates as datetimes, all else
-- as it was, containers by their elements. The keys of a dictionary are distinct texts.
mutual
  pub data Back (rt : Runtime) : Value → Value → Type 0 where
    none : Back rt Value.none Value.none
    bool : (b : Bool) → Back rt (Value.bool b) (Value.bool b)
    str : (s : List ℕ) → Encodes rt s → Back rt (Value.str s) (Value.str s)
    bytes : (s : List ℕ) → length s < 2 ^ 32 → Back rt (Value.bytes s) (Value.bytes s)
    number : {v : Value} (d : List ℕ) → Number v → Prints rt v d → Back rt v (Value.decimal d)
    datetime :
        (t : DateTime)
        → is_valid_date t.date ≡ true
        → is_valid_time t ≡ true
        → Back rt (Value.datetime t) (Value.datetime t)
    date :
        (d : Date)
        → is_valid_date d ≡ true
        → Back rt (Value.date d) (Value.datetime (midnight_of d))
    delta : (d : Delta) → IsNormal d → Back rt (Value.delta d) (Value.delta d)
    list : {vs ws : Values} → BackAll rt vs ws → Back rt (Value.list vs) (Value.list ws)
    dict :
        {fs : Fields} {kvs : List (List ℕ × Value)}
        → BackFields rt [] fs kvs
        → Back rt (Value.dict fs) (Value.dict (dict_of kvs))

  pub data BackAll (rt : Runtime) : Values → Values → Type 0 where
    nil : BackAll rt Values.nil Values.nil
    cons :
        {v w : Value} {vs ws : Values}
        → Back rt v w
        → BackAll rt vs ws
        → BackAll rt (Values.cons v vs) (Values.cons w ws)

  -- The entries read so far, those to come, and all of them.
  pub data BackFields (rt : Runtime)
      : List (List ℕ × Value) → Fields → List (List ℕ × Value) → Type 0 where
    end : (acc : List (List ℕ × Value)) → BackFields rt acc Fields.end acc
    field :
        {acc kvs : List (List ℕ × Value)} {v w : Value} {fs : Fields} (k : List ℕ)
        → Encodes rt k
        → Lacks acc k
        → Back rt v w
        → BackFields rt (acc ++ (k, w) ∷ []) fs kvs
        → BackFields rt acc (Fields.field (Value.str k) v fs) kvs

-- What is asked of the runtime: decoding undoes encoding.
abbrev pub Decodes : Runtime → Type 0
Decodes rt = (s b : List ℕ) (e : Option ℕ) → rt.encode utf8 s ≡ ok b → rt.decode utf8 e b ≡ ok s

-- The value is built and read back as another.
abbrev pub Survives : Runtime → Context → JsonBuffer → Value → Value → Type 0
Survives rt ctx buf v w =
    (r : Node × JsonBuffer) × (populate_node rt v buf ≡ ok r) × (read_node rt ctx r.0 ≡ ok w)
