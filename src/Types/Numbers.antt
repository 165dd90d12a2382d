-- ===== src/Types/Numbers.antt =====
-- The enumerations: transforms, ODPI-C type numbers, database types, DB API types. The comparison
-- functions are the C code's `==` on them.
use mathlib.Core.Bool.{false≢true}
use python_cx_oracle.Prelude.{
  ℕ, ◌≡◌, ◌≢◌, ◌↔◌, ◌⊎◌, inl, inr, refl, sym, ap, ◌∙◌, Bool, true, false, Bool-cases, ◌==◌, ==_iff,
  some, List, [], ◌∷◌, get_elem?,
}

-- cxoTransformNum, in the order of the C enumeration.
pub data TransformNum : Type 0 where
  none binary bfile blob boolean clob cursor date datetime decimal fixed_char : TransformNum
  fixed_nchar float int long_binary long_string native_double native_float : TransformNum
  native_int nclob nstring object rowid string timedelta timestamp timestamp_ltz : TransformNum
  timestamp_tz json unsupported : TransformNum

-- The value of the C enumerator.
abbrev pub transform_index : TransformNum → ℕ
transform_index TransformNum.none = 0
transform_index TransformNum.binary = 1
transform_index TransformNum.bfile = 2
transform_index TransformNum.blob = 3
transform_index TransformNum.boolean = 4
transform_index TransformNum.clob = 5
transform_index TransformNum.cursor = 6
transform_index TransformNum.date = 7
transform_index TransformNum.datetime = 8
transform_index TransformNum.decimal = 9
transform_index TransformNum.fixed_char = 10
transform_index TransformNum.fixed_nchar = 11
transform_index TransformNum.float = 12
transform_index TransformNum.int = 13
transform_index TransformNum.long_binary = 14
transform_index TransformNum.long_string = 15
transform_index TransformNum.native_double = 16
transform_index TransformNum.native_float = 17
transform_index TransformNum.native_int = 18
transform_index TransformNum.nclob = 19
transform_index TransformNum.nstring = 20
transform_index TransformNum.object = 21
transform_index TransformNum.rowid = 22
transform_index TransformNum.string = 23
transform_index TransformNum.timedelta = 24
transform_index TransformNum.timestamp = 25
transform_index TransformNum.timestamp_ltz = 26
transform_index TransformNum.timestamp_tz = 27
transform_index TransformNum.json = 28
transform_index TransformNum.unsupported = 29

-- dpiOracleTypeNum, as far as the code names it.
pub data OracleTypeNum : Type 0 where
  none varchar nvarchar char nchar rowid raw native_double native_float : OracleTypeNum
  native_int number date timestamp timestamp_tz timestamp_ltz interval_ds : OracleTypeNum
  interval_ym clob nclob blob bfile stmt json_object json_array object : OracleTypeNum
  long_varchar long_raw boolean json : OracleTypeNum

-- dpiNativeTypeNum.
pub data NativeTypeNum : Type 0 where
  bytes lob boolean stmt timestamp double float int64 object rowid interval_ds : NativeTypeNum
  json null json_object json_array : NativeTypeNum

-- The cxoDbType objects that cxoModule.c creates; equality in C is equality of pointers.
pub data DbType : Type 0 where
  bfile binary_double binary_float binary_integer blob boolean char clob cursor date : DbType
  interval_ds interval_ym json long long_raw nchar nclob number nvarchar object raw : DbType
  rowid timestamp timestamp_ltz timestamp_tz varchar : DbType

-- The cxoApiType objects.
pub data ApiType : Type 0 where
  binary datetime number rowid string : ApiType

-- `==` on transform numbers.
abbrev pub same_transform : TransformNum → TransformNum → Bool
same_transform t u = transform_index t == transform_index u

-- The transforms in the order of the enumeration.
abbrev enumerators : List TransformNum
enumerators =
    TransformNum.none ∷ TransformNum.binary ∷ TransformNum.bfile ∷ TransformNum.blob
    ∷ TransformNum.boolean ∷ TransformNum.clob ∷ TransformNum.cursor ∷ TransformNum.date
    ∷ TransformNum.datetime ∷ TransformNum.decimal ∷ TransformNum.fixed_char
    ∷ TransformNum.fixed_nchar ∷ TransformNum.float ∷ TransformNum.int ∷ TransformNum.long_binary
    ∷ TransformNum.long_string ∷ TransformNum.native_double ∷ TransformNum.native_float
    ∷ TransformNum.native_int ∷ TransformNum.nclob ∷ TransformNum.nstring ∷ TransformNum.object
    ∷ TransformNum.rowid ∷ TransformNum.string ∷ TransformNum.timedelta ∷ TransformNum.timestamp
    ∷ TransformNum.timestamp_ltz ∷ TransformNum.timestamp_tz ∷ TransformNum.json
    ∷ TransformNum.unsupported ∷ []

enumerator_found : (t : TransformNum) → get_elem? enumerators (transform_index t) ≡ some t
enumerator_found TransformNum.none = refl
enumerator_found _ = refl

pub transform_index-injective : (t u : TransformNum) → transform_index t ≡ transform_index u → t ≡ u
transform_index-injective t u e =
    let p : some t ≡ some u =
      sym (enumerator_found t) ∙ ap (get_elem? enumerators) e ∙ enumerator_found u in
    cc

pub same_transform_iff : (t u : TransformNum) → (same_transform t u ≡ true) ↔ (t ≡ u)
same_transform_iff t u = (
  λ h. transform_index-injective t u ((==_iff (transform_index t) (transform_index u)).0 h),
  λ e. (==_iff (transform_index t) (transform_index u)).1 (ap transform_index e),
)

-- A split on the comparison of two transforms.
pub same_transform-cases :
    (t u : TransformNum)
    → ((same_transform t u ≡ true) × (t ≡ u)) ⊎ ((same_transform t u ≡ false) × (t ≢ u))
same_transform-cases t u = elim (Bool-cases (same_transform t u)) [
  | inl e ↦ inl (e, (same_transform_iff t u).0 e)
  | inr e ↦ inr (e, λ h. false≢true (sym e ∙ (same_transform_iff t u).1 h))
]
