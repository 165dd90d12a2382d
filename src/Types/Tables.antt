-- ===== src/Types/Tables.antt =====
-- The tables and the functions that read them.
use python_cx_oracle.Prelude.{
  ℕ, ◌*◌, Bool, false, ◌&&◌, ◌||◌, ◌==◌, Option, List, [], ◌∷◌, get_elem?, if◌then◌else◌,
}
use python_cx_oracle.Prelude.Int.{ℤ, pos, negsuc}
use python_cx_oracle.Error.{Result, ok, err, oracle_type_not_supported, transform_not_supported}
use python_cx_oracle.Types.Numbers.{
  TransformNum, OracleTypeNum, NativeTypeNum, DbType, ApiType, transform_index,
}

-- cxoTransform: a row of the table.
pub record Transform : Type 0 where
  pub transform_num : TransformNum
  pub oracle_type_num : OracleTypeNum
  pub native_type_num : NativeTypeNum

abbrev row : TransformNum → OracleTypeNum → NativeTypeNum → Transform
row t o n = record { transform_num = t; oracle_type_num = o; native_type_num = n }

-- cxoAllTransforms, in the order of the source.
unfoldable pub all_transforms : List Transform
all_transforms =
    row TransformNum.none OracleTypeNum.varchar NativeTypeNum.bytes
    ∷ row TransformNum.binary OracleTypeNum.raw NativeTypeNum.bytes
    ∷ row TransformNum.bfile OracleTypeNum.bfile NativeTypeNum.lob
    ∷ row TransformNum.blob OracleTypeNum.blob NativeTypeNum.lob
    ∷ row TransformNum.boolean OracleTypeNum.boolean NativeTypeNum.boolean
    ∷ row TransformNum.clob OracleTypeNum.clob NativeTypeNum.lob
    ∷ row TransformNum.cursor OracleTypeNum.stmt NativeTypeNum.stmt
    ∷ row TransformNum.date OracleTypeNum.date NativeTypeNum.timestamp
    ∷ row TransformNum.datetime OracleTypeNum.date NativeTypeNum.timestamp
    ∷ row TransformNum.decimal OracleTypeNum.number NativeTypeNum.bytes
    ∷ row TransformNum.fixed_char OracleTypeNum.char NativeTypeNum.bytes
    ∷ row TransformNum.fixed_nchar OracleTypeNum.nchar NativeTypeNum.bytes
    ∷ row TransformNum.float OracleTypeNum.number NativeTypeNum.bytes
    ∷ row TransformNum.int OracleTypeNum.number NativeTypeNum.bytes
    ∷ row TransformNum.long_binary OracleTypeNum.long_raw NativeTypeNum.bytes
    ∷ row TransformNum.long_string OracleTypeNum.long_varchar NativeTypeNum.bytes
    ∷ row TransformNum.native_double OracleTypeNum.native_double NativeTypeNum.double
    ∷ row TransformNum.native_float OracleTypeNum.native_float NativeTypeNum.float
    ∷ row TransformNum.native_int OracleTypeNum.native_int NativeTypeNum.int64
    ∷ row TransformNum.nclob OracleTypeNum.nclob NativeTypeNum.lob
    ∷ row TransformNum.nstring OracleTypeNum.nvarchar NativeTypeNum.bytes
    ∷ row TransformNum.object OracleTypeNum.object NativeTypeNum.object
    ∷ row TransformNum.rowid OracleTypeNum.rowid NativeTypeNum.rowid
    ∷ row TransformNum.string OracleTypeNum.varchar NativeTypeNum.bytes
    ∷ row TransformNum.timedelta OracleTypeNum.interval_ds NativeTypeNum.interval_ds
    ∷ row TransformNum.timestamp OracleTypeNum.timestamp NativeTypeNum.timestamp
    ∷ row TransformNum.timestamp_ltz OracleTypeNum.timestamp_ltz NativeTypeNum.timestamp
    ∷ row TransformNum.timestamp_tz OracleTypeNum.timestamp_tz NativeTypeNum.timestamp
    ∷ row TransformNum.json OracleTypeNum.json NativeTypeNum.json
    ∷ []

-- `none` is a read past the end of the table.
unfoldable pub get_type_info : TransformNum → Option Transform
unfolding all_transforms
get_type_info t = get_elem? all_transforms (transform_index t)

-- cxoTransform_getDefaultSize
unfoldable pub get_default_size : TransformNum → ℕ
get_default_size TransformNum.none = 1
get_default_size TransformNum.binary = 4000
get_default_size TransformNum.nstring = 4000
get_default_size TransformNum.string = 4000
get_default_size TransformNum.decimal = 1000
get_default_size TransformNum.float = 1000
get_default_size TransformNum.int = 1000
get_default_size TransformNum.fixed_char = 2000
get_default_size TransformNum.fixed_nchar = 2000
get_default_size TransformNum.long_binary = 128 * 1024
get_default_size TransformNum.long_string = 128 * 1024
get_default_size _ = 0

-- The fields of dpiDataTypeInfo that the transform depends on.
pub record DataTypeInfo : Type 0 where
  pub oracle_type_num : OracleTypeNum
  pub precision : ℤ
  pub scale : ℤ
  pub fs_precision : ℕ
  pub size_in_chars : ℕ
  pub client_size_in_bytes : ℕ

abbrev pub is_zero : ℤ → Bool
is_zero (pos n) = n == 0
is_zero (negsuc n) = false

-- The test for -127, the scale that ODPI-C reports for a NUMBER without one.
abbrev pub is_unscaled : ℤ → Bool
is_unscaled (pos n) = false
is_unscaled (negsuc n) = n == 126

-- The NUMBER case of cxoTransform_getNumFromDataTypeInfo.
abbrev pub number_transform : ℤ → ℤ → TransformNum
number_transform precision scale =
    if is_zero scale || (is_unscaled scale && is_zero precision)
    then TransformNum.int
    else TransformNum.float

-- cxoTransform_getNumFromDataTypeInfo, on the type number, the precision and the scale.
unfoldable pub transform_of_oracle_type : OracleTypeNum → ℤ → ℤ → TransformNum
transform_of_oracle_type OracleTypeNum.number precision scale = number_transform precision scale
transform_of_oracle_type OracleTypeNum.varchar _ _ = TransformNum.string
transform_of_oracle_type OracleTypeNum.nvarchar _ _ = TransformNum.nstring
transform_of_oracle_type OracleTypeNum.char _ _ = TransformNum.fixed_char
transform_of_oracle_type OracleTypeNum.nchar _ _ = TransformNum.fixed_nchar
transform_of_oracle_type OracleTypeNum.rowid _ _ = TransformNum.rowid
transform_of_oracle_type OracleTypeNum.raw _ _ = TransformNum.binary
transform_of_oracle_type OracleTypeNum.native_double _ _ = TransformNum.native_double
transform_of_oracle_type OracleTypeNum.native_float _ _ = TransformNum.native_float
transform_of_oracle_type OracleTypeNum.native_int _ _ = TransformNum.native_int
transform_of_oracle_type OracleTypeNum.date _ _ = TransformNum.datetime
transform_of_oracle_type OracleTypeNum.timestamp _ _ = TransformNum.timestamp
transform_of_oracle_type OracleTypeNum.timestamp_tz _ _ = TransformNum.timestamp_tz
transform_of_oracle_type OracleTypeNum.timestamp_ltz _ _ = TransformNum.timestamp_ltz
transform_of_oracle_type OracleTypeNum.interval_ds _ _ = TransformNum.timedelta
transform_of_oracle_type OracleTypeNum.clob _ _ = TransformNum.clob
transform_of_oracle_type OracleTypeNum.nclob _ _ = TransformNum.nclob
transform_of_oracle_type OracleTypeNum.blob _ _ = TransformNum.blob
transform_of_oracle_type OracleTypeNum.bfile _ _ = TransformNum.bfile
transform_of_oracle_type OracleTypeNum.stmt _ _ = TransformNum.cursor
transform_of_oracle_type OracleTypeNum.object _ _ = TransformNum.object
transform_of_oracle_type OracleTypeNum.long_varchar _ _ = TransformNum.long_string
transform_of_oracle_type OracleTypeNum.long_raw _ _ = TransformNum.long_binary
transform_of_oracle_type OracleTypeNum.boolean _ _ = TransformNum.boolean
transform_of_oracle_type OracleTypeNum.json _ _ = TransformNum.json
transform_of_oracle_type _ _ _ = TransformNum.unsupported

unfoldable pub get_num_from_data_type_info : DataTypeInfo → TransformNum
unfolding transform_of_oracle_type
get_num_from_data_type_info info =
    transform_of_oracle_type info.oracle_type_num info.precision info.scale

-- The number of a database type, from the CXO_ADD_DB_TYPE lines.
unfoldable pub db_type_num : DbType → OracleTypeNum
db_type_num DbType.bfile = OracleTypeNum.bfile
db_type_num DbType.binary_double = OracleTypeNum.native_double
db_type_num DbType.binary_float = OracleTypeNum.native_float
db_type_num DbType.binary_integer = OracleTypeNum.native_int
db_type_num DbType.blob = OracleTypeNum.blob
db_type_num DbType.boolean = OracleTypeNum.boolean
db_type_num DbType.char = OracleTypeNum.char
db_type_num DbType.clob = OracleTypeNum.clob
db_type_num DbType.cursor = OracleTypeNum.stmt
db_type_num DbType.date = OracleTypeNum.date
db_type_num DbType.interval_ds = OracleTypeNum.interval_ds
db_type_num DbType.interval_ym = OracleTypeNum.interval_ym
db_type_num DbType.json = OracleTypeNum.json
db_type_num DbType.long = OracleTypeNum.long_varchar
db_type_num DbType.long_raw = OracleTypeNum.long_raw
db_type_num DbType.nchar = OracleTypeNum.nchar
db_type_num DbType.nclob = OracleTypeNum.nclob
db_type_num DbType.number = OracleTypeNum.number
db_type_num DbType.nvarchar = OracleTypeNum.nvarchar
db_type_num DbType.object = OracleTypeNum.object
db_type_num DbType.raw = OracleTypeNum.raw
db_type_num DbType.rowid = OracleTypeNum.rowid
db_type_num DbType.timestamp = OracleTypeNum.timestamp
db_type_num DbType.timestamp_ltz = OracleTypeNum.timestamp_ltz
db_type_num DbType.timestamp_tz = OracleTypeNum.timestamp_tz
db_type_num DbType.varchar = OracleTypeNum.varchar

-- Its default transform, from the same lines.
unfoldable pub default_transform : DbType → TransformNum
default_transform DbType.bfile = TransformNum.bfile
default_transform DbType.binary_double = TransformNum.native_double
default_transform DbType.binary_float = TransformNum.native_float
default_transform DbType.binary_integer = TransformNum.native_int
default_transform DbType.blob = TransformNum.blob
default_transform DbType.boolean = TransformNum.boolean
default_transform DbType.char = TransformNum.fixed_char
default_transform DbType.clob = TransformNum.clob
default_transform DbType.cursor = TransformNum.cursor
default_transform DbType.date = TransformNum.datetime
default_transform DbType.interval_ds = TransformNum.timedelta
default_transform DbType.interval_ym = TransformNum.unsupported
default_transform DbType.json = TransformNum.json
default_transform DbType.long = TransformNum.long_string
default_transform DbType.long_raw = TransformNum.long_binary
default_transform DbType.nchar = TransformNum.fixed_nchar
default_transform DbType.nclob = TransformNum.nclob
default_transform DbType.number = TransformNum.float
default_transform DbType.nvarchar = TransformNum.nstring
default_transform DbType.object = TransformNum.object
default_transform DbType.raw = TransformNum.binary
default_transform DbType.rowid = TransformNum.rowid
default_transform DbType.timestamp = TransformNum.timestamp
default_transform DbType.timestamp_ltz = TransformNum.timestamp_ltz
default_transform DbType.timestamp_tz = TransformNum.timestamp_tz
default_transform DbType.varchar = TransformNum.string

-- cxoDbType_fromDataTypeInfo
unfoldable pub db_type_from_oracle_type : OracleTypeNum → Result DbType
db_type_from_oracle_type OracleTypeNum.varchar = ok DbType.varchar
db_type_from_oracle_type OracleTypeNum.nvarchar = ok DbType.nvarchar
db_type_from_oracle_type OracleTypeNum.char = ok DbType.char
db_type_from_oracle_type OracleTypeNum.nchar = ok DbType.nchar
db_type_from_oracle_type OracleTypeNum.rowid = ok DbType.rowid
db_type_from_oracle_type OracleTypeNum.raw = ok DbType.raw
db_type_from_oracle_type OracleTypeNum.native_double = ok DbType.binary_double
db_type_from_oracle_type OracleTypeNum.native_float = ok DbType.binary_float
db_type_from_oracle_type OracleTypeNum.native_int = ok DbType.binary_integer
db_type_from_oracle_type OracleTypeNum.number = ok DbType.number
db_type_from_oracle_type OracleTypeNum.date = ok DbType.date
db_type_from_oracle_type OracleTypeNum.timestamp = ok DbType.timestamp
db_type_from_oracle_type OracleTypeNum.timestamp_tz = ok DbType.timestamp_tz
db_type_from_oracle_type OracleTypeNum.timestamp_ltz = ok DbType.timestamp_ltz
db_type_from_oracle_type OracleTypeNum.interval_ds = ok DbType.interval_ds
db_type_from_oracle_type OracleTypeNum.interval_ym = ok DbType.interval_ym
db_type_from_oracle_type OracleTypeNum.clob = ok DbType.clob
db_type_from_oracle_type OracleTypeNum.nclob = ok DbType.nclob
db_type_from_oracle_type OracleTypeNum.blob = ok DbType.blob
db_type_from_oracle_type OracleTypeNum.bfile = ok DbType.bfile
db_type_from_oracle_type OracleTypeNum.stmt = ok DbType.cursor
db_type_from_oracle_type OracleTypeNum.object = ok DbType.object
db_type_from_oracle_type OracleTypeNum.long_varchar = ok DbType.long
db_type_from_oracle_type OracleTypeNum.long_raw = ok DbType.long_raw
db_type_from_oracle_type OracleTypeNum.boolean = ok DbType.boolean
db_type_from_oracle_type _ = err oracle_type_not_supported

-- cxoDbType_fromTransformNum
unfoldable pub db_type_from_transform : TransformNum → Result DbType
db_type_from_transform TransformNum.binary = ok DbType.raw
db_type_from_transform TransformNum.bfile = ok DbType.bfile
db_type_from_transform TransformNum.blob = ok DbType.blob
db_type_from_transform TransformNum.boolean = ok DbType.boolean
db_type_from_transform TransformNum.clob = ok DbType.clob
db_type_from_transform TransformNum.cursor = ok DbType.cursor
db_type_from_transform TransformNum.date = ok DbType.date
db_type_from_transform TransformNum.datetime = ok DbType.date
db_type_from_transform TransformNum.decimal = ok DbType.number
db_type_from_transform TransformNum.float = ok DbType.number
db_type_from_transform TransformNum.int = ok DbType.number
db_type_from_transform TransformNum.fixed_char = ok DbType.char
db_type_from_transform TransformNum.fixed_nchar = ok DbType.nchar
db_type_from_transform TransformNum.long_binary = ok DbType.long_raw
db_type_from_transform TransformNum.long_string = ok DbType.long
db_type_from_transform TransformNum.native_double = ok DbType.binary_double
db_type_from_transform TransformNum.native_float = ok DbType.binary_float
db_type_from_transform TransformNum.native_int = ok DbType.binary_integer
db_type_from_transform TransformNum.nclob = ok DbType.nclob
db_type_from_transform TransformNum.nstring = ok DbType.nvarchar
db_type_from_transform TransformNum.object = ok DbType.object
db_type_from_transform TransformNum.rowid = ok DbType.rowid
db_type_from_transform TransformNum.none = ok DbType.varchar
db_type_from_transform TransformNum.string = ok DbType.varchar
db_type_from_transform TransformNum.timedelta = ok DbType.interval_ds
db_type_from_transform TransformNum.timestamp = ok DbType.timestamp
db_type_from_transform TransformNum.timestamp_ltz = ok DbType.timestamp_ltz
db_type_from_transform TransformNum.timestamp_tz = ok DbType.timestamp_tz
db_type_from_transform TransformNum.json = ok DbType.json
db_type_from_transform _ = err transform_not_supported

-- The transform of a DB API type, from the CXO_ADD_API_TYPE lines.
unfoldable pub api_transform : ApiType → TransformNum
api_transform ApiType.binary = TransformNum.binary
api_transform ApiType.datetime = TransformNum.datetime
api_transform ApiType.number = TransformNum.float
api_transform ApiType.rowid = TransformNum.rowid
api_transform ApiType.string = TransformNum.string

-- The database types that an API type compares equal to, from CXO_ASSOCIATE_DB_TYPE.
unfoldable pub api_db_types : ApiType → List DbType
api_db_types ApiType.binary = DbType.long_raw ∷ DbType.raw ∷ []
api_db_types ApiType.datetime =
    DbType.date ∷ DbType.timestamp ∷ DbType.timestamp_ltz ∷ DbType.timestamp_tz ∷ []
api_db_types ApiType.number =
    DbType.binary_double ∷ DbType.binary_float ∷ DbType.binary_integer ∷ DbType.number ∷ []
api_db_types ApiType.rowid = DbType.rowid ∷ []
api_db_types ApiType.string =
    DbType.char ∷ DbType.long ∷ DbType.nchar ∷ DbType.nvarchar ∷ DbType.varchar ∷ []
