-- ===== src/Connection/Create.antt =====
-- cxoConnection_init, and the call of it that cxoSessionPool_acquire makes.
use python_cx_oracle.Prelude.{
  ℕ, Bool, true, false, not, ◌&&◌, ◌||◌, ◌==◌, Option, none, some, List, [], ◌∷◌, length,
  if◌then◌else◌,
}
use python_cx_oracle.Error.{Error, Result, ok, ◌>>=◌ as ◌and_then◌}
use python_cx_oracle.Action.{Action, pure, raise, lift, ◌>>=◌, ◌>>◌}
use python_cx_oracle.Py.{Value}
use python_cx_oracle.Transform.{EncodingInfo}
use python_cx_oracle.Connection.State.{Connection, SessionPool, ConnApi}
use python_cx_oracle.Connection.Methods.{bytes_of_object}
use python_cx_oracle.Connection.Credentials.{Credentials, parse_credentials}
use python_cx_oracle.Connection.Params.{
  AppContext, ShardingKeyColumn, process_context, process_sharding_key,
}

-- The exception of PyArg_ParseTupleAndKeywords.
abbrev pub argument_error : Error
argument_error = Error.python 8

-- The names of encodings that are adjusted; any other number is any other name.
abbrev pub utf_16 : ℕ
utf_16 = 16

abbrev pub utf_16le : ℕ
utf_16le = 17

abbrev pub utf_16be : ℕ
utf_16be = 18

-- cxoUtils_getAdjustedEncoding
unfoldable pub adjusted_encoding : Bool → ℕ → ℕ
adjusted_encoding little_endian e =
    if e == utf_16 then (if little_endian then utf_16le else utf_16be) else e

abbrev pub adjusted : Bool → EncodingInfo → EncodingInfo
adjusted b e = record {
  encoding = adjusted_encoding b e.encoding;
  nencoding = adjusted_encoding b e.nencoding;
}

-- The arguments. `threaded` and `events` are what the variables hold; the numbers that are only
-- handed on are left out.
pub record ConnectArgs : Type 0 where
  pub user : Option Value
  pub password : Option Value
  pub dsn : Option Value
  pub pool : Option SessionPool
  pub threaded : Bool
  pub events : Bool
  pub cclass : Option Value
  pub new_password : Option Value
  pub encodings : EncodingInfo
  pub edition : Option Value
  pub app_context : Option Value
  pub tag : Value
  pub sharding_key : Option Value
  pub super_sharding_key : Option Value

-- What dpiConn_create is given.
pub record CreateParams : Type 0 where
  pub user_name : List ℕ
  pub password : List ℕ
  pub dsn : List ℕ
  pub pool : Option ℕ
  pub external_auth : Bool
  pub threaded : Bool
  pub events : Bool
  pub connection_class : List ℕ
  pub new_password : List ℕ
  pub edition : List ℕ
  pub tag : List ℕ
  pub app_context : List AppContext
  pub sharding_key_columns : List ShardingKeyColumn
  pub super_sharding_key_columns : List ShardingKeyColumn

-- What it returns.
pub record Created : Type 0 where
  pub handle : ℕ
  pub out_new_session : Bool
  pub out_tag : List ℕ

pub record CreateApi (S : Type 0) : Type 0 where
  pub little_endian : Bool
  pub create : CreateParams → Action S Created
  -- dpiConn_getEncodingInfo, with the bytes per character
  pub encoding_info : ℕ → Action S (EncodingInfo × ℕ)
  -- PyObject_RichCompareBool, PyCallable_Check, the call of the session callback
  pub equal_values : Value → Value → Result Bool
  pub is_callable : Value → Bool
  pub call_session_callback : Value → Connection → Value → Action S (Unit {0})
  pub sequence_items : Value → Option (List Value)

-- strncmp on as many bytes as there are: bytes behind a NUL are not compared.
unfoldable pub strncmp_equal : List ℕ → List ℕ → Bool
strncmp_equal [] ys = true
strncmp_equal (x ∷ xs) [] = x == 0
strncmp_equal (x ∷ xs) (y ∷ ys) = let rest = strncmp_equal xs ys in (x == y) && ((x == 0) || rest)

-- Whether the session callback is to be invoked.
unfoldable pub invoke_session_callback : Created → List ℕ → Bool
unfolding strncmp_equal
invoke_session_callback c tag =
    c.out_new_session || (not (length c.out_tag == length tag) || not (strncmp_equal c.out_tag tag))

module _ {S : Type 0} (api : ConnApi S) (creation : CreateApi S) where
  abbrev params_encodings : ConnectArgs → EncodingInfo
  params_encodings a = elim a.pool [
    | some p ↦ p.encodings
    | none ↦ adjusted creation.little_endian a.encodings
  ]

  -- Whether the user of a heterogeneous pool is the one given, whose name is then left out.
  abbrev is_pool_user : Option SessionPool → Option Value → Result Bool
  is_pool_user (some p) (some u) = elim p.username [
    | some q ↦ if p.homogeneous then ok false else creation.equal_values u q
    | none ↦ ok false
  ]
  is_pool_user _ _ = ok false

  abbrev pool_handle : Option SessionPool → Option ℕ
  pool_handle none = none
  pool_handle (some p) = some p.handle

  abbrev is_empty : List ℕ → Bool
  is_empty [] = true
  is_empty (x ∷ xs) = false

  -- The parameters, up to the call of dpiConn_create.
  unfoldable pub create_params : ConnectArgs → Credentials → Result CreateParams
  unfolding bytes_of_object process_context process_sharding_key
  create_params a c =
      let e = params_encodings a in
      let bytes = bytes_of_object api e.encoding in
      process_context api.runtime e.encoding a.app_context and_then λ ctx.
      process_sharding_key api.runtime creation.sequence_items e a.sharding_key and_then λ key.
      process_sharding_key api.runtime creation.sequence_items e a.super_sharding_key
      and_then λ super_key. bytes c.username and_then λ user. bytes c.password and_then λ password.
          bytes c.dsn and_then λ dsn. bytes a.cclass and_then λ cclass.
          bytes a.new_password and_then λ new_password. bytes a.edition and_then λ edition.
          bytes (some a.tag) and_then λ tag. is_pool_user a.pool c.username and_then λ same.
          ok (record {
            user_name = if same then [] else user;
            password = password;
            dsn = dsn;
            pool = pool_handle a.pool;
            external_auth = is_empty user && is_empty password;
            threaded = a.threaded;
            events = a.events;
            connection_class = cclass;
            new_password = new_password;
            edition = edition;
            tag = tag;
            app_context = ctx;
            sharding_key_columns = key;
            super_sharding_key_columns = super_key;
          })

  abbrev encodings_after : ConnectArgs → ℕ → Action S (EncodingInfo × ℕ)
  encodings_after a h = elim a.pool [
    | some p ↦ pure (p.encodings, p.max_bytes_per_character)
    | none ↦ creation.encoding_info h >>= λ i. pure (adjusted creation.little_endian i.0, i.1)
  ]

  abbrev tag_after : EncodingInfo → List ℕ → Result (Option Value)
  tag_after e [] = ok none
  tag_after e (x ∷ xs) =
      api.runtime.decode e.encoding none (x ∷ xs) and_then λ s. ok (some (Value.str s))

  abbrev run_callback : ConnectArgs → Connection → Action S (Unit {0})
  run_callback a c = elim a.pool [
    | none ↦ pure tt
    | some p ↦ elim p.session_callback [
      | none ↦ pure tt
      | some f ↦
          if creation.is_callable f then creation.call_session_callback f c a.tag else pure tt
    ]
  ]

  abbrev connection_of :
      ConnectArgs → Credentials → Created → EncodingInfo × ℕ → Option Value → Connection
  connection_of a c made e tag = record {
    handle = some made.handle;
    session_pool = none;
    username = c.username;
    dsn = c.dsn;
    tag = tag;
    encodings = e.0;
    max_bytes_per_character = e.1;
    autocommit = false;
  }

  -- cxoConnection_init
  unfoldable pub init : ConnectArgs → Action S Connection
  unfolding parse_credentials create_params invoke_session_callback
  init a = do
    c ← lift (parse_credentials a.user a.password a.dsn)
    p ← lift (create_params a c)
    made ← creation.create p
    e ← encodings_after a made.handle
    tag ← lift (tag_after e.0 made.out_tag)
    let conn = connection_of a c made e tag
    if invoke_session_callback made p.tag then run_callback a conn else pure tt
    pure conn

  -- What `s#` accepts: a text or bytes, or no argument.
  abbrev pub is_text : Option Value → Bool
  is_text none = true
  is_text (some (Value.str s)) = true
  is_text (some (Value.bytes b)) = true
  is_text _ = false

  abbrev pub both_given : Option Value → Option Value → Bool
  both_given (some u) (some v) = true
  both_given _ _ = false

  -- What acquire hands on to cxoConnection_init, where the third position is that of the connect
  -- string.
  abbrev pub acquire_args : SessionPool → Option Value → ConnectArgs → ConnectArgs
  acquire_args pool third a = record a {
    dsn = third;
    pool = some pool;
    threaded = false;
    new_password = none;
    edition = none;
    app_context = none;
  }

  -- cxoSessionPool_acquire, with the third positional argument, which is `cclass` in its own list;
  -- of the other arguments those that it has are read. Giving `cclass` twice is an error.
  unfoldable pub acquire : SessionPool → Option Value → ConnectArgs → Action S Connection
  unfolding init
  acquire pool third a =
      if is_text a.user && is_text a.password && not (both_given third a.cclass)
      then init (acquire_args pool third a)
      else raise argument_error
