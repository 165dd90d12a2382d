-- ===== src/Connection/Pool.antt =====
-- The methods of a session pool on a connection, and its reconfiguration.
use python_cx_oracle.Prelude.{
  ℕ, ◌^◌, Bool, not, ◌||◌, ◌==◌, Option, none, some, List, [], ◌∷◌, ltb, if◌then◌else◌,
}
use python_cx_oracle.Prelude.Int.{ℤ, pos, negsuc}
use python_cx_oracle.Error.{
  Result, ok, err, ◌>>=◌ as ◌and_then◌, database, expecting_integer, expecting_boolean,
}
use python_cx_oracle.Action.{Action, pure, lift, gets, ◌>>=◌, ◌>>◌, foreign, update}
use python_cx_oracle.Py.{Value}
use python_cx_oracle.Py.Calendar.{overflow_error}
use python_cx_oracle.Transform.{Runtime, to_uint32, uint32_of, as_long}
use python_cx_oracle.Cursor.{to_int32}
use python_cx_oracle.Connection.State.{Connection, SessionPool, ConnApi, CloseMode, World, C}
use python_cx_oracle.Connection.Methods.{bytes_of_object, close_mode, close_handle_with}

module _ {S : Type 0} (api : ConnApi S) where
  -- `Py_CLEAR(conn->sessionPool)`
  abbrev pub without_pool : World S → World S
  without_pool w = (record w.0 { session_pool = none }, w.1)

  abbrev pub give_back : Option ℕ → CloseMode → List ℕ → C S Value
  give_back h mode tag = close_handle_with api h mode tag >>= λ v w. (ok v, without_pool w)

  abbrev pub tag_or_own : Option Value → Connection → Option Value
  tag_or_own none c = c.tag
  tag_or_own (some t) c = some t

  -- cxoSessionPool_release, with a tag
  unfoldable pub pool_release : SessionPool → Option Value → C S Value
  unfolding bytes_of_object
  pool_release pool tag = gets (λ w. w.0) >>= λ c.
      lift (bytes_of_object api pool.encodings.encoding (tag_or_own tag c)) >>= λ b.
      give_back c.handle (close_mode (tag_or_own tag c)) b

  -- cxoSessionPool_drop
  unfoldable pub pool_drop : C S Value
  pool_drop = gets (λ w. w.0) >>= λ c. give_back c.handle CloseMode.drop []

-- The attributes that can be set.
pub data PoolAttr : Type 0 where
  getmode timeout wait_timeout max_lifetime_session max_sessions_per_shard : PoolAttr
  soda_metadata_cache stmtcachesize ping_interval : PoolAttr

-- The attributes that reconfigure is given, NULL where one is not.
pub record ReconfigureArgs : Type 0 where
  pub get_mode : Option Value
  pub timeout : Option Value
  pub wait_timeout : Option Value
  pub max_lifetime_session : Option Value
  pub max_sessions_per_shard : Option Value
  pub soda_metadata_cache : Option Value
  pub stmtcachesize : Option Value
  pub ping_interval : Option Value

-- The order in which they are set.
abbrev pub in_order : ReconfigureArgs → List (PoolAttr × Option Value)
in_order a =
    (PoolAttr.getmode, a.get_mode)
    ∷ (PoolAttr.timeout, a.timeout)
    ∷ (PoolAttr.wait_timeout, a.wait_timeout)
    ∷ (PoolAttr.max_lifetime_session, a.max_lifetime_session)
    ∷ (PoolAttr.max_sessions_per_shard, a.max_sessions_per_shard)
    ∷ (PoolAttr.soda_metadata_cache, a.soda_metadata_cache)
    ∷ (PoolAttr.stmtcachesize, a.stmtcachesize)
    ∷ (PoolAttr.ping_interval, a.ping_interval)
    ∷ []

-- The calls of ODPI-C on a pool, with the value that a setter has made of its argument.
pub record PoolApi (S : Type 0) : Type 0 where
  pub runtime : Runtime
  pub close : ℕ → Bool → Action S (Unit {0})
  pub reconfigure : ℕ → ℕ → ℕ → ℕ → Action S (Unit {0})
  pub set_attribute : PoolAttr → ℕ → ℤ → Action S (Unit {0})

-- PyLong_AsUnsignedLong and the conversion to uint32_t.
unfoldable pub unsigned_of : Runtime → ℤ → Result ℤ
unsigned_of rt (pos n) =
    if ltb n (2 ^ rt.long_bits) then ok (pos (to_uint32 n)) else err overflow_error
unsigned_of rt (negsuc n) = err overflow_error

abbrev pub bool_number : Bool → ℤ
bool_number b = pos (if b then 1 else 0)

-- The conversion to int.
abbrev pub to_int : ℤ → ℤ
to_int n = to_int32 (uint32_of n)

module _ {S : Type 0} (api : PoolApi S) where
  -- cxoSessionPool_setAttribute, up to the call of ODPI-C
  unfoldable pub unsigned_value : Value → Result ℤ
  unfolding unsigned_of
  unsigned_value (Value.int n) = unsigned_of api.runtime n
  unsigned_value (Value.bool b) = ok (bool_number b)
  unsigned_value v = err expecting_integer

  -- cxoSessionPool_setGetMode, cxoSessionPool_setPingInterval, cxoSessionPool_setSodaMetadataCache
  unfoldable pub mode_value : Value → Result ℤ
  unfolding as_long
  mode_value (Value.int n) = as_long api.runtime n and_then λ m. ok (to_int m)
  mode_value (Value.bool b) = ok (bool_number b)
  mode_value v =
      api.runtime.long_of v and_then λ n. as_long api.runtime n and_then λ m. ok (to_int m)

  unfoldable pub ping_value : Value → Result ℤ
  unfolding as_long
  ping_value (Value.int n) = as_long api.runtime n and_then λ m. ok (to_int m)
  ping_value (Value.bool b) = ok (bool_number b)
  ping_value v = err expecting_integer

  unfoldable pub cache_value : Value → Result ℤ
  cache_value (Value.bool b) = ok (bool_number b)
  cache_value v = err expecting_boolean

  abbrev pub attr_value : PoolAttr → Value → Result ℤ
  attr_value PoolAttr.getmode v = mode_value v
  attr_value PoolAttr.ping_interval v = ping_value v
  attr_value PoolAttr.soda_metadata_cache v = cache_value v
  attr_value _ v = unsigned_value v

  -- The setter of an attribute.
  unfoldable pub set_pool_attr : ℕ → PoolAttr → Value → Action S (Unit {0})
  unfolding unsigned_value mode_value ping_value cache_value
  set_pool_attr h a v = lift (attr_value a v) >>= λ n. api.set_attribute a h n

  -- cxoSessionPool_close
  unfoldable pub pool_close : SessionPool → Bool → Action S Value
  pool_close pool force = api.close pool.handle force >> pure Value.none

  -- An action on a pool.
  abbrev pub P : Type 0 → Type 0
  P A = Action (SessionPool × S) A

  -- The exception of the setter is replaced by one made of the last error of ODPI-C.
  abbrev replace_error : {A : Type 0} → Action S A → Action S A
  replace_error m s = let (r, t) = m s in (elim r [ ok a ↦ ok a | err e ↦ err database ], t)

  -- cxoSessionPool_reconfigureHelper
  unfoldable pub reconfigure_helper : PoolAttr → Option Value → P (Unit {0})
  unfolding set_pool_attr
  reconfigure_helper a none = pure tt
  reconfigure_helper a (some Value.none) = pure tt
  reconfigure_helper a (some v) =
      gets (λ w. w.0.handle) >>= λ h. foreign (replace_error (set_pool_attr h a v))

  unfoldable pub reconfigure_all : List (PoolAttr × Option Value) → P (Unit {0})
  unfolding reconfigure_helper
  reconfigure_all [] = pure tt
  reconfigure_all (p ∷ ps) = reconfigure_helper p.0 p.1 >>= λ u. reconfigure_all ps

  abbrev pub sizes_differ : SessionPool → ℕ → ℕ → ℕ → Bool
  sizes_differ p min max increment =
      not (min == p.min_sessions)
      || (not (max == p.max_sessions) || not (increment == p.session_increment))

  abbrev pub with_sizes : ℕ → ℕ → ℕ → SessionPool → SessionPool
  with_sizes min max increment p = record p {
    min_sessions = min;
    max_sessions = max;
    session_increment = increment;
  }

  -- cxoSessionPool_reconfigure, with the sizes, which are those of the pool where they are not given
  unfoldable pub reconfigure : ℕ → ℕ → ℕ → ReconfigureArgs → P Value
  unfolding reconfigure_all
  reconfigure min max increment args = gets (λ w. w.0) >>= λ p. do
    if sizes_differ p min max increment
        then (foreign (api.reconfigure p.handle min max increment)
            >> update (with_sizes min max increment))
        else pure tt
    reconfigure_all (in_order args)
    pure Value.none
