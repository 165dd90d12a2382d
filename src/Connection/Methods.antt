-- ===== src/Connection/Methods.antt =====
-- The methods of a connection.
use python_cx_oracle.Prelude.{
  ℕ, Bool, true, false, not, Option, none, some, List, [], if◌then◌else◌,
}
use python_cx_oracle.Prelude.Int.{ℤ, pos, negsuc}
use python_cx_oracle.Error.{
  Error, Result, ok, err, ◌>>=◌ as ◌and_then◌, expecting_integer, expecting_lob_type,
}
use python_cx_oracle.Action.{Action, pure, raise, lift, gets, ◌>>=◌, ◌>>◌}
use python_cx_oracle.Types.{DbType}
use python_cx_oracle.Py.{Value, is_none}
use python_cx_oracle.Transform.{buffer_from_object, as_long, uint32_of}
use python_cx_oracle.Json.{buffer_bytes}
use python_cx_oracle.Connection.State.{
  ConnApi, CloseMode, TextAttr, World, C, odpi, release_conn, is_connected,
}

-- `tag && tag != Py_None`
abbrev pub has_tag : Option Value → Bool
has_tag none = false
has_tag (some v) = not (is_none v)

abbrev pub close_mode : Option Value → CloseMode
close_mode tag = if has_tag tag then CloseMode.retag else CloseMode.default

abbrev pub is_temp_lob_type : DbType → Bool
is_temp_lob_type DbType.clob = true
is_temp_lob_type DbType.blob = true
is_temp_lob_type DbType.nclob = true
is_temp_lob_type _ = false

module _ {S : Type 0} (api : ConnApi S) where
  -- The bytes of an object that may be NULL.
  unfoldable pub bytes_of_object : ℕ → Option Value → Result (List ℕ)
  unfolding buffer_from_object
  bytes_of_object encoding none = ok []
  bytes_of_object encoding (some v) =
      buffer_from_object api.runtime v encoding and_then λ b. ok (buffer_bytes b)

  abbrev pub encoding_of : World S → ℕ
  encoding_of w = w.0.encodings.encoding

  -- The bytes of an object in the encoding of the connection.
  unfoldable pub encoded_object : Option Value → C S (List ℕ)
  unfolding bytes_of_object
  encoded_object v w = (bytes_of_object (encoding_of w) v, w)

  -- PyUnicode_Decode with the encoding of the connection
  unfoldable pub decoded_text : Option (List ℕ) → C S Value
  decoded_text none w = (ok Value.none, w)
  decoded_text (some b) w =
      (api.runtime.decode (encoding_of w) none b and_then λ s. ok (Value.str s), w)

  -- A method that needs a connection and makes one call of ODPI-C with its handle.
  abbrev pub on_handle : {A : Type 0} → (ℕ → Action S A) → (A → Value) → C S Value
  on_handle call result = is_connected api >>= λ h. odpi api (call h) >>= λ a. pure (result a)

  abbrev pub returns_none : Unit {0} → Value
  returns_none u = Value.none

  -- cxoConnection_getAttrText, cxoConnection_setAttrText
  unfoldable pub get_attr_text : TextAttr → C S Value
  unfolding is_connected decoded_text
  get_attr_text a = is_connected api >>= λ h. odpi api (api.get_text a h) >>= decoded_text

  unfoldable pub set_attr_text : TextAttr → Value → C S Value
  unfolding is_connected encoded_object
  set_attr_text a v = is_connected api >>= λ h.
      encoded_object (some v) >>= λ b. odpi api (api.set_text a h b) >>= λ u. pure Value.none

  -- cxoConnection_changePassword
  unfoldable pub change_password : Value → Value → C S Value
  unfolding is_connected encoded_object
  change_password old_password new_password = is_connected api >>= λ h. do
    c ← gets (λ w. w.0)
    user ← encoded_object c.username
    old ← encoded_object (some old_password)
    new ← encoded_object (some new_password)
    odpi api (api.change_password h user old new)
    pure Value.none

  -- cxoConnection_getStmtCacheSize, cxoConnection_getCallTimeout
  unfoldable pub get_stmt_cache_size : C S Value
  unfolding is_connected
  get_stmt_cache_size = on_handle api.get_stmt_cache_size (λ n. Value.int (pos n))

  unfoldable pub get_call_timeout : C S Value
  unfolding is_connected
  get_call_timeout = on_handle api.get_call_timeout (λ n. Value.int (pos n))

  -- cxoConnection_setStmtCacheSize: the error of PyLong_AsLong is not looked at there, so that the
  -- call is made with the value -1; it is raised once the setter has returned.
  unfoldable pub cache_size_of : Value → Result (ℕ × Option Error)
  unfolding as_long
  cache_size_of (Value.int n) = elim (as_long api.runtime n) [
    | ok m ↦ ok (uint32_of m, none)
    | err e ↦ ok (uint32_of (negsuc 0), some e)
  ]
  cache_size_of (Value.bool b) = ok (if b then 1 else 0, none)
  cache_size_of _ = err expecting_integer

  abbrev pub late_error : Option Error → C S Value
  late_error none = pure Value.none
  late_error (some e) = raise e

  unfoldable pub set_stmt_cache_size : Value → C S Value
  unfolding is_connected cache_size_of
  set_stmt_cache_size v = is_connected api >>= λ h. lift (cache_size_of v) >>= λ n.
      odpi api (api.set_stmt_cache_size h n.0) >>= λ u. late_error n.1

  -- cxoConnection_setCallTimeout; int() of a value that is no int is a call of the runtime
  unfoldable pub timeout_of : Value → Result ℕ
  unfolding as_long
  timeout_of (Value.int n) = as_long api.runtime n and_then λ m. ok (uint32_of m)
  timeout_of (Value.bool b) = ok (if b then 1 else 0)
  timeout_of v =
      api.runtime.long_of v and_then λ n. as_long api.runtime n and_then λ m. ok (uint32_of m)

  unfoldable pub set_call_timeout : Value → C S Value
  unfolding is_connected timeout_of
  set_call_timeout v = is_connected api >>= λ h.
      lift (timeout_of v) >>= λ n. odpi api (api.set_call_timeout h n) >>= λ u. pure Value.none

  -- cxoConnection_createLob
  unfoldable pub create_lob : Value → C S Value
  unfolding is_connected
  create_lob (Value.db_type d) = is_connected api >>= λ h.
      if is_temp_lob_type d
      then (odpi api (api.new_temp_lob h d) >>= λ l. pure (Value.lob d l))
      else raise expecting_lob_type
  create_lob v = is_connected api >>= λ h. raise expecting_lob_type

  -- cxoConnection_getLTXID, cxoConnection_getHandle
  unfoldable pub get_ltxid : C S Value
  unfolding is_connected
  get_ltxid = on_handle api.ltxid Value.bytes

  unfoldable pub get_handle : C S Value
  unfolding is_connected
  get_handle = on_handle api.oci_handle (λ n. Value.int (pos n))

  -- cxoConnection_commit, cxoConnection_rollback, cxoConnection_cancel, cxoConnection_ping
  unfoldable pub commit : C S Value
  unfolding is_connected
  commit = on_handle api.commit returns_none

  unfoldable pub rollback : C S Value
  unfolding is_connected
  rollback = on_handle api.rollback returns_none

  unfoldable pub cancel : C S Value
  unfolding is_connected
  cancel = on_handle api.break_execution returns_none

  unfoldable pub ping : C S Value
  unfolding is_connected
  ping = on_handle api.ping returns_none

  -- cxoConnection_begin, cxoConnection_prepare
  unfoldable pub begin : Option ℤ → List ℕ → List ℕ → C S Value
  unfolding is_connected
  begin none transaction_id branch_id =
      on_handle (λ h. api.begin_distrib_trans h (negsuc 0) transaction_id branch_id) returns_none
  begin (some format_id) transaction_id branch_id =
      on_handle (λ h. api.begin_distrib_trans h format_id transaction_id branch_id) returns_none

  unfoldable pub prepare_transaction : C S Value
  unfolding is_connected
  prepare_transaction = on_handle api.prepare_distrib_trans Value.bool

  -- cxoConnection_shutdown, with the mode given; cxoConnection_startup, whose file name is encoded
  -- before the connection is checked
  unfoldable pub shutdown : ℤ → C S Value
  unfolding is_connected
  shutdown mode = on_handle (λ h. api.shutdown h mode) returns_none

  unfoldable pub startup : Bool → Bool → Option Value → C S Value
  unfolding is_connected encoded_object
  startup force restrict_startup pfile = encoded_object pfile >>= λ b.
      on_handle (λ h. api.startup h b force restrict_startup) returns_none

  -- The call of dpiConn_close, and of dpiConn_release if it succeeds.
  abbrev pub close_handle_with : Option ℕ → CloseMode → List ℕ → C S Value
  close_handle_with h mode tag = odpi api (api.close h mode tag) >>= λ u w.
      let v = release_conn api h w in (ok Value.none, (record v.0 { handle = none }, v.1))

  abbrev pub close_connected : ℕ → C S Value
  close_connected h = gets (λ w. w.0) >>= λ c.
      encoded_object c.tag >>= λ tag. close_handle_with (some h) (close_mode c.tag) tag

  -- cxoConnection_close
  unfoldable pub close_connection : C S Value
  unfolding is_connected encoded_object
  close_connection = is_connected api >>= close_connected

  -- cxoConnection_contextManagerEnter returns the connection; cxoConnection_contextManagerExit
  unfoldable pub context_manager_enter : C S (Unit {0})
  unfolding is_connected
  context_manager_enter = is_connected api >>= λ h. pure tt

  unfoldable pub context_manager_exit : C S Value
  unfolding close_connection
  context_manager_exit = close_connection >> pure (Value.bool false)

  -- cxoConnection_free
  unfoldable pub free : World S → World S
  free w = let v = release_conn api w.0.handle w in (record v.0 { handle = none }, v.1)

  -- cxoConnection_getSodaFlags: whether DPI_SODA_FLAGS_ATOMIC_COMMIT is set
  unfoldable pub get_soda_flags : C S Bool
  unfolding is_connected
  get_soda_flags = is_connected api >>= λ h. gets (λ w. w.0.autocommit)
