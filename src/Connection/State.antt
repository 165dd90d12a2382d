-- ===== src/Connection/State.antt =====
-- The fields of struct cxoConnection and struct cxoSessionPool (src/cxoModule.h), and the calls of
-- ODPI-C on a connection.
use python_cx_oracle.Prelude.{ℕ, Bool, Option, some, none, List, [], ◌∷◌, ◌++◌}
use python_cx_oracle.Prelude.Int.{ℤ}
use python_cx_oracle.Error.{ok, err, not_connected}
use python_cx_oracle.Action.{Action}
use python_cx_oracle.Types.{DbType}
use python_cx_oracle.Py.{Value}
use python_cx_oracle.Transform.{Runtime, EncodingInfo}

-- An object that is NULL is `none`.
pub record Connection : Type 0 where
  pub handle : Option ℕ
  pub session_pool : Option ℕ
  pub username : Option Value
  pub dsn : Option Value
  pub tag : Option Value
  pub encodings : EncodingInfo
  pub max_bytes_per_character : ℕ
  pub autocommit : Bool

pub record SessionPool : Type 0 where
  pub handle : ℕ
  pub min_sessions : ℕ
  pub max_sessions : ℕ
  pub session_increment : ℕ
  pub encodings : EncodingInfo
  pub max_bytes_per_character : ℕ
  pub homogeneous : Bool
  pub username : Option Value
  pub session_callback : Option Value

-- dpiConnCloseMode
pub data CloseMode : Type 0 where
  default retag drop : CloseMode

-- The attributes that are texts: those with a getter, and those with a setter.
pub data TextAttr : Type 0 where
  current_schema edition external_name internal_name : TextAttr
  action client_identifier client_info db_op module_name : TextAttr

-- The calls of ODPI-C on a connection handle, on a state `S`. Only dpiConn_close is ever given a
-- NULL handle.
pub record ConnApi (S : Type 0) : Type 0 where
  pub runtime : Runtime
  pub close : Option ℕ → CloseMode → List ℕ → Action S (Unit {0})
  pub release : ℕ → S → S
  pub commit : ℕ → Action S (Unit {0})
  pub rollback : ℕ → Action S (Unit {0})
  pub break_execution : ℕ → Action S (Unit {0})
  pub ping : ℕ → Action S (Unit {0})
  pub begin_distrib_trans : ℕ → ℤ → List ℕ → List ℕ → Action S (Unit {0})
  pub prepare_distrib_trans : ℕ → Action S Bool
  pub change_password : ℕ → List ℕ → List ℕ → List ℕ → Action S (Unit {0})
  -- a text that is NULL is `none`
  pub get_text : TextAttr → ℕ → Action S (Option (List ℕ))
  pub set_text : TextAttr → ℕ → List ℕ → Action S (Unit {0})
  pub get_stmt_cache_size : ℕ → Action S ℕ
  pub set_stmt_cache_size : ℕ → ℕ → Action S (Unit {0})
  pub get_call_timeout : ℕ → Action S ℕ
  pub set_call_timeout : ℕ → ℕ → Action S (Unit {0})
  pub ltxid : ℕ → Action S (List ℕ)
  pub oci_handle : ℕ → Action S ℕ
  pub new_temp_lob : ℕ → DbType → Action S ℕ
  pub shutdown : ℕ → ℤ → Action S (Unit {0})
  pub startup : ℕ → List ℕ → Bool → Bool → Action S (Unit {0})

-- The connection, the handles of connections that have been released, and the state of ODPI-C.
abbrev pub World : Type 0 → Type 0
World S = Connection × (List ℕ × S)

abbrev pub C : Type 0 → Type 0 → Type 0
C S A = Action (World S) A

module _ {S : Type 0} (api : ConnApi S) where
  -- A call of ODPI-C.
  abbrev pub odpi : {A : Type 0} → Action S A → C S A
  odpi m w = let (r, s) = m w.1.1 in (r, (w.0, (w.1.0, s)))

  -- dpiConn_release
  abbrev pub release_conn : Option ℕ → World S → World S
  release_conn none w = w
  release_conn (some h) w = (w.0, (w.1.0 ++ (h ∷ []), api.release h w.1.1))

  -- cxoConnection_isConnected, with the handle that the callers go on to use
  unfoldable pub is_connected : C S ℕ
  is_connected w = elim w.0.handle [ some h ↦ (ok h, w) | none ↦ (err not_connected, w) ]
