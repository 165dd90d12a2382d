-- ===== src/Connection/Operations.antt =====
-- A program that uses one connection: the operations that it may call, one after the other, whether
-- they succeed or fail.
use python_cx_oracle.Prelude.{ℕ, Bool, Option, List, [], ◌∷◌}
use python_cx_oracle.Prelude.Int.{ℤ}
use python_cx_oracle.Py.{Value}
use python_cx_oracle.Connection.State.{SessionPool, ConnApi, TextAttr, World, C}
use python_cx_oracle.Connection.Methods
use python_cx_oracle.Connection.Pool.{pool_release, pool_drop}

pub data Operation : Type 0 where
  close exit drop commit rollback cancel ping prepare : Operation
  release : SessionPool → Option Value → Operation
  begin : Option ℤ → List ℕ → List ℕ → Operation
  get_text : TextAttr → Operation
  set_text : TextAttr → Value → Operation
  change_password : Value → Value → Operation
  get_stmt_cache_size get_call_timeout get_ltxid get_handle : Operation
  set_stmt_cache_size set_call_timeout create_lob : Value → Operation
  shutdown : ℤ → Operation
  startup : Bool → Bool → Option Value → Operation

module _ {S : Type 0} (api : ConnApi S) where
  abbrev pub run : Operation → C S Value
  run Operation.close = Methods.close_connection api
  run Operation.exit = Methods.context_manager_exit api
  run Operation.drop = pool_drop api
  run Operation.commit = Methods.commit api
  run Operation.rollback = Methods.rollback api
  run Operation.cancel = Methods.cancel api
  run Operation.ping = Methods.ping api
  run Operation.prepare = Methods.prepare_transaction api
  run (Operation.release pool tag) = pool_release api pool tag
  run (Operation.begin f t b) = Methods.begin api f t b
  run (Operation.get_text a) = Methods.get_attr_text api a
  run (Operation.set_text a v) = Methods.set_attr_text api a v
  run (Operation.change_password old new) = Methods.change_password api old new
  run Operation.get_stmt_cache_size = Methods.get_stmt_cache_size api
  run Operation.get_call_timeout = Methods.get_call_timeout api
  run Operation.get_ltxid = Methods.get_ltxid api
  run Operation.get_handle = Methods.get_handle api
  run (Operation.set_stmt_cache_size v) = Methods.set_stmt_cache_size api v
  run (Operation.set_call_timeout v) = Methods.set_call_timeout api v
  run (Operation.create_lob v) = Methods.create_lob api v
  run (Operation.shutdown mode) = Methods.shutdown api mode
  run (Operation.startup force restrict pfile) = Methods.startup api force restrict pfile

  abbrev pub run_all : List Operation → World S → World S
  run_all [] w = w
  run_all (op ∷ ops) w = run_all ops (run op w).1
