-- ===== src/Connection/Tests.antt =====
-- The theorems on connections, at a connection that is closed and then used again.
use python_cx_oracle.Prelude.{ℕ, ◌≡◌, refl, true, false, Option, none, some, List, [], ◌∷◌}
use python_cx_oracle.Error.{Result, ok, err, database}
use python_cx_oracle.Action.{pure, raise}
use python_cx_oracle.Py.{Value, codes}
use python_cx_oracle.Transform.Tests.{sample_runtime, sample_encodings}
use python_cx_oracle.Connection.State.{Connection, ConnApi, World}
use python_cx_oracle.Connection.Methods.{free}
use python_cx_oracle.Connection.Credentials.{parse_credentials}
use python_cx_oracle.Connection.Operations.{Operation, run_all}
use python_cx_oracle.Connection.ConnectString.{parse_credentials_lem}
use python_cx_oracle.Connection.Lifecycle.{LivesWith, run_all-Lives}

abbrev close_given : Option ℕ → ℕ → Result (Unit {0}) × ℕ
close_given none s = (err database, s)
close_given (some h) s = (ok tt, s)

abbrev sample_api : ConnApi ℕ
sample_api = record {
  runtime = sample_runtime;
  close = λ h mode tag. close_given h;
  release = λ h s. s;
  commit = λ h. pure tt;
  rollback = λ h. pure tt;
  break_execution = λ h. pure tt;
  ping = λ h. raise database;
  begin_distrib_trans = λ h f t b. pure tt;
  prepare_distrib_trans = λ h. pure true;
  change_password = λ h u o n. pure tt;
  get_text = λ a h. pure none;
  set_text = λ a h b. pure tt;
  get_stmt_cache_size = λ h. pure 20;
  set_stmt_cache_size = λ h n. pure tt;
  get_call_timeout = λ h. pure 0;
  set_call_timeout = λ h n. pure tt;
  ltxid = λ h. pure [];
  oci_handle = λ h. pure 1;
  new_temp_lob = λ h d. pure 2;
  shutdown = λ h m. pure tt;
  startup = λ h b f r. pure tt;
}

abbrev sample_connection : Connection
sample_connection = record {
  handle = some 5;
  session_pool = none;
  username = some (Value.str (codes "scott"));
  dsn = none;
  tag = none;
  encodings = sample_encodings;
  max_bytes_per_character = 1;
  autocommit = false;
}

-- A failed ping, a close, and two operations on the closed connection.
abbrev program : List Operation
program = Operation.ping ∷ Operation.close ∷ Operation.commit ∷ Operation.drop ∷ []

abbrev end : World ℕ
end = run_all sample_api program (sample_connection, ([], 0))

run_all-Lives_example :
    LivesWith sample_api 5 [] Operation.get_handle end × ((free sample_api end).1.0 ≡ 5 ∷ [])
run_all-Lives_example =
    run_all-Lives sample_api 5 [] (λ mode tag s. (database, refl)) program Operation.get_handle
      (sample_connection, ([], 0)) refl refl

-- scott with the password ti/g@er at orcl, and with the password tiger
parse_credentials_lem_example :
    (parse_credentials (some (Value.str (codes "scott/ti/g@er@orcl"))) none none
      ≡ ok (record {
        username = some (Value.str (codes "scott"));
        password = some (Value.str (codes "ti/g@er"));
        dsn = some (Value.str (codes "orcl"));
      }))
    × (parse_credentials (some (Value.str (codes "scott/tiger"))) none none
        ≡ ok (record {
          username = some (Value.str (codes "scott"));
          password = some (Value.str (codes "tiger"));
          dsn = none;
        }))
    × (parse_credentials (some (Value.str (codes "scott"))) none none
        ≡ ok (record { username = some (Value.str (codes "scott")); password = none; dsn = none }))
    × (parse_credentials (some (Value.str (codes "a/b"))) (some (Value.str (codes "x"))) none
        ≡ ok (record {
          username = some (Value.str (codes "a/b"));
          password = some (Value.str (codes "x"));
          dsn = none;
        }))
    × (parse_credentials (some (Value.str (codes "a/b"))) none (some (Value.str (codes "orcl")))
        ≡ ok (record {
          username = some (Value.str (codes "a/b"));
          password = none;
          dsn = some (Value.str (codes "orcl"));
        }))
    × (parse_credentials
          (some (Value.str (codes "a/b")))
          (some (Value.str (codes "x")))
          (some (Value.str (codes "orcl")))
        ≡ ok (record {
          username = some (Value.str (codes "a/b"));
          password = some (Value.str (codes "x"));
          dsn = some (Value.str (codes "orcl"));
        }))
    × (parse_credentials none none (some (Value.str (codes "orcl")))
        ≡ ok (record { username = none; password = none; dsn = some (Value.str (codes "orcl")) }))
parse_credentials_lem_example =
    parse_credentials_lem (codes "scott") (codes "ti/g@er") (codes "orcl") (codes "tiger")
      (Value.str (codes "a/b")) (Value.str (codes "x")) (Value.str (codes "orcl")) none
      (some (Value.str (codes "orcl"))) (refl, (refl, (refl, (refl, (refl, tt)))))
      (refl, (refl, (refl, (refl, tt)))) (refl, (refl, (refl, (refl, (refl, tt)))))
