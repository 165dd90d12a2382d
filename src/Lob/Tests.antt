-- ===== src/Lob/Tests.antt =====
-- The theorem on reading, at a CLOB of five characters.
use python_cx_oracle.Prelude.{
  ◌*◌, ◌^◌, ltb, ℕ, ◌-◌, ◌<◌, ◌≡◌, refl, true, none, some, List, [], take, drop, arith,
}
use python_cx_oracle.Prelude.Int.{pos, negsuc}
use python_cx_oracle.Error.{ok, err, size_specified_twice}
use python_cx_oracle.Action.{pure}
use python_cx_oracle.Types.{DbType}
use python_cx_oracle.Py.{Value, codes}
use python_cx_oracle.Transform.Tests.{sample_runtime, sample_encodings}
use python_cx_oracle.Lob.Methods.{Lob, LobApi, lob_value, whole, read, str, trim_lob}
use python_cx_oracle.Lob.Reading.{Store, read_units, read_returns}

abbrev hello : List ℕ
hello = codes "hello"

-- One LOB, whose contents never change.
abbrev sample_api : LobApi ℕ
sample_api = record {
  runtime = sample_runtime;
  get_size = λ h. pure 5;
  get_buffer_size = λ h n. pure (n * 4);
  malloc = λ n. pure (ltb n (2 ^ 63));
  read_bytes = λ h offset n room. pure (take n (drop (offset - 1) hello));
  write_bytes = λ h offset b. pure tt;
  open_resource = λ h. pure tt;
  close_resource = λ h. pure tt;
  get_is_resource_open = λ h. pure true;
  trim = λ h n. pure tt;
  get_chunk_size = λ h. pure 8132;
  get_directory_and_file_name = λ h. pure ([], []);
  set_directory_and_file_name = λ h d f. pure tt;
  get_file_exists = λ h. pure true;
}

abbrev sample_lob : Lob
sample_lob = record { handle = 3; db_type = DbType.clob; encodings = sample_encodings }

abbrev sample_store : Store sample_api sample_lob
sample_store = record {
  contents = λ w. hello;
  bytes_of = λ xs. xs;
  room = λ n. n * 4;
  size = λ w. refl;
  size_bound = λ w. omega arith;
  buffer_size = λ n w. refl;
  has_room = λ n w. ltb n (2 ^ 63);
  allocates = λ n w. refl;
  reads = λ offset n w h. refl;
}

read_returns_example :
    (read sample_api sample_lob (some (pos 4)) none 0 ≡ (ok (Value.str (codes "lo")), 0))
    × (read sample_api sample_lob (some (pos 4)) (some (negsuc 0)) 0
        ≡ (ok (Value.str (codes "lo")), 0))
    × (read sample_api sample_lob none none 0 ≡ (ok (Value.str hello), 0))
    × (str sample_api sample_lob 0 ≡ (ok (Value.str hello), 0))
    × ((n : ℕ)
        → n < whole
        → read sample_api sample_lob (some (pos 4)) (some (pos n)) 0
          ≡ (read_units sample_api sample_lob sample_store n 0 (take n (codes "lo")), 0))
unfolding lob_value
read_returns_example =
    read_returns sample_api sample_lob sample_store 4 0 (omega arith) (omega arith)

both_sizes :
    trim_lob sample_api sample_lob (some (pos 1)) (some (pos 2)) 0 ≡ (err size_specified_twice, 0)
unfolding trim_lob
both_sizes = refl
