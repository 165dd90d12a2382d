-- ===== src/Transform/Members.antt =====
-- The member of the union that cxoTransform_fromPython fills is the one that cxoAllTransforms
-- announces to ODPI-C.
use python_cx_oracle.Prelude.{◌≡◌}
use python_cx_oracle.Error.{Result, ok, err}
use python_cx_oracle.Types.{NativeTypeNum, Transform}
use python_cx_oracle.Transform.Values.{DbValue}
use python_cx_oracle.Transform.FromPython.{Write}

-- The native type of the member in use.
abbrev pub NativeOf : DbValue → NativeTypeNum → Type 0
NativeOf (DbValue.as_boolean b) n = n ≡ NativeTypeNum.boolean
NativeOf (DbValue.as_int64 i) n = n ≡ NativeTypeNum.int64
NativeOf (DbValue.as_double x) n = n ≡ NativeTypeNum.double
NativeOf (DbValue.as_float x) n = n ≡ NativeTypeNum.float
NativeOf (DbValue.as_bytes b) n = n ≡ NativeTypeNum.bytes
NativeOf (DbValue.as_timestamp t) n = n ≡ NativeTypeNum.timestamp
NativeOf (DbValue.as_interval_ds i) n = n ≡ NativeTypeNum.interval_ds
NativeOf (DbValue.as_lob h) n = n ≡ NativeTypeNum.lob
NativeOf (DbValue.as_object h) n = n ≡ NativeTypeNum.object
NativeOf _ n = ⊥

-- What a write presupposes of the native type of the variable.
abbrev pub Fits : Write → NativeTypeNum → Type 0
Fits (Write.store db) n = NativeOf db n
Fits (Write.store_bytes b) n = n ≡ NativeTypeNum.bytes
Fits (Write.store_as_bytes b) n = n ≡ NativeTypeNum.lob
Fits (Write.set_from_lob h) n = n ≡ NativeTypeNum.lob
Fits (Write.set_from_object h) n = n ≡ NativeTypeNum.object
Fits (Write.set_lob_bytes b) n = n ≡ NativeTypeNum.lob
Fits (Write.set_json j) n = n ≡ NativeTypeNum.json

-- The writes that a call may return all fit.
abbrev AllFit : Result Write → NativeTypeNum → Type 0
AllFit (ok w) n = Fits w n
AllFit (err e) n = Unit {0}

-- *nativeTypeNum after the call: that of the row, unless the call has set it.
abbrev pub reported : Write → NativeTypeNum → NativeTypeNum
reported (Write.store_as_bytes b) n = NativeTypeNum.bytes
reported _ n = n

-- The member that was filled is the one in use under a native type; a write to a variable fills none.
abbrev pub Filled : Write → NativeTypeNum → Type 0
Filled (Write.store db) n = NativeOf db n
Filled (Write.store_bytes b) n = n ≡ NativeTypeNum.bytes
Filled (Write.store_as_bytes b) n = n ≡ NativeTypeNum.bytes
Filled _ n = Unit {0}
