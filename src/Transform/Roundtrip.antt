-- ===== src/Transform/Roundtrip.antt =====
-- Values that come back from the database as they went in.
use python_cx_oracle.Prelude.{ℕ, ◌*◌, ◌/◌, ◌%◌, ◌≡◌, refl, sym, ap, subst, true, arith, le→leb}
use python_cx_oracle.Prelude.Int.{pos, ◌+ℤ◌, scale, quot, floor_div_small, floor_mod_small, +ℤ-zero}
use python_cx_oracle.Error.{ok, ◌>>=◌}
use python_cx_oracle.Types.{TransformNum}
use python_cx_oracle.Py.{Value, Date, DateTime, Delta}
use python_cx_oracle.Py.Calendar.{
  is_valid_date, is_valid_time, make_date, make_datetime, make_delta, IsNormal, abs,
}
use python_cx_oracle.Transform.Host.{Runtime, EncodingInfo}
use python_cx_oracle.Transform.Values.{DbValue}
use python_cx_oracle.Transform.FromPython.{
  Write, from_python_scalar, timestamp_of, interval_of, midnight_of,
}
use python_cx_oracle.Transform.ToPython.{
  Context, to_python_scalar, to_timedelta, to_datetime, datetime_of,
}

-- The value that is stored comes back as another: the first transform is the way in.
abbrev pub ComesBack : Runtime → EncodingInfo → Context → TransformNum → Value → Value → Type 0
ComesBack rt enc ctx t v w =
    (db : DbValue) × (from_python_scalar rt enc true t v ≡ ok (Write.store db))
    × (to_python_scalar rt ctx t db ≡ ok w)

microseconds_back : (m : ℕ) → m * 1000 / 1000 ≡ m
microseconds_back m = omega arith

seconds_back :
    (s : ℕ)
    → scale (pos (s / 3600)) 3600 +ℤ scale (pos (s % 3600 / 60)) 60 +ℤ pos (s % 3600 % 60) ≡ pos s
unfolding scale ◌+ℤ◌
seconds_back s = ground arith

fseconds_back : (m : ℕ) → quot (pos (m * 1000)) 1000 ≡ pos m
unfolding quot
fseconds_back m = ground arith

make_delta_normal :
    (d : Delta)
    → IsNormal d
    → (make_delta d.days (pos d.seconds) (pos d.microseconds) >>= λ e. ok (Value.delta e))
      ≡ ok (Value.delta d)
unfolding make_delta
make_delta_normal d n = rw (floor_div_small d.microseconds 1000000 n.microseconds_bound) (
    rw (+ℤ-zero (pos d.seconds)) (
      rw (floor_div_small d.seconds 86400 n.seconds_bound) (
        rw (+ℤ-zero d.days) (
          rw (floor_mod_small d.seconds 86400 n.seconds_bound) (
            rw (floor_mod_small d.microseconds 1000000 n.microseconds_bound)
              (rw (le→leb (abs d.days) 999999999 n.days_bound) refl))))))

pub to_timedelta-interval_of :
    (d : Delta)
    → IsNormal d
    → to_timedelta (DbValue.as_interval_ds (interval_of d)) ≡ ok (Value.delta d)
unfolding to_timedelta
to_timedelta-interval_of d n =
    rw (seconds_back d.seconds) (rw (fseconds_back d.microseconds) (make_delta_normal d n))

pub make_datetime_valid :
    (t : DateTime)
    → is_valid_date t.date ≡ true
    → is_valid_time t ≡ true
    → make_datetime (datetime_of (timestamp_of t)) ≡ ok t
unfolding make_datetime
make_datetime_valid t d h =
    let same : datetime_of (timestamp_of t) ≡ t = λ i. record {
      date = t.date;
      hour = t.hour;
      minute = t.minute;
      second = t.second;
      microsecond = microseconds_back t.microsecond i;
    } in
    let valid : make_datetime t ≡ ok t = rw d (rw h refl) in
    subst (λ u. make_datetime u ≡ ok t) (sym same) valid

-- A datetime without a time zone that Python accepts is stored in a dpiTimestamp, from which it comes
-- back unchanged, under the transform for datetimes and those for the three kinds of TIMESTAMP.
pub datetime_roundtrip :
    (rt : Runtime) (enc : EncodingInfo) (ctx : Context) (t : DateTime)
    → is_valid_date t.date ≡ true
    → is_valid_time t ≡ true
    → ComesBack rt enc ctx TransformNum.datetime (Value.datetime t) (Value.datetime t)
      × ComesBack rt enc ctx TransformNum.timestamp (Value.datetime t) (Value.datetime t)
      × ComesBack rt enc ctx TransformNum.timestamp_ltz (Value.datetime t) (Value.datetime t)
      × ComesBack rt enc ctx TransformNum.timestamp_tz (Value.datetime t) (Value.datetime t)
unfolding from_python_scalar to_python_scalar
datetime_roundtrip rt enc ctx t d h =
    let back : to_datetime (DbValue.as_timestamp (timestamp_of t)) ≡ ok (Value.datetime t) =
      ap (λ m. m >>= λ e. ok (Value.datetime e)) (make_datetime_valid t d h) in
    ((_, refl, back), (_, refl, back), (_, refl, back), (_, refl, back))

make_date_valid : (d : Date) → is_valid_date d ≡ true → make_date d ≡ ok d
unfolding make_date
make_date_valid d h = rw h refl

-- A date comes back unchanged under the transform for dates, and so does the date of a datetime; a
-- date under the transform for datetimes comes back as its midnight.
pub date_roundtrip :
    (rt : Runtime) (enc : EncodingInfo) (ctx : Context) (t : DateTime)
    → is_valid_date t.date ≡ true
    → ComesBack rt enc ctx TransformNum.date (Value.date t.date) (Value.date t.date)
      × ComesBack rt enc ctx TransformNum.date (Value.datetime t) (Value.date t.date)
      × ComesBack rt enc ctx TransformNum.datetime
          (Value.date t.date)
          (Value.datetime (midnight_of t.date))
unfolding from_python_scalar to_python_scalar is_valid_time
date_roundtrip rt enc ctx t d =
    let back : (make_date t.date >>= λ e. ok (Value.date e)) ≡ ok (Value.date t.date) =
      ap (λ m. m >>= λ e. ok (Value.date e)) (make_date_valid t.date d) in
    (
      (_, refl, back),
      (_, refl, back),
      (
        _,
        refl,
        ap (λ m. m >>= λ e. ok (Value.datetime e))
            (make_datetime_valid (midnight_of t.date) d refl),
      ),
    )
