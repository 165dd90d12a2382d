-- ===== src/Py/Calendar.antt =====
-- The constructors of Python's datetime module that the extension calls through its C interface.
use python_cx_oracle.Prelude.{
  ℕ, ◌+◌, ◌-◌, some, none, List, [], ◌∷◌, get_elem?, ◌%◌, ◌≤◌, ◌<◌, Bool, not, ◌&&◌, ◌||◌, ltb, leb,
  ◌==◌, if◌then◌else◌,
}
use python_cx_oracle.Prelude.Int.{ℤ, pos_part, neg_part, ◌+ℤ◌, floor_div, floor_mod}
use python_cx_oracle.Error.{Result, ok, err, Error}
use python_cx_oracle.Py.{Date, DateTime, Delta}

-- The days of the months of a common year.
abbrev month_lengths : List ℕ
month_lengths = 31 ∷ 28 ∷ 31 ∷ 30 ∷ 31 ∷ 30 ∷ 31 ∷ 31 ∷ 30 ∷ 31 ∷ 30 ∷ 31 ∷ []

abbrev leap_day : ℕ → ℕ → ℕ
leap_day year month =
    if (month == 2 && year % 4 == 0) && (year % 400 == 0 || not (year % 100 == 0)) then 1 else 0

abbrev days_in_month : ℕ → ℕ → ℕ
days_in_month year month =
    leap_day year month + elim (get_elem? month_lengths (month - 1)) [ some n ↦ n | none ↦ 0 ]

-- ValueError
abbrev value_error : Error
value_error = Error.python 1

-- OverflowError
abbrev pub overflow_error : Error
overflow_error = Error.python 2

-- The values that datetime.date takes.
unfoldable pub is_valid_date : Date → Bool
is_valid_date d =
    leb 1 d.year
    && (leb d.year 9999
        && (leb 1 d.month
            && (leb d.month 12 && (leb 1 d.day && leb d.day (days_in_month d.year d.month)))))

unfoldable pub is_valid_time : DateTime → Bool
is_valid_time t =
    ltb t.hour 24 && (ltb t.minute 60 && (ltb t.second 60 && ltb t.microsecond 1000000))

-- PyDate_FromDate
unfoldable pub make_date : Date → Result Date
make_date d = if is_valid_date d then ok d else err value_error

-- PyDateTime_FromDateAndTime
unfoldable pub make_datetime : DateTime → Result DateTime
make_datetime t = if is_valid_date t.date && is_valid_time t then ok t else err value_error

abbrev pub abs : ℤ → ℕ
abs a = pos_part a + neg_part a

-- PyDelta_FromDSU: microseconds carry into seconds and seconds into days.
unfoldable pub make_delta : ℤ → ℤ → ℤ → Result Delta
make_delta days seconds microseconds =
    let s = seconds +ℤ floor_div microseconds 1000000 in
    let d = days +ℤ floor_div s 86400 in
    if leb (abs d) 999999999
    then ok (record {
      days = d;
      seconds = floor_mod s 86400;
      microseconds = floor_mod microseconds 1000000;
    })
    else err overflow_error

-- A timedelta as Python keeps it.
pub record IsNormal (d : Delta) : Type 0 where
  pub days_bound : abs d.days ≤ 999999999
  pub seconds_bound : d.seconds < 86400
  pub microseconds_bound : d.microseconds < 1000000
