-- ===== src/Transform/Tests.antt =====
-- The theorems on transforms, at sample values.
use python_cx_oracle.Prelude.{◌≡◌, ◌≢◌, refl, true, none, List, [], ◌∷◌, length, arith}
use python_cx_oracle.Prelude.Int.{pos, negsuc}
use python_cx_oracle.Error.{ok}
use python_cx_oracle.Types.{TransformNum, Transform}
use python_cx_oracle.Py.{Value, DateTime, Delta, codes}
use python_cx_oracle.Py.Calendar.{IsNormal, is_valid_date, is_valid_time}
use python_cx_oracle.Transform.{
  Runtime, EncodingInfo, Context, ValueInfo, get_num_from_array, get_num_from_python_value,
  midnight_of,
}
use python_cx_oracle.Transform.Uniform.{
  All, Accepted, element_transform, get_num_from_array-Accepted,
}
use python_cx_oracle.Transform.Accepting.{get_num_from_array_accepts}
use python_cx_oracle.Transform.Roundtrip.{ComesBack, datetime_roundtrip, date_roundtrip}

-- A runtime whose encodings leave a text as it is.
abbrev pub sample_runtime : Runtime
sample_runtime = record {
  version = 19;
  encode = λ e s. ok s;
  decode = λ e h b. ok b;
  str_of = λ v. ok (codes "7");
  parse_int = λ s. ok (pos 7);
  parse_float = λ s. ok 0;
  parse_decimal = λ s. ok s;
  long_of = λ v. ok (pos 7);
  as_double = λ v. ok 0;
  narrow = λ x. x;
  widen = λ x. x;
  is_true = λ v. ok true;
  new_cursor = λ h. ok h;
  long_bits = 64;
  rowid_string = λ h. ok (codes "AAA");
}

abbrev pub sample_encodings : EncodingInfo
sample_encodings = record { encoding = 0; nencoding = 0 }

abbrev pub sample_context : Context
sample_context = record {
  object_type = 0;
  bytes_encoding = 0;
  encoding_errors = none;
  encodings = sample_encodings;
}

abbrev pub noon : DateTime
noon = record {
  date = record { year = 2020; month = 2; day = 29 };
  hour = 12;
  minute = 30;
  second = 15;
  microsecond = 123456;
}

-- -1 day, 23:59:59.999999
abbrev pub short_delta : Delta
short_delta = record { days = negsuc 0; seconds = 86399; microseconds = 999999 }

pub short_delta-IsNormal : IsNormal short_delta
short_delta-IsNormal = record {
  days_bound = omega arith;
  seconds_bound = omega arith;
  microseconds_bound = omega arith;
}

datetime_roundtrip_example :
    ComesBack sample_runtime sample_encodings sample_context TransformNum.datetime
      (Value.datetime noon)
      (Value.datetime noon)
    × ComesBack sample_runtime sample_encodings sample_context TransformNum.timestamp
        (Value.datetime noon)
        (Value.datetime noon)
    × ComesBack sample_runtime sample_encodings sample_context TransformNum.timestamp_ltz
        (Value.datetime noon)
        (Value.datetime noon)
    × ComesBack sample_runtime sample_encodings sample_context TransformNum.timestamp_tz
        (Value.datetime noon)
        (Value.datetime noon)
unfolding is_valid_date is_valid_time
datetime_roundtrip_example =
    datetime_roundtrip sample_runtime sample_encodings sample_context noon refl refl

date_roundtrip_example :
    ComesBack sample_runtime sample_encodings sample_context TransformNum.date
      (Value.date noon.date)
      (Value.date noon.date)
    × ComesBack sample_runtime sample_encodings sample_context TransformNum.date
        (Value.datetime noon)
        (Value.date noon.date)
    × ComesBack sample_runtime sample_encodings sample_context TransformNum.datetime
        (Value.date noon.date)
        (Value.datetime (midnight_of noon.date))
unfolding is_valid_date
date_roundtrip_example = date_roundtrip sample_runtime sample_encodings sample_context noon refl

-- [None, "ab", "a"]
abbrev texts : List Value
texts = Value.none ∷ Value.str (codes "ab") ∷ Value.str (codes "a") ∷ []

abbrev texts_info : ValueInfo
texts_info = record {
  transform_num = TransformNum.string;
  size = 2;
  is_array = true;
  num_elements = 3;
}

texts_accepted : get_num_from_array 19 texts ≡ ok texts_info
unfolding get_num_from_array
texts_accepted = refl

get_num_from_array-Accepted_example :
    Accepted 19 texts TransformNum.string 2 × (3 ≡ length texts) × (true ≡ true)
get_num_from_array-Accepted_example = get_num_from_array-Accepted 19 texts texts_info texts_accepted

string_is_not_none : TransformNum.string ≢ TransformNum.none
string_is_not_none e = cc

string_is_supported : TransformNum.string ≢ TransformNum.unsupported
string_is_supported e = cc

none_elements : All (λ x. element_transform 19 x ≡ TransformNum.none) (Value.none ∷ [])
unfolding get_num_from_python_value
none_elements = (refl, tt)

text_elements :
    All
      (λ x. element_transform 19 x ≡ TransformNum.string)
      (Value.str (codes "ab") ∷ Value.str (codes "a") ∷ [])
unfolding get_num_from_python_value
text_elements = (refl, (refl, tt))

get_num_from_array_accepts_example :
    (r : ValueInfo) × (get_num_from_array 19 texts ≡ ok r) × (r.transform_num ≡ TransformNum.string)
get_num_from_array_accepts_example =
    get_num_from_array_accepts 19 (Value.none ∷ []) (Value.str (codes "ab"))
      (Value.str (codes "a") ∷ []) TransformNum.string string_is_not_none string_is_supported
      none_elements text_elements

text_element_not_none : element_transform 19 (Value.str (codes "ab")) ≢ TransformNum.none
unfolding get_num_from_python_value
text_element_not_none e = cc

text_element_supported : element_transform 19 (Value.str (codes "ab")) ≢ TransformNum.unsupported
unfolding get_num_from_python_value
text_element_supported e = cc
