-- ===== src/Common/Tests.antt =====
-- Instances of the theorems about the Avro codec.
use minos_python.Base.{ℕ, ◌≡◌, refl, false, Option, none, some, inl, return, arith}
use minos_python.Common.Avro.Values.{
  ℤ, pos, negsuc, Value, integer, real, date_time, clock, uuid, sequence, model, no_values, value,
  no_entries, entry, Hint, none_hint, date_time_hint, time_hint, uuid_hint, list_hint, union_hint,
  model_hint, no_hints, alternative, no_fields, field, Library,
}
use minos_python.Common.Avro.Codec.{encode, decode}
use minos_python.Common.Avro.Typed.{IsLawful}
use minos_python.Common.Avro.Roundtrip.{decode-encode}
use minos_python.Common.Avro.Instances.{IsInstance, IsSimple, IsSound}
use minos_python.Common.Avro.Decoded.{decode-IsInstance}

abbrev int_of : Value → Option ℤ
int_of (integer z) = some z
int_of _ = none

abbrev float_of : Value → Option ℕ
float_of (real n) = some n
float_of _ = none

abbrev library : Library
library = record {
  uuid_text = λ n. n;
  parse_uuid = λ n. some n;
  uuid_of_bytes = λ n. none;
  to_int = int_of;
  to_float = float_of;
  bytes_items = λ n. no_values;
  same = λ v w. false;
}

library-IsLawful : IsLawful library
library-IsLawful = record { uuid_back = λ n. refl; int_kept = λ z. refl; float_kept = λ n. refl }

-- A model with an identifier, an optional time before 1970, and a list of times of day.
abbrev appointment_hint : Hint
appointment_hint = model_hint 1 (
    field 1 uuid_hint (
      field 2 (union_hint (alternative date_time_hint (alternative none_hint no_hints)))
        (field 3 (list_hint time_hint) no_fields)))

abbrev appointment : Value
appointment = model 1 (
    entry 1 (uuid 77) (
      entry 2 (date_time (negsuc 4))
        (entry 3 (sequence (value (clock 5) (value (clock 6) no_values))) no_entries)))

decode-encode_example :
    (w : Value) × (encode library appointment ≡ return w)
    × (decode library appointment_hint w ≡ return appointment)
decode-encode_example = decode-encode library appointment_hint appointment library-IsLawful (
  refl,
  (
    refl,
    tt,
    (refl, (refl, tt)),
    (refl, inl refl, (refl, tt), (refl, ((omega arith), ((omega arith), tt)), tt, tt)),
  ),
)

-- The time of a day after the first one.
late-time :
    decode library (list_hint time_hint) (sequence (value (integer (pos 86400000007)) no_values))
    ≡ return (sequence (value (clock 7) no_values))
unfolding decode
late-time = refl

list-IsSimple : IsSimple (list_hint time_hint)
unfolding IsSimple
list-IsSimple = tt

late-IsSound : IsSound (sequence (value (integer (pos 86400000007)) no_values))
unfolding IsSound
late-IsSound = (tt, tt)

decode-IsInstance_example : IsInstance (list_hint time_hint) (sequence (value (clock 7) no_values))
decode-IsInstance_example =
    decode-IsInstance library (list_hint time_hint)
      (sequence (value (integer (pos 86400000007)) no_values))
      (sequence (value (clock 7) no_values)) (λ n. tt) list-IsSimple late-IsSound late-time
