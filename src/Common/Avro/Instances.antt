-- ===== src/Common/Avro/Instances.antt =====
-- Which values are instances of a type hint, and the branches of the decoder for the scalar types.
use minos_python.Base.{
  ◌<◌, ◌≡◌, ◌⊎◌, inl, inr, Bool, true, Option, none, some, return, raise, arith, Bool-cases, leb,
}
use minos_python.Common.Avro.Values.{
  ℤ, pos, negsuc, Value, nothing, missing, boolean, integer, real, text, octets, date_time,
  time_delta, day, clock, uuid, sequence, collection, mapping, model, Values, no_values, value,
  Entries, no_entries, entry, Hint, none_hint, bool_hint, int_hint, float_hint, str_hint,
  bytes_hint, date_time_hint, time_delta_hint, date_hint, time_hint, uuid_hint, list_hint, set_hint,
  dict_hint, union_hint, model_hint, Hints, no_hints, alternative, Library,
}
use minos_python.Common.Avro.Codec.{
  Coded, is_date, is_date_time, is_time_delta, day_length, in_range, from_int, time_of, as_int,
  given, or_wrong, to_option, build_none, build_bool, build_string, build_bytes, build_date,
  build_time, build_date_time, build_time_delta, build_uuid, to_set, has_value,
}
use minos_python.Common.Avro.Typed.{AllValues, AllEntries}

-- The dates and times of an object are in the ranges of their classes, as Python keeps them.
unfoldable mutual
  pub IsSound : Value → Type 0
  IsSound (date_time z) = is_date_time z ≡ true
  IsSound (time_delta z) = is_time_delta z ≡ true
  IsSound (day z) = is_date z ≡ true
  IsSound (clock n) = n < day_length
  IsSound (sequence vs) = AreSound vs
  IsSound (collection vs) = AreSound vs
  IsSound (mapping es) = HasSound es
  IsSound (model c es) = HasSound es
  IsSound _ = Unit

  pub AreSound : Values → Type 0
  AreSound no_values = Unit
  AreSound (value v vs) = IsSound v × AreSound vs

  pub HasSound : Entries → Type 0
  HasSound no_entries = Unit
  HasSound (entry k v es) = IsSound v × HasSound es

-- A hint without model classes.
unfoldable mutual
  pub IsSimple : Hint → Type 0
  IsSimple (list_hint t) = IsSimple t
  IsSimple (set_hint t) = IsSimple t
  IsSimple (dict_hint t) = IsSimple t
  IsSimple (union_hint ts) = AreSimple ts
  IsSimple (model_hint c fs) = ⊥
  IsSimple _ = Unit

  pub AreSimple : Hints → Type 0
  AreSimple no_hints = Unit
  AreSimple (alternative t ts) = IsSimple t × AreSimple ts

-- A value is an instance of the type, with its elements.
unfoldable mutual
  pub IsInstance : Hint → Value → Type 0
  IsInstance none_hint nothing = Unit
  IsInstance bool_hint (boolean b) = Unit
  IsInstance int_hint (integer z) = Unit
  IsInstance float_hint (real n) = Unit
  IsInstance str_hint (text n) = Unit
  IsInstance bytes_hint (octets n) = Unit
  IsInstance date_time_hint (date_time z) = is_date_time z ≡ true
  IsInstance time_delta_hint (time_delta z) = is_time_delta z ≡ true
  IsInstance date_hint (day z) = is_date z ≡ true
  IsInstance date_hint (date_time z) = is_date_time z ≡ true
  IsInstance time_hint (clock n) = n < day_length
  IsInstance uuid_hint (uuid n) = Unit
  IsInstance (list_hint t) (sequence vs) = AllValues (λ v. IsInstance t v) vs
  IsInstance (set_hint t) (collection vs) = AllValues (λ v. IsInstance t v) vs
  IsInstance (dict_hint t) (mapping es) = AllEntries (λ v. IsInstance t v) es
  IsInstance (union_hint ts) v = IsInstanceOfOne ts v
  IsInstance _ _ = ⊥

  pub IsInstanceOfOne : Hints → Value → Type 0
  IsInstanceOfOne no_hints v = ⊥
  IsInstanceOfOne (alternative t ts) v = IsInstance t v ⊎ IsInstanceOfOne ts v

abbrev pub Returns : (Value → Type 0) → Coded Value → Type 0
Returns P (return v) = P v
Returns P (raise x) = Unit

pub given-Returns :
    (P : Value → Type 0) (v : Value) (r : Coded Value) → Returns P r → Returns P (given v r)
given-Returns P nothing r h = tt
given-Returns P missing r h = tt
given-Returns P _ r h = h

pub in_range-Returns :
    (P : Value → Type 0) (test : ℤ → Bool) (f : ℤ → Value) (z : ℤ)
    → (test z ≡ true → P (f z))
    → Returns P (in_range test f z)
in_range-Returns P test f z h = elim (Bool-cases (test z)) [
  | inl good ↦ rw good (h good)
  | inr bad ↦ rw bad tt
]

pub from_int-Returns :
    (P : Value → Type 0) (f : ℤ → Coded Value) (o : Option ℤ)
    → ((z : ℤ) → Returns P (f z))
    → Returns P (from_int f o)
from_int-Returns P f none h = tt
from_int-Returns P f (some z) h = h z

pub or_wrong-Returns :
    {A : Type 0} (P : Value → Type 0) (f : A → Value) (o : Option A)
    → ((a : A) → P (f a))
    → Returns P (or_wrong (to_option f o))
or_wrong-Returns P f none h = tt
or_wrong-Returns P f (some a) h = h a

pub time_of-Returns : (z : ℤ) → Returns (IsInstance time_hint) (time_of z)
unfolding IsInstance
time_of-Returns (pos n) = elim (Bool-cases (leb n 315537897599999999)) [
  | inl good ↦ rw good (omega arith)
  | inr bad ↦ rw bad tt
]
time_of-Returns (negsuc n) = tt

pub AllValues-to_set :
    (P : Value → Type 0) (same : Value → Value → Bool) (vs : Values)
    → AllValues P vs
    → AllValues P (to_set same vs)
AllValues-to_set P same no_values h = tt
AllValues-to_set P same (value v vs) h = elim (Bool-cases (has_value same v (to_set same vs))) [
  | inl seen ↦ rw seen (AllValues-to_set P same vs h.1)
  | inr new ↦ rw new (h.0, AllValues-to_set P same vs h.1)
]

pub none-Returns : (v : Value) → Returns (IsInstance none_hint) (build_none v)
unfolding IsInstance
none-Returns nothing = tt
none-Returns missing = tt
none-Returns _ = tt

pub bool-Returns : (v : Value) → Returns (IsInstance bool_hint) (build_bool v)
unfolding IsInstance
bool-Returns (boolean b) = tt
bool-Returns _ = tt

pub string-Returns : (v : Value) → Returns (IsInstance str_hint) (build_string v)
unfolding IsInstance
string-Returns (text n) = tt
string-Returns _ = tt

pub bytes-Returns : (v : Value) → Returns (IsInstance bytes_hint) (build_bytes v)
unfolding IsInstance
bytes-Returns (octets n) = tt
bytes-Returns _ = tt

pub date-Returns : (v : Value) → IsSound v → Returns (IsInstance date_hint) (build_date v)
unfolding IsInstance IsSound
date-Returns (day z) h = h
date-Returns (date_time z) h = h
date-Returns v h =
    from_int-Returns (IsInstance date_hint) (in_range is_date day) (as_int v)
      (λ z. in_range-Returns (IsInstance date_hint) is_date day z (λ e. e))

pub date_time-Returns :
    (v : Value) → IsSound v → Returns (IsInstance date_time_hint) (build_date_time v)
unfolding IsInstance IsSound
date_time-Returns (date_time z) h = h
date_time-Returns v h =
    from_int-Returns (IsInstance date_time_hint) (in_range is_date_time date_time) (as_int v)
      (λ z. in_range-Returns (IsInstance date_time_hint) is_date_time date_time z (λ e. e))

pub time_delta-Returns :
    (v : Value) → IsSound v → Returns (IsInstance time_delta_hint) (build_time_delta v)
unfolding IsInstance IsSound
time_delta-Returns (time_delta z) h = h
time_delta-Returns v h =
    from_int-Returns (IsInstance time_delta_hint) (in_range is_time_delta time_delta) (as_int v)
      (λ z. in_range-Returns (IsInstance time_delta_hint) is_time_delta time_delta z (λ e. e))

pub time-Returns : (v : Value) → IsSound v → Returns (IsInstance time_hint) (build_time v)
unfolding IsInstance IsSound
time-Returns (clock n) h = h
time-Returns v h = from_int-Returns (IsInstance time_hint) time_of (as_int v) time_of-Returns

pub uuid-Returns : (p : Library) (v : Value) → Returns (IsInstance uuid_hint) (build_uuid p v)
unfolding IsInstance
uuid-Returns p (uuid n) = tt
uuid-Returns p (text n) = or_wrong-Returns (IsInstance uuid_hint) uuid (p.parse_uuid n) (λ a. tt)
uuid-Returns p (octets n) =
    or_wrong-Returns (IsInstance uuid_hint) uuid (p.uuid_of_bytes n) (λ a. tt)
uuid-Returns p _ = tt
