-- ===== src/Common/Avro/Decoded.antt =====
-- What the decoder returns is of the type that it was asked for.
use minos_python.Base.{ℕ, ◌≡◌, inl, inr, subst, Option, none, some, return, raise}
use minos_python.Common.Avro.Values.{
  Value, nothing, missing, integer, real, octets, buffer, sequence, collection, mapping, model,
  Values, no_values, value, Entries, no_entries, entry, Hint, none_hint, bool_hint, int_hint,
  float_hint, str_hint, bytes_hint, date_time_hint, time_delta_hint, date_hint, time_hint,
  uuid_hint, list_hint, set_hint, dict_hint, union_hint, model_hint, malformed_hint, Hints,
  no_hints, alternative, Library,
}
use minos_python.Common.Avro.Codec.{
  Coded, decode, decode_first, build_items, build_dict, items_of, keys_of, map_values, map_entries,
  map_coded, both, to_set, or_try,
}
use minos_python.Common.Avro.Typed.{AllValues, AllEntries}
use minos_python.Common.Avro.Instances.{
  Returns, given-Returns, or_wrong-Returns, AllValues-to_set, none-Returns, bool-Returns,
  string-Returns, bytes-Returns, date-Returns, date_time-Returns, time_delta-Returns, time-Returns,
  uuid-Returns, IsSound, AreSound, HasSound, IsSimple, AreSimple, IsInstance, IsInstanceOfOne,
}

abbrev ReturnsAll : (Value → Type 0) → Coded Values → Type 0
ReturnsAll P (return vs) = AllValues P vs
ReturnsAll P (raise x) = Unit

abbrev ReturnsEntries : (Value → Type 0) → Coded Entries → Type 0
ReturnsEntries P (return es) = AllEntries P es
ReturnsEntries P (raise x) = Unit

both_values :
    (P : Value → Type 0) (r : Coded Value) (s : Coded Values)
    → Returns P r
    → ReturnsAll P s
    → ReturnsAll P (both value r s)
both_values P (raise x) s h k = tt
both_values P (return v) (raise x) h k = tt
both_values P (return v) (return vs) h k = (h, k)

both_entries :
    (P : Value → Type 0) (k : ℕ) (r : Coded Value) (s : Coded Entries)
    → Returns P r
    → ReturnsEntries P s
    → ReturnsEntries P (both (entry k) r s)
both_entries P k (raise x) s h g = tt
both_entries P k (return v) (raise x) h g = tt
both_entries P k (return v) (return es) h g = (h, g)

map_values-ReturnsAll :
    (P : Value → Type 0) (f : Value → Coded Value) (vs : Values)
    → ((v : Value) → IsSound v → Returns P (f v))
    → AreSound vs
    → ReturnsAll P (map_values f vs)
unfolding IsSound
map_values-ReturnsAll P f no_values each h = tt
map_values-ReturnsAll P f (value v vs) each h =
    both_values P (f v) (map_values f vs) (each v h.0) (map_values-ReturnsAll P f vs each h.1)

map_entries-ReturnsEntries :
    (P : Value → Type 0) (f : Value → Coded Value) (es : Entries)
    → ((v : Value) → IsSound v → Returns P (f v))
    → HasSound es
    → ReturnsEntries P (map_entries f es)
unfolding IsSound
map_entries-ReturnsEntries P f no_entries each h = tt
map_entries-ReturnsEntries P f (entry k v es) each h =
    both_entries P k (f v) (map_entries f es) (each v h.0)
      (map_entries-ReturnsEntries P f es each h.1)

keys_of-AreSound : (es : Entries) → AreSound (keys_of es)
unfolding IsSound
keys_of-AreSound no_entries = tt
keys_of-AreSound (entry k v es) = (tt, keys_of-AreSound es)

abbrev pub IsInteger : Value → Type 0
IsInteger (integer z) = Unit
IsInteger _ = ⊥

integers-AreSound : (vs : Values) → AllValues IsInteger vs → AreSound vs
unfolding IsSound
integers-AreSound no_values h = tt
integers-AreSound (value (integer z) vs) h = (tt, integers-AreSound vs h.1)
integers-AreSound (value _ vs) h = elim h.0 [ ]

-- The elements of a value are sound, where it has any.
abbrev SoundItems : Option Values → Type 0
SoundItems none = Unit
SoundItems (some vs) = AreSound vs

items_of-SoundItems :
    (p : Library) (v : Value)
    → ((n : ℕ) → AllValues IsInteger (p.bytes_items n))
    → IsSound v
    → SoundItems (items_of p v)
unfolding IsSound
items_of-SoundItems p (sequence vs) ints h = h
items_of-SoundItems p (collection vs) ints h = h
items_of-SoundItems p (mapping es) ints h = keys_of-AreSound es
items_of-SoundItems p (model c es) ints h = keys_of-AreSound es
items_of-SoundItems p (octets n) ints h = integers-AreSound (p.bytes_items n) (ints n)
items_of-SoundItems p (buffer n) ints h = integers-AreSound (p.bytes_items n) (ints n)
items_of-SoundItems p _ ints h = tt

items-Returns :
    (P Q : Value → Type 0) (make : Values → Value) (f : Value → Coded Value) (o : Option Values)
    → ((vs : Values) → AllValues Q vs → P (make vs))
    → ((v : Value) → IsSound v → Returns Q (f v))
    → SoundItems o
    → Returns P (build_items make f o)
items-Returns P Q make f none made each h = tt
items-Returns P Q make f (some vs) made each h =
    made_of (map_values f vs) (map_values-ReturnsAll Q f vs each h)
  where
    made_of : (r : Coded Values) → ReturnsAll Q r → Returns P (map_coded make r)
    made_of (return ws) k = made ws k
    made_of (raise x) k = tt

dict_of :
    (t : Hint) (r : Coded Entries)
    → ReturnsEntries (IsInstance t) r
    → Returns (IsInstance (dict_hint t)) (map_coded mapping r)
unfolding IsInstance
dict_of t (return es) k = k
dict_of t (raise x) k = tt

dict-Returns :
    (t : Hint) (f : Value → Coded Value) (v : Value)
    → ((w : Value) → IsSound w → Returns (IsInstance t) (f w))
    → IsSound v
    → Returns (IsInstance (dict_hint t)) (build_dict f v)
unfolding IsInstance IsSound
dict-Returns t f (mapping es) each h =
    dict_of t (map_entries f es) (map_entries-ReturnsEntries (IsInstance t) f es each h)
dict-Returns t f (model c es) each h =
    dict_of t (map_entries f es) (map_entries-ReturnsEntries (IsInstance t) f es each h)
dict-Returns t f _ each h = tt

or_try-Returns :
    (t : Hint) (ts : Hints) (r s : Coded Value)
    → Returns (IsInstance t) r
    → Returns (IsInstanceOfOne ts) s
    → Returns (IsInstanceOfOne (alternative t ts)) (or_try r s)
unfolding IsInstance
or_try-Returns t ts (return v) s h k = inl h
or_try-Returns t ts (raise x) (return v) h k = inr k
or_try-Returns t ts (raise x) (raise y) h k = tt

module _ (p : Library) (ints : (n : ℕ) → AllValues IsInteger (p.bytes_items n)) where
  mutual
    unfolding decode IsInstance IsSimple

    decode-Returns :
        (t : Hint) (v : Value) → IsSimple t → IsSound v → Returns (IsInstance t) (decode p t v)
    decode-Returns none_hint v s h = none-Returns v
    decode-Returns bool_hint v s h = given-Returns (IsInstance bool_hint) v _ (bool-Returns v)
    decode-Returns int_hint v s h =
        given-Returns (IsInstance int_hint) v _
          (or_wrong-Returns (IsInstance int_hint) integer (p.to_int v) (λ a. tt))
    decode-Returns float_hint v s h =
        given-Returns (IsInstance float_hint) v _
          (or_wrong-Returns (IsInstance float_hint) real (p.to_float v) (λ a. tt))
    decode-Returns str_hint v s h = given-Returns (IsInstance str_hint) v _ (string-Returns v)
    decode-Returns bytes_hint v s h = given-Returns (IsInstance bytes_hint) v _ (bytes-Returns v)
    decode-Returns date_time_hint v s h =
        given-Returns (IsInstance date_time_hint) v _ (date_time-Returns v h)
    decode-Returns time_delta_hint v s h =
        given-Returns (IsInstance time_delta_hint) v _ (time_delta-Returns v h)
    decode-Returns date_hint v s h = given-Returns (IsInstance date_hint) v _ (date-Returns v h)
    decode-Returns time_hint v s h = given-Returns (IsInstance time_hint) v _ (time-Returns v h)
    decode-Returns uuid_hint v s h = given-Returns (IsInstance uuid_hint) v _ (uuid-Returns p v)
    decode-Returns (list_hint t) v s h = given-Returns (IsInstance (list_hint t)) v _ (
        items-Returns (IsInstance (list_hint t)) (IsInstance t) sequence (λ x. decode p t x)
          (items_of p v) (λ vs k. k) (λ w k. decode-Returns t w s k)
          (items_of-SoundItems p v ints h))
    decode-Returns (set_hint t) v s h = given-Returns (IsInstance (set_hint t)) v _ (
        items-Returns (IsInstance (set_hint t)) (IsInstance t) (λ vs. collection (to_set p.same vs))
          (λ x. decode p t x) (items_of p v) (λ vs k. AllValues-to_set (IsInstance t) p.same vs k)
          (λ w k. decode-Returns t w s k) (items_of-SoundItems p v ints h))
    decode-Returns (dict_hint t) v s h =
        given-Returns (IsInstance (dict_hint t)) v _
          (dict-Returns t (λ x. decode p t x) v (λ w k. decode-Returns t w s k) h)
    decode-Returns (union_hint ts) v s h = decode_first-Returns ts v s h
    decode-Returns (model_hint c fs) v s h = elim s [ ]
    decode-Returns malformed_hint v s h = given-Returns (IsInstance malformed_hint) v _ tt

    decode_first-Returns :
        (ts : Hints) (v : Value)
        → AreSimple ts
        → IsSound v
        → Returns (IsInstanceOfOne ts) (decode_first p ts v)
    decode_first-Returns no_hints nothing s h = tt
    decode_first-Returns no_hints missing s h = tt
    decode_first-Returns no_hints _ s h = tt
    decode_first-Returns (alternative t ts) v s h =
        or_try-Returns t ts (decode p t v) (decode_first p ts v) (decode-Returns t v s.0 h)
          (decode_first-Returns ts v s.1 h)

-- Under a hint without model classes, whatever the decoder returns is an instance of the hint, with
-- all its elements; a datetime is a date as well. Dates, datetimes, times and intervals are in the
-- ranges of their classes. The data may hold dates and times as objects, which are in range, and the
-- elements of bytes are integers.
pub decode-IsInstance :
    (p : Library) (t : Hint) (datum v : Value)
    → ((n : ℕ) → AllValues IsInteger (p.bytes_items n))
    → IsSimple t
    → IsSound datum
    → decode p t datum ≡ return v
    → IsInstance t v
decode-IsInstance p t datum v ints simple sound e =
    subst (Returns (IsInstance t)) e (decode-Returns p ints t datum simple sound)
