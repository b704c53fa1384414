-- ===== src/Common/Avro/Codec/Parts.antt =====
-- The branches of the decoder (decoder.py), over the decoder of the parts.
use Prim.Native.Nat.{◌%◌}
use minos_python.Base.{
  ℕ, Bool, true, false, ◌&&◌, ◌||◌, Option, none, some, ◌==◌, if◌then◌else◌, leb, return, raise,
}
use minos_python.Common.Avro.Values.{
  ℤ, pos, negsuc, le_int, Value, nothing, missing, boolean, integer, text, octets, buffer,
  date_time, time_delta, day, clock, uuid, sequence, collection, mapping, model, Values, no_values,
  value, Entries, no_entries, entry, Library, required_value, wrong_type, overflow,
}
use minos_python.Common.Avro.Codec.Encoder.{Coded, map_coded, both}

abbrev pub or_wrong : Option Value → Coded Value
or_wrong none = raise wrong_type
or_wrong (some v) = return v

abbrev pub to_option : {A : Type 0} → (A → Value) → Option A → Option Value
to_option f none = none
to_option f (some a) = some (f a)

-- `isinstance(data, int)`, with its number: a `bool` is an `int`.
abbrev pub as_int : Value → Option ℤ
as_int (integer z) = some z
as_int (boolean true) = some (pos 1)
as_int (boolean false) = some (pos 0)
as_int _ = none

abbrev pub within : ℤ → ℤ → ℤ → Bool
within lo hi z = le_int lo z && le_int z hi

-- The ranges of `date`, `datetime` and `timedelta`.
abbrev pub is_date : ℤ → Bool
is_date = within (negsuc 719161) (pos 2932896)

abbrev pub is_date_time : ℤ → Bool
is_date_time = within (negsuc 62135596799999999) (pos 253402300799999999)

abbrev pub is_time_delta : ℤ → Bool
is_time_delta = within (negsuc 86399999913599999999) (pos 86399999999999999999)

abbrev pub day_length : ℕ
day_length = 86400000000

abbrev pub in_range : (ℤ → Bool) → (ℤ → Value) → ℤ → Coded Value
in_range test f z = if test z then return (f z) else raise overflow

abbrev pub from_int : (ℤ → Coded Value) → Option ℤ → Coded Value
from_int f none = raise wrong_type
from_int f (some z) = f z

-- A `datetime` is a `date`.
abbrev pub build_date : Value → Coded Value
build_date (day z) = return (day z)
build_date (date_time z) = return (date_time z)
build_date v = from_int (in_range is_date day) (as_int v)

-- `(datetime(1, 1, 1) + timedelta(microseconds=data)).time()`
abbrev pub time_of : ℤ → Coded Value
time_of (pos n) =
    if leb n 315537897599999999 then return (clock (n % day_length)) else raise overflow
time_of (negsuc n) = raise overflow

abbrev pub build_time : Value → Coded Value
build_time (clock n) = return (clock n)
build_time v = from_int time_of (as_int v)

abbrev pub build_date_time : Value → Coded Value
build_date_time (date_time z) = return (date_time z)
build_date_time v = from_int (in_range is_date_time date_time) (as_int v)

abbrev pub build_time_delta : Value → Coded Value
build_time_delta (time_delta z) = return (time_delta z)
build_time_delta v = from_int (in_range is_time_delta time_delta) (as_int v)

abbrev pub build_bool : Value → Coded Value
build_bool (boolean b) = return (boolean b)
build_bool _ = raise wrong_type

abbrev pub build_string : Value → Coded Value
build_string (text n) = return (text n)
build_string _ = raise wrong_type

abbrev pub build_bytes : Value → Coded Value
build_bytes (octets n) = return (octets n)
build_bytes _ = raise wrong_type

abbrev pub build_none : Value → Coded Value
build_none nothing = return nothing
build_none missing = return nothing
build_none _ = raise wrong_type

-- `if data is None: raise …` and `if data is MissingSentinel: raise …`
abbrev pub given : Value → Coded Value → Coded Value
given nothing r = raise required_value
given missing r = raise required_value
given v r = r

abbrev pub map_values : (Value → Coded Value) → Values → Coded Values
map_values f no_values = return no_values
map_values f (value v vs) = both value (f v) (map_values f vs)

abbrev pub map_entries : (Value → Coded Value) → Entries → Coded Entries
map_entries f no_entries = return no_entries
map_entries f (entry k v es) = both (entry k) (f v) (map_entries f es)

abbrev pub keys_of : Entries → Values
keys_of no_entries = no_values
keys_of (entry k v es) = value (text k) (keys_of es)

-- The elements of what can be iterated over and is no text.
abbrev pub items_of : Library → Value → Option Values
items_of p (sequence vs) = some vs
items_of p (collection vs) = some vs
items_of p (mapping es) = some (keys_of es)
items_of p (model c es) = some (keys_of es)
items_of p (octets n) = some (p.bytes_items n)
items_of p (buffer n) = some (p.bytes_items n)
items_of p _ = none

abbrev pub build_items : (Values → Value) → (Value → Coded Value) → Option Values → Coded Value
build_items make f none = raise wrong_type
build_items make f (some vs) = map_coded make (map_values f vs)

abbrev pub build_dict : (Value → Coded Value) → Value → Coded Value
build_dict f (mapping es) = map_coded mapping (map_entries f es)
build_dict f (model c es) = map_coded mapping (map_entries f es)
build_dict f _ = raise wrong_type

abbrev pub has_value : (Value → Value → Bool) → Value → Values → Bool
has_value same v no_values = false
has_value same v (value w ws) = same v w || has_value same v ws

-- `set(…)`
abbrev pub to_set : (Value → Value → Bool) → Values → Values
to_set same no_values = no_values
to_set same (value v vs) =
    if has_value same v (to_set same vs) then to_set same vs else value v (to_set same vs)

-- `data[name]`, or `MissingSentinel`.
abbrev pub find_entry : ℕ → Entries → Value
find_entry n no_entries = missing
find_entry n (entry k v es) = if k == n then v else find_entry n es

-- `with suppress(Exception): return first`, and then `second`.
abbrev pub or_try : Coded Value → Coded Value → Coded Value
or_try (return v) second = return v
or_try (raise x) second = second

abbrev pub from_fields : (Entries → Coded Value) → Value → Coded Value
from_fields f (mapping es) = f es
from_fields f _ = raise wrong_type

-- `hasattr(data, "model_type")` with the same class: `data` is returned.
abbrev pub unless_model : ℕ → Value → Coded Value → Coded Value
unless_model c (model k es) r = if k == c then return (model k es) else r
unless_model c v r = r

abbrev pub is_missing : Value → Bool
is_missing missing = true
is_missing _ = false

abbrev pub build_uuid : Library → Value → Coded Value
build_uuid p (uuid n) = return (uuid n)
build_uuid p (text n) = or_wrong (to_option uuid (p.parse_uuid n))
build_uuid p (octets n) = or_wrong (to_option uuid (p.uuid_of_bytes n))
build_uuid p v = raise wrong_type

-- The setter of `Field.value`, by what was passed to the constructor of the model.
abbrev pub assign : (Value → Coded Value) → Coded Value → Coded Value
assign f (raise x) = raise x
assign f (return v) = f v

-- `if field_name in data`
abbrev pub decode_given : (Value → Coded Value) → Value → Coded Value
decode_given f missing = return missing
decode_given f v = f v
