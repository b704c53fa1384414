-- ===== src/Common/Avro/Codec/Encoder.antt =====
-- The encoder (encoder.py).
use minos_python.Base.{Result, return, raise}
use minos_python.Common.Avro.Values.{
  pos, Value, nothing, missing, boolean, integer, real, text, octets, buffer, date_time, time_delta,
  day, clock, uuid, sequence, collection, mapping, model, unsupported, Values, no_values, value,
  Entries, no_entries, entry, Library, CodecError, not_supported,
}

abbrev pub Coded : Type 0 → Type 0
Coded = Result CodecError

abbrev pub map_coded : {A B : Type 0} → (A → B) → Coded A → Coded B
map_coded f (return a) = return (f a)
map_coded f (raise x) = raise x

abbrev pub both : {A B C : Type 0} → (A → B → C) → Coded A → Coded B → Coded C
both f (raise x) b = raise x
both f (return a) (raise x) = raise x
both f (return a) (return b) = return (f a b)

module _ (p : Library) where
  unfoldable mutual
    -- `AvroDataEncoder._build`
    pub encode : Value → Coded Value
    encode nothing = return nothing
    encode missing = raise not_supported
    encode (boolean b) = return (boolean b)
    encode (integer z) = return (integer z)
    encode (real n) = return (real n)
    encode (text n) = return (text n)
    encode (octets n) = return (octets n)
    encode (buffer n) = return (octets n)
    encode (date_time z) = return (integer z)
    encode (time_delta z) = return (integer z)
    encode (day z) = return (integer z)
    encode (clock n) = return (integer (pos n))
    encode (uuid n) = return (text (p.uuid_text n))
    encode (sequence vs) = map_coded sequence (encode_values vs)
    encode (collection vs) = map_coded sequence (encode_values vs)
    encode (mapping es) = map_coded mapping (encode_entries es)
    encode (model c es) = map_coded mapping (encode_entries es)
    encode (unsupported n) = raise not_supported

    pub encode_values : Values → Coded Values
    encode_values no_values = return no_values
    encode_values (value v vs) = both value (encode v) (encode_values vs)

    pub encode_entries : Entries → Coded Entries
    encode_entries no_entries = return no_entries
    encode_entries (entry k v es) = both (entry k) (encode v) (encode_entries es)
