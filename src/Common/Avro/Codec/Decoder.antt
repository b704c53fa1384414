-- ===== src/Common/Avro/Codec/Decoder.antt =====
-- The decoder (decoder.py).
use minos_python.Base.{return, raise}
use minos_python.Common.Avro.Values.{
  Value, nothing, missing, integer, real, sequence, collection, model, Entries, no_entries, entry,
  Hint, none_hint, bool_hint, int_hint, float_hint, str_hint, bytes_hint, date_time_hint,
  time_delta_hint, date_hint, time_hint, uuid_hint, list_hint, set_hint, dict_hint, union_hint,
  model_hint, malformed_hint, Hints, no_hints, alternative, FieldHints, no_fields, field, Library,
  required_value, wrong_type, malformed_type,
}
use minos_python.Common.Avro.Codec.Encoder.{Coded, map_coded, both}
use minos_python.Common.Avro.Codec.Parts.{
  or_wrong, to_option, build_date, build_time, build_date_time, build_time_delta, build_bool,
  build_string, build_bytes, build_none, given, items_of, build_items, build_dict, to_set,
  find_entry, or_try, from_fields, unless_model, build_uuid, assign, decode_given,
}

module _ (p : Library) where
  unfoldable mutual
    -- `AvroDataDecoder._build`
    pub decode : Hint → Value → Coded Value
    decode none_hint v = build_none v
    decode bool_hint v = given v (build_bool v)
    decode int_hint v = given v (or_wrong (to_option integer (p.to_int v)))
    decode float_hint v = given v (or_wrong (to_option real (p.to_float v)))
    decode str_hint v = given v (build_string v)
    decode bytes_hint v = given v (build_bytes v)
    decode date_time_hint v = given v (build_date_time v)
    decode time_delta_hint v = given v (build_time_delta v)
    decode date_hint v = given v (build_date v)
    decode time_hint v = given v (build_time v)
    decode uuid_hint v = given v (build_uuid p v)
    decode (list_hint t) v = given v (build_items sequence (λ x. decode t x) (items_of p v))
    decode (set_hint t) v =
        given v (build_items (λ vs. collection (to_set p.same vs)) (λ x. decode t x) (items_of p v))
    decode (dict_hint t) v = given v (build_dict (λ x. decode t x) v)
    decode (union_hint ts) v = decode_first ts v
    decode (model_hint c fs) v = given v (
        unless_model c v (
          or_try (from_fields (λ es. map_coded (model c) (construct fs es)) v)
            (or_try (map_coded (model c) (decode_positional fs v)) (raise wrong_type))))
    decode malformed_hint v = given v (raise malformed_type)

    -- `_build_union`
    pub decode_first : Hints → Value → Coded Value
    decode_first no_hints nothing = raise required_value
    decode_first no_hints missing = raise required_value
    decode_first no_hints v = raise wrong_type
    decode_first (alternative t ts) v = or_try (decode t v) (decode_first ts v)

    -- The fields that the constructor of a model makes of the items of a dictionary: each is decoded
    -- by `_build_model_type`, if it is there, and by the field that it is assigned to.
    pub construct : FieldHints → Entries → Coded Entries
    construct no_fields es = return no_entries
    construct (field k t fs) es =
        both (entry k) (assign (λ x. decode t x) (decode_given (λ x. decode t x) (find_entry k es)))
          (construct fs es)

    -- `zip_longest((data,), hints)`: the first field gets the data and the others `None`.
    pub decode_positional : FieldHints → Value → Coded Entries
    decode_positional no_fields v = raise malformed_type
    decode_positional (field k t fs) v =
        both (entry k) (assign (λ x. decode t x) (decode t v)) (decode_nothing fs)

    pub decode_nothing : FieldHints → Coded Entries
    decode_nothing no_fields = return no_entries
    decode_nothing (field k t fs) =
        both (entry k) (assign (λ x. decode t x) (decode t nothing)) (decode_nothing fs)
