-- ===== src/Common/Avro/Kept.antt =====
-- A value that a hint admits is decoded to itself.
use minos_python.Base.{◌≡◌, inl, inr, refl, ap, ◌∙◌, return}
use minos_python.Common.Avro.Values.{
  Value, nothing, boolean, integer, real, text, octets, date_time, time_delta, day, clock, uuid,
  sequence, collection, mapping, model, Hint, none_hint, bool_hint, int_hint, float_hint, str_hint,
  bytes_hint, date_time_hint, time_delta_hint, date_hint, time_hint, uuid_hint, list_hint, set_hint,
  dict_hint, union_hint, model_hint, malformed_hint, Hints, no_hints, alternative, Library,
}
use minos_python.Common.Avro.Codec.{decode, decode_first, to_set, map_coded}
use minos_python.Common.Avro.Typed.{IsLawful, HasType, HasOne}
use minos_python.Common.Avro.Coding.{or_try-raised, map_values-kept, map_entries-kept}

module _ (p : Library) (lawful : IsLawful p) where
  mutual
    unfolding decode

    pub decode_kept : (t : Hint) (v : Value) → HasType p t v → decode p t v ≡ return v
    decode_kept none_hint nothing h = refl
    decode_kept none_hint _ h = elim h [ ]
    decode_kept bool_hint (boolean b) h = refl
    decode_kept bool_hint _ h = elim h [ ]
    decode_kept int_hint (integer z) h = rw (lawful.int_kept z)
    decode_kept int_hint _ h = elim h [ ]
    decode_kept float_hint (real n) h = rw (lawful.float_kept n)
    decode_kept float_hint _ h = elim h [ ]
    decode_kept str_hint (text n) h = refl
    decode_kept str_hint _ h = elim h [ ]
    decode_kept bytes_hint (octets n) h = refl
    decode_kept bytes_hint _ h = elim h [ ]
    decode_kept date_time_hint (date_time z) h = refl
    decode_kept date_time_hint _ h = elim h [ ]
    decode_kept time_delta_hint (time_delta z) h = refl
    decode_kept time_delta_hint _ h = elim h [ ]
    decode_kept date_hint (day z) h = refl
    decode_kept date_hint _ h = elim h [ ]
    decode_kept time_hint (clock n) h = refl
    decode_kept time_hint _ h = elim h [ ]
    decode_kept uuid_hint (uuid n) h = refl
    decode_kept uuid_hint _ h = elim h [ ]
    decode_kept (list_hint t) (sequence vs) h =
        ap (map_coded sequence)
          (map_values-kept (λ x. decode p t x) (λ v. HasType p t v) vs (λ v k. decode_kept t v k) h)
    decode_kept (list_hint t) _ h = elim h [ ]
    decode_kept (set_hint t) (collection vs) h =
        ap (map_coded (λ ws. collection (to_set p.same ws))) (
          map_values-kept (λ x. decode p t x) (λ v. HasType p t v) vs (λ v k. decode_kept t v k)
            h.0)
        ∙ ap (λ ws. return (collection ws)) h.1
    decode_kept (set_hint t) _ h = elim h [ ]
    decode_kept (dict_hint t) (mapping es) h =
        ap (map_coded mapping) (
          map_entries-kept (λ x. decode p t x) (λ v. HasType p t v) es (λ v k. decode_kept t v k) h)
    decode_kept (dict_hint t) _ h = elim h [ ]
    decode_kept (union_hint ts) v h = decode_first_kept ts v h
    decode_kept (model_hint c fs) (model k es) h = rw h.0
    decode_kept (model_hint c fs) _ h = elim h [ ]
    decode_kept malformed_hint _ h = elim h [ ]

    pub decode_first_kept :
        (ts : Hints) (v : Value) → HasOne p ts v → decode_first p ts v ≡ return v
    decode_first_kept no_hints v h = elim h [ ]
    decode_first_kept (alternative t ts) v (inl h) = rw (decode_kept t v h)
    decode_first_kept (alternative t ts) v (inr (refused, h)) =
        or_try-raised _ _ refused.0 ∙ decode_first_kept ts v h
