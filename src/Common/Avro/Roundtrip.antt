-- ===== src/Common/Avro/Roundtrip.antt =====
-- What a value is encoded as is decoded to the value.
use minos_python.Base.{◌≡◌, inl, inr, refl, ap, ◌∙◌, ==_refl, ==_iff, return}
use minos_python.Common.Avro.Values.{
  pos, Value, nothing, boolean, integer, real, text, octets, date_time, time_delta, day, clock,
  uuid, sequence, collection, mapping, model, Entries, no_entries, entry, Hint, none_hint,
  bool_hint, int_hint, float_hint, str_hint, bytes_hint, date_time_hint, time_delta_hint, date_hint,
  time_hint, uuid_hint, list_hint, set_hint, dict_hint, union_hint, model_hint, malformed_hint,
  Hints, no_hints, alternative, FieldHints, no_fields, field, Library,
}
use minos_python.Common.Avro.Codec.{
  encode, decode, decode_first, to_set, map_coded, find_entry, decode_given, assign,
}
use minos_python.Common.Avro.Typed.{IsLawful, HasType, HasOne, HasFields}
use minos_python.Common.Avro.Coding.{
  or_try-raised, both-return, SameNames-IsNew, FoundIn-entry, decode_given-here, Coding,
  values-Coding, entries-Coding, FieldsCoding, time_of_clock, model_back,
}
use minos_python.Common.Avro.Kept.{decode_kept}

module _ (p : Library) (lawful : IsLawful p) where
  mutual
    unfolding decode encode

    value-Coding : (t : Hint) (v : Value) → HasType p t v → Coding p (λ x. decode p t x) v
    value-Coding none_hint nothing h = record {
      stored = nothing;
      encoded = refl;
      decoded = refl;
      here = refl;
    }
    value-Coding none_hint _ h = elim h [ ]
    value-Coding bool_hint (boolean b) h = record {
      stored = boolean b;
      encoded = refl;
      decoded = refl;
      here = refl;
    }
    value-Coding bool_hint _ h = elim h [ ]
    value-Coding int_hint (integer z) h = record {
      stored = integer z;
      encoded = refl;
      decoded = rw (lawful.int_kept z);
      here = refl;
    }
    value-Coding int_hint _ h = elim h [ ]
    value-Coding float_hint (real n) h = record {
      stored = real n;
      encoded = refl;
      decoded = rw (lawful.float_kept n);
      here = refl;
    }
    value-Coding float_hint _ h = elim h [ ]
    value-Coding str_hint (text n) h = record {
      stored = text n;
      encoded = refl;
      decoded = refl;
      here = refl;
    }
    value-Coding str_hint _ h = elim h [ ]
    value-Coding bytes_hint (octets n) h = record {
      stored = octets n;
      encoded = refl;
      decoded = refl;
      here = refl;
    }
    value-Coding bytes_hint _ h = elim h [ ]
    value-Coding date_time_hint (date_time z) h = record {
      stored = integer z;
      encoded = refl;
      decoded = rw h;
      here = refl;
    }
    value-Coding date_time_hint _ h = elim h [ ]
    value-Coding time_delta_hint (time_delta z) h = record {
      stored = integer z;
      encoded = refl;
      decoded = rw h;
      here = refl;
    }
    value-Coding time_delta_hint _ h = elim h [ ]
    value-Coding date_hint (day z) h = record {
      stored = integer z;
      encoded = refl;
      decoded = rw h;
      here = refl;
    }
    value-Coding date_hint _ h = elim h [ ]
    value-Coding time_hint (clock n) h = record {
      stored = integer (pos n);
      encoded = refl;
      decoded = time_of_clock n h;
      here = refl;
    }
    value-Coding time_hint _ h = elim h [ ]
    value-Coding uuid_hint (uuid n) h = record {
      stored = text (p.uuid_text n);
      encoded = refl;
      decoded = rw (lawful.uuid_back n);
      here = refl;
    }
    value-Coding uuid_hint _ h = elim h [ ]
    value-Coding (list_hint t) (sequence vs) h =
        let c =
          values-Coding p (λ x. decode p t x) (λ v. HasType p t v) vs (λ v k. value-Coding t v k)
            h in
        record {
          stored = sequence c.stored;
          encoded = ap (map_coded sequence) c.encoded;
          decoded = ap (map_coded sequence) c.decoded;
          here = refl;
        }
    value-Coding (list_hint t) _ h = elim h [ ]
    value-Coding (set_hint t) (collection vs) h =
        let c =
          values-Coding p (λ x. decode p t x) (λ v. HasType p t v) vs (λ v k. value-Coding t v k)
            h.0 in
        record {
          stored = sequence c.stored;
          encoded = ap (map_coded sequence) c.encoded;
          decoded =
              ap (map_coded (λ ws. collection (to_set p.same ws))) c.decoded
              ∙ ap (λ ws. return (collection ws)) h.1;
          here = refl;
        }
    value-Coding (set_hint t) _ h = elim h [ ]
    value-Coding (dict_hint t) (mapping es) h =
        let c =
          entries-Coding p (λ x. decode p t x) (λ v. HasType p t v) es (λ v k. value-Coding t v k)
            h in
        record {
          stored = mapping c.stored;
          encoded = ap (map_coded mapping) c.encoded;
          decoded = ap (map_coded mapping) c.decoded;
          here = refl;
        }
    value-Coding (dict_hint t) _ h = elim h [ ]
    value-Coding (union_hint ts) v h = first-Coding ts v h
    value-Coding (model_hint c fs) (model k es) h =
        let f = fields-Coding fs es h.1 in
        record {
          stored = mapping f.stored;
          encoded = ap (map_coded mapping) f.encoded;
          decoded =
              model_back k c es _ _ h.0 (ap (map_coded (model c)) (f.decoded f.stored f.found));
          here = refl;
        }
    value-Coding (model_hint c fs) _ h = elim h [ ]
    value-Coding malformed_hint _ h = elim h [ ]

    first-Coding : (ts : Hints) (v : Value) → HasOne p ts v → Coding p (λ x. decode_first p ts x) v
    first-Coding no_hints v h = elim h [ ]
    first-Coding (alternative t ts) v (inl h) =
        let c = value-Coding t v h in
        record { stored = c.stored; encoded = c.encoded; decoded = rw c.decoded; here = c.here }
    first-Coding (alternative t ts) v (inr (refused, h)) =
        let c = first-Coding ts v h in
        record {
          stored = c.stored;
          encoded = c.encoded;
          decoded = or_try-raised _ _ (refused.1 c.stored c.encoded) ∙ c.decoded;
          here = c.here;
        }

    fields-Coding : (fs : FieldHints) (es : Entries) → HasFields p fs es → FieldsCoding p fs es
    fields-Coding no_fields no_entries h = record {
      stored = no_entries;
      encoded = refl;
      names = tt;
      found = tt;
      decoded = λ all k. refl;
    }
    fields-Coding no_fields (entry j v es) h = elim h [ ]
    fields-Coding (field k t fs) no_entries h = elim h [ ]
    fields-Coding (field k t fs) (entry j v es) h =
        let c = value-Coding t v h.1 in
        let cs = fields-Coding fs es h.3 in
        record {
          stored = entry j c.stored cs.stored;
          encoded = both-return (entry j) c.encoded cs.encoded;
          names = (refl, cs.names);
          found = (
            rw (==_refl j),
            FoundIn-entry j c.stored cs.stored cs.stored
                (SameNames-IsNew j es cs.stored cs.names h.2) cs.found,
          );
          decoded = λ all found.
              let q : k ≡ j = (==_iff k j).0 h.0 in
              let f = λ (x : Value). decode p t x in
              let at : find_entry k all ≡ c.stored = ap (λ n. find_entry n all) q ∙ found.0 in
              both-return (entry k)
                (ap (λ w. assign f (decode_given f w)) at
                  ∙ ap (assign f) (decode_given-here f c.stored c.here ∙ c.decoded)
                  ∙ decode_kept p lawful t v h.1)
                (cs.decoded all found.1)
              ∙ ap (λ n. return (entry n v es)) q;
        }

-- A value that a type hint admits is encoded, and the decoder gives the value back from what it is
-- encoded as. The library behaves as it is documented. A union admits what its first alternative that
-- does not refuse it admits, times are within a day, and sets have distinct elements.
pub decode-encode :
    (p : Library) (t : Hint) (v : Value)
    → IsLawful p
    → HasType p t v
    → (w : Value) × (encode p v ≡ return w) × (decode p t w ≡ return v)
decode-encode p t v lawful typed =
    let c = value-Coding p lawful t v typed in (c.stored, c.encoded, c.decoded)
