-- ===== src/Common/Avro/Typed.antt =====
-- Which values a type hint admits, and the documented behaviour of the library.
use minos_python.Base.{ℕ, ◌<◌, ◌≡◌, ◌⊎◌, true, false, some, ◌==◌, return, raise}
use minos_python.Common.Avro.Values.{
  ℤ, Value, nothing, boolean, integer, real, text, octets, date_time, time_delta, day, clock, uuid,
  sequence, collection, mapping, model, Values, no_values, value, Entries, no_entries, entry, Hint,
  none_hint, bool_hint, int_hint, float_hint, str_hint, bytes_hint, date_time_hint, time_delta_hint,
  date_hint, time_hint, uuid_hint, list_hint, set_hint, dict_hint, union_hint, model_hint, Hints,
  no_hints, alternative, FieldHints, no_fields, field, Library,
}
use minos_python.Common.Avro.Codec.{
  Coded, encode, decode, is_date, is_date_time, is_time_delta, day_length, to_set,
}

-- `UUID(hex=str(u)) == u`, and `int` and `float` keep what is an integer or a float.
pub record IsLawful (p : Library) : Type 0 where
  pub uuid_back : (n : ℕ) → p.parse_uuid (p.uuid_text n) ≡ some n
  pub int_kept : (z : ℤ) → p.to_int (integer z) ≡ some z
  pub float_kept : (n : ℕ) → p.to_float (real n) ≡ some n

abbrev pub IsRaised : {A : Type 0} → Coded A → Type 0
IsRaised (return a) = ⊥
IsRaised (raise x) = Unit

abbrev pub AllValues : (Value → Type 0) → Values → Type 0
AllValues P no_values = Unit
AllValues P (value v vs) = P v × AllValues P vs

abbrev pub AllEntries : (Value → Type 0) → Entries → Type 0
AllEntries P no_entries = Unit
AllEntries P (entry k v es) = P v × AllEntries P es

abbrev pub IsNew : ℕ → Entries → Type 0
IsNew k no_entries = Unit
IsNew k (entry j v es) = ((k == j) ≡ false) × IsNew k es

module _ (p : Library) where
  -- The decoder refuses the value under this hint, and also what the value is encoded as.
  abbrev pub Refuses : Hint → Value → Type 0
  Refuses t v =
      IsRaised (decode p t v) × ((w : Value) → encode p v ≡ return w → IsRaised (decode p t w))

  abbrev mutual
    pub HasType : Hint → Value → Type 0
    HasType none_hint nothing = Unit
    HasType bool_hint (boolean b) = Unit
    HasType int_hint (integer z) = Unit
    HasType float_hint (real n) = Unit
    HasType str_hint (text n) = Unit
    HasType bytes_hint (octets n) = Unit
    HasType date_time_hint (date_time z) = is_date_time z ≡ true
    HasType time_delta_hint (time_delta z) = is_time_delta z ≡ true
    HasType date_hint (day z) = is_date z ≡ true
    HasType time_hint (clock n) = n < day_length
    HasType uuid_hint (uuid n) = Unit
    HasType (list_hint t) (sequence vs) = AllValues (λ v. HasType t v) vs
    HasType (set_hint t) (collection vs) = AllValues (λ v. HasType t v) vs × (to_set p.same vs ≡ vs)
    HasType (dict_hint t) (mapping es) = AllEntries (λ v. HasType t v) es
    HasType (union_hint ts) v = HasOne ts v
    HasType (model_hint c fs) (model k es) = ((k == c) ≡ true) × HasFields fs es
    HasType _ _ = ⊥

    -- The first alternative that does not refuse the value admits it.
    pub HasOne : Hints → Value → Type 0
    HasOne no_hints v = ⊥
    HasOne (alternative t ts) v = HasType t v ⊎ (Refuses t v × HasOne ts v)

    -- The fields of a model, in the order of its class, with distinct names.
    pub HasFields : FieldHints → Entries → Type 0
    HasFields no_fields no_entries = Unit
    HasFields (field k t fs) (entry j v es) =
        ((k == j) ≡ true) × HasType t v × IsNew j es × HasFields fs es
    HasFields _ _ = ⊥
