-- ===== src/Common/Avro/Values.antt =====
-- The values and the types that the codec handles.
use minos_python.Base.{ℕ, Bool, true, false, Option, leb}

-- `negsuc n` is -(n + 1).
pub data ℤ : Type 0 where
  pos : ℕ → ℤ
  negsuc : ℕ → ℤ

abbrev pub le_int : ℤ → ℤ → Bool
le_int (pos a) (pos b) = leb a b
le_int (pos a) (negsuc b) = false
le_int (negsuc a) (pos b) = true
le_int (negsuc a) (negsuc b) = leb b a

-- A Python object. Floats, texts and bytes stand for themselves as numbers; `missing` is
-- `MissingSentinel`. A set is the list of its elements in the order of its iteration, a model has a
-- class and fields.
mutual
  pub data Value : Type 0 where
    nothing missing : Value
    boolean : Bool → Value
    integer : ℤ → Value
    real text octets buffer : ℕ → Value
    date_time time_delta day : ℤ → Value
    clock : ℕ → Value
    uuid : ℕ → Value
    sequence collection : Values → Value
    mapping : Entries → Value
    model : ℕ → Entries → Value
    unsupported : ℕ → Value

  pub data Values : Type 0 where
    no_values : Values
    value : Value → Values → Values

  -- The items of a dictionary with text keys, or the fields of a model.
  pub data Entries : Type 0 where
    no_entries : Entries
    entry : ℕ → Value → Entries → Entries

-- A type hint. A model type has its class and the hints of its fields.
mutual
  pub data Hint : Type 0 where
    none_hint bool_hint int_hint float_hint str_hint bytes_hint : Hint
    date_time_hint time_delta_hint date_hint time_hint uuid_hint : Hint
    list_hint set_hint dict_hint : Hint → Hint
    union_hint : Hints → Hint
    model_hint : ℕ → FieldHints → Hint
    malformed_hint : Hint

  pub data Hints : Type 0 where
    no_hints : Hints
    alternative : Hint → Hints → Hints

  pub data FieldHints : Type 0 where
    no_fields : FieldHints
    field : ℕ → Hint → FieldHints → FieldHints

-- What the codec uses of Python's library: `str` of a UUID and its way back, `int(x)` and `float(x)`,
-- the elements of bytes, and `==` of the elements of a set.
pub record Library : Type 0 where
  pub uuid_text : ℕ → ℕ
  pub parse_uuid : ℕ → Option ℕ
  pub uuid_of_bytes : ℕ → Option ℕ
  pub to_int : Value → Option ℤ
  pub to_float : Value → Option ℕ
  pub bytes_items : ℕ → Values
  pub same : Value → Value → Bool

pub data CodecError : Type 0 where
  not_supported required_value wrong_type malformed_type overflow : CodecError
