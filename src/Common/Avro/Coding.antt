-- ===== src/Common/Avro/Coding.antt =====
-- Encoding the parts of a value.
use mathlib.Core.Path.{ap₂}
use minos_python.Base.{ℕ, ◌<◌, ◌≡◌, refl, ap, subst, ◌∙◌, true, false, ◌==◌, return, raise, arith}
use minos_python.Common.Avro.Values.{
  pos, Value, missing, clock, model, Values, no_values, value, Entries, no_entries, entry,
  FieldHints, Library,
}
use minos_python.Common.Avro.Codec.{
  Coded, encode, day_length, or_try, both, map_values, map_entries, find_entry, decode_given,
  is_missing, encode_values, encode_entries, construct, time_of,
}
use minos_python.Common.Avro.Typed.{IsRaised, AllValues, AllEntries, IsNew}

pub or_try-raised : (a b : Coded Value) → IsRaised a → or_try a b ≡ b
or_try-raised (return v) b h = elim h [ ]
or_try-raised (raise x) b h = refl

pub map_values-kept :
    (f : Value → Coded Value) (P : Value → Type 0) (vs : Values)
    → ((v : Value) → P v → f v ≡ return v)
    → AllValues P vs
    → map_values f vs ≡ return vs
map_values-kept f P no_values kept h = refl
map_values-kept f P (value v vs) kept h = rw (kept v h.0, map_values-kept f P vs kept h.1)

pub map_entries-kept :
    (f : Value → Coded Value) (P : Value → Type 0) (es : Entries)
    → ((v : Value) → P v → f v ≡ return v)
    → AllEntries P es
    → map_entries f es ≡ return es
map_entries-kept f P no_entries kept h = refl
map_entries-kept f P (entry k v es) kept h = rw (kept v h.0, map_entries-kept f P es kept h.1)

pub both-return :
    {A B C : Type 0} (f : A → B → C) {m : Coded A} {n : Coded B} {a : A} {b : B}
    → m ≡ return a
    → n ≡ return b
    → both f m n ≡ return (f a b)
both-return f e g = ap₂ (both f) e g

-- The same names in the same order.
abbrev pub SameNames : Entries → Entries → Type 0
SameNames no_entries no_entries = Unit
SameNames (entry k v es) (entry j w ws) = (k ≡ j) × SameNames es ws
SameNames _ _ = ⊥

pub SameNames-IsNew : (k : ℕ) (es ws : Entries) → SameNames es ws → IsNew k es → IsNew k ws
SameNames-IsNew k no_entries no_entries h new = tt
SameNames-IsNew k (entry i v es) (entry j w ws) h new =
    (subst (λ n. (k == n) ≡ false) h.0 new.0, SameNames-IsNew k es ws h.1 new.1)
SameNames-IsNew k no_entries (entry j w ws) h new = elim h [ ]
SameNames-IsNew k (entry i v es) no_entries h new = elim h [ ]

-- Every item of the first dictionary is found in the second one.
abbrev pub FoundIn : Entries → Entries → Type 0
FoundIn no_entries all = Unit
FoundIn (entry k w ws) all = (find_entry k all ≡ w) × FoundIn ws all

pub FoundIn-entry :
    (j : ℕ) (u : Value) (ws all : Entries)
    → IsNew j ws
    → FoundIn ws all
    → FoundIn ws (entry j u all)
FoundIn-entry j u no_entries all new h = tt
FoundIn-entry j u (entry k w ws) all new h = (rw new.0 h.0, FoundIn-entry j u ws all new.1 h.1)

pub decode_given-here :
    (f : Value → Coded Value) (w : Value) → is_missing w ≡ false → decode_given f w ≡ f w
decode_given-here f missing h = absurd (cc h)
decode_given-here f _ h = refl

-- `w` is what `v` is encoded as, and what is decoded to `v`.
pub record Coding (p : Library) (f : Value → Coded Value) (v : Value) : Type 0 where
  pub stored : Value
  pub encoded : encode p v ≡ return stored
  pub decoded : f stored ≡ return v
  pub here : is_missing stored ≡ false

pub record ValuesCoding (p : Library) (f : Value → Coded Value) (vs : Values) : Type 0 where
  pub stored : Values
  pub encoded : encode_values p vs ≡ return stored
  pub decoded : map_values f stored ≡ return vs

pub values-Coding :
    (p : Library) (f : Value → Coded Value) (P : Value → Type 0) (vs : Values)
    → ((v : Value) → P v → Coding p f v)
    → AllValues P vs
    → ValuesCoding p f vs
unfolding encode
values-Coding p f P no_values code h = record { stored = no_values; encoded = refl; decoded = refl }
values-Coding p f P (value v vs) code h =
    let c = code v h.0 in
    let cs = values-Coding p f P vs code h.1 in
    record {
      stored = value c.stored cs.stored;
      encoded = both-return value c.encoded cs.encoded;
      decoded = both-return value c.decoded cs.decoded;
    }

pub record EntriesCoding (p : Library) (f : Value → Coded Value) (es : Entries) : Type 0 where
  pub stored : Entries
  pub encoded : encode_entries p es ≡ return stored
  pub decoded : map_entries f stored ≡ return es

pub entries-Coding :
    (p : Library) (f : Value → Coded Value) (P : Value → Type 0) (es : Entries)
    → ((v : Value) → P v → Coding p f v)
    → AllEntries P es
    → EntriesCoding p f es
unfolding encode
entries-Coding p f P no_entries code h = record {
  stored = no_entries;
  encoded = refl;
  decoded = refl;
}
entries-Coding p f P (entry k v es) code h =
    let c = code v h.0 in
    let cs = entries-Coding p f P es code h.1 in
    record {
      stored = entry k c.stored cs.stored;
      encoded = both-return (entry k) c.encoded cs.encoded;
      decoded = both-return (entry k) c.decoded cs.decoded;
    }

-- The items that the fields of a model are encoded as: in a dictionary that has them all, the
-- constructor of the model finds the fields again.
pub record FieldsCoding (p : Library) (fs : FieldHints) (es : Entries) : Type 0 where
  pub stored : Entries
  pub encoded : encode_entries p es ≡ return stored
  pub names : SameNames es stored
  pub found : FoundIn stored stored
  pub decoded : (all : Entries) → FoundIn stored all → construct p fs all ≡ return es

pub time_of_clock : (n : ℕ) → n < day_length → time_of (pos n) ≡ return (clock n)
time_of_clock n h = ground arith

pub model_back :
    (k c : ℕ) (es : Entries) (r s : Coded Value)
    → (k == c) ≡ true
    → r ≡ return (model c es)
    → or_try r s ≡ return (model k es)
model_back k c es r s same made =
    let q : c ≡ k = ground arith in ap (λ m. or_try m s) made ∙ ap (λ i. return (model i es)) q
