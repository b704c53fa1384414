-- ===== src/Common/Avro.antt =====
-- `AvroDataEncoder` and `AvroDataDecoder` (model/serializers/avro/data/).
--
-- Both sides of the codec are Python objects. Dates and datetimes are numbers of days and of
-- microseconds from 1970-01-01 UTC, times are microseconds from midnight; naive datetimes, `Any`, type
-- variables and classes with a codec of their own are left out, as are subclasses of `int` and `str`.
pub mod Values
pub mod Codec
pub mod Typed
pub mod Instances
pub mod Decoded
pub mod Coding
pub mod Kept
pub mod Roundtrip
