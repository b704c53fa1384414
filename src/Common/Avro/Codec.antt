-- ===== src/Common/Avro/Codec.antt =====
-- The encoder and the decoder, with their names passed on.
mod Encoder
mod Parts
mod Decoder
unfoldable pub use Encoder.*
unfoldable pub use Parts.*
unfoldable pub use Decoder.*
