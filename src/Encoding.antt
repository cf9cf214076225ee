-- ===== src/Encoding.antt =====
-- Byte and text encodings of Go's standard library that the components call.
pub mod Hex
pub mod BigEndian
