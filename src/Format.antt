-- ===== src/Format.antt =====
-- What the packages use of Go's fmt, strings and encoding/base64, on a text as the list of its bytes.
pub mod Bytes
pub mod Decimal
pub mod Base64
