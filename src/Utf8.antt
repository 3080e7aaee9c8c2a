-- ===== src/Utf8.antt =====
-- src/utf8.c: validation, code points, escapes of string literals and the UTF-16 key order.
pub mod Validate
pub mod Points
pub mod Sequence
pub mod Scalars
pub mod Literal
pub mod Order
