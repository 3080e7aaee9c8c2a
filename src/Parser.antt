-- ===== src/Parser.antt =====
-- src/parser.c: bytes to the token array of a document.
pub mod State
pub mod Strings
pub mod Primitive
pub mod Values
pub mod Compact
pub mod Documents
