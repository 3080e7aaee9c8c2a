-- ===== src/Common.antt =====
-- src/common.c: limits, error positions, the number grammar and the canonical spelling of a byte.
pub mod Limits
pub mod Position
pub mod Number
pub mod Escape
pub mod Decimal
