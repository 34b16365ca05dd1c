-- ===== src/Str.antt =====
-- The methods of Rust's `str` that the program calls, on bytes.
pub mod Utf8
pub mod Find
pub mod Lines
pub mod Trim
pub mod Number
pub mod Decimal
