-- ===== src/Std.antt =====
-- The parts of Rust's standard library that the source calls.
pub mod Words
pub mod Slices
pub mod Text
pub mod Utf8
pub mod Format
pub mod Address
pub mod Asserts
