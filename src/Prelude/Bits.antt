-- ===== src/Prelude/Bits.antt =====
-- The bit operations as arithmetic.
mod Digits
pub mod Fields
pub mod Xor
pub mod Joins
pub mod Tables
pub mod Updates
