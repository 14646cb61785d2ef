-- ===== src/DataPoint.antt =====
-- Datapoint values and how they are written into a telegram (src/data_point.rs).
use embassy_knx.Prelude.{ℕ, bit_and, bit_or, Bool, true, false, if◌then◌else◌, Outcome, Bytes}
use embassy_knx.Prelude.{modify_at, set_at, ltb}

pub data DataPointLength : Type 0 where
  bit : ℕ → DataPointLength
  byte : ℕ → DataPointLength

-- Each type of datapoint is a newtype of a u8.
pub data DataPoint : Type 0 where
  b1 : ℕ → DataPoint
  b2 : ℕ → DataPoint
  u8 : ℕ → DataPoint

-- `B1::new`
unfoldable pub new_b1 : Bool → DataPoint
new_b1 true = b1 1
new_b1 false = b1 0

unfoldable pub length : DataPoint → DataPointLength
length (b1 v) = bit 1
length (b2 v) = bit 2
length (u8 v) = byte 1

unfoldable pub write : {E : Type 0} → DataPoint → Bytes → Outcome E Bytes
write (b1 v) buf = modify_at buf 0 (λ x. bit_or x (bit_and v 1))
write (b2 v) buf = modify_at buf 0 (λ x. bit_or x (bit_and v 3))
write (u8 v) buf = set_at buf 0 v

byte_length_of : DataPointLength → ℕ
byte_length_of (bit n) = if ltb n 6 then 0 else 1
byte_length_of (byte n) = n

-- The default method `byte_length`.
unfoldable pub byte_length : DataPoint → ℕ
unfolding byte_length_of length
byte_length d = byte_length_of (length d)
