-- ===== src/Frame/Standard/Writes/Control.antt =====
-- The setters of the control byte.
use embassy_knx.Prelude.{ℕ, ◌*◌, ◌<◌, arith}
use embassy_knx.Prelude.{bit_or, Bytes, ◌∷◌}
use embassy_knx.Prelude.Bits.Updates.{or_field_2_2, or_field_5_1}
use embassy_knx.Frame.Types.{Priority, Repeated, priority_value, repeated_value}
use embassy_knx.Frame.Writer
use embassy_knx.Frame.Writer.{Platform}
use embassy_knx.Frame.Header.{decode, IsBytes}
use embassy_knx.Frame.Standard.Writes.{Writes}

pub set_priority_header :
    (p : Priority) (b0 b1 b2 b3 b4 b5 b6 b7 : ℕ) (rest : Bytes)
    → let b : Bytes = b0 ∷ b1 ∷ b2 ∷ b3 ∷ b4 ∷ b5 ∷ b6 ∷ b7 ∷ rest in
      IsBytes b
      → Writes b
          (record (decode b) { priority = bit_or (decode b).priority (priority_value p) })
          (Writer.set_priority p b)
unfolding Writer.set_priority
set_priority_header p b0 b1 b2 b3 b4 b5 b6 b7 rest h =
    let v : ℕ = priority_value p in
    let x : ℕ = bit_or b0 (v * 4) in
    let small : v < 4 = ground arith in
    let u = or_field_2_2 b0 v h.0 small in
    record {
      out = x ∷ b1 ∷ b2 ∷ b3 ∷ b4 ∷ b5 ∷ b6 ∷ b7 ∷ rest;
      succeeds = ground arith;
      same_length = ground arith;
      bytes = ground (arith, h);
      same_data = ground arith;
      header = ground arith;
    }

pub set_repeated_header :
    (r : Repeated) (b0 b1 b2 b3 b4 b5 b6 b7 : ℕ) (rest : Bytes)
    → let b : Bytes = b0 ∷ b1 ∷ b2 ∷ b3 ∷ b4 ∷ b5 ∷ b6 ∷ b7 ∷ rest in
      IsBytes b
      → Writes b
          (record (decode b) { repeat = bit_or (decode b).repeat (repeated_value r) })
          (Writer.set_repeated r b)
unfolding Writer.set_repeated
set_repeated_header r b0 b1 b2 b3 b4 b5 b6 b7 rest h =
    let v : ℕ = repeated_value r in
    let x : ℕ = bit_or b0 (v * 32) in
    let small : v < 2 = ground arith in
    let u = or_field_5_1 b0 v h.0 small in
    record {
      out = x ∷ b1 ∷ b2 ∷ b3 ∷ b4 ∷ b5 ∷ b6 ∷ b7 ∷ rest;
      succeeds = ground arith;
      same_length = ground arith;
      bytes = ground (arith, h);
      same_data = ground arith;
      header = ground arith;
    }
