-- ===== src/Frame/Standard/Writes/Tpdu.antt =====
-- The setters of the transport and application control fields.
use embassy_knx.Prelude.{ℕ, ◌+◌, ◌*◌, ◌/◌, ◌%◌, ◌<◌, ◌≡◌, arith}
use embassy_knx.Prelude.{bit_or, Bytes, ◌∷◌}
use embassy_knx.Prelude.Bits.Tables.{mask_3, mask_7, mask_255}
use embassy_knx.Prelude.Bits.Updates.{or_field_0_2, or_field_2_6}
use embassy_knx.Prelude.Bits.Fields.{bit_or_bytes, bit_or-lt}
use embassy_knx.Frame.Types.{six, eight, four, ten}
use embassy_knx.Frame.Writer
use embassy_knx.Frame.Writer.{Platform}
use embassy_knx.Frame.Standard
use embassy_knx.Frame.Header.{decode, IsBytes}
use embassy_knx.Frame.Standard.Writes.{Writes}

pub set_tpci_six_header :
    (env : Platform) (v : ℕ) (b0 b1 b2 b3 b4 b5 b6 b7 : ℕ) (rest : Bytes)
    → let b : Bytes = b0 ∷ b1 ∷ b2 ∷ b3 ∷ b4 ∷ b5 ∷ b6 ∷ b7 ∷ rest in
      IsBytes b
      → Writes b
          (record (decode b) { tpci = bit_or (decode b).tpci (v % 64) })
          (Writer.set_tpci (Standard.reader env) six v b)
unfolding Writer.set_tpci
set_tpci_six_header env v b0 b1 b2 b3 b4 b5 b6 b7 rest h =
    let x : ℕ = bit_or b6 (v % 64 * 4) in
    let u = or_field_2_6 b6 (v % 64) h.1.1.1.1.1.1.0 (omega arith) in
    let fits : v * 4 % 256 ≡ v % 64 * 4 = omega arith in
    record {
      out = b0 ∷ b1 ∷ b2 ∷ b3 ∷ b4 ∷ b5 ∷ x ∷ b7 ∷ rest;
      succeeds = ground arith;
      same_length = ground arith;
      bytes = ground (arith, h);
      same_data = ground arith;
      header = ground arith;
    }

pub set_tpci_eight_header :
    (env : Platform) (v : ℕ) (b0 b1 b2 b3 b4 b5 b6 b7 : ℕ) (rest : Bytes)
    → let b : Bytes = b0 ∷ b1 ∷ b2 ∷ b3 ∷ b4 ∷ b5 ∷ b6 ∷ b7 ∷ rest in
      IsBytes b
      → v < 256
      → Writes b
          (record (decode b) { tpci = v / 4; apci = v % 4 * 256 + (decode b).apci % 256 })
          (Writer.set_tpci (Standard.reader env) eight v b)
unfolding Writer.set_tpci
set_tpci_eight_header env v b0 b1 b2 b3 b4 b5 b6 b7 rest h hv = record {
  out = b0 ∷ b1 ∷ b2 ∷ b3 ∷ b4 ∷ b5 ∷ v ∷ b7 ∷ rest;
  succeeds = ground arith;
  same_length = ground arith;
  bytes = ground (arith, h);
  same_data = ground arith;
  header = ground arith;
}

pub set_tpci_seq_header :
    (env : Platform) (v : ℕ) (b0 b1 b2 b3 b4 b5 b6 b7 : ℕ) (rest : Bytes)
    → let b : Bytes = b0 ∷ b1 ∷ b2 ∷ b3 ∷ b4 ∷ b5 ∷ b6 ∷ b7 ∷ rest in
      IsBytes b
      → Writes b
          (record (decode b) { tpci = bit_or (decode b).tpci (v % 8) })
          (Writer.set_tpci_seq (Standard.reader env) v b)
unfolding Writer.set_tpci_seq
set_tpci_seq_header env v b0 b1 b2 b3 b4 b5 b6 b7 rest h =
    let x : ℕ = bit_or b6 (v % 8 * 4) in
    let u = or_field_2_6 b6 (v % 8) h.1.1.1.1.1.1.0 (omega arith) in
    let masked = mask_7 v in
    record {
      out = b0 ∷ b1 ∷ b2 ∷ b3 ∷ b4 ∷ b5 ∷ x ∷ b7 ∷ rest;
      succeeds = ground arith;
      same_length = ground arith;
      bytes = ground (arith, h);
      same_data = ground arith;
      header = ground arith;
    }

pub set_apci_four_header :
    (env : Platform) (v : ℕ) (b0 b1 b2 b3 b4 b5 b6 b7 : ℕ) (rest : Bytes)
    → let b : Bytes = b0 ∷ b1 ∷ b2 ∷ b3 ∷ b4 ∷ b5 ∷ b6 ∷ b7 ∷ rest in
      IsBytes b
      → v < 16
      → Writes b
          (record (decode b) { apci = bit_or (decode b).apci (v * 64) })
          (Writer.set_apci (Standard.reader env) four v b)
unfolding Writer.set_apci
set_apci_four_header env v b0 b1 b2 b3 b4 b5 b6 b7 rest h hv =
    let x : ℕ = bit_or b6 (v / 4) in
    let y : ℕ = bit_or b7 (v % 4 * 64) in
    let u = or_field_0_2 b6 (v / 4) h.1.1.1.1.1.1.0 (omega arith) in
    let y_byte : y < 256 = bit_or-lt 8 b7 (v % 4 * 64) h.1.1.1.1.1.1.1.0 (omega arith) in
    let joined = bit_or_bytes (b6 % 4) b7 (v / 4) (v % 4 * 64) h.1.1.1.1.1.1.1.0 (omega arith) in
    let whole : v / 4 * 256 + v % 4 * 64 ≡ v * 64 = omega arith in
    let masked = mask_3 v in
    record {
      out = b0 ∷ b1 ∷ b2 ∷ b3 ∷ b4 ∷ b5 ∷ x ∷ y ∷ rest;
      succeeds = ground arith;
      same_length = ground arith;
      bytes = ground (arith, h);
      same_data = ground arith;
      header = ground arith;
    }

pub set_apci_ten_header :
    (env : Platform) (v : ℕ) (b0 b1 b2 b3 b4 b5 b6 b7 : ℕ) (rest : Bytes)
    → let b : Bytes = b0 ∷ b1 ∷ b2 ∷ b3 ∷ b4 ∷ b5 ∷ b6 ∷ b7 ∷ rest in
      IsBytes b
      → v < 1024
      → Writes b
          (record (decode b) { apci = bit_or (decode b).apci v })
          (Writer.set_apci (Standard.reader env) ten v b)
unfolding Writer.set_apci
set_apci_ten_header env v b0 b1 b2 b3 b4 b5 b6 b7 rest h hv =
    let x : ℕ = bit_or b6 (v / 256) in
    let y : ℕ = bit_or b7 (v % 256) in
    let u = or_field_0_2 b6 (v / 256) h.1.1.1.1.1.1.0 (omega arith) in
    let y_byte : y < 256 = bit_or-lt 8 b7 (v % 256) h.1.1.1.1.1.1.1.0 (omega arith) in
    let joined = bit_or_bytes (b6 % 4) b7 (v / 256) (v % 256) h.1.1.1.1.1.1.1.0 (omega arith) in
    let whole : v / 256 * 256 + v % 256 ≡ v = omega arith in
    let masked = mask_255 v in
    record {
      out = b0 ∷ b1 ∷ b2 ∷ b3 ∷ b4 ∷ b5 ∷ x ∷ y ∷ rest;
      succeeds = ground arith;
      same_length = ground arith;
      bytes = ground (arith, h);
      same_data = ground arith;
      header = ground arith;
    }
