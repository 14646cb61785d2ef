-- ===== src/Prelude/Bits/Updates.antt =====
-- What `x |= v << k` does to a byte `x` when `v` fits the field of `w` bits at `k`: the field is
-- the two values joined, and the bits above and below stay.
use Prim.Native.Nat.{ℕ, ◌+◌, ◌*◌, ◌/◌, ◌%◌, ◌<◌, bit_or}
use mathlib.Core.Path.{◌≡◌, refl}
use native.Mathlib.Omega.{arith}
use embassy_knx.Prelude.Bits.Tables.{holds_below, agree₂_sound}
use embassy_knx.Prelude.Bits.Fields.{bit_or-lt}

field_0_2 : (x v : ℕ) → x < 256 → v < 4 → bit_or x v ≡ x / 4 * 4 + bit_or (x % 4) v
unfolding holds_below
field_0_2 = agree₂_sound 256 4 _ _ refl

pub or_field_0_2 :
    (x v : ℕ)
    → x < 256
    → v < 4
    → let y = bit_or x v in (y < 256) × (y / 4 ≡ x / 4) × (y % 4 ≡ bit_or (x % 4) v)
or_field_0_2 x v hx hv =
    let y : ℕ = bit_or x v in
    let old : ℕ = bit_or (x % 4) v in
    let joined : y ≡ x / 4 * 4 + old = field_0_2 x v hx hv in
    let small : old < 4 = bit_or-lt 2 (x % 4) v (omega arith) hv in
    (omega arith, omega arith, omega arith)

field_0_4 : (x v : ℕ) → x < 256 → v < 16 → bit_or x v ≡ x / 16 * 16 + bit_or (x % 16) v
unfolding holds_below
field_0_4 = agree₂_sound 256 16 _ _ refl

pub or_field_0_4 :
    (x v : ℕ)
    → x < 256
    → v < 16
    → let y = bit_or x v in (y < 256) × (y / 16 ≡ x / 16) × (y % 16 ≡ bit_or (x % 16) v)
or_field_0_4 x v hx hv =
    let y : ℕ = bit_or x v in
    let old : ℕ = bit_or (x % 16) v in
    let joined : y ≡ x / 16 * 16 + old = field_0_4 x v hx hv in
    let small : old < 16 = bit_or-lt 4 (x % 16) v (omega arith) hv in
    (omega arith, omega arith, omega arith)

field_2_2 :
    (x v : ℕ) → x < 256 → v < 4 → bit_or x (v * 4) ≡ x / 16 * 16 + bit_or (x / 4 % 4) v * 4 + x % 4
unfolding holds_below
field_2_2 = agree₂_sound 256 4 _ _ refl

pub or_field_2_2 :
    (x v : ℕ)
    → x < 256
    → v < 4
    → let y = bit_or x (v * 4) in
      (y < 256) × (y / 16 ≡ x / 16) × (y / 4 % 4 ≡ bit_or (x / 4 % 4) v) × (y % 4 ≡ x % 4)
or_field_2_2 x v hx hv =
    let y : ℕ = bit_or x (v * 4) in
    let old : ℕ = bit_or (x / 4 % 4) v in
    let joined : y ≡ x / 16 * 16 + old * 4 + x % 4 = field_2_2 x v hx hv in
    let small : old < 4 = bit_or-lt 2 (x / 4 % 4) v (omega arith) hv in
    (omega arith, omega arith, omega arith, omega arith)

field_5_1 :
    (x v : ℕ)
    → x < 256
    → v < 2
    → bit_or x (v * 32) ≡ x / 64 * 64 + bit_or (x / 32 % 2) v * 32 + x % 32
unfolding holds_below
field_5_1 = agree₂_sound 256 2 _ _ refl

pub or_field_5_1 :
    (x v : ℕ)
    → x < 256
    → v < 2
    → let y = bit_or x (v * 32) in
      (y < 256) × (y / 64 ≡ x / 64) × (y / 32 % 2 ≡ bit_or (x / 32 % 2) v) × (y % 32 ≡ x % 32)
or_field_5_1 x v hx hv =
    let y : ℕ = bit_or x (v * 32) in
    let old : ℕ = bit_or (x / 32 % 2) v in
    let joined : y ≡ x / 64 * 64 + old * 32 + x % 32 = field_5_1 x v hx hv in
    let small : old < 2 = bit_or-lt 1 (x / 32 % 2) v (omega arith) hv in
    (omega arith, omega arith, omega arith, omega arith)

field_7_1 : (x v : ℕ) → x < 256 → v < 2 → bit_or x (v * 128) ≡ bit_or (x / 128) v * 128 + x % 128
unfolding holds_below
field_7_1 = agree₂_sound 256 2 _ _ refl

pub or_field_7_1 :
    (x v : ℕ)
    → x < 256
    → v < 2
    → let y = bit_or x (v * 128) in (y < 256) × (y / 128 ≡ bit_or (x / 128) v) × (y % 128 ≡ x % 128)
or_field_7_1 x v hx hv =
    let y : ℕ = bit_or x (v * 128) in
    let old : ℕ = bit_or (x / 128) v in
    let joined : y ≡ old * 128 + x % 128 = field_7_1 x v hx hv in
    let small : old < 2 = bit_or-lt 1 (x / 128) v (omega arith) hv in
    (omega arith, omega arith, omega arith)

field_4_3 :
    (x v : ℕ)
    → x < 256
    → v < 8
    → bit_or x (v * 16) ≡ x / 128 * 128 + bit_or (x / 16 % 8) v * 16 + x % 16
unfolding holds_below
field_4_3 = agree₂_sound 256 8 _ _ refl

pub or_field_4_3 :
    (x v : ℕ)
    → x < 256
    → v < 8
    → let y = bit_or x (v * 16) in
      (y < 256) × (y / 128 ≡ x / 128) × (y / 16 % 8 ≡ bit_or (x / 16 % 8) v) × (y % 16 ≡ x % 16)
or_field_4_3 x v hx hv =
    let y : ℕ = bit_or x (v * 16) in
    let old : ℕ = bit_or (x / 16 % 8) v in
    let joined : y ≡ x / 128 * 128 + old * 16 + x % 16 = field_4_3 x v hx hv in
    let small : old < 8 = bit_or-lt 3 (x / 16 % 8) v (omega arith) hv in
    (omega arith, omega arith, omega arith, omega arith)

field_2_6 : (x v : ℕ) → x < 256 → v < 64 → bit_or x (v * 4) ≡ bit_or (x / 4) v * 4 + x % 4
unfolding holds_below
field_2_6 = agree₂_sound 256 64 _ _ refl

pub or_field_2_6 :
    (x v : ℕ)
    → x < 256
    → v < 64
    → let y = bit_or x (v * 4) in (y < 256) × (y / 4 ≡ bit_or (x / 4) v) × (y % 4 ≡ x % 4)
or_field_2_6 x v hx hv =
    let y : ℕ = bit_or x (v * 4) in
    let old : ℕ = bit_or (x / 4) v in
    let joined : y ≡ old * 4 + x % 4 = field_2_6 x v hx hv in
    let small : old < 64 = bit_or-lt 6 (x / 4) v (omega arith) hv in
    (omega arith, omega arith, omega arith)

field_0_3 : (x v : ℕ) → x < 256 → v < 8 → bit_or x v ≡ x / 8 * 8 + bit_or (x % 8) v
unfolding holds_below
field_0_3 = agree₂_sound 256 8 _ _ refl

pub or_field_0_3 :
    (x v : ℕ)
    → x < 256
    → v < 8
    → let y = bit_or x v in (y < 256) × (y / 8 ≡ x / 8) × (y % 8 ≡ bit_or (x % 8) v)
or_field_0_3 x v hx hv =
    let y : ℕ = bit_or x v in
    let old : ℕ = bit_or (x % 8) v in
    let joined : y ≡ x / 8 * 8 + old = field_0_3 x v hx hv in
    let small : old < 8 = bit_or-lt 3 (x % 8) v (omega arith) hv in
    (omega arith, omega arith, omega arith)
