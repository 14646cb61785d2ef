-- ===== src/Address/Laws.antt =====
-- What the address encodings keep (src/frame.rs).
use embassy_knx.Prelude.{ℕ, ◌+◌, ◌*◌, ◌/◌, ◌%◌, ◌≤◌, ◌<◌, ◌≡◌, refl, ◌∙◌, arith}
use embassy_knx.Prelude.{bit_or, Bytes, [], ◌∷◌, length, ok, ◌>>=◌}
use embassy_knx.Prelude.Bits.Tables.{mask_7, mask_15, mask_255}
use embassy_knx.Prelude.Bits.Fields.{bit_or_bytes, bit_or_cong, bit_or_word, zero-bit_or}
use embassy_knx.Prelude.Bits.Updates.{or_field_0_3, or_field_0_4}
use embassy_knx.Prelude.Word.{shl16}
use embassy_knx.Prelude.{Outcome}
use embassy_knx.Address
use embassy_knx.Address.{Address, individual, group}
use embassy_knx.Address.Individual
use embassy_knx.Address.Individual.{IndividualAddress}
use embassy_knx.Address.Group
use embassy_knx.Address.Group.{GroupAddress}

individual_raw :
    (n1 n2 n3 : ℕ)
    → n1 < 16
    → n2 < 16
    → n3 < 256
    → (Individual.from_parts n1 n2 n3).raw ≡ (n1 * 16 + n2) * 256 + n3
unfolding Individual.from_parts
individual_raw n1 n2 n3 h1 h2 h3 = omega (arith, outer, bit_or_word (n1 * 16 + n2) n3 h3)
  where
    tail_zero : bit_or (n1 * 16 % 16) n2 ≡ n2
    tail_zero = bit_or_cong _ 0 _ n2 (omega arith) refl ∙ zero-bit_or n2

    upper : bit_or (n1 * 16) n2 ≡ n1 * 16 + n2
    upper = omega (arith, or_field_0_4 (n1 * 16) n2 (omega arith) h2, tail_zero)

    widened : bit_or (shl16 n1 12) (shl16 n2 8) ≡ bit_or (n1 * 16 * 256 + 0) (n2 * 256 + 0)
    widened = bit_or_cong _ _ _ _ (omega arith) (omega arith)

    joined : bit_or (shl16 n1 12) (shl16 n2 8) ≡ (n1 * 16 + n2) * 256
    joined =
        omega (arith, widened, bit_or_bytes (n1 * 16) 0 n2 0 (omega arith) (omega arith), upper)

    outer : (Individual.from_parts n1 n2 n3).raw ≡ bit_or ((n1 * 16 + n2) * 256) n3
    outer = bit_or_cong _ _ n3 n3 joined refl

-- The parts that an individual address is made from are those that it is printed with, where each
-- fits its field.
pub individual_from_parts-parts :
    (n1 n2 n3 : ℕ)
    → n1 < 16
    → n2 < 16
    → n3 < 256
    → Individual.parts (Individual.from_parts n1 n2 n3) ≡ (n1, n2, n3)
unfolding Individual.parts
individual_from_parts-parts n1 n2 n3 h1 h2 h3 =
    let a = Individual.from_parts n1 n2 n3 in
    ground (arith, individual_raw n1 n2 n3 h1 h2 h3, mask_15 (a.raw / 256), mask_255 a.raw)

group_raw :
    (n1 n2 n3 : ℕ)
    → n1 < 32
    → n2 < 8
    → n3 < 256
    → (Group.from_parts n1 n2 n3).raw ≡ (n1 * 8 + n2) * 256 + n3
unfolding Group.from_parts
group_raw n1 n2 n3 h1 h2 h3 = omega (arith, outer, bit_or_word (n1 * 8 + n2) n3 h3)
  where
    tail_zero : bit_or (n1 * 8 % 8) n2 ≡ n2
    tail_zero = bit_or_cong _ 0 _ n2 (omega arith) refl ∙ zero-bit_or n2

    upper : bit_or (n1 * 8) n2 ≡ n1 * 8 + n2
    upper = omega (arith, or_field_0_3 (n1 * 8) n2 (omega arith) h2, tail_zero)

    widened : bit_or (shl16 n1 11) (shl16 n2 8) ≡ bit_or (n1 * 8 * 256 + 0) (n2 * 256 + 0)
    widened = bit_or_cong _ _ _ _ (omega arith) (omega arith)

    joined : bit_or (shl16 n1 11) (shl16 n2 8) ≡ (n1 * 8 + n2) * 256
    joined = omega (arith, widened, bit_or_bytes (n1 * 8) 0 n2 0 (omega arith) (omega arith), upper)

    outer : (Group.from_parts n1 n2 n3).raw ≡ bit_or ((n1 * 8 + n2) * 256) n3
    outer = bit_or_cong _ _ n3 n3 joined refl

-- The parts that a group address is made from are those that it is printed with, where each fits
-- its field.
pub group_from_parts-parts :
    (n1 n2 n3 : ℕ)
    → n1 < 32
    → n2 < 8
    → n3 < 256
    → Group.parts (Group.from_parts n1 n2 n3) ≡ (n1, n2, n3)
unfolding Group.parts
group_from_parts-parts n1 n2 n3 h1 h2 h3 =
    let a = Group.from_parts n1 n2 n3 in
    ground (arith, group_raw n1 n2 n3 h1 h2 h3, mask_7 (a.raw / 256), mask_255 a.raw)

abbrev pub raw_of : Address → ℕ
raw_of (individual a) = a.raw
raw_of (group a) = a.raw

-- An address read from a buffer as one of the kind of `a`.
abbrev pub read_as : {E : Type 0} → Address → Bytes → Outcome E Address
read_as (individual _) buf = do a ← Individual.from_bytes buf; ok (individual a)
read_as (group _) buf = do a ← Group.from_bytes buf; ok (group a)

-- An address of either kind, of 16 bits, written to a buffer of at least two bytes, is read back
-- from it as an address of that kind, whatever the buffer held.
pub write-read_as :
    {E : Type 0} (a : Address) (buf : Bytes)
    → raw_of a < 65536
    → 2 ≤ length buf
    → (Address.write {E = E} a buf >>= read_as a) ≡ ok a
unfolding Address.write Individual.write Individual.from_bytes Group.write Group.from_bytes
write-read_as a [] h l = absurd (omega arith)
write-read_as a (x ∷ []) h l = absurd (omega arith)
write-read_as (individual a) (x ∷ y ∷ rest) h l =
    ground (arith, mask_255 a.raw, bit_or_word (a.raw / 256) (a.raw % 256))
write-read_as (group a) (x ∷ y ∷ rest) h l =
    ground (arith, mask_255 a.raw, bit_or_word (a.raw / 256) (a.raw % 256))
