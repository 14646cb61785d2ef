-- ===== src/Frame/Standard/Writes/Routing.antt =====
-- The setters of the addresses and of the hop count.
use embassy_knx.Prelude.{ℕ, ◌*◌, ◌/◌, ◌%◌, ◌<◌, arith}
use embassy_knx.Prelude.{bit_or, Bytes, ◌∷◌}
use embassy_knx.Prelude.Bits.Tables.{mask_7, mask_255}
use embassy_knx.Prelude.Bits.Updates.{or_field_4_3, or_field_7_1}
use embassy_knx.Address.{Address}
use embassy_knx.Address.Individual.{IndividualAddress}
use embassy_knx.Address.Group.{GroupAddress}
use embassy_knx.Frame.Types.{AddressType, addr_type_value}
use embassy_knx.Frame.Writer
use embassy_knx.Frame.Writer.{Platform}
use embassy_knx.Frame.Standard
use embassy_knx.Frame.Header.{decode, IsBytes}
use embassy_knx.Frame.Standard.Writes.{Writes}

pub set_addr_type_header :
    (env : Platform) (t : AddressType) (b0 b1 b2 b3 b4 b5 b6 b7 : ℕ) (rest : Bytes)
    → let b : Bytes = b0 ∷ b1 ∷ b2 ∷ b3 ∷ b4 ∷ b5 ∷ b6 ∷ b7 ∷ rest in
      IsBytes b
      → Writes b
          (record (decode b) { dst_group = bit_or (decode b).dst_group (addr_type_value t) })
          (Writer.set_addr_type (Standard.reader env) t b)
unfolding Writer.set_addr_type
set_addr_type_header env t b0 b1 b2 b3 b4 b5 b6 b7 rest h =
    let v : ℕ = addr_type_value t in
    let x : ℕ = bit_or b5 (v * 128) in
    let small : v < 2 = ground arith in
    let u = or_field_7_1 b5 v h.1.1.1.1.1.0 small in
    record {
      out = b0 ∷ b1 ∷ b2 ∷ b3 ∷ b4 ∷ x ∷ b6 ∷ b7 ∷ rest;
      succeeds = ground arith;
      same_length = ground arith;
      bytes = ground (arith, h);
      same_data = ground arith;
      header = ground arith;
    }

pub set_hop_count_header :
    (env : Platform) (n : ℕ) (b0 b1 b2 b3 b4 b5 b6 b7 : ℕ) (rest : Bytes)
    → let b : Bytes = b0 ∷ b1 ∷ b2 ∷ b3 ∷ b4 ∷ b5 ∷ b6 ∷ b7 ∷ rest in
      IsBytes b
      → Writes b
          (record (decode b) { hop_count = bit_or (decode b).hop_count (n % 8) })
          (Writer.set_hop_count (Standard.reader env) n b)
unfolding Writer.set_hop_count
set_hop_count_header env n b0 b1 b2 b3 b4 b5 b6 b7 rest h =
    let x : ℕ = bit_or b5 (n % 8 * 16) in
    let u = or_field_4_3 b5 (n % 8) h.1.1.1.1.1.0 (omega arith) in
    let masked = mask_7 n in
    record {
      out = b0 ∷ b1 ∷ b2 ∷ b3 ∷ b4 ∷ x ∷ b6 ∷ b7 ∷ rest;
      succeeds = ground arith;
      same_length = ground arith;
      bytes = ground (arith, h);
      same_data = ground arith;
      header = ground arith;
    }

pub set_src_addr_header :
    (env : Platform) (a : IndividualAddress) (b0 b1 b2 b3 b4 b5 b6 b7 : ℕ) (rest : Bytes)
    → let b : Bytes = b0 ∷ b1 ∷ b2 ∷ b3 ∷ b4 ∷ b5 ∷ b6 ∷ b7 ∷ rest in
      IsBytes b
      → a.raw < 65536
      → Writes b (record (decode b) { src = a.raw }) (Writer.set_src_addr (Standard.reader env) a b)
unfolding Writer.set_src_addr
set_src_addr_header env a b0 b1 b2 b3 b4 b5 b6 b7 rest h ha =
    let masked = mask_255 a.raw in
    record {
      out = b0 ∷ (a.raw / 256) ∷ (a.raw % 256) ∷ b3 ∷ b4 ∷ b5 ∷ b6 ∷ b7 ∷ rest;
      succeeds = ground arith;
      same_length = ground arith;
      bytes = ground (arith, h);
      same_data = ground arith;
      header = ground arith;
    }

pub set_dst_individual_header :
    (env : Platform) (a : IndividualAddress) (b0 b1 b2 b3 b4 b5 b6 b7 : ℕ) (rest : Bytes)
    → let b : Bytes = b0 ∷ b1 ∷ b2 ∷ b3 ∷ b4 ∷ b5 ∷ b6 ∷ b7 ∷ rest in
      IsBytes b
      → a.raw < 65536
      → Writes b
          (record (decode b) { dst = a.raw; dst_group = bit_or (decode b).dst_group 0 })
          (Writer.set_dst_addr (Standard.reader env) (Address.individual a) b)
unfolding Writer.set_dst_addr
set_dst_individual_header env a b0 b1 b2 b3 b4 b5 b6 b7 rest h ha =
    let x : ℕ = bit_or b5 0 in
    let u = or_field_7_1 b5 0 h.1.1.1.1.1.0 (omega arith) in
    let masked = mask_255 a.raw in
    record {
      out = b0 ∷ b1 ∷ b2 ∷ (a.raw / 256) ∷ (a.raw % 256) ∷ x ∷ b6 ∷ b7 ∷ rest;
      succeeds = ground arith;
      same_length = ground arith;
      bytes = ground (arith, h);
      same_data = ground arith;
      header = ground arith;
    }

pub set_dst_group_header :
    (env : Platform) (a : GroupAddress) (b0 b1 b2 b3 b4 b5 b6 b7 : ℕ) (rest : Bytes)
    → let b : Bytes = b0 ∷ b1 ∷ b2 ∷ b3 ∷ b4 ∷ b5 ∷ b6 ∷ b7 ∷ rest in
      IsBytes b
      → a.raw < 65536
      → Writes b
          (record (decode b) { dst = a.raw; dst_group = bit_or (decode b).dst_group 1 })
          (Writer.set_dst_addr (Standard.reader env) (Address.group a) b)
unfolding Writer.set_dst_addr
set_dst_group_header env a b0 b1 b2 b3 b4 b5 b6 b7 rest h ha =
    let x : ℕ = bit_or b5 128 in
    let u = or_field_7_1 b5 1 h.1.1.1.1.1.0 (omega arith) in
    let masked = mask_255 a.raw in
    record {
      out = b0 ∷ b1 ∷ b2 ∷ (a.raw / 256) ∷ (a.raw % 256) ∷ x ∷ b6 ∷ b7 ∷ rest;
      succeeds = ground arith;
      same_length = ground arith;
      bytes = ground (arith, h);
      same_data = ground arith;
      header = ground arith;
    }
