-- ===== src/Frame/Standard/Reads.antt =====
-- The readers of a standard telegram against the fields of its header.
use embassy_knx.Prelude.{ℕ, ◌+◌, ◌*◌, ◌/◌, ◌%◌, ◌≤◌, ◌≡◌, arith}
use embassy_knx.Prelude.{Bytes, length, ok, ◌∷◌}
use embassy_knx.Prelude.Bits.Tables.{mask_1, mask_3, mask_7, mask_15}
use embassy_knx.Prelude.Bits.Fields.{bit_or_word}
use embassy_knx.Frame.Types.{six, eight, four, ten}
use embassy_knx.Frame.Reader
use embassy_knx.Frame.Writer.{Platform}
use embassy_knx.Frame.Standard
use embassy_knx.Frame.Header.{
  Header, decode, kind_of, repeated_of, priority_of, addr_type_of, dst_of, IsBytes, header_ind,
}

-- Every reader of a field succeeds on `b`, in each of its modes, and returns the field of `h`.
pub record Reads (env : Platform) (b : Bytes) (h : Header) : Type 0 where
  pub reads_kind : Reader.frame_type b ≡ ok (kind_of h.kind)
  pub reads_repeated : Reader.repeated b ≡ ok (repeated_of h.repeat)
  pub reads_priority : Reader.priority b ≡ ok (priority_of h.priority)
  pub reads_src : Reader.src_addr (Standard.reader env) b ≡ ok (record { raw = h.src })
  pub reads_dst : Reader.dst_addr (Standard.reader env) b ≡ ok (dst_of h.dst_group h.dst)
  pub reads_addr_type : Reader.addr_type (Standard.reader env) b ≡ ok (addr_type_of h.dst_group)
  pub reads_hop_count : Reader.hop_count (Standard.reader env) b ≡ ok h.hop_count
  pub reads_length : Standard.length env b ≡ ok (h.lg + 8)
  pub reads_tpci : Reader.tpci (Standard.reader env) six b ≡ ok h.tpci
  pub reads_tpci_eight : Reader.tpci (Standard.reader env) eight b ≡ ok (h.tpci * 4 + h.apci / 256)
  pub reads_seq : Reader.tpci_seq (Standard.reader env) b ≡ ok (h.tpci % 8)
  pub reads_apci : Reader.apci (Standard.reader env) ten b ≡ ok h.apci
  pub reads_apci_four : Reader.apci (Standard.reader env) four b ≡ ok (h.apci / 64)

Reads-header :
    (env : Platform) (b0 b1 b2 b3 b4 b5 b6 b7 : ℕ) (rest : Bytes)
    → let b : Bytes = b0 ∷ b1 ∷ b2 ∷ b3 ∷ b4 ∷ b5 ∷ b6 ∷ b7 ∷ rest in
      IsBytes b → Reads env b (decode b)
unfolding Reader.frame_type Reader.repeated Reader.priority Reader.src_addr Reader.dst_addr
    Reader.hop_count Standard.length Reader.tpci Reader.addr_type Reader.tpci_seq Reader.apci
Reads-header env b0 b1 b2 b3 b4 b5 b6 b7 rest h = record {
  reads_kind = ground arith;
  reads_repeated = ground (arith, mask_1 (b0 / 32));
  reads_priority = ground (arith, mask_3 (b0 / 4));
  reads_src = ground (arith, bit_or_word b1 b2);
  reads_dst = ground (arith, bit_or_word b3 b4);
  reads_addr_type = ground arith;
  reads_hop_count = ground (arith, mask_7 (b5 / 16));
  reads_length = ground (arith, mask_15 b5);
  reads_tpci = ground arith;
  reads_tpci_eight = ground (arith, mask_3 b6, bit_or_word (b6 % 4) b7);
  reads_seq = ground (arith, mask_7 (b6 / 4));
  reads_apci = ground (arith, mask_3 b6, bit_or_word (b6 % 4) b7);
  reads_apci_four = ground (arith, mask_3 b6, bit_or_word (b6 % 4) b7);
}

-- On every buffer of at least eight bytes each reader of a field, in each of its modes, returns what
-- the header that the bytes hold has there (the TPCI of eight bits is that of six with the upper two
-- bits of the APCI): none panics or reads past the buffer, no cast makes an invalid enumeration value,
-- and the length does not overflow, with overflow checks or without.
pub Reads-decode : (env : Platform) (b : Bytes) → 8 ≤ length b → IsBytes b → Reads env b (decode b)
Reads-decode env = header_ind (λ b. IsBytes b → Reads env b (decode b)) (Reads-header env)
