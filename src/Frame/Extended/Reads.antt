-- ===== src/Frame/Extended/Reads.antt =====
-- The readers of an extended telegram against the fields of its header (src/frame.rs).
use embassy_knx.Prelude.{◌+◌, ◌*◌, ◌/◌, ◌%◌, ◌≤◌, ◌≡◌, arith}
use embassy_knx.Prelude.{Bytes, length, get_or, ok, ◌∷◌}
use embassy_knx.Prelude.Bits.Tables.{mask_1, mask_3, mask_7}
use embassy_knx.Prelude.Bits.Fields.{bit_or_word}
use embassy_knx.Frame.Types.{six, eight, four, ten}
use embassy_knx.Frame.Reader
use embassy_knx.Frame.Writer.{Platform}
use embassy_knx.Frame.Extended
use embassy_knx.Frame.Header.{
  Header, kind_of, repeated_of, priority_of, addr_type_of, dst_of, IsBytes,
}

-- The header of an extended telegram: a second control byte with the address type and the hop
-- count, and the addresses, the length and the TPCI one byte further on.
abbrev pub decode : Bytes → Header
decode b = record {
  kind = get_or b 0 0 / 128;
  repeat = get_or b 0 0 / 32 % 2;
  priority = get_or b 0 0 / 4 % 4;
  src = get_or b 2 0 * 256 + get_or b 3 0;
  dst_group = get_or b 1 0 / 128;
  dst = get_or b 4 0 * 256 + get_or b 5 0;
  hop_count = get_or b 1 0 / 16 % 8;
  lg = get_or b 6 0;
  tpci = get_or b 7 0 / 4;
  apci = get_or b 7 0 % 4 * 256 + get_or b 8 0;
}

-- Every reader of a field but `length()` succeeds on `b`, and returns the field of `h`.
pub record Reads (env : Platform) (b : Bytes) (h : Header) : Type 0 where
  pub reads_kind : Reader.frame_type b ≡ ok (kind_of h.kind)
  pub reads_repeated : Reader.repeated b ≡ ok (repeated_of h.repeat)
  pub reads_priority : Reader.priority b ≡ ok (priority_of h.priority)
  pub reads_src : Reader.src_addr (Extended.reader env) b ≡ ok (record { raw = h.src })
  pub reads_dst : Reader.dst_addr (Extended.reader env) b ≡ ok (dst_of h.dst_group h.dst)
  pub reads_addr_type : Reader.addr_type (Extended.reader env) b ≡ ok (addr_type_of h.dst_group)
  pub reads_hop_count : Reader.hop_count (Extended.reader env) b ≡ ok h.hop_count
  pub reads_tpci : Reader.tpci (Extended.reader env) six b ≡ ok h.tpci
  pub reads_tpci_eight : Reader.tpci (Extended.reader env) eight b ≡ ok (h.tpci * 4 + h.apci / 256)
  pub reads_seq : Reader.tpci_seq (Extended.reader env) b ≡ ok (h.tpci % 8)
  pub reads_apci : Reader.apci (Extended.reader env) ten b ≡ ok h.apci
  pub reads_apci_four : Reader.apci (Extended.reader env) four b ≡ ok (h.apci / 64)

-- On every buffer of at least nine bytes each reader of an extended frame but `length()` returns
-- the field of the header that the bytes hold: none panics or reads past the buffer, and no cast
-- makes an invalid enumeration value.
pub extended-decode :
    (env : Platform) (b : Bytes) → 9 ≤ length b → IsBytes b → Reads env b (decode b)
unfolding Reader.frame_type Reader.repeated Reader.priority Reader.src_addr Reader.dst_addr
    Reader.hop_count Reader.tpci Reader.addr_type Reader.tpci_seq Reader.apci
extended-decode env (b0 ∷ b1 ∷ b2 ∷ b3 ∷ b4 ∷ b5 ∷ b6 ∷ b7 ∷ b8 ∷ rest) long h = record {
  reads_kind = ground arith;
  reads_repeated = ground (arith, mask_1 (b0 / 32));
  reads_priority = ground (arith, mask_3 (b0 / 4));
  reads_src = ground (arith, bit_or_word b2 b3);
  reads_dst = ground (arith, bit_or_word b4 b5);
  reads_addr_type = ground arith;
  reads_hop_count = ground (arith, mask_7 (b1 / 16));
  reads_tpci = ground arith;
  reads_tpci_eight = ground (arith, mask_3 b7, bit_or_word (b7 % 4) b8);
  reads_seq = ground (arith, mask_7 (b7 / 4));
  reads_apci = ground (arith, mask_3 b7, bit_or_word (b7 % 4) b8);
  reads_apci_four = ground (arith, mask_3 b7, bit_or_word (b7 % 4) b8);
}
extended-decode env _ long h = absurd (omega arith)
