-- ===== src/Frame/Reader.antt =====
-- The trait `FrameReader` (src/frame.rs): its constants, and its default methods over
-- `self.data()`.
use embassy_knx.Prelude.{ℕ, ◌+◌, ◌-◌, bit_and, bit_or, bit_xor, ok, ◌>>=◌, map_ok}
use embassy_knx.Prelude.{[], ◌∷◌, Bytes, index, slice_from, split_at}
use embassy_knx.Prelude.Word.{shl16, ◌>>>◌, not8}
use embassy_knx.Address.{Address}
use embassy_knx.Address.Individual
use embassy_knx.Address.Individual.{IndividualAddress}
use embassy_knx.Address.Group
use embassy_knx.Frame.Types.{
  FrameType, FrameResult, AddressType, Priority, Repeated, TpciBits, six, eight, ApciBits, four,
  ten, to_frame_type, to_addr_type, to_priority, to_repeated,
}

pub record FrameReader : Type 0 where
  pub ctrl_offset : ℕ
  pub at_field : ℕ
  pub hop_count_field : ℕ
  pub max_frame_size : ℕ
  pub min_frame_size : ℕ
  pub length : Bytes → FrameResult ℕ

-- The constants with a default.
abbrev pub ctrl : ℕ
ctrl = 0

abbrev pub lg_field : ℕ
lg_field = 5

abbrev pub apci_base_size : ℕ
apci_base_size = 1

-- `checksum`: the complement of the exclusive or of all bytes.
unfoldable pub fold_xor : ℕ → Bytes → ℕ
fold_xor acc [] = acc
fold_xor acc (v ∷ b) = fold_xor (bit_xor acc v) b

unfoldable pub checksum : Bytes → ℕ
unfolding fold_xor
checksum b = not8 (fold_xor 0 b)

unfoldable pub frame_type : Bytes → FrameResult FrameType
frame_type b = do c ← index b ctrl; to_frame_type (c >>> 7)

unfoldable pub priority : Bytes → FrameResult Priority
priority b = do c ← index b ctrl; to_priority (bit_and (c >>> 2) 0x3)

unfoldable pub repeated : Bytes → FrameResult Repeated
repeated b = do c ← index b ctrl; to_repeated (bit_and (c >>> 5) 0x1)

tpci_of : TpciBits → ℕ → ℕ
tpci_of six c = c >>> 2
tpci_of eight c = c

apci_of : ApciBits → ℕ → ℕ
apci_of four a = a >>> 6
apci_of ten a = a

module _ (r : FrameReader) where
  abbrev pub src_addr_offset : ℕ
  src_addr_offset = r.ctrl_offset + 0

  abbrev pub dst_addr_offset : ℕ
  dst_addr_offset = r.ctrl_offset + 2

  abbrev pub header_length : ℕ
  header_length = r.ctrl_offset + 6

  abbrev pub apci_offset : ℕ
  apci_offset = header_length - 1

  abbrev pub tpci_offset : ℕ
  tpci_offset = header_length - 1

  unfoldable pub addr_type : Bytes → FrameResult AddressType
  addr_type b = do a ← index b r.at_field; to_addr_type (a >>> 7)

  unfoldable pub src_addr : Bytes → FrameResult IndividualAddress
  unfolding Individual.from_bytes
  src_addr b = do s ← slice_from b src_addr_offset; Individual.from_bytes s

  dst_addr_of : AddressType → Bytes → FrameResult Address
  unfolding Individual.from_bytes Group.from_bytes
  dst_addr_of AddressType.group s = map_ok Address.group (Group.from_bytes s)
  dst_addr_of AddressType.individual s = map_ok Address.individual (Individual.from_bytes s)

  unfoldable pub dst_addr : Bytes → FrameResult Address
  unfolding addr_type dst_addr_of
  dst_addr b = do s ← slice_from b dst_addr_offset; t ← addr_type b; dst_addr_of t s

  unfoldable pub hop_count : Bytes → FrameResult ℕ
  hop_count b = do h ← index b r.hop_count_field; ok (bit_and (h >>> 4) 0x7)

  unfoldable pub tpci : TpciBits → Bytes → FrameResult ℕ
  unfolding tpci_of
  tpci bits b = do c ← index b tpci_offset; ok (tpci_of bits c)

  unfoldable pub tpci_seq : Bytes → FrameResult ℕ
  tpci_seq b = do c ← index b tpci_offset; ok (bit_and (c >>> 2) 0x7)

  unfoldable pub apci : ApciBits → Bytes → FrameResult ℕ
  unfolding apci_of
  apci bits b = do
    hi ← index b apci_offset
    lo ← index b (apci_offset + 1)
    ok (apci_of bits (bit_or (shl16 (bit_and hi 0x3) 8) lo))

  -- `&data[APCI_OFFSET + 1..length]`, which panics where the range is not one of the buffer.
  unfoldable pub apdu_data : Bytes → FrameResult Bytes
  apdu_data b = do n ← r.length b; whole ← split_at b n; slice_from whole.0 (apci_offset + 1)
