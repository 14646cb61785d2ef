-- ===== src/Frame/Writer.antt =====
-- The trait `FrameWriter` (src/frame.rs). A method with `&mut self` returns the new bytes.
use embassy_knx.Prelude.{ℕ, ◌+◌, ◌*◌, ◌^◌, bit_and, bit_or, Bool, Option, none, some}
use embassy_knx.Prelude.{ok, err, ◌>>=◌, if◌then◌else◌, ltb}
use embassy_knx.Prelude.{Bytes, modify_at, set_at, on_slice_from, on_slice, clone_from_slice}
use embassy_knx.Prelude.{◌≡◌, ◌≤◌, ◌<◌, resize}
use embassy_knx.Prelude.Word.{Profile, u8, shl8, ◌>>>◌}
use embassy_knx.Address.{Address, individual, group}
use embassy_knx.Address.Individual
use embassy_knx.Address.Individual.{IndividualAddress}
use embassy_knx.Address.Group
use embassy_knx.DataPoint
use embassy_knx.DataPoint.{DataPoint, DataPointLength, bit, byte}
use embassy_knx.Frame.Types.{
  FrameError, FrameResult, AddressType, Priority, Repeated, TpciBits, six, eight, ApciBits, four,
  ten, addr_type_value, priority_value, repeated_value,
}
use embassy_knx.Frame.Reader.{
  FrameReader, ctrl, apci_base_size, src_addr_offset, dst_addr_offset, header_length, apci_offset,
  tpci_offset,
}

-- The capacity of the pool's vectors (src/ncn51_driver.rs).
abbrev pub capacity : ℕ
capacity = 264

-- What the code gets from outside: the build profile; `resize_default` of `heapless::Vec`, which
-- cuts off or fills up with zeros within the capacity, and fails above it; and `Ticker::every`
-- of embassy_time, from a period in seconds and the instant of the call to a handle of the ticker.
pub record Platform : Type 0 where
  pub profile : Profile
  pub every : ℕ → ℕ → ℕ
  pub resize_default : Bytes → ℕ → Option Bytes
  pub resize_fits : (b : Bytes) (n : ℕ) → n ≤ capacity → resize_default b n ≡ some (resize n 0 b)
  pub resize_full : (b : Bytes) (n : ℕ) → capacity < n → resize_default b n ≡ none

-- `.map_err(|_| e)?`
abbrev pub or_error : {A : Type 0} → FrameError → Option A → FrameResult A
or_error e none = err e
or_error e (some a) = ok a

pub record FrameWriter : Type 0 where
  pub reader : FrameReader
  pub set_length : ℕ → Bytes → FrameResult Bytes
  pub set_frame_type : Bytes → FrameResult Bytes
  -- `new`, given whether the pool has a free block.
  pub new : Bool → ℕ → FrameResult Bytes

unfoldable pub set_priority : Priority → Bytes → FrameResult Bytes
set_priority p b = modify_at b ctrl (λ x. bit_or x (shl8 (priority_value p) 2))

unfoldable pub set_repeated : Repeated → Bytes → FrameResult Bytes
set_repeated r b = modify_at b ctrl (λ x. bit_or x (shl8 (repeated_value r) 5))

module _ (r : FrameReader) where
  unfoldable pub set_addr_type : AddressType → Bytes → FrameResult Bytes
  set_addr_type t b = modify_at b r.at_field (λ x. bit_or x (shl8 (addr_type_value t) 7))

  unfoldable pub set_hop_count : ℕ → Bytes → FrameResult Bytes
  set_hop_count h b = modify_at b r.hop_count_field (λ x. bit_or x (shl8 (bit_and h 0x7) 4))

  unfoldable pub set_src_addr : IndividualAddress → Bytes → FrameResult Bytes
  unfolding Individual.write
  set_src_addr a b = on_slice_from (src_addr_offset r) (Individual.write a) b

  unfoldable pub set_dst_addr : Address → Bytes → FrameResult Bytes
  unfolding set_addr_type Individual.write Group.write
  set_dst_addr (individual a) b = do
    b' ← set_addr_type AddressType.individual b
    on_slice_from (dst_addr_offset r) (Individual.write a) b'
  set_dst_addr (group a) b = do
    b' ← set_addr_type AddressType.group b
    on_slice_from (dst_addr_offset r) (Group.write a) b'

  unfoldable pub set_tpci : TpciBits → ℕ → Bytes → FrameResult Bytes
  set_tpci six v b = modify_at b (tpci_offset r) (λ x. bit_or x (shl8 v 2))
  set_tpci eight v b = set_at b (tpci_offset r) v

  unfoldable pub set_tpci_seq : ℕ → Bytes → FrameResult Bytes
  set_tpci_seq v b = modify_at b (tpci_offset r) (λ x. bit_or x (shl8 (bit_and v 0x7) 2))

  unfoldable pub set_apci : ApciBits → ℕ → Bytes → FrameResult Bytes
  set_apci four v b = do
    b' ← modify_at b (apci_offset r) (λ x. bit_or x (u8 (v >>> 2)))
    modify_at b' (apci_offset r + 1) (λ x. bit_or x (u8 (bit_and v 0x3 * 2 ^ 6)))
  set_apci ten v b = do
    b' ← modify_at b (apci_offset r) (λ x. bit_or x (u8 (v >>> 8)))
    modify_at b' (apci_offset r + 1) (λ x. bit_or x (u8 (bit_and v 0xff)))

-- The bytes that a value takes behind the byte with the APCI.
extra_size : DataPointLength → ℕ
extra_size (bit n) = if ltb n 6 then 0 else 1
extra_size (byte n) = n

module _ (w : FrameWriter) where
  -- The slice is `[APCI_OFFSET + 1 + size..APCI_OFFSET + size + 2]`, of one byte.
  unfoldable pub from_datapoint : Bool → DataPoint → FrameResult Bytes
  unfolding extra_size DataPoint.length DataPoint.write
  from_datapoint pool d =
      let size : ℕ = extra_size (DataPoint.length d) in
      do
        b ← w.new pool w.reader.max_frame_size
        b' ← on_slice (apci_offset w.reader + 1 + size) 1 (DataPoint.write d) b
        w.set_length (header_length w.reader + apci_base_size + size + 1) b'

  -- `TryFrom<&StandardFrame>`
  unfoldable pub try_from : Bool → Bytes → FrameResult Bytes
  try_from pool value = do n ← w.reader.length value; b ← w.new pool n; clone_from_slice b value
