-- ===== src/Frame/Dispatch.antt =====
-- `enum Frame` (src/frame.rs): each method goes to the format that the frame has.
pub mod Cases
use embassy_knx.Prelude.{ℕ, Bool, if◌then◌else◌, ltb, Bytes, Outcome, map_ok}
use embassy_knx.Address.{Address}
use embassy_knx.Address.Individual.{IndividualAddress}
use embassy_knx.DataPoint
use embassy_knx.DataPoint.{DataPoint}
use embassy_knx.Frame.Types.{FrameResult, Priority, Repeated, TpciBits, ApciBits}
use embassy_knx.Frame.Reader
use embassy_knx.Frame.Writer
use embassy_knx.Frame.Writer.{Platform}
use embassy_knx.Frame.Standard
use embassy_knx.Frame.Extended

pub data Frame : Type 0 where
  standard : Bytes → Frame
  extended : Bytes → Frame

unfoldable pub data_of : Frame → Bytes
data_of (standard f) = f
data_of (extended f) = f

unfoldable pub checksum : Frame → ℕ
unfolding Reader.checksum
checksum (standard f) = Reader.checksum f
checksum (extended f) = Reader.checksum f

unfoldable pub priority : Frame → FrameResult Priority
unfolding Reader.priority
priority (standard f) = Reader.priority f
priority (extended f) = Reader.priority f

unfoldable pub repeated : Frame → FrameResult Repeated
unfolding Reader.repeated
repeated (standard f) = Reader.repeated f
repeated (extended f) = Reader.repeated f

-- A method with `&mut self` changes the bytes and keeps the format.
unfoldable pub set_repeated : Repeated → Frame → FrameResult Frame
unfolding Writer.set_repeated
set_repeated r (standard f) = map_ok standard (Writer.set_repeated r f)
set_repeated r (extended f) = map_ok extended (Writer.set_repeated r f)

unfoldable pub set_priority : Priority → Frame → FrameResult Frame
unfolding Writer.set_priority
set_priority p (standard f) = map_ok standard (Writer.set_priority p f)
set_priority p (extended f) = map_ok extended (Writer.set_priority p f)

module _ (env : Platform) where
  unfoldable pub length : Frame → FrameResult ℕ
  unfolding Standard.length Extended.length
  length (standard f) = Standard.length env f
  length (extended f) = Extended.length env f

  unfoldable pub src_addr : Frame → FrameResult IndividualAddress
  unfolding Reader.src_addr
  src_addr (standard f) = Reader.src_addr (Standard.reader env) f
  src_addr (extended f) = Reader.src_addr (Extended.reader env) f

  unfoldable pub dst_addr : Frame → FrameResult Address
  unfolding Reader.dst_addr
  dst_addr (standard f) = Reader.dst_addr (Standard.reader env) f
  dst_addr (extended f) = Reader.dst_addr (Extended.reader env) f

  unfoldable pub hop_count : Frame → FrameResult ℕ
  unfolding Reader.hop_count
  hop_count (standard f) = Reader.hop_count (Standard.reader env) f
  hop_count (extended f) = Reader.hop_count (Extended.reader env) f

  unfoldable pub tpci : TpciBits → Frame → FrameResult ℕ
  unfolding Reader.tpci
  tpci bits (standard f) = Reader.tpci (Standard.reader env) bits f
  tpci bits (extended f) = Reader.tpci (Extended.reader env) bits f

  unfoldable pub tpci_seq : Frame → FrameResult ℕ
  unfolding Reader.tpci_seq
  tpci_seq (standard f) = Reader.tpci_seq (Standard.reader env) f
  tpci_seq (extended f) = Reader.tpci_seq (Extended.reader env) f

  unfoldable pub apci : ApciBits → Frame → FrameResult ℕ
  unfolding Reader.apci
  apci bits (standard f) = Reader.apci (Standard.reader env) bits f
  apci bits (extended f) = Reader.apci (Extended.reader env) bits f

  unfoldable pub apdu_data : Frame → FrameResult Bytes
  unfolding Reader.apdu_data Standard.length Extended.length
  apdu_data (standard f) = Reader.apdu_data (Standard.reader env) f
  apdu_data (extended f) = Reader.apdu_data (Extended.reader env) f

  unfoldable pub set_src_addr : IndividualAddress → Frame → FrameResult Frame
  unfolding Writer.set_src_addr
  set_src_addr a (standard f) = map_ok standard (Writer.set_src_addr (Standard.reader env) a f)
  set_src_addr a (extended f) = map_ok extended (Writer.set_src_addr (Extended.reader env) a f)

  unfoldable pub set_dst_addr : Address → Frame → FrameResult Frame
  unfolding Writer.set_dst_addr
  set_dst_addr a (standard f) = map_ok standard (Writer.set_dst_addr (Standard.reader env) a f)
  set_dst_addr a (extended f) = map_ok extended (Writer.set_dst_addr (Extended.reader env) a f)

  unfoldable pub set_hop_count : ℕ → Frame → FrameResult Frame
  unfolding Writer.set_hop_count
  set_hop_count h (standard f) = map_ok standard (Writer.set_hop_count (Standard.reader env) h f)
  set_hop_count h (extended f) = map_ok extended (Writer.set_hop_count (Extended.reader env) h f)

  unfoldable pub set_tpci : TpciBits → ℕ → Frame → FrameResult Frame
  unfolding Writer.set_tpci
  set_tpci bits v (standard f) = map_ok standard (Writer.set_tpci (Standard.reader env) bits v f)
  set_tpci bits v (extended f) = map_ok extended (Writer.set_tpci (Extended.reader env) bits v f)

  unfoldable pub set_tpci_seq : ℕ → Frame → FrameResult Frame
  unfolding Writer.set_tpci_seq
  set_tpci_seq v (standard f) = map_ok standard (Writer.set_tpci_seq (Standard.reader env) v f)
  set_tpci_seq v (extended f) = map_ok extended (Writer.set_tpci_seq (Extended.reader env) v f)

  unfoldable pub set_apci : ApciBits → ℕ → Frame → FrameResult Frame
  unfolding Writer.set_apci
  set_apci bits v (standard f) = map_ok standard (Writer.set_apci (Standard.reader env) bits v f)
  set_apci bits v (extended f) = map_ok extended (Writer.set_apci (Extended.reader env) bits v f)

  unfoldable pub from_datapoint : Bool → DataPoint → FrameResult Frame
  unfolding Writer.from_datapoint DataPoint.byte_length
  from_datapoint pool d =
      if ltb 14 (DataPoint.byte_length d)
      then map_ok extended (Writer.from_datapoint (Extended.writer env) pool d)
      else map_ok standard (Writer.from_datapoint (Standard.writer env) pool d)

  -- `TryFrom<&Frame>`
  unfoldable pub try_from : Bool → Frame → FrameResult Frame
  unfolding Writer.try_from Standard.length Standard.new Extended.try_from
  try_from pool (standard f) = map_ok standard (Writer.try_from (Standard.writer env) pool f)
  try_from pool (extended f) = map_ok extended (Extended.try_from env pool f)
