-- ===== src/Driver/Receive.antt =====
-- How the driver receives a telegram (src/ncn51_driver.rs).
pub mod Reading
pub mod Accepting
pub mod Checks
pub mod Sound
pub mod RoundTrip
pub mod Keeps
pub mod Damage
pub mod Drain
pub mod Prompt
pub mod Remainder
pub mod LongFrames
use embassy_knx.Prelude.{ℕ, ◌+◌, ◌-◌, Bool, ◌||◌, [], ◌++◌}
use embassy_knx.Prelude.{Outcome, ok, err, panic, pending, if◌then◌else◌, ltb, ◌==◌}
use embassy_knx.Prelude.{Bytes, index, set_at, split_at, bit_and}
use embassy_knx.Settings
use embassy_knx.Address.{Address, individual, group}
use embassy_knx.Address.Individual
use embassy_knx.Frame.Types.{invalid_length, checksum}
use embassy_knx.Frame.Reader
use embassy_knx.Frame.Reader.{header_length, dst_addr}
use embassy_knx.Frame.Writer.{Platform, FrameWriter}
use embassy_knx.Frame.Standard
use embassy_knx.Frame.Extended
use embassy_knx.Frame.Dispatch
use embassy_knx.Frame.Dispatch.{Frame}
use embassy_knx.Driver.Uart.{
  D, TransferError, timeout_error, frame_error, ack, pure, fail, lift, alloc, ◌>>=◌, ◌>>◌, send_ack,
  read_with_timeout,
}

abbrev pub frame_type_mask : ℕ
frame_type_mask = 0xd3

abbrev pub frame_type_std : ℕ
frame_type_std = 0x90

abbrev pub frame_type_ext : ℕ
frame_type_ext = 0x10

unfoldable pub is_frame_start : ℕ → Bool
is_frame_start ctrl =
    frame_type_std == bit_and ctrl frame_type_mask || frame_type_ext == bit_and ctrl frame_type_mask

unfoldable pub ack_if_addressed : Address → D (Unit {0})
unfolding Individual.eq Settings.address
ack_if_addressed (individual a) = if Individual.eq a Settings.address then send_ack ack else pure tt
ack_if_addressed (group _) = send_ack ack

-- A call of `read_with_timeout` for the part `middle` of a frame.
unfoldable pub read_part : Bytes → Bytes → Bytes → D (Outcome TransferError ℕ × Bytes)
read_part front middle back d =
    let (r, middle', later) = read_with_timeout middle 0 d.rx in
    (ok (r, front ++ middle' ++ back), record d { rx = later })

-- The second read may end by a timeout.
unfoldable pub or_timeout : Outcome TransferError ℕ → D ℕ
or_timeout (ok bytes) d = (ok bytes, d)
or_timeout (err (timeout_error bytes)) d = (ok bytes, d)
or_timeout (err e) d = (err e, d)
or_timeout panic d = (panic, d)
or_timeout pending d = (pending, d)

-- `?`
unfoldable pub or_return : Outcome TransferError ℕ → D ℕ
or_return r d = (r, d)

module _ (w : FrameWriter) where
  -- A frame of the length that it says, `bytes_read`.
  check_sum : ℕ → Bytes → D Bytes
  unfolding Reader.checksum
  check_sum bytes_read frame = do
    sum ← lift (index frame bytes_read)
    if sum == Reader.checksum frame
        then lift (w.set_length bytes_read frame)
        else fail (frame_error checksum)

  check_length : ℕ → Bytes → D Bytes
  check_length bytes_read frame = do
    n ← lift (w.reader.length frame)
    if bytes_read == n then check_sum bytes_read frame else fail (frame_error invalid_length)

  -- The checks of a frame of which `bytes_read` bytes were read.
  unfoldable pub accept : ℕ → Bytes → D Bytes
  unfolding check_sum check_length
  accept bytes_read frame =
      if ltb bytes_read w.reader.min_frame_size || ltb w.reader.max_frame_size bytes_read
      then fail (frame_error invalid_length)
      else check_length bytes_read frame

  -- What follows the header, of which `header_bytes` bytes were read with the first of the frame.
  unfoldable pub receive_rest : ℕ → Bytes → D Bytes
  unfolding or_timeout
  receive_rest header_bytes frame = do
    dst ← lift (dst_addr w.reader frame)
    ack_if_addressed dst
    parts ← lift (split_at frame (header_length w.reader))
    second ← read_part parts.0 parts.1 []
    rest_bytes ← or_timeout second.0
    accept (header_bytes + rest_bytes) second.1

  unfoldable pub receive_frame_int : ℕ → D Bytes
  unfolding or_return receive_rest
  receive_frame_int ctrl = do
    fresh ← alloc (λ pool. w.new pool w.reader.max_frame_size)
    started ← lift (set_at fresh 0 ctrl)
    front ← lift (split_at started 1)
    header ← lift (split_at front.1 (header_length w.reader - 1))
    first ← read_part front.0 header.0 header.1
    header_bytes ← or_return first.0
    receive_rest (1 + header_bytes) first.1

receive_as : Platform → ℕ → ℕ → D Frame
receive_as env masked ctrl =
    if masked == frame_type_std
    then (do frame ← receive_frame_int (Standard.writer env) ctrl; pure (Dispatch.standard frame))
    else if masked == frame_type_ext
    then (do frame ← receive_frame_int (Extended.writer env) ctrl; pure (Dispatch.extended frame))
    else (λ d. (panic, d))

unfoldable pub receive_frame : Platform → ℕ → D Frame
unfolding receive_as
receive_frame env ctrl = receive_as env (bit_and ctrl frame_type_mask) ctrl
