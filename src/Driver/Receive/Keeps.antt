-- ===== src/Driver/Receive/Keeps.antt =====
-- Receiving passes nothing on to the stack and confirms nothing by itself (src/ncn51_driver.rs,
-- `receive_frame`).
use embassy_knx.Prelude.{ℕ, ◌≡◌, arith}
use embassy_knx.Prelude.{Bytes, Outcome}
use embassy_knx.Address.{Address}
use embassy_knx.Frame.Writer.{Platform, FrameWriter}
use embassy_knx.Driver.Uart.{D, Driver, TransferError, write, send_ack}
use embassy_knx.Driver.Receive.{
  ack_if_addressed, read_part, or_timeout, or_return, accept, receive_rest, receive_frame_int,
  receive_frame,
}

-- Neither the frames for the stack nor the confirmations change.
abbrev pub IsPrivate : {A : Type 0} → D A → Type 0
IsPrivate m = (d : Driver) → ((m d).1.passed ≡ d.passed) × ((m d).1.confirmed ≡ d.confirmed)

ack-IsPrivate : (a : Address) → IsPrivate (ack_if_addressed a)
unfolding ack_if_addressed send_ack write
ack-IsPrivate a d = ground arith

or_timeout-IsPrivate : (r : Outcome TransferError ℕ) → IsPrivate (or_timeout r)
unfolding or_timeout
or_timeout-IsPrivate r d = ground arith

module _ (w : FrameWriter) where
  accept-IsPrivate : (n : ℕ) (b : Bytes) → IsPrivate (accept w n b)
  unfolding accept
  accept-IsPrivate n b d = ground arith

  rest-IsPrivate : (n : ℕ) (b : Bytes) → IsPrivate (receive_rest w n b)
  unfolding receive_rest read_part
  rest-IsPrivate n b d = grind (arith, ack-IsPrivate, or_timeout-IsPrivate, accept-IsPrivate)

  receive_int-IsPrivate : (ctrl : ℕ) → IsPrivate (receive_frame_int w ctrl)
  unfolding receive_frame_int read_part or_return
  receive_int-IsPrivate ctrl d = grind (arith, rest-IsPrivate)

pub receive_frame-IsPrivate : (env : Platform) (ctrl : ℕ) → IsPrivate (receive_frame env ctrl)
unfolding receive_frame
receive_frame-IsPrivate env ctrl d = grind (arith, receive_int-IsPrivate)
