-- ===== src/Driver/Receive/Drain.antt =====
-- Receiving reads on: what is left of the line never grows (src/ncn51_driver.rs).
use embassy_knx.Prelude.{ℕ, ◌+◌, ◌≤◌, arith, List, [], ◌∷◌, Bytes, length, Outcome}
use embassy_knx.Address.{Address}
use embassy_knx.Frame.Writer.{Platform, FrameWriter}
use embassy_knx.Driver.Uart.{
  D, Driver, TransferError, Line, byte, silence, fault, read_with_timeout, dump, write, send_ack,
}
use embassy_knx.Driver.Receive.{
  ack_if_addressed, read_part, or_timeout, or_return, accept, receive_rest, receive_frame_int,
  receive_frame,
}

pub timeout-le :
    (buf : Bytes) (count : ℕ) (rx : List Line)
    → length (read_with_timeout buf count rx).2 ≤ length rx
unfolding read_with_timeout
timeout-le [] count rx = omega arith
timeout-le (x ∷ buf) count [] = omega arith
timeout-le (x ∷ buf) count (byte v ∷ rx) = omega (arith, timeout-le buf (count + 1) rx)
timeout-le (x ∷ buf) count (silence ∷ rx) = omega arith
timeout-le (x ∷ buf) count (fault e ∷ rx) = omega arith

pub dump-le : (count : ℕ) (rx : List Line) → length (dump count rx).1 ≤ length rx
unfolding dump
dump-le count [] = omega arith
dump-le count (byte v ∷ rx) = omega (arith, dump-le (count + 1) rx)
dump-le count (silence ∷ rx) = omega arith
dump-le count (fault e ∷ rx) = omega (arith, dump-le (count + 1) rx)

-- No more is left of the line than there was.
abbrev pub ReadsOn : {A : Type 0} → D A → Type 0
ReadsOn m = (d : Driver) → length (m d).1.rx ≤ length d.rx

ack-ReadsOn : (a : Address) → ReadsOn (ack_if_addressed a)
unfolding ack_if_addressed send_ack write
ack-ReadsOn a d = ground arith

or_timeout-ReadsOn : (r : Outcome TransferError ℕ) → ReadsOn (or_timeout r)
unfolding or_timeout
or_timeout-ReadsOn r d = ground arith

part-ReadsOn : (front middle back : Bytes) → ReadsOn (read_part front middle back)
unfolding read_part
part-ReadsOn front middle back d = timeout-le middle 0 d.rx

module _ (w : FrameWriter) where
  accept-ReadsOn : (n : ℕ) (b : Bytes) → ReadsOn (accept w n b)
  unfolding accept
  accept-ReadsOn n b d = ground arith

  rest-ReadsOn : (n : ℕ) (b : Bytes) → ReadsOn (receive_rest w n b)
  unfolding receive_rest
  rest-ReadsOn n b d = grind (arith, part-ReadsOn, ack-ReadsOn, or_timeout-ReadsOn, accept-ReadsOn)

  receive_int-ReadsOn : (ctrl : ℕ) → ReadsOn (receive_frame_int w ctrl)
  unfolding receive_frame_int or_return
  receive_int-ReadsOn ctrl d = grind (arith, part-ReadsOn, rest-ReadsOn)

pub receive_frame-ReadsOn : (env : Platform) (ctrl : ℕ) → ReadsOn (receive_frame env ctrl)
unfolding receive_frame
receive_frame-ReadsOn env ctrl d = grind (arith, receive_int-ReadsOn)
