-- ===== src/Driver/Receive/Remainder.antt =====
-- What receiving leaves of the line was on it before (src/ncn51_driver.rs): it keeps what holds of
-- all events of the line.
use embassy_knx.Prelude.{ℕ, ◌+◌, arith, All, List, [], ◌∷◌, Bytes, Outcome}
use embassy_knx.Address.{Address}
use embassy_knx.Frame.Writer.{Platform, FrameWriter}
use embassy_knx.Driver.Uart.{
  D, Driver, TransferError, Line, byte, silence, fault, read_with_timeout, dump, write, send_ack,
}
use embassy_knx.Driver.Receive.{
  ack_if_addressed, read_part, or_timeout, or_return, accept, receive_rest, receive_frame_int,
  receive_frame,
}

module _ (P : Line → Type 0) where
  pub timeout-All :
      (buf : Bytes) (count : ℕ) (rx : List Line)
      → All P rx
      → All P (read_with_timeout buf count rx).2
  unfolding read_with_timeout
  timeout-All [] count rx all = all
  timeout-All (x ∷ buf) count [] all = tt
  timeout-All (x ∷ buf) count (byte v ∷ rx) all = timeout-All buf (count + 1) rx all.1
  timeout-All (x ∷ buf) count (silence ∷ rx) all = all.1
  timeout-All (x ∷ buf) count (fault e ∷ rx) all = all.1

  pub dump-All : (count : ℕ) (rx : List Line) → All P rx → All P (dump count rx).1
  unfolding dump
  dump-All count [] all = tt
  dump-All count (byte v ∷ rx) all = dump-All (count + 1) rx all.1
  dump-All count (silence ∷ rx) all = all.1
  dump-All count (fault e ∷ rx) all = dump-All (count + 1) rx all.1

  abbrev pub KeepsAll : {A : Type 0} → D A → Type 0
  KeepsAll m = (d : Driver) → All P d.rx → All P (m d).1.rx

  ack-KeepsAll : (a : Address) → KeepsAll (ack_if_addressed a)
  unfolding ack_if_addressed send_ack write
  ack-KeepsAll a d all = grind arith

  or_timeout-KeepsAll : (r : Outcome TransferError ℕ) → KeepsAll (or_timeout r)
  unfolding or_timeout
  or_timeout-KeepsAll r d all = grind arith

  part-KeepsAll : (front middle back : Bytes) → KeepsAll (read_part front middle back)
  unfolding read_part
  part-KeepsAll front middle back d all = timeout-All middle 0 d.rx all

  module _ (w : FrameWriter) where
    accept-KeepsAll : (n : ℕ) (b : Bytes) → KeepsAll (accept w n b)
    unfolding accept
    accept-KeepsAll n b d all = grind arith

    rest-KeepsAll : (n : ℕ) (b : Bytes) → KeepsAll (receive_rest w n b)
    unfolding receive_rest
    rest-KeepsAll n b d all =
        grind (arith, part-KeepsAll, ack-KeepsAll, or_timeout-KeepsAll, accept-KeepsAll)

    receive_int-KeepsAll : (ctrl : ℕ) → KeepsAll (receive_frame_int w ctrl)
    unfolding receive_frame_int or_return
    receive_int-KeepsAll ctrl d all = grind (arith, part-KeepsAll, rest-KeepsAll)

  pub receive_frame-KeepsAll : (env : Platform) (ctrl : ℕ) → KeepsAll (receive_frame env ctrl)
  unfolding receive_frame
  receive_frame-KeepsAll env ctrl d all = grind (arith, receive_int-KeepsAll)
