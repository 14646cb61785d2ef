-- ===== src/Driver/Transmit/Remainder.antt =====
-- What sending leaves of the line was on it before (src/ncn51_driver.rs, `send_frame`).
use embassy_knx.Prelude.{ℕ, zero, suc, ◌+◌, arith, All, List, [], ◌∷◌, Bytes}
use embassy_knx.Frame.Dispatch.{Frame}
use embassy_knx.Frame.Writer.{Platform}
use embassy_knx.Driver.Uart.{Line, byte, silence, fault, next_byte, read, write}
use embassy_knx.Driver.Transmit.{read_echo, read_echoes, write_inner, con_status, send_frame}
use embassy_knx.Driver.Receive.Remainder.{KeepsAll, timeout-All}

module _ (P : Line → Type 0) where
  next-All : (rx : List Line) → All P rx → All P (next_byte rx).1
  unfolding next_byte
  next-All [] all = tt
  next-All (byte v ∷ rx) all = all.1
  next-All (silence ∷ rx) all = next-All rx all.1
  next-All (fault e ∷ rx) all = all.1

  write-KeepsAll : (buf : Bytes) → KeepsAll P (write buf)
  unfolding write
  write-KeepsAll buf d all = all

  read-KeepsAll : KeepsAll P read
  unfolding read
  read-KeepsAll d all = next-All d.rx all

  echo-KeepsAll : (x : ℕ) → KeepsAll P (read_echo x)
  unfolding read_echo
  echo-KeepsAll x d all = timeout-All P (x ∷ []) 0 d.rx all

  echoes-KeepsAll : (buf : Bytes) → KeepsAll P (read_echoes buf)
  unfolding read_echoes
  echoes-KeepsAll [] d all = all
  echoes-KeepsAll (x ∷ buf) d all = grind (arith, echo-KeepsAll, echoes-KeepsAll buf)

  module _ (env : Platform) where
    inner-KeepsAll : (left i : ℕ) (buf : Bytes) → KeepsAll P (write_inner env left i buf)
    unfolding write_inner
    inner-KeepsAll zero i buf d all = all
    inner-KeepsAll (suc left) i buf d all =
        grind (arith, write-KeepsAll, inner-KeepsAll left (i + 1) buf)

    status-KeepsAll : (cmd : ℕ) → KeepsAll P (con_status env cmd)
    unfolding con_status
    status-KeepsAll cmd d all = grind arith

    pub send_frame-KeepsAll : (f : Frame) → KeepsAll P (send_frame env f)
    unfolding send_frame
    send_frame-KeepsAll f d all =
        grind
          (arith, write-KeepsAll, read-KeepsAll, inner-KeepsAll, echoes-KeepsAll, status-KeepsAll)
