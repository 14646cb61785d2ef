-- ===== src/Driver/Run.antt =====
-- The loop of the driver (src/ncn51_driver.rs).
pub mod Rounds
pub mod Effects
pub mod Drain
pub mod BrokenWrites
pub mod Passing
use embassy_knx.Prelude.{ℕ, not, List, [], ◌∷◌, ◌++◌}
use embassy_knx.Prelude.{Outcome, ok, err, panic, pending, if◌then◌else◌}
use embassy_knx.Frame.Writer.{Platform}
use embassy_knx.Frame.Dispatch.{Frame}
use embassy_knx.Driver.Uart.{D, TransferError, ConStatus, con_not_ok, ◌>>◌, read, dump}
use embassy_knx.Driver.Receive.{is_frame_start, receive_frame}
use embassy_knx.Driver.Transmit.{send_frame}

-- What `select` gives: a read of one byte has ended, or a frame is waiting to be sent.
pub data Wakeup : Type 0 where
  line_read : Wakeup
  frame_waits : Frame → Wakeup

pass_on : Frame → D (Unit {0})
pass_on frame d = (ok tt, record d { led = not d.led; passed = d.passed ++ frame ∷ [] })

drop_line : D (Unit {0})
drop_line d = let (count, later) = dump 0 d.rx in (ok tt, record d { rx = later })

-- What follows a received frame; after an error the line is dumped.
unfoldable pub after_receive : Outcome TransferError Frame → D (Unit {0})
unfolding pass_on drop_line
after_receive (ok frame) d = pass_on frame d
after_receive (err e) d = drop_line d
after_receive panic d = (panic, d)
after_receive pending d = (pending, d)

signal : ConStatus → D (Unit {0})
signal s d = (ok tt, record d { confirmed = d.confirmed ++ s ∷ [] })

unfoldable pub after_send : Outcome TransferError ConStatus → D (Unit {0})
unfolding signal
after_send (ok status) d = signal status d
after_send (err e) d = signal con_not_ok d
after_send panic d = (panic, d)
after_send pending d = (pending, d)

module _ (env : Platform) where
  unfoldable pub on_byte : Outcome TransferError ℕ → D (Unit {0})
  unfolding after_receive
  on_byte (ok ctrl) d =
      if is_frame_start ctrl
      then (let (r, d') = receive_frame env ctrl d in after_receive r d')
      else (ok tt, d)
  on_byte (err e) d = (ok tt, d)
  on_byte panic d = (panic, d)
  on_byte pending d = (pending, d)

  -- One round of `run`.
  unfoldable pub run_step : Wakeup → D (Unit {0})
  unfolding on_byte after_send
  run_step line_read d = let (r, d') = read d in on_byte r d'
  run_step (frame_waits frame) d = let (r, d') = send_frame env frame d in after_send r d'

  -- `run`, on all that wakes it; with nothing more to come it stays pending.
  unfoldable pub run : List Wakeup → D (Unit {0})
  run [] d = (pending, d)
  run (w ∷ ws) d = (run_step w >> run ws) d
