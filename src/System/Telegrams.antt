-- ===== src/System/Telegrams.antt =====
-- What the application layer hears in the states that the three tasks reach.
use embassy_knx.Prelude.{
  ◌≡◌, All, All-append, All-prefix, List, ◌∷◌, Outcome, ok, err, panic, pending,
}
use embassy_knx.Prelude.Word.{dev}
use embassy_knx.Frame.Dispatch.{Frame}
use embassy_knx.Frame.Writer.{Platform}
use embassy_knx.Sync.{Sync}
use embassy_knx.Node.{Node}
use embassy_knx.Driver.Uart.{Driver, ConStatus, TransferError}
use embassy_knx.Driver.Receive.Reading.{IsByteLine}
use embassy_knx.Driver.Transmit.{send_frame}
use embassy_knx.Driver.Transmit.Remainder.{send_frame-KeepsAll}
use embassy_knx.Driver.Run.{run_step, frame_waits, after_send}
use embassy_knx.Driver.Run.Effects.{frame_waits-confirmed}
use embassy_knx.Driver.Run.Passing.{IsWhole, line_read-IsSound}
use embassy_knx.System.Order.{frames_received, frames_heard, Runs-InOrder}
use embassy_knx.System.{
  System, Event, init, Step, Runs, driver_reads, driver_passes, driver_takes, driver_sends,
  app_hears, app_ticks, clock, app_responds, app_resets, app_enqueues, app_waits, app_indicates,
  main_hears, main_answers, unmoved, moved,
}

after_send-line :
    (r : Outcome TransferError ConStatus) (d : Driver)
    → All IsByteLine d.rx
    → All IsByteLine (after_send r d).1.rx
unfolding after_send
after_send-line (ok status) d line = line
after_send-line (err e) d line = line
after_send-line panic d line = line
after_send-line pending d line = line

sends-line :
    (env : Platform) (f : Frame) (d : Driver)
    → All IsByteLine d.rx
    → All IsByteLine (run_step env (frame_waits f) d).1.rx
unfolding run_step
sends-line env f d line =
    let r = send_frame env f d in
    after_send-line r.0 r.1 (send_frame-KeepsAll IsByteLine env f d line)

module _ (sync : Sync) where
  -- The line brings bytes, and the frames received so far are whole telegrams.
  abbrev Telegrams : List Event → System sync → Type 0
  Telegrams es s =
      All IsByteLine s.driver.rx × All IsWhole s.driver.passed × All IsWhole (frames_received es)

  module _ (env : Platform) (checks : env.profile ≡ dev) where
    Step-Telegrams :
        {e : Event} (es : List Event) {s t : System sync}
        → Step sync env s e t
        → Telegrams es s
        → Telegrams (e ∷ es) t
    Step-Telegrams es {s = s} (driver_reads {d = d} empty listens runs) (line, passes, received) =
        let sound = line_read-IsSound env checks s.driver (passes, line) in
        let now = rw runs at sound in
        (now.1, now.0, All-append IsWhole (frames_received es) d.passed received now.0)
    Step-Telegrams es (driver_passes ready puts) (line, passes, received) =
        (line, (rw ready at passes).1, received)
    Step-Telegrams es (driver_takes empty listens gets) all = all
    Step-Telegrams es {s = s} (driver_sends {f = f} busy runs) (line, passes, received) =
        let (status, confirms, keeps) = frame_waits-confirmed env f s.driver runs in
        let left = sends-line env f s.driver line in (rw runs at left, rw keeps passes, received)
    Step-Telegrams es (app_hears idle gets runs) all = all
    Step-Telegrams es (app_ticks idle runs) all = all
    Step-Telegrams es (clock now) all = all
    Step-Telegrams es (app_responds idle quiet gets runs) all = all
    Step-Telegrams es (app_resets todo) all = all
    Step-Telegrams es (app_enqueues todo puts) all = all
    Step-Telegrams es (app_waits todo gets) all = all
    Step-Telegrams es (app_indicates todo puts) all = all
    Step-Telegrams es (main_hears awaits gets) all = all
    Step-Telegrams es (main_answers ready puts) all = all

    Runs-Telegrams :
        (d : Driver) (n : Node) {es : List Event} {s : System sync}
        → All IsByteLine d.rx
        → Runs sync env (init sync d n) es s
        → Telegrams es s
    unfolding init
    Runs-Telegrams d n line unmoved = (line, tt, tt)
    Runs-Telegrams d n line (moved {es = es} before step) =
        Step-Telegrams es step (Runs-Telegrams d n line before)

    -- Whatever bytes, silences and faults the line brings, and in whatever order the tasks run, the
    -- application layer hears only whole telegrams of the standard format: well formed, as long as
    -- their length field says, and with a valid checksum. The build has overflow checks; without
    -- them an extended frame may be heard.
    pub only_telegrams_heard :
        (d : Driver) (n : Node) {es : List Event} {s : System sync}
        → All IsByteLine d.rx
        → Runs sync env (init sync d n) es s
        → All IsWhole (frames_heard es)
    only_telegrams_heard d n {es = es} {s = s} line runs =
        let (_, _, received) = Runs-Telegrams d n line runs in
        let (ins, _, _) = Runs-InOrder sync env d n runs in
        All-prefix IsWhole (frames_heard es) _
          (All-prefix IsWhole _ s.driver.passed (rw ins at received))
