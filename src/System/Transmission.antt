-- ===== src/System/Transmission.antt =====
-- The confirmed transmission in the states that the three tasks reach (src/data_link_layer.rs).
use embassy_knx.Prelude.{ℕ, ◌+◌, ◌≡◌, refl, ap, arith, length, is_some, true, Option, List, [], ◌∷◌}
use embassy_knx.Frame.Dispatch.{Frame}
use embassy_knx.Frame.Writer.{Platform}
use embassy_knx.Sync.{Sync}
use embassy_knx.Node.{Node, Effect, enqueue, con_wait}
use embassy_knx.Driver.Uart.{Driver, ConStatus}
use embassy_knx.Transport.Actions.{new}
use embassy_knx.System.{System, Event, init, Runs}
use embassy_knx.System.Protocol.{Protocol, move}
use embassy_knx.System.Order.{to_list}
use embassy_knx.System.Invariant.{Runs-Inv}

-- How many frames wait for the driver, are transmitted, or are confirmed with the confirmation not
-- yet taken.
abbrev pub in_flight : Option Frame → List Frame → Option ConStatus → ℕ
in_flight o fs v = length fs + length (to_list o) + length (to_list v)

-- How many confirmations the data link layer waits for: one while it waits, and none while it has
-- anything else to do or nothing.
abbrev pub awaited : List Effect → ℕ
awaited (con_wait ∷ _) = 1
awaited _ = 0

Protocol-in_flight :
    {es : List Effect} {o : Option Frame} {fs : List Frame} {v : Option ConStatus}
    → Protocol es o fs v
    → in_flight o fs v ≡ awaited es
Protocol-in_flight Protocol.at_rest = refl
Protocol-in_flight Protocol.indicating = refl
Protocol-in_flight Protocol.resetting = refl
Protocol-in_flight Protocol.queueing = refl
Protocol-in_flight Protocol.queued = refl
Protocol-in_flight Protocol.transmitting = refl
Protocol-in_flight Protocol.reported = refl

Protocol-enqueue :
    {f : Frame} {es : List Effect} {o : Option Frame} {fs : List Frame} {v : Option ConStatus}
    → Protocol (enqueue f ∷ es) o fs v
    → fs ≡ []
Protocol-enqueue Protocol.queueing = refl

module _ (sync : Sync) (env : Platform) (d : Driver) (n : Node) {es : List Event} {s : System sync}
    (runs : Runs sync env (init sync d n) es s) where
  -- In every state that the tasks reach, whatever the line brings and in whatever order they run,
  -- at most one frame is on its way to the bus: while the data link layer waits for a confirmation,
  -- exactly one frame waits for the driver, is transmitted or has its confirmation in the signal;
  -- at every other time none is, and the signal is empty. So the confirmation that the layer waits
  -- for is never lost, and no older one is left in the signal when a frame is queued.
  pub one_in_flight :
      in_flight s.sending (sync.held s.frame_channel_rx) (sync.value s.con_signal)
      ≡ awaited s.node.trace
  one_in_flight = Protocol-in_flight (Runs-Inv sync env d n runs).0

  -- The data link layer never waits for room in the driver's channel: in every state that the
  -- tasks reach and in which a frame is to be queued, there is room for it.
  pub queueing_never_waits :
      (f : Frame) {todo : List Effect}
      → s.node.trace ≡ enqueue f ∷ todo
      → is_some (sync.try_send f s.frame_channel_rx) ≡ true
  queueing_never_waits f next =
      let (stage, free, unopened, told, bound) = Runs-Inv sync env d n runs in
      let unused = Protocol-enqueue (move stage next refl refl refl) in
      sync.send_room f s.frame_channel_rx (omega (arith, ap length unused, bound))

  -- The connection of the transport layer stays closed in every state that the tasks reach, as
  -- `Connection::new` made it: a telegram that would open one makes the device panic.
  pub connection_never_opens : s.node.connection ≡ new
  connection_never_opens = (Runs-Inv sync env d n runs).2
