-- ===== src/System/Ready.antt =====
-- When the tasks are ready for the next telegram (src/main.rs).
use embassy_knx.Prelude.{◌≡◌, refl, ap, ◌∙◌, arith}
use embassy_knx.Prelude.{Option, none, List, []}
use embassy_knx.Frame.Dispatch.{Frame}
use embassy_knx.Sync.{Sync}
use embassy_knx.Node.{Node, Effect}
use embassy_knx.Driver.Uart
use embassy_knx.Driver.Uart.{Driver, Line, byte, silence, ConStatus, con_ok}
use embassy_knx.System.{System, init, channel_size, service_size}
use embassy_knx.System.Protocol.{Protocol}
use embassy_knx.System.Moves.{IsFree, new_channel-IsFree}
use embassy_knx.System.Completion.{SharesChannels}

pub Protocol-listens :
    {es : List Effect} {o : Option Frame} {fs : List Frame} {v : Option ConStatus}
    → Protocol es o fs v
    → es ≡ []
    → o ≡ none
Protocol-listens Protocol.transmitting idle = absurd cc
Protocol-listens Protocol.at_rest idle = refl
Protocol-listens Protocol.indicating idle = refl
Protocol-listens Protocol.resetting idle = refl
Protocol-listens Protocol.queueing idle = refl
Protocol-listens Protocol.queued idle = refl
Protocol-listens Protocol.reported idle = refl

module _ (sync : Sync) where
  -- The tasks have nothing to do and the writes of the driver succeed, and nothing waits in the
  -- channels between the layers, `main` and the driver, which have room.
  pub record IsReady (s : System sync) : Type 0 where
    pub idle : s.node.trace ≡ []
    pub handed : s.driver.passed ≡ []
    pub writes : s.driver.tx ≡ []
    pub answered : s.answering ≡ none
    pub frames_free : IsFree sync s.frame_channel_tx
    pub indications_free : IsFree sync s.service_channel_rx
    pub responses_free : IsFree sync s.service_channel_tx

  pub init-IsReady : (d : Driver) (n : Node) → d.tx ≡ [] → IsReady (init sync d n)
  unfolding init Uart.new
  init-IsReady d n writes = record {
    idle = refl;
    handed = refl;
    writes = writes;
    answered = refl;
    frames_free = new_channel-IsFree sync channel_size (omega arith);
    indications_free = new_channel-IsFree sync service_size (omega arith);
    responses_free = new_channel-IsFree sync service_size (omega arith);
  }

  -- The same channels, with nothing left to do.
  pub IsReady-again :
      (s : System sync) {t : System sync} {d : Driver}
      → IsReady (record s { node = record s.node { trace = [] } })
      → t.node ≡ record s.node { trace = [] }
      → t.driver ≡ d
      → d.passed ≡ []
      → d.tx ≡ []
      → SharesChannels sync s t
      → IsReady t
  IsReady-again s ready node_now driver_now handed writes (unanswered, frames, heard, given) =
      record {
        idle = ap (λ n. n.trace) node_now;
        handed = ap (λ d. d.passed) driver_now ∙ handed;
        writes = ap (λ d. d.tx) driver_now ∙ writes;
        answered = unanswered ∙ ready.answered;
        frames_free = rw frames ready.frames_free;
        indications_free = rw heard ready.indications_free;
        responses_free = rw given ready.responses_free;
      }
