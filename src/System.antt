-- ===== src/System.antt =====
-- The three tasks of src/main.rs on their channels: the driver, the application layer with the
-- layers below it, and the loop of `main`. A task runs from one wait to the next.
mod State
pub mod Moves
pub mod Protocol
pub mod Invariant
pub mod Order
pub mod Transmission
pub mod Deadlock
pub mod Answers
pub mod Telegrams
pub mod Counting
pub mod Completion
pub mod Ready
pub mod Answering
pub mod Serving
pub mod Progress
pub mod Schedule
use embassy_knx.Prelude.{ℕ, ◌≡◌, Bool, false, not, Option, none, some, List, [], ◌∷◌, ok}
use embassy_knx.Frame.Writer.{Platform}
use embassy_knx.Frame.Dispatch.{Frame}
use embassy_knx.Sync.{Sync}
use embassy_knx.Node.{Node, Effect, con_reset, enqueue, con_wait, indicate, ApplicationServiceInd}
use embassy_knx.Driver.Uart
use embassy_knx.Driver.Uart.{Driver, ConStatus}
use embassy_knx.Driver.Run
use embassy_knx.Driver.Run.{line_read, frame_waits}
use embassy_knx.Transport.Actions
use embassy_knx.DataLink
use embassy_knx.DataLink.{FrameChannel, channel_tx, channel_rx}
use embassy_knx.Network
use embassy_knx.Transport.Layer
use embassy_knx.Transport.Layer.{frame_arrives, tick}
use embassy_knx.Application
use embassy_knx.Application.{ApplicationServiceRes, res_group_value_read, from_bus, response}
use embassy_knx.Application.Response.{answer}
pub use State.{
  channel_size, service_size, layers, link, System, frames, with_frames, responses_to,
  indications_from,
}
unfoldable pub use State.{init, signal_all}

-- What a step does, for the logs of a run.
pub data Event : Type 0 where
  line_round : List Frame → Event
  frame_passed : Frame → Event
  frame_taken : Frame → Event
  frame_sent : List ConStatus → Event
  telegram_heard : Frame → Event
  ticked : Event
  time_passed : Event
  response_taken : ApplicationServiceRes → Event
  signal_reset : Event
  frame_queued : Frame → Event
  confirmed : ConStatus → Event
  indicated : ApplicationServiceInd → Event
  indication_taken : ApplicationServiceInd → Event
  response_given : ApplicationServiceRes → Event

module _ (sync : Sync) (env : Platform) where
  -- The steps. A panic stops the device, and a call that waits for ever stops its task, so that
  -- such a call makes no step. `select` polls the transport layer before the responses, so that a
  -- response is taken when no frame waits.
  pub data Step (s : System sync) : Event → System sync → Type 0 where
    driver_reads :
        {d : Driver}
        → s.driver.passed ≡ []
        → s.sending ≡ none
        → Run.run_step env line_read s.driver ≡ (ok tt, d)
        → Step s (line_round d.passed) (record s { driver = d })
    driver_passes :
        {f : Frame} {fs : List Frame} {c : sync.Channel Frame}
        → s.driver.passed ≡ f ∷ fs
        → sync.try_send f s.frame_channel_tx ≡ some c
        → Step s
            (frame_passed f)
            (record s { driver = record s.driver { passed = fs }; frame_channel_tx = c })
    driver_takes :
        {f : Frame} {c : sync.Channel Frame}
        → s.driver.passed ≡ []
        → s.sending ≡ none
        → sync.try_receive s.frame_channel_rx ≡ some (f, c)
        → Step s (frame_taken f) (record s { sending = some f; frame_channel_rx = c })
    driver_sends :
        {f : Frame} {d : Driver}
        → s.sending ≡ some f
        → Run.run_step env (frame_waits f) s.driver ≡ (ok tt, d)
        → Step s (frame_sent d.confirmed) (record s {
          driver = record d { confirmed = [] };
          sending = none;
          con_signal = signal_all sync d.confirmed s.con_signal;
        })
    app_hears :
        {f : Frame} {c : sync.Channel Frame} {n : Node}
        → s.node.trace ≡ []
        → sync.try_receive (frames sync link.rx s) ≡ some (f, c)
        → Application.run_step env (from_bus (frame_arrives f)) s.node ≡ (ok tt, n)
        → Step s (telegram_heard f) (with_frames sync link.rx c (record s { node = n }))
    app_ticks :
        {n : Node}
        → s.node.trace ≡ []
        → Application.run_step env (from_bus tick) s.node ≡ (ok tt, n)
        → Step s ticked (record s { node = n })
    clock : (now : ℕ) → Step s time_passed (record s { node = record s.node { now = now } })
    app_responds :
        {res : ApplicationServiceRes} {c : sync.Channel ApplicationServiceRes} {n : Node}
        → s.node.trace ≡ []
        → sync.try_receive (frames sync link.rx s) ≡ none
        → sync.try_receive (responses_to sync layers.rx s) ≡ some (res, c)
        → Application.run_step env (response res) s.node ≡ (ok tt, n)
        → Step s (response_taken res) (record s { node = n; service_channel_tx = c })
    app_resets :
        {es : List Effect}
        → s.node.trace ≡ con_reset ∷ es
        → Step s signal_reset
            (record s { node = record s.node { trace = es }; con_signal = sync.reset s.con_signal })
    app_enqueues :
        {f : Frame} {es : List Effect} {c : sync.Channel Frame}
        → s.node.trace ≡ enqueue f ∷ es
        → sync.try_send f (frames sync link.tx s) ≡ some c
        → Step s
            (frame_queued f)
            (with_frames sync link.tx c (record s { node = record s.node { trace = es } }))
    app_waits :
        {status : ConStatus} {es : List Effect} {c : sync.Signal ConStatus}
        → s.node.trace ≡ con_wait ∷ es
        → sync.try_take s.con_signal ≡ some (status, c)
        → Step s
            (confirmed status)
            (record s { node = record s.node { trace = es }; con_signal = c })
    app_indicates :
        {i : ApplicationServiceInd} {es : List Effect} {c : sync.Channel ApplicationServiceInd}
        → s.node.trace ≡ indicate i ∷ es
        → sync.try_send i (indications_from sync layers.tx s) ≡ some c
        → Step s
            (indicated i)
            (record s { node = record s.node { trace = es }; service_channel_rx = c })
    main_hears :
        {i : ApplicationServiceInd} {c : sync.Channel ApplicationServiceInd}
        → s.answering ≡ none
        → sync.try_receive s.service_channel_rx ≡ some (i, c)
        → Step s (indication_taken i) (record s {
          answering = some (res_group_value_read (answer i));
          service_channel_rx = c;
        })
    main_answers :
        {res : ApplicationServiceRes} {c : sync.Channel ApplicationServiceRes}
        → s.answering ≡ some res
        → sync.try_send res s.service_channel_tx ≡ some c
        → Step s
            (response_given res)
            (record s { answering = none; led = not s.led; service_channel_tx = c })

  -- The states that are reached from `first`, with what happened, newest first.
  pub data Runs (first : System sync) : List Event → System sync → Type 0 where
    unmoved : Runs first [] first
    moved :
        {e : Event} {es : List Event} {s t : System sync}
        → Runs first es s
        → Step s e t
        → Runs first (e ∷ es) t
