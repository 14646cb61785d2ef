-- ===== src/System/Completion.antt =====
-- A transmission from the layers through the driver and back (src/data_link_layer.rs, `send`;
-- src/ncn51_driver.rs, `run`).
use embassy_knx.Prelude.{◌≡◌, refl, ap, ◌∙◌, Option, none, List, [], ◌∷◌, ◌++◌, ok}
use embassy_knx.Frame.Dispatch.{Frame}
use embassy_knx.Frame.Writer.{Platform}
use embassy_knx.Sync.{Sync}
use embassy_knx.Node.{Node, Effect, con_reset, enqueue, con_wait}
use embassy_knx.Driver.Uart.{Driver, ConStatus}
use embassy_knx.Driver.Run
use embassy_knx.Driver.Run.{frame_waits}
use embassy_knx.Driver.Run.Effects.{frame_waits-confirmed}
use embassy_knx.System.{
  System, Event, init, signal_all, Runs, moved, app_resets, app_enqueues, app_waits, driver_takes,
  driver_sends, signal_reset, frame_queued, frame_taken, frame_sent, confirmed,
}
use embassy_knx.System.Protocol.{Protocol, move, takes}
use embassy_knx.System.Invariant.{Runs-Inv}
use embassy_knx.System.Transmission.{queueing_never_waits}
use embassy_knx.System.Moves.{given, signalled, received}

Protocol-reset :
    {es : List Effect} {o : Option Frame} {fs : List Frame} {v : Option ConStatus}
    → Protocol (con_reset ∷ es) o fs v
    → (o ≡ none) × (fs ≡ [])
Protocol-reset Protocol.resetting = (refl, refl)

module _ (sync : Sync) where
  -- `main` and the channels that it and the received frames use are the same.
  abbrev pub SharesChannels : System sync → System sync → Type 0
  SharesChannels s t =
      (t.answering ≡ s.answering)
      × (t.frame_channel_tx ≡ s.frame_channel_tx)
      × (t.service_channel_rx ≡ s.service_channel_rx)
      × (t.service_channel_tx ≡ s.service_channel_tx)

  module _ (env : Platform) (d : Driver) (n : Node) {es : List Event} {s : System sync}
      (runs : Runs sync env (init sync d n) es s) where
    -- From every reached state in which the data link layer begins to send a frame while the driver
    -- has nothing to hand over, and in which the driver's attempt to transmit that frame ends, the
    -- tasks can carry the transmission through: the signal is reset, the frame is queued, taken and
    -- transmitted, and the layers get the one status that the attempt confirmed, whether it
    -- succeeded or failed, after which they have nothing left to do; `main` and the channels to it
    -- and from it are not touched.
    pub transmission_completes :
        (f : Frame) {d' : Driver}
        → s.node.trace ≡ con_reset ∷ enqueue f ∷ con_wait ∷ []
        → s.driver.passed ≡ []
        → Run.run_step env (frame_waits f) s.driver ≡ (ok tt, d')
        → (status : ConStatus) × (t : System sync) × (d'.confirmed ≡ status ∷ [])
          × (t.node ≡ record s.node { trace = [] })
          × (t.driver ≡ record d' { confirmed = [] })
          × SharesChannels s t
          × Runs sync env
              (init sync d n)
              (confirmed status
                ∷ frame_sent d'.confirmed
                ∷ frame_taken f
                ∷ frame_queued f
                ∷ signal_reset
                ∷ es)
              t
    unfolding signal_all
    transmission_completes f {d' = d'} begins idle ends =
        let (stage, free, unopened, told, bound) = Runs-Inv sync env d n runs in
        let (waits, unused) = Protocol-reset (move stage begins refl refl refl) in
        let (status, one, keeps) = frame_waits-confirmed env f s.driver ends in
        let once : d'.confirmed ≡ status ∷ [] = one ∙ ap (λ cs. cs ++ status ∷ []) told in
        let reset = moved runs (app_resets begins) in
        let (c, puts) =
          given (sync.try_send f s.frame_channel_rx)
            (queueing_never_waits sync env d n reset f refl) in
        let queue : sync.held c ≡ f ∷ [] = sync.send_held puts ∙ ap (λ fs. fs ++ f ∷ []) unused in
        let (c', gets, left_over, kept) = received sync c queue in
        let told_signal : sync.Signal ConStatus =
          signal_all sync d'.confirmed (sync.reset s.con_signal) in
        let (left, takes) =
          signalled sync told_signal
            (rw once (sync.signal_value status (sync.reset s.con_signal))) in
        let sent =
          moved (moved (moved reset (app_enqueues refl puts)) (driver_takes idle waits gets))
            (driver_sends refl ends) in
        (status, _, once, refl, refl, (refl, refl, refl, refl), moved sent (app_waits refl takes))
