-- ===== src/System/Progress.antt =====
-- That the layers and `main` go on: what they may wait for (src/main.rs, src/application_layer.rs,
-- src/data_link_layer.rs).
use embassy_knx.Prelude.{
  ◌≤◌, ◌≡◌, ◌⊎◌, inl, inr, refl, ap, ◌∙◌, arith, length, Option-cases, Option, none, some, List, [],
  ◌∷◌,
}
use embassy_knx.Frame.Dispatch.{Frame}
use embassy_knx.Frame.Writer.{Platform}
use embassy_knx.Sync.{Sync}
use embassy_knx.Node.{Node, Effect, con_reset, enqueue, con_wait, indicate, ApplicationServiceInd}
use embassy_knx.Driver.Uart.{Driver, ConStatus}
use embassy_knx.Application.{ApplicationServiceRes}
use embassy_knx.System.{
  System, Event, init, service_size, Step, Runs, driver_reads, driver_passes, driver_takes,
  driver_sends, app_hears, app_ticks, clock, app_responds, app_resets, app_enqueues, app_waits,
  app_indicates, main_hears, main_answers, unmoved, moved, signal_reset, frame_queued, confirmed,
  indicated, indication_taken, response_given,
}
use embassy_knx.System.Protocol.{Protocol}
use embassy_knx.System.Moves.{given, signalled, received, refused}
use embassy_knx.System.Invariant.{Runs-Inv}
use embassy_knx.System.Transmission.{queueing_never_waits}
use embassy_knx.System.Deadlock.{IsDeadlock}

-- What the layers do next, and where a frame is that they wait for.
data Next (es : List Effect) (o : Option Frame) (fs : List Frame) (v : Option ConStatus)
    : Type 0 where
  rests : es ≡ [] → Next es o fs v
  indicates : (i : ApplicationServiceInd) → es ≡ indicate i ∷ [] → Next es o fs v
  resets : (todo : List Effect) → es ≡ con_reset ∷ todo → Next es o fs v
  queues : (f : Frame) (todo : List Effect) → es ≡ enqueue f ∷ todo → Next es o fs v
  waits_in_channel : (f : Frame) → es ≡ con_wait ∷ [] → o ≡ none → fs ≡ f ∷ [] → Next es o fs v
  waits_in_driver : (f : Frame) → es ≡ con_wait ∷ [] → o ≡ some f → Next es o fs v
  is_told :
      (status : ConStatus) (todo : List Effect)
      → es ≡ con_wait ∷ todo
      → v ≡ some status
      → Next es o fs v

Protocol-Next :
    {es : List Effect} {o : Option Frame} {fs : List Frame} {v : Option ConStatus}
    → Protocol es o fs v
    → Next es o fs v
Protocol-Next Protocol.at_rest = rests refl
Protocol-Next Protocol.indicating = indicates _ refl
Protocol-Next Protocol.resetting = resets _ refl
Protocol-Next Protocol.queueing = queues _ _ refl
Protocol-Next Protocol.queued = waits_in_channel _ refl refl refl
Protocol-Next Protocol.transmitting = waits_in_driver _ refl refl
Protocol-Next Protocol.reported = is_told _ _ refl refl

-- An event of the layers or of `main`.
abbrev pub IsOwn : Event → Type 0
IsOwn signal_reset = Unit
IsOwn (frame_queued f) = Unit
IsOwn (confirmed status) = Unit
IsOwn (indicated i) = Unit
IsOwn (indication_taken i) = Unit
IsOwn (response_given res) = Unit
IsOwn _ = ⊥

module _ (sync : Sync) (env : Platform) where
  Step-capacity :
      {e : Event} {s t : System sync}
      → Step sync env s e t
      → sync.capacity t.service_channel_rx ≡ sync.capacity s.service_channel_rx
  Step-capacity (driver_reads empty listens runs) = refl
  Step-capacity (driver_passes ready puts) = refl
  Step-capacity (driver_takes empty listens gets) = refl
  Step-capacity (driver_sends busy runs) = refl
  Step-capacity (app_hears idle gets runs) = refl
  Step-capacity (app_ticks idle runs) = refl
  Step-capacity (clock now) = refl
  Step-capacity (app_responds idle quiet gets runs) = refl
  Step-capacity (app_resets todo) = refl
  Step-capacity (app_enqueues todo puts) = refl
  Step-capacity (app_waits todo gets) = refl
  Step-capacity (app_indicates todo puts) = sync.send_capacity puts
  Step-capacity (main_hears awaits gets) = sync.receive_capacity gets
  Step-capacity (main_answers ready puts) = refl

  -- The layers or `main` can make a step.
  abbrev pub CanMove : System sync → Type 0
  CanMove s = (e : Event) × IsOwn e × (t : System sync) × Step sync env s e t

  -- The layers wait for the confirmation of a frame that the driver has or can take.
  abbrev pub AwaitsDriver : System sync → Type 0
  AwaitsDriver s =
      (s.node.trace ≡ con_wait ∷ [])
      × ((f : Frame) × ((s.sending ≡ some f)
            ⊎ ((s.sending ≡ none) × (sync.held s.frame_channel_rx ≡ f ∷ []))))

  module _ (d : Driver) (n : Node) where
    Runs-capacity :
        {es : List Event} {s : System sync}
        → Runs sync env (init sync d n) es s
        → sync.capacity s.service_channel_rx ≡ service_size
    unfolding init
    Runs-capacity unmoved = sync.new_capacity service_size
    Runs-capacity (moved before step) = Step-capacity step ∙ Runs-capacity before

    module _ {es : List Event} {s : System sync} (runs : Runs sync env (init sync d n) es s) where
      -- An indication for a full channel waits for `main`, which goes on or waits for the layers.
      full_channel :
          (i : ApplicationServiceInd)
          → s.node.trace ≡ indicate i ∷ []
          → sync.capacity s.service_channel_rx ≤ length (sync.held s.service_channel_rx)
          → CanMove s ⊎ IsDeadlock sync s
      full_channel i next full = by_answer s.answering refl (sync.held s.service_channel_rx) refl
        where
          by_answer :
              (answer : Option ApplicationServiceRes)
              → s.answering ≡ answer
              → (held : List ApplicationServiceInd) → sync.held s.service_channel_rx ≡ held
              → CanMove s ⊎ IsDeadlock sync s
          by_answer none idle [] empty =
              absurd (omega (arith, full, Runs-capacity runs, ap length empty))
          by_answer none idle (x ∷ xs) waits =
              let (c, gets, others, size) = received sync s.service_channel_rx waits in
              inl (_, tt, _, main_hears idle gets)
          by_answer (some res) ready held same =
              elim (Option-cases (sync.try_send res s.service_channel_tx)) [
                | inl no_room ↦ inr (
                  (i, [], next),
                  (res, ready),
                  full,
                  refused sync res s.service_channel_tx no_room,
                )
                | inr (c, puts) ↦ inl (_, tt, _, main_answers ready puts)
              ]

      blocked :
          CanMove s ⊎ IsDeadlock sync s
          → (s.node.trace ≡ []) ⊎ CanMove s ⊎ AwaitsDriver s ⊎ IsDeadlock sync s
      blocked (inl goes) = inr (inl goes)
      blocked (inr stuck) = inr (inr (inr stuck))

      decided :
          Next s.node.trace s.sending (sync.held s.frame_channel_rx) (sync.value s.con_signal)
          → (s.node.trace ≡ []) ⊎ CanMove s ⊎ AwaitsDriver s ⊎ IsDeadlock sync s
      decided (rests idle) = inl idle
      decided (indicates i next) = elim (Option-cases (sync.try_send i s.service_channel_rx)) [
        | inl no_room ↦ blocked (full_channel i next (refused sync i s.service_channel_rx no_room))
        | inr (c, puts) ↦ inr (inl (_, tt, _, app_indicates next puts))
      ]
      decided (resets todo next) = inr (inl (_, tt, _, app_resets next))
      decided (queues f todo next) =
          let (c, puts) =
            given (sync.try_send f s.frame_channel_rx)
              (queueing_never_waits sync env d n runs f next) in
          inr (inl (_, tt, _, app_enqueues next puts))
      decided (waits_in_channel f next idle queued) =
          inr (inr (inl (next, (f, inr (idle, queued)))))
      decided (waits_in_driver f next busy) = inr (inr (inl (next, (f, inl busy))))
      decided (is_told status todo next told) =
          let (c, takes) = signalled sync s.con_signal told in
          inr (inl (_, tt, _, app_waits next takes))

      -- In every state that the tasks reach, whatever came on the line, one of these holds: the
      -- layers wait for the next event; they or `main` can make a step; they wait for the
      -- confirmation of one frame, which the driver transmits or finds in its channel; or the
      -- layers and `main` wait for each other, with both service channels full. There is no other
      -- way for the two tasks to wait.
      pub waits_or_goes : (s.node.trace ≡ []) ⊎ CanMove s ⊎ AwaitsDriver s ⊎ IsDeadlock sync s
      waits_or_goes = decided (Protocol-Next (Runs-Inv sync env d n runs).0)
