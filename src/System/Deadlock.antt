-- ===== src/System/Deadlock.antt =====
-- Where the loop of `main` and the task of the application layer wait for each other (src/main.rs,
-- src/application_layer.rs).
use embassy_knx.Prelude.{◌≤◌, ◌≡◌, refl, length, some, List, [], ◌∷◌}
use embassy_knx.Frame.Writer.{Platform}
use embassy_knx.Sync.{Sync}
use embassy_knx.Node.{Effect, indicate, ApplicationServiceInd}
use embassy_knx.Application.{ApplicationServiceRes}
use embassy_knx.System.{
  System, Event, Step, Runs, driver_reads, driver_passes, driver_takes, driver_sends, app_hears,
  app_ticks, clock, app_responds, app_resets, app_enqueues, app_waits, app_indicates, main_hears,
  main_answers, unmoved, moved,
}
use embassy_knx.System.Order.{frames_heard, frames_queued, indications, responses}

module _ (sync : Sync) where
  -- The application layer has an indication for the one channel and `main` a response for the
  -- other, and both channels are full.
  abbrev pub IsDeadlock : System sync → Type 0
  IsDeadlock s =
      ((ind : ApplicationServiceInd) × (todo : List Effect) × (s.node.trace ≡ indicate ind ∷ todo))
      × ((res : ApplicationServiceRes) × (s.answering ≡ some res))
      × (sync.capacity s.service_channel_rx ≤ length (sync.held s.service_channel_rx))
      × (sync.capacity s.service_channel_tx ≤ length (sync.held s.service_channel_tx))

  -- Nothing of the layers or of `main` happens.
  abbrev pub IsSilent : List Event → Type 0
  IsSilent es =
      (frames_heard es ≡ []) × (frames_queued es ≡ []) × (indications es ≡ []) × (responses es ≡ [])

  module _ (env : Platform) where
    Step-IsDeadlock :
        {e : Event} (es : List Event) {s t : System sync}
        → Step sync env s e t
        → IsDeadlock s
        → IsSilent es
        → IsDeadlock t × IsSilent (e ∷ es)
    Step-IsDeadlock es (driver_reads empty listens runs) stuck quiet = (stuck, quiet)
    Step-IsDeadlock es (driver_passes ready puts) stuck quiet = (stuck, quiet)
    Step-IsDeadlock es (driver_takes empty listens gets) stuck quiet = (stuck, quiet)
    Step-IsDeadlock es (driver_sends busy runs) stuck quiet = (stuck, quiet)
    Step-IsDeadlock es (app_hears idle gets runs) ((ind, todo, next), _, _, _) quiet = cc
    Step-IsDeadlock es (app_ticks idle runs) ((ind, todo, next), _, _, _) quiet = cc
    Step-IsDeadlock es (clock now) stuck quiet = (stuck, quiet)
    Step-IsDeadlock es (app_responds idle empty gets runs) ((ind, todo, next), _, _, _) quiet = cc
    Step-IsDeadlock es (app_resets left) ((ind, todo, next), _, _, _) quiet = cc
    Step-IsDeadlock es (app_enqueues left puts) ((ind, todo, next), _, _, _) quiet = cc
    Step-IsDeadlock es (app_waits left gets) ((ind, todo, next), _, _, _) quiet = cc
    Step-IsDeadlock es {s = s} (app_indicates {i = i} left puts) (_, _, rx_full, _) quiet =
        absurd (cc (sync.send_full i s.service_channel_rx rx_full, puts))
    Step-IsDeadlock es (main_hears awaits gets) (_, (res, ready), _, _) quiet = cc
    Step-IsDeadlock es {s = s} (main_answers {res = res} ready puts) (_, _, _, tx_full) quiet =
        absurd (cc (sync.send_full res s.service_channel_tx tx_full, puts))

    -- Where the application layer waits for room to indicate, `main` waits for room to answer, and
    -- both channels are full, the two wait for ever: whatever follows on the line, and in whatever
    -- order the tasks run, no telegram is heard, nothing is indicated, no response is taken and no
    -- frame is queued again.
    pub stuck_for_good :
        (first : System sync) {es : List Event} {s : System sync}
        → IsDeadlock first
        → Runs sync env first es s
        → IsDeadlock s × IsSilent es
    stuck_for_good first stuck unmoved = (stuck, (refl, refl, refl, refl))
    stuck_for_good first stuck (moved {es = es} before step) =
        let (still, quiet) = stuck_for_good first stuck before in
        Step-IsDeadlock es step still quiet
