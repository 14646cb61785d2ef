-- ===== src/System/Protocol.antt =====
-- The confirmed transmission between the application layer's task and the driver's
-- (src/data_link_layer.rs, `send`; src/ncn51_driver.rs, `run`).
use embassy_knx.Prelude.{◌≡◌, inl, inr, Option, none, some, List, [], ◌∷◌, ◌++◌}
use embassy_knx.Frame.Dispatch.{Frame}
use embassy_knx.Node.{Effect, con_reset, enqueue, con_wait, indicate, ApplicationServiceInd}
use embassy_knx.Driver.Uart.{ConStatus}
use embassy_knx.Application.Effects.{IsHearing, IsSending}

-- Where a transmission stands: what the layers have yet to do, the frame that the driver
-- transmits, what waits in the channel to it, and the value of the signal.
pub data Protocol : List Effect → Option Frame → List Frame → Option ConStatus → Type 0 where
  at_rest : Protocol [] none [] none
  indicating : {i : ApplicationServiceInd} → Protocol (indicate i ∷ []) none [] none
  resetting : {f : Frame} → Protocol (con_reset ∷ enqueue f ∷ con_wait ∷ []) none [] none
  queueing : {f : Frame} → Protocol (enqueue f ∷ con_wait ∷ []) none [] none
  queued : {f : Frame} → Protocol (con_wait ∷ []) none (f ∷ []) none
  transmitting : {f : Frame} → Protocol (con_wait ∷ []) (some f) [] none
  reported : {status : ConStatus} → Protocol (con_wait ∷ []) none [] (some status)

-- The same stage of equal parts.
pub move :
    {es es' : List Effect} {o o' : Option Frame} {fs fs' : List Frame} {v v' : Option ConStatus}
    → Protocol es o fs v
    → es ≡ es'
    → o ≡ o'
    → fs ≡ fs'
    → v ≡ v'
    → Protocol es' o' fs' v'
move stage p q r u = rw (← p, ← q, ← r, ← u) stage

pub hears :
    {es : List Effect} {o : Option Frame} {fs : List Frame} {v : Option ConStatus}
    → Protocol [] o fs v
    → IsHearing es
    → Protocol es o fs v
hears at_rest (inl none_left) = rw none_left at_rest
hears at_rest (inr one_left) = rw one_left indicating

pub responds :
    {es : List Effect} {o : Option Frame} {fs : List Frame} {v : Option ConStatus}
    → Protocol [] o fs v
    → IsSending es
    → Protocol es o fs v
responds at_rest (f, sends) = rw sends resetting

pub resets :
    {es : List Effect} {o : Option Frame} {fs : List Frame} {v : Option ConStatus}
    → Protocol (con_reset ∷ es) o fs v
    → Protocol es o fs none
resets resetting = queueing

pub enqueues :
    {f : Frame} {es : List Effect} {o : Option Frame} {fs : List Frame} {v : Option ConStatus}
    → Protocol (enqueue f ∷ es) o fs v
    → Protocol es o (fs ++ f ∷ []) v
enqueues queueing = queued

pub waits :
    {status : ConStatus} {es : List Effect} {o : Option Frame} {fs : List Frame}
    → Protocol (con_wait ∷ es) o fs (some status)
    → Protocol es o fs none
waits reported = at_rest

pub indicates :
    {i : ApplicationServiceInd} {es : List Effect} {o : Option Frame} {fs : List Frame}
    {v : Option ConStatus}
    → Protocol (indicate i ∷ es) o fs v
    → Protocol es o fs v
indicates indicating = at_rest

pub takes :
    {f : Frame} {es : List Effect} {fs : List Frame} {v : Option ConStatus}
    → Protocol es none (f ∷ fs) v
    → Protocol es (some f) fs v
takes queued = transmitting

pub sends :
    {f : Frame} {status : ConStatus} {es : List Effect} {fs : List Frame} {v : Option ConStatus}
    → Protocol es (some f) fs v
    → Protocol es none fs (some status)
sends transmitting = reported
