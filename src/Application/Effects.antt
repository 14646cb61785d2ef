-- ===== src/Application/Effects.antt =====
-- What one event makes the application layer do to its surroundings (src/application_layer.rs).
use embassy_knx.Prelude.{ℕ, zero, suc, ◌≡◌, refl, ◌⊎◌, inl, inr}
use embassy_knx.Prelude.{false, List, [], ◌∷◌, ok, err, panic, pending}
use embassy_knx.Frame.Dispatch
use embassy_knx.Frame.Dispatch.{Frame}
use embassy_knx.Frame.Types.{FrameResult, four}
use embassy_knx.Frame.Writer.{Platform}
use embassy_knx.Node.{
  Node, Effect, con_reset, enqueue, con_wait, indicate, group_value_read, bind_outcome, answer,
  rest_of,
}
use embassy_knx.Network
use embassy_knx.Network.{req_group}
use embassy_knx.Address.Group
use embassy_knx.Application.Response.{to_transport}
use embassy_knx.Transport.Telegrams.{info_frame}
use embassy_knx.Transport.Layer
use embassy_knx.Transport.Layer.{Wakeup}
use embassy_knx.Transport.Types.{TransportServiceInd, DataGroupReq, data_group_req, data_group}
use embassy_knx.Transport.Layer.Quiet.{receive-quiet}
use embassy_knx.Application.{
  from_bus, response, ApplicationServiceRes, res_group_value_read, on_received, receive, by_apci,
  run_step, respond, unwrap,
}

-- A read of a group value is indicated, or nothing is done.
abbrev pub IsHearing : List Effect → Type 0
IsHearing es = (es ≡ []) ⊎ (es ≡ indicate (group_value_read 0) ∷ [])

-- One confirmed transmission.
abbrev pub IsSending : List Effect → Type 0
IsSending es = (f : Frame) × (es ≡ con_reset ∷ enqueue f ∷ con_wait ∷ [])

-- From a node with nothing to do: what it does next, with its connection as it was.
abbrev IsHeard : Node → Node → Type 0
IsHeard n n' = IsHearing n'.trace × (n'.borrowed ≡ n.borrowed) × (n'.connection ≡ n.connection)

abbrev IsAnswered : Node → Node → Type 0
IsAnswered n n' = IsSending n'.trace × (n'.borrowed ≡ n.borrowed) × (n'.connection ≡ n.connection)

by_apci-IsHeard : (apci : ℕ) (n : Node) → n.trace ≡ [] → IsHeard n (by_apci apci n).1
unfolding by_apci
by_apci-IsHeard zero n idle = (inr (rw idle), refl, refl)
by_apci-IsHeard (suc apci) n idle = (inl idle, refl, refl)

on_apci-IsHeard :
    (r : FrameResult ℕ) (n : Node) → n.trace ≡ [] → IsHeard n (bind_outcome r by_apci n).1
on_apci-IsHeard (ok apci) n idle = by_apci-IsHeard apci n idle
on_apci-IsHeard (err e) n idle = (inl idle, refl, refl)
on_apci-IsHeard panic n idle = (inl idle, refl, refl)
on_apci-IsHeard pending n idle = (inl idle, refl, refl)

module _ (env : Platform) where
  receive-IsHeard :
      (ind : TransportServiceInd) (n : Node) → n.trace ≡ [] → IsHeard n (receive env (ok ind) n).1
  unfolding receive by_apci
  receive-IsHeard (data_group frame) n idle = on_apci-IsHeard (Dispatch.apci env four frame) n idle
  receive-IsHeard _ n idle = (inl idle, refl, refl)

  on_received-IsHeard :
      (r : FrameResult TransportServiceInd) (n : Node)
      → n.trace ≡ []
      → IsHeard n (on_received env r n).1
  unfolding on_received receive
  on_received-IsHeard (ok ind) n idle = receive-IsHeard ind n idle
  on_received-IsHeard (err e) n idle = (inl idle, refl, refl)
  on_received-IsHeard panic n idle = (inl idle, refl, refl)
  on_received-IsHeard pending n idle = (inl idle, refl, refl)

  -- An event from the bus makes the layer indicate a read, or do nothing.
  pub from_bus-IsHeard :
      (w : Wakeup) (n : Node)
      → n.trace ≡ []
      → n.borrowed ≡ false
      → IsHeard n (run_step env (from_bus w) n).1
  unfolding run_step
  from_bus-IsHeard w n idle free =
      rw (receive-quiet env (w ∷ []) n free)
        (on_received-IsHeard (Layer.receive env (w ∷ []) n).0 n idle)

  queued-IsAnswered :
      (r : FrameResult Frame) (n : Node) {n' : Node}
      → n.trace ≡ []
      → bind_outcome r (λ frame. Network.send (req_group frame)) n ≡ (ok tt, n')
      → IsAnswered n n'
  unfolding Network.send
  queued-IsAnswered (ok frame) n idle runs = ((frame, cc), cc, cc)
  queued-IsAnswered (err e) n idle runs = cc
  queued-IsAnswered panic n idle runs = cc
  queued-IsAnswered pending n idle runs = cc

  built-IsAnswered :
      (r : FrameResult DataGroupReq) (n : Node) {n' : Node}
      → n.trace ≡ []
      → bind_outcome r (λ req. Layer.send env (data_group_req req)) n ≡ (ok tt, n')
      → IsAnswered n n'
  unfolding Layer.send
  built-IsAnswered (ok req) n idle runs =
      queued-IsAnswered (info_frame env req (Group.from_parts 1 1 98)) n idle runs
  built-IsAnswered (err e) n idle runs = cc
  built-IsAnswered panic n idle runs = cc
  built-IsAnswered pending n idle runs = cc

  -- A response of the application makes it send one frame, unless it panics.
  pub response-IsAnswered :
      (res : ApplicationServiceRes) (n : Node) {n' : Node}
      → n.trace ≡ []
      → run_step env (response res) n ≡ (ok tt, n')
      → IsAnswered n n'
  unfolding run_step respond
  response-IsAnswered (res_group_value_read resp) n idle runs =
      built-IsAnswered (unwrap (to_transport env resp 0 (answer n.pool)))
        (record n { pool = rest_of n.pool }) idle runs
