-- ===== src/Application.antt =====
-- The application layer (src/application_layer.rs).
pub mod Response
pub mod Laws
pub mod Reads
pub mod Effects
use embassy_knx.Prelude.{ℕ, zero, suc, Option, none, some, List, [], ◌∷◌, ok, err, panic, pending}
use embassy_knx.Frame.Types.{FrameError, FrameResult, four}
use embassy_knx.Frame.Dispatch
use embassy_knx.Frame.Dispatch.{Frame}
use embassy_knx.Frame.Writer.{Platform}
use embassy_knx.Node.{
  M, pure, panics, fail, lift, ◌>>=◌, ◌>>◌, emit, alloc, ApplicationServiceInd, group_value_read,
  indicate,
}
use embassy_knx.Transport.Layer
use embassy_knx.Transport.Layer.{Wakeup}
use embassy_knx.Transport.Types.{TransportServiceInd, data_group, DataGroupReq, data_group_req}
use Response.{GroupReadResponse, to_transport}

pub data ApplicationServiceRes : Type 0 where
  res_group_value_read : GroupReadResponse → ApplicationServiceRes

-- The channels of `main` with their types of message; each is the only one of its type.
pub data ResponseChannel : Type 0 where
  service_channel_tx : ResponseChannel

pub data IndicationChannel : Type 0 where
  service_channel_rx : IndicationChannel

pub record ApplicationLayer : Type 0 where
  pub transport : Layer.TransportLayer
  pub rx : ResponseChannel
  pub tx : IndicationChannel

abbrev pub new : Layer.TransportLayer → ResponseChannel → IndicationChannel → ApplicationLayer
new transport rx tx = record { transport = transport; rx = rx; tx = tx }

-- What wakes `run`: something for the transport layer, or a response of the application.
pub data Event : Type 0 where
  from_bus : Wakeup → Event
  response : ApplicationServiceRes → Event

-- The APCI of a group telegram: a read is indicated, the rest is only logged.
by_apci : ℕ → M (Unit {0})
by_apci zero = emit (indicate (group_value_read 0) ∷ [])
by_apci (suc _) = pure tt

-- `unwrap!` of the result of `to_transport`.
unfoldable pub unwrap : {A : Type 0} → FrameResult A → FrameResult A
unwrap (ok a) = ok a
unwrap (err e) = panic
unwrap panic = panic
unwrap pending = pending

module _ (env : Platform) where
  -- `receive`; an error is logged.
  unfoldable pub receive : FrameResult TransportServiceInd → M (Unit {0})
  unfolding by_apci
  receive (ok (data_group frame)) = do apci ← lift (Dispatch.apci env four frame); by_apci apci
  receive (ok _) = pure tt
  receive (err e) = pure tt
  receive panic = panics
  receive pending = lift pending

  -- An answer of the application, sent as group data.
  unfoldable pub respond : ApplicationServiceRes → M (Unit {0})
  unfolding unwrap
  respond (res_group_value_read resp) = do
    req ← alloc (λ pool. unwrap (to_transport env resp 0 pool))
    Layer.send env (data_group_req req)

  -- What `receive` of the transport layer gives to `self.receive`; while it is pending, `run`
  -- waits on.
  unfoldable pub on_received : FrameResult TransportServiceInd → M (Unit {0})
  unfolding receive
  on_received pending = pure tt
  on_received (ok ind) = receive (ok ind)
  on_received (err e) = receive (err e)
  on_received panic = panics

  -- One thing that wakes `run`. The loop of the transport layer holds nothing from one round to
  -- the next, so a round is a call of its own.
  unfoldable pub run_step : Event → M (Unit {0})
  unfolding on_received
  run_step (from_bus w) n = let (r, n') = Layer.receive env (w ∷ []) n in on_received r n'
  run_step (response res) n = respond res n

  -- `run`, on all that wakes it; with nothing more to come it stays pending.
  unfoldable pub run : List Event → M (Unit {0})
  run [] = lift pending
  run (e ∷ es) = run_step e >> run es
