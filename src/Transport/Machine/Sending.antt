-- ===== src/Transport/Machine/Sending.antt =====
-- What a response does to the state that the layers share, and words for what an indication does.
use embassy_knx.Prelude.{ℕ, ◌<◌, ◌≡◌, arith}
use embassy_knx.Prelude.{Bool, true, Option, some, List, [], ◌∷◌, ◌++◌}
use embassy_knx.Prelude.{Bytes, ok}
use embassy_knx.Address.Individual.{IndividualAddress}
use embassy_knx.Frame.Types.{FrameResult}
use embassy_knx.Frame.Dispatch
use embassy_knx.Frame.Dispatch.{Frame}
use embassy_knx.Frame.Writer.{Platform}
use embassy_knx.Node.{Node, Effect, con_reset, enqueue, con_wait}
use embassy_knx.Network
use embassy_knx.Transport.Telegrams.Content.{IsResponse, response_frame-IsResponse}
use embassy_knx.Transport.Actions.{connection_timeout_sec, send_response_frame}
use embassy_knx.Transport.Types.{TransportServiceInd, connect, disconnect, data_connected, ack, nak}

-- The five kinds of connection-oriented telegram.
pub data Kind : Type 0 where
  is_connect is_disconnect is_data is_ack is_nak : Kind

abbrev pub ind_of : Kind → Frame → TransportServiceInd
ind_of is_connect = connect
ind_of is_disconnect = disconnect
ind_of is_data = data_connected
ind_of is_ack = ack
ind_of is_nak = nak

abbrev pub IsDelivery : FrameResult (Option TransportServiceInd) → Type 0
IsDelivery (ok (some _)) = Unit
IsDelivery _ = ⊥

-- What the calls of `send_response_frame` do with a free block: a well-formed response goes through
-- the confirmed transmission, and nothing else changes but the pool.
pub send_response_frame-sent :
    (env : Platform) (dst : IndividualAddress) (seq tpci : ℕ) (n : Node) {later : List Bool}
    → n.pool ≡ true ∷ later
    → dst.raw < 65536
    → tpci < 256
    → (b : Bytes) × IsResponse dst seq tpci b
      × (send_response_frame env dst seq tpci n ≡ (
        ok tt,
        record n {
          pool = later;
          trace = n.trace ++ con_reset ∷ enqueue (Dispatch.standard b) ∷ con_wait ∷ [];
        },
      ))
unfolding send_response_frame Network.send
send_response_frame-sent env dst seq tpci n free hd ht =
    let (b, made, response) = response_frame-IsResponse env dst seq tpci hd ht in
    (b, response, ground arith)

-- The ticker that an action starts.
abbrev pub ticker : Platform → Node → Option ℕ
ticker env n = some (env.every connection_timeout_sec n.now)

-- The telegram in `b` was sent and confirmed.
abbrev pub sent : List Effect → Bytes → List Effect
sent before b = before ++ con_reset ∷ enqueue (Dispatch.standard b) ∷ con_wait ∷ []
