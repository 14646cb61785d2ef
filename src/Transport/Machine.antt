-- ===== src/Transport/Machine.antt =====
-- What an event does in each state of a connection (src/transport_layer.rs, `handle_event`).
pub mod Invariant
pub mod Delivery
pub mod Sending
pub mod DataFrames
pub mod Handshake
pub mod Repeats
pub mod Numbers
pub mod Spec
pub mod Blocks
pub mod Refine
use embassy_knx.Prelude.{Option, none}
use embassy_knx.Frame.Dispatch.{Frame}
use embassy_knx.Frame.Writer.{Platform}
use embassy_knx.Node.{M, States, closed, open_idle, pure, lift, ◌>>=◌, ◌>>◌, get_connection}
use embassy_knx.Transport.Actions.{
  set_state, new_connection_a1, ack_data_a2, ack_a3, notify_disconect_a5, disconnect_a6, reject_a10,
}
use embassy_knx.Transport.Choice.{event_of}
use embassy_knx.Transport.Types.{
  TransportServiceInd, Events, connect_req_same_address_e00, connect_req_new_address_e01,
  disconnect_req_same_address_e02, disconnect_req_new_address_e03, data_connected_e04,
  data_connected_e05,
}

module _ (env : Platform) where
  -- The `match` of `handle_event` on the event and the state.
  dispatch : Events → States → Frame → M (Option TransportServiceInd)
  unfolding set_state
  dispatch connect_req_same_address_e00 closed frame =
      set_state open_idle >> new_connection_a1 env frame
  dispatch connect_req_same_address_e00 _ frame = set_state closed >> disconnect_a6 env frame
  dispatch connect_req_new_address_e01 closed frame =
      set_state open_idle >> new_connection_a1 env frame
  dispatch connect_req_new_address_e01 _ frame = reject_a10 env frame
  dispatch disconnect_req_same_address_e02 closed frame = pure none
  dispatch disconnect_req_same_address_e02 _ frame = set_state closed >> notify_disconect_a5 frame
  dispatch disconnect_req_new_address_e03 _ frame = pure none
  dispatch data_connected_e04 closed frame = reject_a10 env frame
  dispatch data_connected_e04 _ frame = ack_data_a2 env frame
  dispatch data_connected_e05 closed frame = reject_a10 env frame
  dispatch data_connected_e05 _ frame = ack_a3 env frame
  dispatch _ _ frame = pure none

  unfoldable pub handle_event : Events → Frame → M (Option TransportServiceInd)
  unfolding dispatch
  handle_event event frame = do c ← get_connection; dispatch event c.state frame

  unfoldable pub handle_ind : TransportServiceInd → M (Option TransportServiceInd)
  unfolding handle_event
  handle_ind ind = do
    c ← get_connection
    chosen ← lift (event_of env c ind)
    handle_event chosen.0 chosen.1

-- `connection_timeout`, which does nothing yet.
unfoldable pub connection_timeout : M (Option TransportServiceInd)
connection_timeout = pure none
