-- ===== src/Transport/Machine/Handshake.antt =====
-- How a connection is opened and closed, and that only its peer matters to it.
use embassy_knx.Prelude.{◌<◌, ◌≡◌, ◌≢◌, arith}
use embassy_knx.Prelude.{Bool, true, none, some, List, ◌∷◌}
use embassy_knx.Prelude.{Bytes, ok}
use embassy_knx.Address.Individual
use embassy_knx.Address.Individual.{IndividualAddress}
use embassy_knx.Frame.Dispatch
use embassy_knx.Frame.Dispatch.{Frame}
use embassy_knx.Frame.Writer.{Platform}
use embassy_knx.Node.{Node, closed, open_idle}
use embassy_knx.Transport.Telegrams.Content.{IsResponse}
use embassy_knx.Transport.Actions.{
  new_connection_a1, notify_disconect_a5, disconnect_a6, reject_a10,
}
use embassy_knx.Transport.Choice.{event_of, is_from}
use embassy_knx.Transport.Machine.{handle_ind}
use embassy_knx.Transport.Machine.Invariant.{send_response_frame-connection}
use embassy_knx.Transport.Types.{connect, disconnect}
use embassy_knx.Transport.Machine.Sending.{
  Kind, is_connect, is_disconnect, is_data, is_ack, is_nak, ind_of, IsDelivery,
  send_response_frame-sent, ticker, sent,
}

-- A connection-oriented telegram of any kind from another address than the peer's leaves an open
-- connection as it is, and is passed on to nobody.
pub stranger_ignored :
    (env : Platform) (kind : Kind) (frame : Frame) (n : Node) {peer sender : IndividualAddress}
    → n.connection.state ≡ open_idle
    → n.connection.src_addr ≡ some peer
    → Dispatch.src_addr env frame ≡ ok sender
    → peer.raw ≢ sender.raw
    → let run = handle_ind env (ind_of kind frame) n in
      (run.1.connection ≡ n.connection) × ¬ IsDelivery run.0
unfolding handle_ind event_of is_from Individual.eq reject_a10
stranger_ignored env is_connect frame n {sender = s} opened known from other =
    ground (arith, send_response_frame-connection env s 0 0x81 n)
stranger_ignored env is_disconnect frame n opened known from other = ground arith
stranger_ignored env is_data frame n opened known from other = ground arith
stranger_ignored env is_ack frame n opened known from other = ground arith
stranger_ignored env is_nak frame n opened known from other = ground arith

-- A connect or disconnect of `sender`.
module _ (env : Platform) (frame : Frame) (n : Node) {sender : IndividualAddress}
    (from : Dispatch.src_addr env frame ≡ ok sender) where
  -- A connect opens a closed connection to its sender, whoever was the peer before, with both
  -- numbers at 0 and the ticker running, and is passed on.
  pub connect_opens :
      n.connection.state ≡ closed
      → handle_ind env (connect frame) n ≡ (
        ok (some (connect frame)),
        record n {
          connection = record (n.connection) {
            state = open_idle;
            seq_no_send = 0;
            seq_no_recv = 0;
            src_addr = some sender;
            connection_timeout = ticker env n;
          };
        },
      )
  unfolding handle_ind event_of is_from Individual.eq new_connection_a1
  connect_opens shut = ground arith

  -- A connect of the peer closes an open connection, where a block is free and the peer's address
  -- is one of 16 bits: a disconnect is sent to the peer and passed on, and the ticker stops.
  pub reconnect_closes :
      {later : List Bool}
      → n.connection.state ≡ open_idle
      → n.connection.src_addr ≡ some sender
      → n.pool ≡ true ∷ later
      → sender.raw < 65536
      → (b : Bytes) × IsResponse sender 0 0x81 b
        × (handle_ind env (connect frame) n ≡ (
          ok (some (disconnect frame)),
          record n {
            connection = record (n.connection) { state = closed; connection_timeout = none };
            pool = later;
            trace = sent n.trace b;
          },
        ))
  unfolding handle_ind event_of is_from Individual.eq disconnect_a6
  reconnect_closes opened known free fits =
      let shut : Node = record n { connection = record (n.connection) { state = closed } } in
      let (b, response, told) =
        send_response_frame-sent env sender 0 0x81 shut free fits (omega arith) in
      (b, response, ground arith)

  -- A disconnect of the peer closes an open connection, stops the ticker and is passed on.
  pub disconnect_closes :
      n.connection.state ≡ open_idle
      → n.connection.src_addr ≡ some sender
      → handle_ind env (disconnect frame) n ≡ (
        ok (some (disconnect frame)),
        record n {
          connection = record (n.connection) { state = closed; connection_timeout = none };
        },
      )
  unfolding handle_ind event_of is_from Individual.eq notify_disconect_a5
  disconnect_closes opened known = ground arith
