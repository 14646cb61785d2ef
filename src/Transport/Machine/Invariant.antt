-- ===== src/Transport/Machine/Invariant.antt =====
-- What holds of a connection between two indications.
use embassy_knx.Prelude.{ℕ, ◌≤◌, ◌<◌, ◌≡◌, ◌≢◌, refl, ap, ◌∙◌, arith}
use embassy_knx.Prelude.{true, none, ok, err, panic, pending, is_some}
use embassy_knx.Prelude.Word.{add8, sub8}
use embassy_knx.Address.Individual.{IndividualAddress}
use embassy_knx.Frame.Dispatch.Cases.{src_addr-Ends, tpci_seq-Ends}
use embassy_knx.Frame.Types.{FrameResult}
use embassy_knx.Frame.Dispatch
use embassy_knx.Frame.Dispatch.{Frame}
use embassy_knx.Frame.Writer.{Platform}
use embassy_knx.Node.{Node, Connection, States, closed, open_idle, ◌>>◌, ◌>>=◌, lift}
use embassy_knx.Network
use embassy_knx.Transport.Actions.{
  new, set_state, send_response_frame, new_connection_a1, ack_data_a2, ack_a3, notify_disconect_a5,
  disconnect_a6, reject_a10,
}
use embassy_knx.Transport.Choice.{event_of, data_event, is_from, ack_event, nak_event}
use embassy_knx.Transport.Machine.{dispatch, handle_event, handle_ind}
use embassy_knx.Transport.Types.{
  TransportServiceInd, connect, disconnect, data_connected, ack, nak, Events,
  connect_req_same_address_e00, connect_req_new_address_e01, disconnect_req_same_address_e02,
  disconnect_req_new_address_e03, data_connected_e04, data_connected_e05,
}

-- The state is closed, or it is open with a peer and a running ticker.
abbrev pub IsSettled : States → Connection → Type 0
IsSettled closed c = Unit
IsSettled open_idle c = (is_some c.src_addr ≡ true) × (is_some c.connection_timeout ≡ true)
IsSettled _ c = ⊥

pub record Inv (c : Connection) : Type 0 where
  pub settled : IsSettled c.state c
  pub seq_bounded : c.seq_no_recv ≤ 8
  pub none_sent : c.seq_no_send ≡ 0
  pub none_repeated : c.rep_count ≡ 0
  pub none_stored : c.stored_frame ≡ none

-- A response changes nothing of the connection.
pub send_response_frame-connection :
    (env : Platform) (dst : IndividualAddress) (seq tpci : ℕ) (n : Node)
    → (send_response_frame env dst seq tpci n).1.connection ≡ n.connection
unfolding send_response_frame Network.send
send_response_frame-connection env dst seq tpci n = ground arith

-- A data frame is the next one only with the expected sequence number, which three bits hold.
pub event_of-e04 :
    (env : Platform) (c : Connection) (ind : TransportServiceInd) {frame : Frame}
    → event_of env c ind ≡ ok (data_connected_e04, frame)
    → (Dispatch.tpci_seq env frame ≡ ok c.seq_no_recv) × (c.seq_no_recv < 8)
unfolding event_of data_event is_from sub8 ack_event nak_event
event_of-e04 env c (connect f) h = grind (arith, src_addr-Ends)
event_of-e04 env c (disconnect f) h = ground arith
event_of-e04 env c (data_connected f) h = ground (arith, tpci_seq-Ends env f)
event_of-e04 env c (ack f) h = ground arith
event_of-e04 env c (nak f) h = ground arith
event_of-e04 env c _ h = cc

module _ (env : Platform) (frame : Frame) (n : Node) (inv : Inv n.connection) where
  connect-Inv :
      let run = (set_state open_idle >> new_connection_a1 env frame) n in
      run.0 ≢ panic → Inv run.1.connection
  unfolding set_state new_connection_a1
  connect-Inv h = ground (arith, src_addr-Ends env frame)

  ack_data_a2-Inv : n.connection.seq_no_recv < 8 → Inv (ack_data_a2 env frame n).1.connection
  unfolding ack_data_a2 add8
  ack_data_a2-Inv h = grind (arith, send_response_frame-connection)

  ack_a3-Inv : Inv (ack_a3 env frame n).1.connection
  unfolding ack_a3
  ack_a3-Inv = grind (arith, send_response_frame-connection)

  disconnect_a6-Inv : Inv ((set_state closed >> disconnect_a6 env frame) n).1.connection
  unfolding set_state disconnect_a6
  disconnect_a6-Inv = grind (arith, send_response_frame-connection)

  reject_a10-Inv : Inv (reject_a10 env frame n).1.connection
  unfolding reject_a10
  reject_a10-Inv = grind (arith, send_response_frame-connection)

  notify_disconect_a5-Inv : Inv ((set_state closed >> notify_disconect_a5 frame) n).1.connection
  unfolding set_state notify_disconect_a5
  notify_disconect_a5-Inv = ground arith

  dispatch-Inv :
      (e : Events) (s : States)
      → (e ≡ data_connected_e04 → n.connection.seq_no_recv < 8)
      → (dispatch env e s frame n).0 ≢ panic
      → Inv (dispatch env e s frame n).1.connection
  unfolding dispatch
  dispatch-Inv connect_req_same_address_e00 closed small ends = connect-Inv ends
  dispatch-Inv connect_req_same_address_e00 _ small ends = disconnect_a6-Inv
  dispatch-Inv connect_req_new_address_e01 closed small ends = connect-Inv ends
  dispatch-Inv connect_req_new_address_e01 _ small ends = reject_a10-Inv
  dispatch-Inv disconnect_req_same_address_e02 closed small ends = inv
  dispatch-Inv disconnect_req_same_address_e02 _ small ends = notify_disconect_a5-Inv
  dispatch-Inv disconnect_req_new_address_e03 _ small ends = inv
  dispatch-Inv data_connected_e04 closed small ends = reject_a10-Inv
  dispatch-Inv data_connected_e04 _ small ends = ack_data_a2-Inv (small refl)
  dispatch-Inv data_connected_e05 closed small ends = reject_a10-Inv
  dispatch-Inv data_connected_e05 _ small ends = ack_a3-Inv
  dispatch-Inv _ _ small ends = inv

-- The invariant of a connection: it is closed or open, an open one has a peer and a running
-- ticker, the next sequence number is at most 8, and nothing was ever sent or stored by it. Every
-- indication keeps it, on every path that does not panic, a failed allocation included.
pub handle_ind-Inv :
    (env : Platform) (ind : TransportServiceInd) (n : Node)
    → Inv n.connection
    → (handle_ind env ind n).0 ≢ panic
    → Inv (handle_ind env ind n).1.connection
unfolding handle_ind
handle_ind-Inv env ind n inv ends = after_choice (event_of env n.connection ind) refl ends
  where
    after_choice :
        (chosen : FrameResult (Events × Frame))
        → event_of env n.connection ind ≡ chosen
        → (◌>>=◌ (lift chosen) (λ c. handle_event env c.0 c.1) n).0 ≢ panic
        → Inv (◌>>=◌ (lift chosen) (λ c. handle_event env c.0 c.1) n).1.connection
    after_choice (ok (e, f)) same h =
        dispatch-Inv env f n inv e n.connection.state
          (λ is_e04. (event_of-e04 env n.connection ind (same ∙ ap (λ e. ok (e, f)) is_e04)).1) h
    after_choice (err x) same h = inv
    after_choice panic same h = inv
    after_choice pending same h = inv

-- A new connection satisfies it.
pub new-Inv : Inv new
unfolding new
new-Inv = ground arith
