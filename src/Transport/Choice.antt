-- ===== src/Transport/Choice.antt =====
-- The event that an indication is (src/transport_layer.rs, `handle_ind`).
use embassy_knx.Prelude.{ℕ, Bool, true, false, Option, none, some, if◌then◌else◌, ◌==◌, ltb}
use embassy_knx.Prelude.{ok, panic, ◌>>=◌}
use embassy_knx.Prelude.Word.{sub8}
use embassy_knx.Address.Individual
use embassy_knx.Address.Individual.{IndividualAddress}
use embassy_knx.Frame.Types.{FrameResult}
use embassy_knx.Frame.Dispatch
use embassy_knx.Frame.Dispatch.{Frame}
use embassy_knx.Frame.Writer.{Platform}
use embassy_knx.Node.{Connection}
use embassy_knx.Transport.Types.{
  TransportServiceInd, connect, disconnect, data_connected, ack, nak, Events,
  connect_req_same_address_e00, connect_req_new_address_e01, disconnect_req_same_address_e02,
  disconnect_req_new_address_e03, data_connected_e04, data_connected_e05, data_connected_e06,
  data_connected_new_address_e07, ack_e08, ack_e09, ack_new_address_e10, nak_e11, nak_e12, nak_e13,
  nak_new_address_e14,
}

abbrev pub max_rep_count : ℕ
max_rep_count = 3

module _ (env : Platform) where
  -- `Some(addr) if addr == &frame.src_addr()`
  unfoldable pub is_from : Option IndividualAddress → Frame → FrameResult Bool
  is_from none frame = ok false
  is_from (some a) frame = do s ← Dispatch.src_addr env frame; ok (Individual.eq a s)

  -- The guards of a data frame of the connection, in their order.
  unfoldable pub data_event : Connection → ℕ → FrameResult Events
  data_event c seq =
      if seq == c.seq_no_recv
      then ok data_connected_e04
      else (sub8 env.profile c.seq_no_recv 1 >>= λ last.
          ok (if seq == last then data_connected_e05 else data_connected_e06))

  unfoldable pub ack_event : Connection → ℕ → Events
  ack_event c seq = if seq == c.seq_no_send then ack_e08 else ack_e09

  unfoldable pub nak_event : Connection → ℕ → Events
  nak_event c seq =
      if seq == c.seq_no_send
      then (if ltb c.rep_count max_rep_count then nak_e12 else nak_e13)
      else nak_e11

  -- An event of a frame from the connected address, and else one that needs no more of it.
  unfoldable pub seq_event : (ℕ → FrameResult Events) → Events → Bool → Frame → FrameResult Events
  seq_event same other true frame = do seq ← Dispatch.tpci_seq env frame; same seq
  seq_event same other false frame = ok other

  -- The `match` of `handle_ind`; any other indication panics.
  unfoldable pub event_of : Connection → TransportServiceInd → FrameResult (Events × Frame)
  unfolding seq_event
  event_of c (connect frame) = do
    same ← is_from c.src_addr frame
    ok (if same then connect_req_same_address_e00 else connect_req_new_address_e01, frame)
  event_of c (disconnect frame) = do
    same ← is_from c.src_addr frame
    ok (if same then disconnect_req_same_address_e02 else disconnect_req_new_address_e03, frame)
  event_of c (data_connected frame) = do
    same ← is_from c.src_addr frame
    event ← seq_event (data_event c) data_connected_new_address_e07 same frame
    ok (event, frame)
  event_of c (ack frame) = do
    same ← is_from c.src_addr frame
    event ← seq_event (λ seq. ok (ack_event c seq)) ack_new_address_e10 same frame
    ok (event, frame)
  event_of c (nak frame) = do
    same ← is_from c.src_addr frame
    event ← seq_event (λ seq. ok (nak_event c seq)) nak_new_address_e14 same frame
    ok (event, frame)
  event_of c _ = panic
