-- ===== src/Transport/Machine/DataFrames.antt =====
-- What a data frame does to an open connection, by its sequence number.
use embassy_knx.Prelude.{ℕ, ◌+◌, ◌≤◌, ◌<◌, ◌≡◌, ◌≢◌, arith}
use embassy_knx.Prelude.{Bool, true, Option, none, some, List, ◌∷◌}
use embassy_knx.Prelude.{Bytes, ok, panic}
use embassy_knx.Prelude.Word.{Profile, add8, sub8, dev, release}
use embassy_knx.Address.Individual
use embassy_knx.Address.Individual.{IndividualAddress}
use embassy_knx.Frame.Types.{FrameResult}
use embassy_knx.Frame.Dispatch
use embassy_knx.Frame.Dispatch.{Frame}
use embassy_knx.Frame.Dispatch.Cases.{tpci_seq-Ends}
use embassy_knx.Frame.Writer.{Platform}
use embassy_knx.Node.{Node, open_idle}
use embassy_knx.Transport.Telegrams.Content.{IsResponse}
use embassy_knx.Transport.Actions.{ack_data_a2, ack_a3}
use embassy_knx.Transport.Choice.{event_of, data_event, is_from}
use embassy_knx.Transport.Machine.{handle_ind}
use embassy_knx.Transport.Machine.Invariant.{send_response_frame-connection}
use embassy_knx.Transport.Types.{TransportServiceInd, data_connected}
use embassy_knx.Transport.Machine.Sending.{IsDelivery, send_response_frame-sent, ticker, sent}

-- How a call ends in which an unused subtraction underflows.
abbrev pub after_underflow : Profile → FrameResult (Option TransportServiceInd)
after_underflow dev = panic
after_underflow release = ok none

-- A data frame of the peer of an open connection.
module _ (env : Platform) (frame : Frame) (n : Node) {sender : IndividualAddress} {seq : ℕ}
    (opened : n.connection.state ≡ open_idle) (known : n.connection.src_addr ≡ some sender)
    (from : Dispatch.src_addr env frame ≡ ok sender)
    (numbered : Dispatch.tpci_seq env frame ≡ ok seq) where
  -- A data frame of the peer of an open connection with the expected number, where a block is free
  -- and the peer's address is one of 16 bits: it is acknowledged with that number, passed on and
  -- counted, and the ticker starts again.
  pub next_delivered :
      {later : List Bool}
      → seq ≡ n.connection.seq_no_recv
      → n.pool ≡ true ∷ later
      → sender.raw < 65536
      → (b : Bytes) × IsResponse sender seq 0xc2 b
        × (handle_ind env (data_connected frame) n ≡ (
          ok (some (data_connected frame)),
          record n {
            connection = record (n.connection) {
              seq_no_recv = seq + 1;
              connection_timeout = ticker env n;
            };
            pool = later;
            trace = sent n.trace b;
          },
        ))
  unfolding handle_ind event_of is_from Individual.eq data_event ack_data_a2 add8
  next_delivered expected free fits =
      let (b, response, acked) =
        send_response_frame-sent env sender seq 0xc2 n free fits (omega arith) in
      (b, response, ground (arith, tpci_seq-Ends env frame))

  -- A data frame of the peer of an open connection with the number before the expected one (at most
  -- 8), as after a lost acknowledgement, where a block is free and the peer's address is one of 16
  -- bits: it is acknowledged again with its own number, and neither passed on nor counted; the
  -- ticker starts again.
  pub repeated_acknowledged :
      {later : List Bool}
      → seq + 1 ≡ n.connection.seq_no_recv
      → n.connection.seq_no_recv ≤ 8
      → n.pool ≡ true ∷ later
      → sender.raw < 65536
      → (b : Bytes) × IsResponse sender seq 0xc2 b
        × (handle_ind env (data_connected frame) n ≡ (
          ok none,
          record n {
            connection = record (n.connection) { connection_timeout = ticker env n };
            pool = later;
            trace = sent n.trace b;
          },
        ))
  unfolding handle_ind event_of is_from Individual.eq data_event ack_a3 sub8
  repeated_acknowledged before bounded free fits =
      let (b, response, acked) =
        send_response_frame-sent env sender seq 0xc2 n free fits (omega arith) in
      (b, response, ground arith)

  -- A data frame of the peer of an open connection with neither the expected number nor the one
  -- before it, once something has been received: it is dropped without an answer, and nothing
  -- changes.
  pub gap_dropped :
      seq ≢ n.connection.seq_no_recv
      → seq + 1 ≢ n.connection.seq_no_recv
      → 1 ≤ n.connection.seq_no_recv
      → handle_ind env (data_connected frame) n ≡ (ok none, n)
  unfolding handle_ind event_of is_from Individual.eq data_event sub8
  gap_dropped ne before some_received = ground arith

  -- A data frame of the peer of an open connection that has received nothing yet, with another
  -- number than 0: `seq_no_recv - 1` underflows, so with overflow checks the call panics, and
  -- without them the frame is dropped.
  pub first_gap :
      seq ≢ 0
      → n.connection.seq_no_recv ≡ 0
      → handle_ind env (data_connected frame) n ≡ (after_underflow env.profile, n)
  unfolding handle_ind event_of is_from Individual.eq data_event sub8
  first_gap gap fresh = ground (arith, tpci_seq-Ends env frame)

  -- After eight data frames an open connection is stuck: where the expected number is 8, no data
  -- frame of the peer, whatever its number, is passed on or counted, and the state stays open.
  pub exhausted :
      n.connection.seq_no_recv ≡ 8
      → let run = handle_ind env (data_connected frame) n in
        (run.1.connection.seq_no_recv ≡ 8)
        × (run.1.connection.state ≡ open_idle)
        × ¬ IsDelivery run.0
  unfolding handle_ind event_of is_from Individual.eq data_event ack_a3 sub8
  exhausted full =
      ground (arith, tpci_seq-Ends env frame, send_response_frame-connection env sender seq 0xc2 n)
