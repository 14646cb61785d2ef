-- ===== src/Transport/Actions.antt =====
-- The actions A1 to A10 of a connection (src/transport_layer.rs).
use embassy_knx.Prelude.{ℕ, Option, none, some}
use embassy_knx.Prelude.Word.{add8}
use embassy_knx.Address.Individual.{IndividualAddress}
use embassy_knx.Frame.Dispatch
use embassy_knx.Frame.Dispatch.{Frame}
use embassy_knx.Frame.Writer.{Platform}
use embassy_knx.Node.{
  M, Connection, States, closed, pure, panics, lift, ◌>>=◌, ◌>>◌, get_connection, modify_connection,
  get_now, alloc,
}
use embassy_knx.Transport.Telegrams.{response_frame, data_frame}
use embassy_knx.Network
use embassy_knx.Network.{req_individual}
use embassy_knx.Transport.Types.{TransportServiceInd, connect, disconnect, data_connected}

abbrev pub connection_timeout_sec : ℕ
connection_timeout_sec = 6

-- `Connection::new`
unfoldable pub new : Connection
new = record {
  state = closed;
  seq_no_send = 0;
  seq_no_recv = 0;
  rep_count = 0;
  src_addr = none;
  connection_timeout = none;
  stored_frame = none;
}

unfoldable pub set_state : States → M (Unit {0})
set_state s = modify_connection (λ c. record c { state = s })

stop_timeout : M (Unit {0})
stop_timeout = modify_connection (λ c. record c { connection_timeout = none })

-- `unwrap!`
unwrap : {A : Type 0} → Option A → M A
unwrap none = panics
unwrap (some a) = pure a

unfoldable pub notify_disconect_a5 : Frame → M (Option TransportServiceInd)
unfolding stop_timeout
notify_disconect_a5 frame = do stop_timeout; pure (some (disconnect frame))

module _ (env : Platform) where
  -- `self.connection_timeout = Some(Ticker::every(…))`
  start_timeout : M (Unit {0})
  start_timeout = do
    now ← get_now
    modify_connection
        (λ c. record c { connection_timeout = some (env.every connection_timeout_sec now) })

  unfoldable pub send_response_frame : IndividualAddress → ℕ → ℕ → M (Unit {0})
  send_response_frame dst seq tpci = do
    frame ← alloc (response_frame env dst seq tpci)
    Network.send (req_individual (Dispatch.standard frame))

  unfoldable pub new_connection_a1 : Frame → M (Option TransportServiceInd)
  unfolding start_timeout
  new_connection_a1 frame = do
    modify_connection (λ c. record c { seq_no_recv = 0 })
    modify_connection (λ c. record c { seq_no_send = 0 })
    src ← lift (Dispatch.src_addr env frame)
    modify_connection (λ c. record c { src_addr = some src })
    start_timeout
    pure (some (connect frame))

  unfoldable pub ack_data_a2 : Frame → M (Option TransportServiceInd)
  unfolding start_timeout
  ack_data_a2 frame = do
    src ← lift (Dispatch.src_addr env frame)
    c ← get_connection
    send_response_frame src c.seq_no_recv 0xc2
    start_timeout
    c' ← get_connection
    seq ← lift (add8 env.profile c'.seq_no_recv 1)
    modify_connection (λ c. record c { seq_no_recv = seq })
    pure (some (data_connected frame))

  unfoldable pub ack_a3 : Frame → M (Option TransportServiceInd)
  unfolding start_timeout
  ack_a3 frame = do
    src ← lift (Dispatch.src_addr env frame)
    seq ← lift (Dispatch.tpci_seq env frame)
    send_response_frame src seq 0xc2
    start_timeout
    pure none

  unfoldable pub nak_a4 : Frame → M (Option TransportServiceInd)
  unfolding stop_timeout
  nak_a4 frame = do
    src ← lift (Dispatch.src_addr env frame)
    seq ← lift (Dispatch.tpci_seq env frame)
    send_response_frame src seq 0xc3
    stop_timeout
    pure none

  unfoldable pub disconnect_a6 : Frame → M (Option TransportServiceInd)
  unfolding stop_timeout
  disconnect_a6 frame = do
    src ← lift (Dispatch.src_addr env frame)
    send_response_frame src 0 0x81
    stop_timeout
    pure (some (disconnect frame))

  unfoldable pub send_data_a7 : Frame → M (Unit {0})
  unfolding unwrap start_timeout
  send_data_a7 frame = do
    c ← get_connection
    dst ← unwrap c.src_addr
    frame' ← lift (data_frame env dst c.seq_no_send frame)
    stored ← alloc (λ pool. Dispatch.try_from env pool frame')
    modify_connection (λ c. record c { stored_frame = some stored })
    Network.send (req_individual frame')
    modify_connection (λ c. record c { rep_count = 0 })
    start_timeout

  unfoldable pub confirm_data_a8 : Frame → M (Unit {0})
  unfolding start_timeout
  confirm_data_a8 frame = do
    c ← get_connection
    seq ← lift (add8 env.profile c.seq_no_send 1)
    modify_connection (λ c. record c { seq_no_send = seq })
    start_timeout

  unfoldable pub repeat_data_a9 : M (Unit {0})
  unfolding unwrap start_timeout
  repeat_data_a9 = do
    c ← get_connection
    stored ← unwrap c.stored_frame
    frame ← alloc (λ pool. Dispatch.try_from env pool stored)
    Network.send (req_individual frame)
    reps ← lift (add8 env.profile c.rep_count 1)
    modify_connection (λ c. record c { rep_count = reps })
    start_timeout

  unfoldable pub reject_a10 : Frame → M (Option TransportServiceInd)
  reject_a10 frame = do
    src ← lift (Dispatch.src_addr env frame)
    send_response_frame src 0 0x81
    pure none
