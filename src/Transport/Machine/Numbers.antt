-- ===== src/Transport/Machine/Numbers.antt =====
-- What a connection sends one after the other (src/transport_layer.rs, `send_data_a7`,
-- `confirm_data_a8`, `nak_a4`).
use embassy_knx.Prelude.{ℕ, ◌+◌, ◌<◌, ◌≡◌, arith, Bool, true, none, some, List, ◌∷◌, Bytes, ok}
use embassy_knx.Prelude.Word.{add8}
use embassy_knx.Address.Individual.{IndividualAddress}
use embassy_knx.Frame.Types.{FrameError}
use embassy_knx.Frame.Dispatch
use embassy_knx.Frame.Dispatch.{Frame, standard}
use embassy_knx.Frame.Writer.{Platform}
use embassy_knx.Frame.Standard.Build.{IsWellFormed, try_from_lem}
use embassy_knx.Network
use embassy_knx.Node.{Node, ◌>>◌}
use embassy_knx.Transport.Actions.{send_data_a7, confirm_data_a8, nak_a4}
use embassy_knx.Transport.Telegrams.Content.{IsResponse}
use embassy_knx.Transport.Machine.Sending.{sent, ticker, send_response_frame-sent}
use embassy_knx.Transport.Machine.Repeats.{IsDataFor, IsUnaddressed, data_frame-IsDataFor}

-- Two frames sent by A7, with A8 for the acknowledgement of the first between them, where two blocks
-- are free, the peer's address is one of 16 bits, the next number is below 255, and the given
-- frames are well formed, marked for no group, and have no TPCI yet: both are sent and confirmed as
-- well-formed telegrams of numbered data from this device to the peer with the data that was given,
-- the first with the next number and the second with the one after it, both modulo 8. The second
-- is kept to be sent again.
pub numbered_in_turn :
    (env : Platform) (b c : Bytes) (acknowledged : Frame) (n : Node) {peer : IndividualAddress}
    {blocks : List Bool}
    → IsWellFormed b
    → IsWellFormed c
    → IsUnaddressed b
    → IsUnaddressed c
    → n.connection.src_addr ≡ some peer
    → peer.raw < 65536
    → n.connection.seq_no_send < 255
    → n.pool ≡ true ∷ true ∷ blocks
    → (f g : Bytes) × IsDataFor peer n.connection.seq_no_send b f
      × IsDataFor peer (n.connection.seq_no_send + 1) c g
      × ((send_data_a7 env (standard b)
              >> confirm_data_a8 env acknowledged
              >> send_data_a7 env (standard c))
            n
          ≡ (
            ok tt,
            record n {
              connection = record (n.connection) {
                seq_no_send = n.connection.seq_no_send + 1;
                stored_frame = some (standard g);
                rep_count = 0;
                connection_timeout = ticker env n;
              };
              pool = blocks;
              trace = sent (sent n.trace f) g;
            },
          ))
unfolding send_data_a7 confirm_data_a8 Network.send Dispatch.try_from add8
numbered_in_turn env b c acknowledged n {peer = peer} start start' blank blank' known fits small
      free =
    let k : ℕ = n.connection.seq_no_send in
    let (f, made, carried) = data_frame-IsDataFor env peer k b start blank fits in
    let (g, made', carried') = data_frame-IsDataFor env peer (k + 1) c start' blank' fits in
    let no_overflow : add8 {E = FrameError} env.profile k 1 ≡ ok (k + 1) = ground arith in
    (
      f,
      g,
      carried,
      carried',
      ground (
        arith,
        no_overflow,
        try_from_lem env f carried.well_formed,
        try_from_lem env g carried'.well_formed,
      ),
    )

-- Data that is refused by A4, where a block is free and the sender's address is one of 16 bits, is
-- answered to its sender with a well-formed NAK that has the number of the data; the ticker stops,
-- and the rest of the connection is as it was, so that the same data is still expected.
pub refused_by_nak :
    (env : Platform) (frame : Frame) (n : Node) {sender : IndividualAddress} {seq : ℕ}
    {blocks : List Bool}
    → Dispatch.src_addr env frame ≡ ok sender
    → Dispatch.tpci_seq env frame ≡ ok seq
    → sender.raw < 65536
    → n.pool ≡ true ∷ blocks
    → (b : Bytes) × IsResponse sender seq 0xc3 b
      × (nak_a4 env frame n ≡ (
        ok none,
        record n {
          connection = record (n.connection) { connection_timeout = none };
          pool = blocks;
          trace = sent n.trace b;
        },
      ))
unfolding nak_a4
refused_by_nak env frame n {sender = sender} {seq = seq} from numbered fits free =
    let (b, response, sends) =
      send_response_frame-sent env sender seq 0xc3 n free fits (omega arith) in
    (b, response, ground arith)
