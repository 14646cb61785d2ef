-- ===== src/Examples/Connections.antt =====
-- The theorems on a connection at concrete states (src/transport_layer.rs).
use embassy_knx.Transport.Machine.Refine.{handle_ind-refines}
use embassy_knx.Transport.Machine.Refine.Steps.{IsStep}
use embassy_knx.Transport.Machine.Repeats.{IsDataFor, repeated_as_sent}
use embassy_knx.Transport.Actions.{send_data_a7, repeat_data_a9}
use embassy_knx.Node.{◌>>◌}
use embassy_knx.Prelude.{ℕ, ◌+◌, ◌≤◌, ◌≡◌, ◌≢◌, refl, arith, Bytes, [], ◌∷◌, some, ok, panic}
use embassy_knx.Address.Individual
use embassy_knx.Address.Individual.{IndividualAddress}
use embassy_knx.Frame.Reader
use embassy_knx.Frame.Dispatch
use embassy_knx.Node.{Node, open_idle}
use embassy_knx.Transport.Actions.{new}
use embassy_knx.Transport.Machine.{handle_ind}
use embassy_knx.Transport.Machine.Invariant.{Inv, handle_ind-Inv}
use embassy_knx.Transport.Machine.Delivery.{session, up_to, session_in_order}
use embassy_knx.Transport.Machine.DataFrames.{next_delivered, first_gap, exhausted}
use embassy_knx.Transport.Machine.Sending.{is_data, IsDelivery, sent}
use embassy_knx.Transport.Types.{connect, data_connected}
use embassy_knx.Examples.{platform, peer, stranger, frame_from, open_connection, node_with}

-- A data frame of the peer with the number, and a connect of it.
abbrev numbered : ℕ → Dispatch.Frame
numbered seq = frame_from 0x05 (0x40 + seq + seq + seq + seq)

abbrev connecting : Dispatch.Frame
connecting = frame_from 0x05 0x80

abbrev expects : ℕ → Node
expects seq = node_with (open_connection seq)

new_node : Node
new_node = node_with new

from_peer : (tpci : ℕ) → Dispatch.src_addr platform (frame_from 0x05 tpci) ≡ ok peer
unfolding Dispatch.src_addr Reader.src_addr Individual.from_bytes
from_peer tpci = refl

from_stranger : (tpci : ℕ) → Dispatch.src_addr platform (frame_from 0x06 tpci) ≡ ok stranger
unfolding Dispatch.src_addr Reader.src_addr Individual.from_bytes
from_stranger tpci = refl

number_0 : Dispatch.tpci_seq platform (numbered 0) ≡ ok 0
unfolding Dispatch.tpci_seq Reader.tpci_seq
number_0 = refl

number_1 : Dispatch.tpci_seq platform (numbered 1) ≡ ok 1
unfolding Dispatch.tpci_seq Reader.tpci_seq
number_1 = refl

number_5 : Dispatch.tpci_seq platform (numbered 5) ≡ ok 5
unfolding Dispatch.tpci_seq Reader.tpci_seq
number_5 = refl

session_in_order_example :
    let (log, n) =
      session platform
        (connect connecting
          ∷ data_connected (numbered 0)
          ∷ data_connected (numbered 0)
          ∷ data_connected (numbered 1)
          ∷ [])
        ([], new_node) in
    (log ≡ up_to n.connection.seq_no_recv) × (n.connection.seq_no_recv ≤ 8)
unfolding new_node
session_in_order_example =
    session_in_order platform
      (connect connecting
        ∷ data_connected (numbered 0)
        ∷ data_connected (numbered 0)
        ∷ data_connected (numbered 1)
        ∷ [])
      new_node refl

open_Inv : Inv (open_connection 1)
open_Inv = ground arith

delivers : (handle_ind platform (data_connected (numbered 1)) (expects 1)).0 ≢ panic
delivers panics =
    let (b, response, e) =
      next_delivered platform (numbered 1) (expects 1) refl refl (from_peer 0x44) number_1 refl refl
        (omega arith) in
    cc

handle_ind-Inv_example :
    Inv (handle_ind platform (data_connected (numbered 1)) (expects 1)).1.connection
handle_ind-Inv_example =
    handle_ind-Inv platform (data_connected (numbered 1)) (expects 1) open_Inv delivers

gap_panics : handle_ind platform (data_connected (numbered 5)) (expects 0) ≡ (panic, expects 0)
gap_panics =
    first_gap platform (numbered 5) (expects 0) refl refl (from_peer 0x54) number_5 (omega arith)
      refl

exhausted_example :
    let run = handle_ind platform (data_connected (numbered 0)) (expects 8) in
    (run.1.connection.seq_no_recv ≡ 8) × (run.1.connection.state ≡ open_idle) × ¬ IsDelivery run.0
exhausted_example =
    exhausted platform (numbered 0) (expects 8) refl refl (from_peer 0x40) number_0 refl

next_data_refines :
    IsStep peer 1 is_data
      (numbered 1)
      (expects 1)
      (handle_ind platform (data_connected (numbered 1)) (expects 1))
next_data_refines =
    handle_ind-refines platform is_data (numbered 1) (expects 1) (from_peer 0x44) number_1
      (omega arith) refl (omega arith) open_Inv delivers

-- A telegram with two bytes of data and a free last byte.
abbrev own_data : Bytes
own_data = 0x90 ∷ 0 ∷ 0 ∷ 0 ∷ 0 ∷ 2 ∷ 0 ∷ 0x80 ∷ 7 ∷ 0 ∷ []

repeated_as_sent_example :
    (f : Bytes) × IsDataFor peer 0 own_data f
    × ((send_data_a7 platform (Dispatch.standard own_data) >> repeat_data_a9 platform) (expects 1)
        ≡ (
          ok tt,
          record (expects 1) {
            connection = record (open_connection 1) {
              stored_frame = some (Dispatch.standard f);
              rep_count = 1;
              connection_timeout = some 16;
            };
            pool = [];
            trace = sent (sent [] f) f;
          },
        ))
repeated_as_sent_example =
    repeated_as_sent platform own_data (expects 1) (omega arith) (omega arith) refl (omega arith)
      refl
