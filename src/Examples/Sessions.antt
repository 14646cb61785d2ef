-- ===== src/Examples/Sessions.antt =====
-- A session of a connection with one peer (src/transport_layer.rs).
use embassy_knx.Prelude.{◌≡◌, ◌≢◌, refl, arith, All, true, List, [], ◌∷◌, none, some, ok, panic}
use embassy_knx.Address.Individual
use embassy_knx.Node.{Node}
use embassy_knx.Transport.Actions
use embassy_knx.Transport.Actions.{new}
use embassy_knx.Transport.Choice
use embassy_knx.Prelude.Word
use embassy_knx.Transport.Machine
use embassy_knx.Transport.Machine.Sending.{is_connect, is_data}
use embassy_knx.Transport.Machine.Spec.{shut, link}
use embassy_knx.Transport.Machine.Spec.Sessions.{Turn, SpecRun, AllHonest}
use embassy_knx.Transport.Machine.Refine.Sessions.{
  Telegram, Agrees, Replied, conversation, session_refines,
}
use embassy_knx.Prelude.{Bytes}
use embassy_knx.Frame.Dispatch.{standard}
use embassy_knx.Node.{◌>>◌}
use embassy_knx.Transport.Actions.{nak_a4, send_data_a7, confirm_data_a8}
use embassy_knx.Transport.Telegrams.Content.{IsResponse}
use embassy_knx.Transport.Machine.Repeats.{IsDataFor}
use embassy_knx.Transport.Machine.Sending.{sent}
use embassy_knx.Transport.Machine.Numbers.{numbered_in_turn, refused_by_nak}
use embassy_knx.Examples.{peer, open_connection}
use embassy_knx.Transport.Telegrams
use embassy_knx.Transport.Types.{connect, data_connected}
use embassy_knx.Address
use embassy_knx.DataLink
use embassy_knx.Network
use embassy_knx.Settings
use embassy_knx.Frame.Dispatch
use embassy_knx.Frame.Reader
use embassy_knx.Frame.Standard
use embassy_knx.Frame.Writer
use embassy_knx.Examples.{frame_from, platform, telegram_from, node_with, closed_connection}

-- A connect, the first data, and the first data again.
abbrev talk : List Telegram
talk =
    (is_connect, telegram_from 0x05 0x80)
    ∷ (is_data, telegram_from 0x05 0x40)
    ∷ (is_data, telegram_from 0x05 0x40)
    ∷ []

abbrev listener : Node
listener = record (node_with closed_connection) { pool = true ∷ true ∷ true ∷ [] }

talk_results :
    (conversation platform talk listener).0
    ≡ ok (some (connect (frame_from 0x05 0x80)))
      ∷ ok (some (data_connected (frame_from 0x05 0x40)))
      ∷ ok none
      ∷ []
unfolding conversation Machine.handle_ind Machine.handle_event Choice.event_of Actions.set_state
    Actions.new_connection_a1 Actions.ack_data_a2 Actions.ack_a3 Actions.send_response_frame
    Dispatch.src_addr Dispatch.tpci_seq Reader.src_addr Reader.tpci_seq Individual.from_bytes
    Individual.eq Individual.write Telegrams.response_frame Standard.new Standard.set_length
    Standard.set_frame_type Writer.set_priority Writer.set_dst_addr Writer.set_src_addr
    Writer.set_addr_type Writer.set_hop_count Writer.set_tpci Writer.set_tpci_seq Address.write
    Settings.address Network.send DataLink.send Choice.is_from Choice.data_event Word.add8
talk_results = refl

talk_goes_on : All (λ r. r ≢ panic) (conversation platform talk listener).0
talk_goes_on = rw talk_results ((λ e. cc), ((λ e. cc), ((λ e. cc), tt)))

fresh : listener.connection ≡ new
unfolding new
fresh = refl

session_refines_example :
    let (rs, n') = conversation platform talk listener in
    (turns : List Turn) × SpecRun shut turns (link n'.connection)
    × Agrees talk rs turns
    × Replied turns [] n'.trace
    × AllHonest [] turns
session_refines_example =
    session_refines platform talk listener fresh (omega arith) (refl, (refl, (refl, tt)))
      talk_goes_on

-- Telegrams with two bytes of data and a free last byte.
abbrev first_data : Bytes
first_data = 0x90 ∷ 0 ∷ 0 ∷ 0 ∷ 0 ∷ 2 ∷ 0 ∷ 0x80 ∷ 7 ∷ 0 ∷ []

abbrev second_data : Bytes
second_data = 0x90 ∷ 0 ∷ 0 ∷ 0 ∷ 0 ∷ 2 ∷ 0 ∷ 0x80 ∷ 8 ∷ 0 ∷ []

numbered_in_turn_example :
    (f g : Bytes) × IsDataFor peer 0 first_data f
    × IsDataFor peer 1 second_data g
    × ((send_data_a7 platform (standard first_data)
            >> confirm_data_a8 platform (frame_from 0x05 0xc2)
            >> send_data_a7 platform (standard second_data))
          (node_with (open_connection 0))
        ≡ (
          ok tt,
          record (node_with (open_connection 0)) {
            connection = record (open_connection 0) {
              seq_no_send = 1;
              stored_frame = some (standard g);
              rep_count = 0;
              connection_timeout = some 16;
            };
            pool = [];
            trace = sent (sent [] f) g;
          },
        ))
numbered_in_turn_example =
    numbered_in_turn platform first_data second_data (frame_from 0x05 0xc2)
      (node_with (open_connection 0)) (omega arith) (omega arith) (omega arith) (omega arith) refl
      (omega arith) (omega arith) refl

data_from_peer : Dispatch.src_addr platform (frame_from 0x05 0x54) ≡ ok peer
unfolding Dispatch.src_addr Reader.src_addr Individual.from_bytes
data_from_peer = refl

data_number : Dispatch.tpci_seq platform (frame_from 0x05 0x54) ≡ ok 5
unfolding Dispatch.tpci_seq Reader.tpci_seq
data_number = refl

refused_by_nak_example :
    (b : Bytes) × IsResponse peer 5 0xc3 b
    × (nak_a4 platform (frame_from 0x05 0x54) (node_with (open_connection 1)) ≡ (
      ok none,
      record (node_with (open_connection 1)) {
        connection = record (open_connection 1) { connection_timeout = none };
        pool = true ∷ [];
        trace = sent [] b;
      },
    ))
refused_by_nak_example =
    refused_by_nak platform (frame_from 0x05 0x54) (node_with (open_connection 1)) data_from_peer
      data_number (omega arith) refl
