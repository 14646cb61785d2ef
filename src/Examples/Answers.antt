-- ===== src/Examples/Answers.antt =====
-- One answer of the device, from the read on the line to the confirmation of the transceiver.
use embassy_knx.Prelude.{ℕ, ◌≡◌, refl}
use embassy_knx.Prelude.{true, [], ◌∷◌}
use embassy_knx.Driver.Uart.{Driver, Line, silence}
use embassy_knx.Driver.Receive.Reading.{line_of}
use embassy_knx.Frame.Writer.{Platform}
use embassy_knx.Node.{Node, con_wait, enqueue}
use embassy_knx.Prelude.{Bytes, ok}
use embassy_knx.Driver.Run
use embassy_knx.Driver.Run.{frame_waits}
use embassy_knx.Driver.Transmit
use embassy_knx.Driver.Transmit.Writes.{services}
use embassy_knx.Driver.Uart.{byte, ConStatus, con_ok}
use embassy_knx.Node.{con_reset}
use embassy_knx.System.{Runs, confirmed, frame_sent, frame_taken, frame_queued, signal_reset}
use embassy_knx.System.Completion.{transmission_completes}
use embassy_knx.Driver.Uart
use embassy_knx.Driver.Receive
use embassy_knx.Frame.Standard
use embassy_knx.Frame.Reader
use embassy_knx.Frame.Writer
use embassy_knx.Frame.Dispatch
use embassy_knx.Transport.Layer
use embassy_knx.Transport.Telegrams
use embassy_knx.Network
use embassy_knx.DataLink
use embassy_knx.DataPoint
use embassy_knx.Settings
use embassy_knx.Address
use embassy_knx.Address.Group
use embassy_knx.Address.Individual
use embassy_knx.Application.Response
use embassy_knx.Application
use embassy_knx.System.{System, init}
use embassy_knx.System.Schedule.{
  driver_on_line, driver_hands_over, layers_listen, layers_respond, layers_go_on, main_listens,
  main_goes_on, Reached, run,
}
use embassy_knx.Prelude.{List, Bytes}
use embassy_knx.DataPoint.{b1}
use embassy_knx.Prelude.{◌⊎◌}
use embassy_knx.System.Deadlock.{IsDeadlock}
use embassy_knx.System.Progress.{CanMove, AwaitsDriver, waits_or_goes}
use embassy_knx.System.{Event}
use embassy_knx.System.Order.{frames_queued}
use embassy_knx.Prelude.{All, length}
use embassy_knx.System.Completion.{SharesChannels}
use embassy_knx.System.Ready.{IsReady}
use embassy_knx.System.Answering.{confirmations, IsReply}
use embassy_knx.System.Serving.{
  Asking, IsAsking, line_with, queued, confirmed_all, exchanges, reads_answered_in_turn,
}
use embassy_knx.Examples.Devices.{read-IsTelegram, read-IsGroupRead}
use embassy_knx.Examples.{platform, rest, driver_on, closed_connection, node_with}
use embassy_knx.Examples.Channels.{lists}

-- The answer of the device to a read.
abbrev answer_bytes : Bytes
answer_bytes = 0x94 ∷ 0x11 ∷ 0x78 ∷ 0x09 ∷ 0x62 ∷ 0xf1 ∷ 0 ∷ 0x41 ∷ 0 ∷ []

abbrev answer_frame : Dispatch.Frame
answer_frame = Dispatch.standard answer_bytes

abbrev checksum : ℕ
checksum = 0xd9

-- A read on the line, and then the echo of the answer and a confirmation.
abbrev asked : Driver
asked =
    record (driver_on (line_of (0xbc ∷ rest) (silence ∷ line_of answer_bytes (byte 0x8b ∷ [])))) {
      pool = true ∷ [];
    }

abbrev idle : Node
idle = node_with closed_connection

abbrev first : System lists
first = init lists asked idle

abbrev due : Reached lists platform first
due = run lists platform first (
    driver_on_line ∷ driver_hands_over ∷ layers_listen ∷ layers_go_on ∷ main_listens ∷ main_goes_on
    ∷ layers_respond ∷ [])

-- The answer as the layers made it is sent with its checksum in place of the last byte.
abbrev answered : Driver
answered = record (driver_on []) {
  pool = [];
  led = true;
  written = 0x11 ∷ services 0 (0x94 ∷ 0x11 ∷ 0x78 ∷ 0x09 ∷ 0x62 ∷ 0xf1 ∷ 0 ∷ 0x41 ∷ checksum ∷ []);
  confirmed = con_ok ∷ [];
}

evaluated :
    (due.last.node.trace ≡ con_reset ∷ enqueue answer_frame ∷ con_wait ∷ [])
    × (due.last.driver.passed ≡ [])
    × (Run.run_step platform (frame_waits answer_frame) due.last.driver ≡ (ok tt, answered))
unfolding init run Run.run_step Application.run_step Uart.read Receive.is_frame_start
    Receive.receive_frame Receive.receive_frame_int Receive.receive_rest Receive.ack_if_addressed
    Receive.accept Receive.read_part Uart.read_with_timeout Standard.new Reader.dst_addr
    Reader.checksum Standard.length Standard.set_length Uart.write Uart.send_ack Run.after_receive
    Layer.receive Network.receive_step DataLink.receive Dispatch.dst_addr Layer.receive_ind
    Dispatch.tpci Reader.tpci Application.receive Dispatch.apci Reader.apci Application.respond
    Response.answer Response.to_transport Response.new Dispatch.from_datapoint Writer.from_datapoint
    DataPoint.new_b1 DataPoint.byte_length DataPoint.length DataPoint.write Writer.set_apci
    Writer.set_priority Writer.set_hop_count Layer.send Telegrams.info_frame Writer.set_dst_addr
    Writer.set_src_addr Writer.set_tpci Dispatch.set_apci Dispatch.set_priority
    Dispatch.set_hop_count Dispatch.set_dst_addr Dispatch.set_src_addr Dispatch.set_tpci
    Network.send DataLink.send Group.from_bytes Individual.from_bytes Group.write Individual.write
    Individual.eq Group.eq Settings.address Group.from_parts Group.new Standard.set_frame_type
    Writer.set_addr_type Address.write Transmit.send_frame Transmit.write_inner Transmit.read_echoes
    Transmit.con_status Run.after_send Uart.new Dispatch.data_of Dispatch.checksum
evaluated = (refl, refl, refl)

transmission_completes_example :
    (status : ConStatus) × (t : System lists) × (con_ok ∷ [] ≡ status ∷ [])
    × (t.node ≡ record due.last.node { trace = [] })
    × (t.driver ≡ record answered { confirmed = [] })
    × SharesChannels lists due.last t
    × Runs lists platform first
        (confirmed status
          ∷ frame_sent (con_ok ∷ [])
          ∷ frame_taken answer_frame
          ∷ frame_queued answer_frame
          ∷ signal_reset
          ∷ due.log)
        t
transmission_completes_example =
    transmission_completes lists platform asked idle due.reach answer_frame evaluated.0 evaluated.1
      evaluated.2

-- The read twice, each with the echo of its answer.
abbrev question : Asking
question = record { ctrl = 0xbc; rest = rest; echo = answer_bytes }

abbrev asked_twice : Driver
asked_twice = record (driver_on (line_with (question ∷ question ∷ []) (silence ∷ []))) {
  pool = true ∷ true ∷ [];
}

question-IsAsking : IsAsking question
question-IsAsking = record {
  telegram = read-IsTelegram;
  asks = read-IsGroupRead;
  starts = refl;
  nine = refl;
}

reads_answered_in_turn_example :
    (fronts : List Bytes) × All IsReply fronts
    × (length fronts ≡ 2)
    × (es : List Event) × (t : System lists) × Runs lists platform
        (init lists asked_twice idle)
        es
        t
    × IsReady lists t
    × (frames_queued es ≡ queued fronts)
    × (confirmations es ≡ confirmed_all fronts)
    × (t.driver.rx ≡ silence ∷ [])
    × (t.driver.written ≡ exchanges (question ∷ question ∷ []) fronts)
reads_answered_in_turn_example =
    reads_answered_in_turn lists platform asked_twice idle (question ∷ question ∷ []) (silence ∷ [])
      [] [] (question-IsAsking, (question-IsAsking, tt)) refl refl refl refl

waits_or_goes_example :
    (due.last.node.trace ≡ [])
    ⊎ CanMove lists platform due.last
    ⊎ AwaitsDriver lists platform due.last
    ⊎ IsDeadlock lists due.last
waits_or_goes_example = waits_or_goes lists platform asked idle due.reach
