-- ===== src/Examples/Tasks.antt =====
-- Runs of the three tasks, with channels that are lists.
use embassy_knx.Driver.Receive.Reading.{IsByteLine}
use embassy_knx.Driver.Run.Passing.{IsWhole}
use embassy_knx.System.Telegrams.{only_telegrams_heard}
use embassy_knx.System.Counting.{no_more_than_heard}
use embassy_knx.System.Order.{indications, frames_heard}
use embassy_knx.Prelude.{is_some, replicate, All, arith, ℕ, zero, suc, ◌≡◌, refl}
use embassy_knx.Prelude.{◌≤◌, length, true, List, [], ◌∷◌, ◌++◌}
use embassy_knx.Driver.Uart.{Driver, Line, silence}
use embassy_knx.Driver.Receive.Reading.{line_of}
use embassy_knx.Frame.Writer.{Platform}
use embassy_knx.Node.{Node, con_wait, enqueue}
use embassy_knx.Transport.Actions
use embassy_knx.System.Order.{InOrder, Runs-InOrder, frames_queued}
use embassy_knx.System.Transmission.{
  in_flight, awaited, one_in_flight, queueing_never_waits, connection_never_opens,
}
use embassy_knx.System.Answers.{IsAnswerFrame, only_answers_queued}
use embassy_knx.System.Deadlock.{IsDeadlock, IsSilent, stuck_for_good}
use embassy_knx.Driver.Run
use embassy_knx.Driver.Uart
use embassy_knx.Driver.Receive
use embassy_knx.Frame.Standard
use embassy_knx.Frame.Reader
use embassy_knx.Frame.Writer
use embassy_knx.Frame.Dispatch
use embassy_knx.Transport.Layer
use embassy_knx.Transport.Telegrams
use embassy_knx.Network
use embassy_knx.DataLink
use embassy_knx.DataPoint
use embassy_knx.Settings
use embassy_knx.Address
use embassy_knx.Address.Group
use embassy_knx.Address.Individual
use embassy_knx.Application.Response
use embassy_knx.Application
use embassy_knx.System.{System, init}
use embassy_knx.System.Schedule.{
  Turn, driver_on_line, driver_hands_over, layers_listen, layers_respond, layers_go_on,
  main_listens, main_goes_on, Reached, run,
}
use embassy_knx.Examples.{platform, rest, driver_on, closed_connection, node_with}
use embassy_knx.Examples.Channels.{lists}

-- `n` reads of the value of a group on the line.
abbrev reads : ℕ → List Line
reads zero = []
reads (suc n) = line_of (0xbc ∷ rest) (silence ∷ reads n)

abbrev asked : ℕ → Driver
asked n = record (driver_on (reads n)) { pool = replicate n true }

abbrev idle : Node
idle = node_with closed_connection

abbrev from_start : ℕ → System lists
from_start n = init lists (asked n) idle

-- A telegram is received, handed over and heard, and what the layers do about it is done.
abbrev one_read : List Turn
one_read = driver_on_line ∷ driver_hands_over ∷ layers_listen ∷ layers_go_on ∷ []

abbrev reading : ℕ → List Turn
reading zero = []
reading (suc n) = one_read ++ reading n

abbrev answering : ℕ → List Turn
answering zero = []
answering (suc n) = main_listens ∷ main_goes_on ∷ answering n

-- The response of `main` is taken; the signal is reset.
abbrev responding : List Turn
responding = one_read ++ answering 1 ++ layers_respond ∷ layers_go_on ∷ []

abbrev queueing : Reached lists platform (from_start 1)
queueing = run lists platform (from_start 1) responding

abbrev waiting : Reached lists platform (from_start 1)
waiting = run lists platform (from_start 1) (responding ++ layers_go_on ∷ [])

-- Ten reads in a row: `main` takes five indications, and the layers take no response meanwhile.
abbrev stuck : Reached lists platform (from_start 10)
stuck =
    run lists platform (from_start 10)
      (reading 4 ++ answering 4 ++ reading 5 ++ answering 1 ++ reading 2)

abbrev after_stuck : Reached lists platform stuck.last
after_stuck = run lists platform stuck.last (driver_on_line ∷ driver_hands_over ∷ [])

-- The answer of the device to a read.
abbrev answer_frame : Dispatch.Frame
answer_frame = Dispatch.standard (0x94 ∷ 0x11 ∷ 0x78 ∷ 0x09 ∷ 0x62 ∷ 0xf1 ∷ 0 ∷ 0x41 ∷ 0 ∷ [])

-- By evaluation: the answer to one read is to be queued, then waits for the driver; and after ten
-- reads two tasks wait for each other.
evaluated :
    (queueing.last.node.trace ≡ enqueue answer_frame ∷ con_wait ∷ [])
    × (waiting.last.frame_channel_rx.1 ≡ answer_frame ∷ [])
    × IsDeadlock lists stuck.last
unfolding init run Run.run_step Application.run_step Uart.read Receive.is_frame_start
    Receive.receive_frame Receive.receive_frame_int Receive.receive_rest Receive.ack_if_addressed
    Receive.accept Receive.read_part Uart.read_with_timeout Standard.new Reader.dst_addr
    Reader.checksum Standard.length Standard.set_length Uart.write Uart.send_ack Run.after_receive
    Layer.receive Network.receive_step DataLink.receive Dispatch.dst_addr Layer.receive_ind
    Dispatch.tpci Reader.tpci Application.receive Dispatch.apci Reader.apci Application.respond
    Response.answer Response.to_transport Response.new Dispatch.from_datapoint Writer.from_datapoint
    DataPoint.new_b1 DataPoint.byte_length DataPoint.length DataPoint.write Writer.set_apci
    Writer.set_priority Writer.set_hop_count Layer.send Telegrams.info_frame Writer.set_dst_addr
    Writer.set_src_addr Writer.set_tpci Dispatch.set_apci Dispatch.set_priority
    Dispatch.set_hop_count Dispatch.set_dst_addr Dispatch.set_src_addr Dispatch.set_tpci
    Network.send DataLink.send Group.from_bytes Individual.from_bytes Group.write Individual.write
    Individual.eq Group.eq Settings.address Group.from_parts Group.new Standard.set_frame_type
    Writer.set_addr_type Address.write
evaluated = (refl, refl, ((_, _, refl), (_, refl), omega arith, omega arith))

Runs-InOrder_example : InOrder lists waiting.log waiting.last
Runs-InOrder_example = Runs-InOrder lists platform (asked 1) idle waiting.reach

one_in_flight_example :
    in_flight waiting.last.sending waiting.last.frame_channel_rx.1 waiting.last.con_signal
    ≡ awaited waiting.last.node.trace
one_in_flight_example = one_in_flight lists platform (asked 1) idle waiting.reach

connection_never_opens_example : waiting.last.node.connection ≡ Actions.new
connection_never_opens_example = connection_never_opens lists platform (asked 1) idle waiting.reach

only_answers_queued_example : All IsAnswerFrame (frames_queued waiting.log)
only_answers_queued_example = only_answers_queued lists platform (asked 1) idle waiting.reach

stuck_for_good_example : IsDeadlock lists after_stuck.last × IsSilent lists after_stuck.log
stuck_for_good_example = stuck_for_good lists platform stuck.last evaluated.2 after_stuck.reach

room_for_answer : is_some (lists.try_send answer_frame queueing.last.frame_channel_rx) ≡ true
room_for_answer =
    queueing_never_waits lists platform (asked 1) idle queueing.reach answer_frame evaluated.0

one_read-bytes : All IsByteLine (asked 1).rx
one_read-bytes = omega arith

only_telegrams_heard_example : All IsWhole (frames_heard waiting.log)
only_telegrams_heard_example =
    only_telegrams_heard lists platform refl (asked 1) idle one_read-bytes waiting.reach

no_more_than_heard_example :
    (length (frames_queued waiting.log) ≤ length (indications waiting.log))
    × (length (indications waiting.log) ≤ length (frames_heard waiting.log))
no_more_than_heard_example = no_more_than_heard lists platform (asked 1) idle waiting.reach
