-- ===== src/Examples/Layers.antt =====
-- The theorems on the layers at concrete telegrams (src/transport_layer.rs,
-- src/application_layer.rs).
use embassy_knx.Transport.Layer.Quiet.{receive-quiet}
use embassy_knx.Transport.Layer.{tick}
use embassy_knx.Prelude.{
  ℕ, ◌≡◌, inl, inr, refl, arith, Bytes, [], ◌∷◌, true, ok, err, panic, pending,
}
use embassy_knx.Address.{individual, group}
use embassy_knx.DataPoint.{b1}
use embassy_knx.Frame.Types.{normal, six, eight, four, invalid_tpdu}
use embassy_knx.Frame.Reader
use embassy_knx.Frame.Dispatch
use embassy_knx.Node.{Node, group_value_read, indicate, con_reset, enqueue, con_wait}
use embassy_knx.Network
use embassy_knx.Transport.Layer.{receive_ind, receive, frame_arrives}
use embassy_knx.Transport.Layer.Received.{receive_ind-by_tpci, receive-panic}
use embassy_knx.Application
use embassy_knx.Application.{from_bus, response}
use embassy_knx.Application.Response
use embassy_knx.Application.Laws.{IsAnswer}
use embassy_knx.Application.Reads.{read_answered}
use embassy_knx.Examples.{platform, frame_from, group_read, closed_connection, node_with}

abbrev idle : Node
idle = node_with closed_connection

abbrev read_frame : Dispatch.Frame
read_frame = Dispatch.standard group_read

to_this_device :
    (tpci : ℕ)
    → Dispatch.dst_addr platform (frame_from 0x05 tpci) ≡ ok (individual (record { raw = 0x1178 }))
unfolding Dispatch.dst_addr Reader.dst_addr
to_this_device tpci = refl

tpci_is : (tpci : ℕ) → Dispatch.tpci platform eight (frame_from 0x05 tpci) ≡ ok tpci
unfolding Dispatch.tpci Reader.tpci
tpci_is tpci = refl

to_the_group : Dispatch.dst_addr platform read_frame ≡ ok (group (record { raw = 0x0962 }))
unfolding Dispatch.dst_addr Reader.dst_addr
to_the_group = refl

plain : Dispatch.tpci platform six read_frame ≡ ok 0
unfolding Dispatch.tpci Reader.tpci
plain = refl

reads : Dispatch.apci platform four read_frame ≡ ok 0
unfolding Dispatch.apci Reader.apci
reads = refl

receive_ind-by_tpci_example :
    receive_ind platform (Network.data_individual (frame_from 0x05 0xc2)) idle
    ≡ (err (invalid_tpdu 0xc2), idle)
receive_ind-by_tpci_example =
    receive_ind-by_tpci platform (frame_from 0x05 0xc2) 0xc2 idle (tpci_is 0xc2) (omega arith) refl

receive-panic_example :
    (receive platform (frame_arrives (frame_from 0x05 0x80) ∷ []) idle).0 ≡ panic
receive-panic_example =
    receive-panic platform (frame_from 0x05 0x80) [] 0x80 idle (to_this_device 0x80) (tpci_is 0x80)
      (inr (inl refl))

read_gives_answer :
    (b : Bytes) × IsAnswer (b1 1) normal b
    × (Application.run platform
          (from_bus (frame_arrives read_frame)
            ∷ response (Application.res_group_value_read (Response.answer (group_value_read 0)))
            ∷ [])
          idle
        ≡ (
          pending,
          record idle {
            pool = true ∷ [];
            trace =
                indicate (group_value_read 0)
                ∷ con_reset
                ∷ enqueue (Dispatch.standard b)
                ∷ con_wait
                ∷ [];
          },
        ))
read_gives_answer =
    read_answered platform read_frame idle to_the_group (omega arith) plain reads refl refl refl

receive-quiet_example :
    (receive platform (frame_arrives (frame_from 0x05 0x80) ∷ tick ∷ []) idle).1 ≡ idle
receive-quiet_example =
    receive-quiet platform (frame_arrives (frame_from 0x05 0x80) ∷ tick ∷ []) idle refl
