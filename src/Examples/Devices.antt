-- ===== src/Examples/Devices.antt =====
-- The theorem on the whole device at a read on the bus.
use embassy_knx.Prelude.{◌≡◌, refl, arith, Bytes, [], ◌∷◌, ◌++◌}
use embassy_knx.DataPoint.{b1}
use embassy_knx.Frame.Types.{normal}
use embassy_knx.Frame.Reader
use embassy_knx.Frame.Dispatch.{standard}
use embassy_knx.Node.{Node, group_value_read}
use embassy_knx.Application
use embassy_knx.Application.{from_bus, response, res_group_value_read}
use embassy_knx.Application.Response
use embassy_knx.Application.Laws.{IsAnswer}
use embassy_knx.Transport.Layer.{frame_arrives}
use embassy_knx.Driver.Uart.{Driver, silence}
use embassy_knx.Driver.Receive.Reading.{line_of}
use embassy_knx.Driver.Receive.Checks.{IsTelegram}
use embassy_knx.Driver.Run.{run_step, line_read}
use embassy_knx.Device.{IsGroupRead, answer_trace, read-answered}
use embassy_knx.Examples.{platform, rest, driver_on, closed_connection, node_with}

abbrev asked : Driver
asked = driver_on (line_of (0xbc ∷ rest) (silence ∷ []))

abbrev idle : Node
idle = node_with closed_connection

pub read-IsTelegram : IsTelegram (0xbc ∷ rest)
unfolding Reader.checksum
read-IsTelegram = record { well_formed = omega arith; sealed = refl }

pub read-IsGroupRead : IsGroupRead (0xbc ∷ rest)
read-IsGroupRead = omega arith

read_passed_to_layers :
    (front : Bytes) × IsAnswer (b1 1) normal (front ++ 0 ∷ [])
    × IsTelegram (front ++ Reader.checksum (front ++ 0 ∷ []) ∷ [])
    × ((run_step platform line_read asked).1.passed ≡ standard (0xbc ∷ rest) ∷ [])
    × ((Application.run platform
          (from_bus (frame_arrives (standard (0xbc ∷ rest)))
            ∷ response (res_group_value_read (Response.answer (group_value_read 0)))
            ∷ [])
          idle).1.trace
        ≡ answer_trace (front ++ 0 ∷ []))
read_passed_to_layers =
    read-answered platform 0xbc rest asked idle [] read-IsTelegram read-IsGroupRead refl refl refl
      refl refl refl
