-- ===== src/Application/Response.antt =====
-- `GroupReadResponse` (src/application_layer.rs), and the one that the device gives (src/main.rs).
use embassy_knx.Prelude.{ℕ, Bool, true, ok, ◌>>=◌}
use embassy_knx.DataPoint
use embassy_knx.DataPoint.{DataPoint}
use embassy_knx.Frame.Types.{FrameResult, Priority, normal, four}
use embassy_knx.Frame.Dispatch
use embassy_knx.Frame.Writer.{Platform}
use embassy_knx.Node.{ApplicationServiceInd, group_value_read}
use embassy_knx.Transport.Types.{DataGroupReq}

pub record GroupReadResponse : Type 0 where
  pub value : DataPoint
  pub asap : ℕ
  pub hop_count : ℕ
  pub priority : Priority

unfoldable pub new : ℕ → DataPoint → Priority → GroupReadResponse
new asap value priority = record { value = value; asap = asap; hop_count = 7; priority = priority }

unfoldable pub to_transport : Platform → GroupReadResponse → ℕ → Bool → FrameResult DataGroupReq
to_transport env resp tsap pool = do
  f ← Dispatch.from_datapoint env pool resp.value
  f1 ← Dispatch.set_apci env four 0x1 f
  f2 ← Dispatch.set_priority resp.priority f1
  f3 ← Dispatch.set_hop_count env resp.hop_count f2
  ok (record { tsap = tsap; frame = f3 })

-- What the loop of `main` answers to an indication.
unfoldable pub answer : ApplicationServiceInd → GroupReadResponse
unfolding new DataPoint.new_b1
answer (group_value_read asap) = new 0 (DataPoint.new_b1 true) normal
