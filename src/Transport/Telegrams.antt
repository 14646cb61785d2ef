-- ===== src/Transport/Telegrams.antt =====
-- The telegrams that a connection sends (src/transport_layer.rs).
pub mod Content
use embassy_knx.Prelude.{ℕ, Bool, Bytes, Outcome, ok, ◌>>=◌}
use embassy_knx.Settings
use embassy_knx.Address
use embassy_knx.Address.Individual.{IndividualAddress}
use embassy_knx.Address.Group.{GroupAddress}
use embassy_knx.Frame.Types.{FrameResult, system, six, eight}
use embassy_knx.Frame.Dispatch
use embassy_knx.Frame.Dispatch.{Frame}
use embassy_knx.Frame.Writer
use embassy_knx.Frame.Writer.{Platform}
use embassy_knx.Frame.Standard
use embassy_knx.Transport.Types.{DataGroupReq}

module _ (env : Platform) where
  -- The frame of `send_response_frame`.
  unfoldable pub response_frame : IndividualAddress → ℕ → ℕ → Bool → FrameResult Bytes
  unfolding Standard.new Writer.set_priority Writer.set_dst_addr Writer.set_src_addr
      Writer.set_hop_count Writer.set_tpci Writer.set_tpci_seq Settings.address
  response_frame dst seq tpci pool = do
    f ← Standard.new env pool Standard.min_frame_size
    f1 ← Writer.set_priority system f
    f2 ← Writer.set_dst_addr (Standard.reader env) (Address.individual dst) f1
    f3 ← Writer.set_src_addr (Standard.reader env) Settings.address f2
    f4 ← Writer.set_hop_count (Standard.reader env) 7 f3
    f5 ← Writer.set_tpci (Standard.reader env) eight tpci f4
    Writer.set_tpci_seq (Standard.reader env) seq f5

  -- The header that `send_data_a7` fills in.
  unfoldable pub data_frame : IndividualAddress → ℕ → Frame → FrameResult Frame
  unfolding Dispatch.set_dst_addr Dispatch.set_src_addr Dispatch.set_hop_count Dispatch.set_tpci
      Dispatch.set_tpci_seq Settings.address
  data_frame dst seq frame = do
    f1 ← Dispatch.set_dst_addr env (Address.individual dst) frame
    f2 ← Dispatch.set_src_addr env Settings.address f1
    f3 ← Dispatch.set_hop_count env 7 f2
    f4 ← Dispatch.set_tpci env six 0x10 f3
    Dispatch.set_tpci_seq env seq f4

  -- `DataGroupReq::info_frame`
  unfoldable pub info_frame : DataGroupReq → GroupAddress → FrameResult Frame
  unfolding Dispatch.set_dst_addr Dispatch.set_src_addr Dispatch.set_tpci Settings.address
  info_frame req dst = do
    f1 ← Dispatch.set_dst_addr env (Address.group dst) req.frame
    f2 ← Dispatch.set_src_addr env Settings.address f1
    Dispatch.set_tpci env six 0x0 f2
