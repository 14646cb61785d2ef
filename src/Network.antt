-- ===== src/Network.antt =====
-- The network layer (src/network_layer.rs).
use embassy_knx.Prelude.{Option, none, some, if◌then◌else◌}
use embassy_knx.Address.{Address, individual, group}
use embassy_knx.Address.Group
use embassy_knx.Frame.Dispatch
use embassy_knx.Frame.Dispatch.{Frame}
use embassy_knx.Frame.Writer.{Platform}
use embassy_knx.Node.{M, pure, lift, ◌>>=◌}
use embassy_knx.DataLink
use embassy_knx.DataLink.{DataServiceInd, frame_data, system_broadcast, busmon, service_information}

pub data NetworkServiceReq : Type 0 where
  req_group : Frame → NetworkServiceReq
  req_individual : Frame → NetworkServiceReq

pub data NetworkServiceInd : Type 0 where
  data_individual : Frame → NetworkServiceInd
  data_group : Frame → NetworkServiceInd
  data_broadcast : Frame → NetworkServiceInd
  data_system_broadcast : Frame → NetworkServiceInd

unfoldable pub send : NetworkServiceReq → M (Unit {0})
unfolding DataLink.send
send (req_group frame) = DataLink.send frame
send (req_individual frame) = DataLink.send frame

pub record NetworkLayer : Type 0 where
  pub data_link : DataLink.DataLinkLayer

abbrev pub new : DataLink.DataLinkLayer → NetworkLayer
new data_link = record { data_link = data_link }

-- By the destination: group 0 is a broadcast.
by_address : Address → Frame → NetworkServiceInd
unfolding Group.new Group.eq
by_address (individual _) frame = data_individual frame
by_address (group a) frame =
    if Group.eq a (Group.new 0) then data_broadcast frame else data_group frame

module _ (env : Platform) where
  -- One round of the loop of `receive`: nothing where the loop goes on.
  unfoldable pub receive_step : DataServiceInd → M (Option NetworkServiceInd)
  unfolding by_address Dispatch.dst_addr
  receive_step (frame_data frame) = do
    dst ← lift (Dispatch.dst_addr env frame)
    pure (some (by_address dst frame))
  receive_step (system_broadcast frame) = pure (some (data_system_broadcast frame))
  receive_step (busmon frame) = pure none
  receive_step (service_information frame) = pure none
