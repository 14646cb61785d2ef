-- ===== src/Transport/Types.antt =====
-- The services and events of src/transport_layer.rs.
use embassy_knx.Prelude.{ℕ}
use embassy_knx.Frame.Dispatch.{Frame}

pub data TransportServiceInd : Type 0 where
  data_broadcast : Frame → TransportServiceInd
  data_system_broadcast : Frame → TransportServiceInd
  data_group : Frame → TransportServiceInd
  data_tag_group : Frame → TransportServiceInd
  data_individual : Frame → TransportServiceInd
  data_connected : Frame → TransportServiceInd
  connect : Frame → TransportServiceInd
  disconnect : Frame → TransportServiceInd
  ack : Frame → TransportServiceInd
  nak : Frame → TransportServiceInd

pub record DataGroupReq : Type 0 where
  pub tsap : ℕ
  pub frame : Frame

pub data TransportServiceReq : Type 0 where
  data_group_req : DataGroupReq → TransportServiceReq

pub data Events : Type 0 where
  connect_req_same_address_e00 connect_req_new_address_e01 : Events
  disconnect_req_same_address_e02 disconnect_req_new_address_e03 : Events
  data_connected_e04 data_connected_e05 data_connected_e06 : Events
  data_connected_new_address_e07 ack_e08 ack_e09 ack_new_address_e10 : Events
  nak_e11 nak_e12 nak_e13 nak_new_address_e14 data_connected_e15 : Events
  e16 e17 e18 e19 e20 e21 e22 e23 e24 e25 e26 e27 : Events
