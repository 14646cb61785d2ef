-- ===== src/DataLink.antt =====
-- The data link layer (src/data_link_layer.rs).
use embassy_knx.Prelude.{[], ◌∷◌}
use embassy_knx.Frame.Dispatch.{Frame}
use embassy_knx.Node.{M, emit, con_reset, enqueue, con_wait}

pub data DataServiceInd : Type 0 where
  frame_data : Frame → DataServiceInd
  system_broadcast : Frame → DataServiceInd
  busmon : Frame → DataServiceInd
  service_information : Frame → DataServiceInd

-- The channels of frames of the driver. A receiver or a sender is a handle to one of them.
pub data FrameChannel : Type 0 where
  channel_tx channel_rx : FrameChannel

pub record DataLinkLayer : Type 0 where
  pub rx : FrameChannel
  pub tx : FrameChannel

abbrev pub new : FrameChannel → FrameChannel → DataLinkLayer
new rx tx = record { rx = rx; tx = tx }

-- The confirmation signal is cleared, the frame is queued for the driver, and the call waits for
-- the confirmation, whose value is dropped.
unfoldable pub send : Frame → M (Unit {0})
send frame = emit (con_reset ∷ enqueue frame ∷ con_wait ∷ [])

-- What a frame from the driver's channel is passed on as. The frame is also logged, in the text of
-- Frame.Format.
unfoldable pub receive : Frame → DataServiceInd
receive frame = frame_data frame
