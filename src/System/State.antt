-- ===== src/System/State.antt =====
-- The common state of the three tasks: the layers as src/main.rs puts them together, the channels and
-- the signal between the tasks.
use embassy_knx.Prelude.{ℕ, Bool, false, Option, none, List, [], ◌∷◌}
use embassy_knx.Frame.Dispatch.{Frame}
use embassy_knx.Sync.{Sync}
use embassy_knx.Node.{Node, ApplicationServiceInd}
use embassy_knx.Driver.Uart
use embassy_knx.Driver.Uart.{Driver, ConStatus}
use embassy_knx.Transport.Actions
use embassy_knx.DataLink
use embassy_knx.DataLink.{FrameChannel, channel_tx, channel_rx}
use embassy_knx.Network
use embassy_knx.Transport.Layer
use embassy_knx.Transport.Layer.{frame_arrives, tick}
use embassy_knx.Application
use embassy_knx.Application.{ApplicationServiceRes, res_group_value_read, from_bus, response}

abbrev pub channel_size : ℕ
channel_size = 8

abbrev pub service_size : ℕ
service_size = 4

-- The layers as `main` puts them together: the application layer takes frames from the channel that
-- the driver puts them into, and puts frames into the one that the driver takes them from.
abbrev pub layers : Application.ApplicationLayer
layers =
    Application.new (Layer.new (Network.new (DataLink.new channel_tx channel_rx)))
      Application.service_channel_tx Application.service_channel_rx

-- The handles of the data link layer among them.
abbrev pub link : DataLink.DataLinkLayer
link = layers.transport.network.data_link

-- `driver.passed` are the frames that the driver has yet to put into `frame_channel_tx`, and
-- `sending` is the frame that it transmits. `node.trace` is what the task of the application layer
-- has yet to do before it waits for the next event. `answering` is the response that `main` has
-- yet to give.
pub record System (sync : Sync) : Type 0 where
  pub driver : Driver
  pub sending : Option Frame
  pub node : Node
  pub answering : Option ApplicationServiceRes
  pub led : Bool
  pub frame_channel_tx : sync.Channel Frame
  pub frame_channel_rx : sync.Channel Frame
  pub con_signal : sync.Signal ConStatus
  pub service_channel_rx : sync.Channel ApplicationServiceInd
  pub service_channel_tx : sync.Channel ApplicationServiceRes

module _ (sync : Sync) where
  -- The channel that a handle is for, and the state with the channel changed.
  abbrev pub frames : FrameChannel → System sync → sync.Channel Frame
  frames channel_tx s = s.frame_channel_tx
  frames channel_rx s = s.frame_channel_rx

  abbrev pub with_frames : FrameChannel → sync.Channel Frame → System sync → System sync
  with_frames channel_tx c s = record s { frame_channel_tx = c }
  with_frames channel_rx c s = record s { frame_channel_rx = c }

  abbrev pub responses_to :
      Application.ResponseChannel → System sync → sync.Channel ApplicationServiceRes
  responses_to Application.service_channel_tx s = s.service_channel_tx

  abbrev pub indications_from :
      Application.IndicationChannel → System sync → sync.Channel ApplicationServiceInd
  indications_from Application.service_channel_rx s = s.service_channel_rx

  -- The channels of `main` and of the driver as they are created, and the tasks as they start.
  unfoldable pub init : Driver → Node → System sync
  unfolding Actions.new Uart.new
  init d n = record {
    driver = Uart.new d.rx d.tx d.pool;
    sending = none;
    node = record n {
      connection = layers.transport.connection;
      borrowed = layers.transport.borrowed;
      trace = [];
    };
    answering = none;
    led = false;
    frame_channel_tx = sync.new_channel channel_size;
    frame_channel_rx = sync.new_channel channel_size;
    con_signal = sync.new_signal;
    service_channel_rx = sync.new_channel service_size;
    service_channel_tx = sync.new_channel service_size;
  }

  -- `CON_SIGNAL.signal` for each status: a new value replaces the old one.
  unfoldable pub signal_all : List ConStatus → sync.Signal ConStatus → sync.Signal ConStatus
  signal_all [] s = s
  signal_all (status ∷ later) s = signal_all later (sync.signal status s)
