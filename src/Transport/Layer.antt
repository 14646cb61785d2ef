-- ===== src/Transport/Layer.antt =====
-- The methods of `TransportLayer` (src/transport_layer.rs).
pub mod Received
pub mod Quiet
use embassy_knx.Prelude.{ℕ, Bool, true, false, Option, none, some, List, [], ◌∷◌}
use embassy_knx.Prelude.{if◌then◌else◌, ◌==◌, bit_and, pending}
use embassy_knx.Prelude.Word.{◌>>>◌}
use embassy_knx.Address.Group
use embassy_knx.Frame.Types.{invalid_tpdu, six, eight}
use embassy_knx.Frame.Dispatch
use embassy_knx.Frame.Dispatch.{Frame}
use embassy_knx.Frame.Writer.{Platform}
use embassy_knx.Transport.Actions
use embassy_knx.Node.{Connection, M, pure, fail, panics, lift, ◌>>=◌, ◌>>◌, get_connection}
use embassy_knx.DataLink
use embassy_knx.Network
use embassy_knx.Network.{
  NetworkServiceInd, req_group, data_individual, data_broadcast, data_group, data_system_broadcast,
}
use embassy_knx.Transport.Telegrams.{info_frame}
use embassy_knx.Transport.Machine.{handle_ind, connection_timeout}
use embassy_knx.Transport.Types
use embassy_knx.Transport.Types.{
  TransportServiceInd, TransportServiceReq, data_group_req, data_connected, connect, disconnect,
  ack, nak, data_tag_group,
}

-- What wakes `receive`: a frame from the driver, or a tick of the connection's ticker.
pub data Wakeup : Type 0 where
  frame_arrives : Frame → Wakeup
  tick : Wakeup

-- `TransportLayer`; the cell of the connection is free at first.
pub record TransportLayer : Type 0 where
  pub network : Network.NetworkLayer
  pub connection : Connection
  pub borrowed : Bool

abbrev pub new : Network.NetworkLayer → TransportLayer
new network = record { network = network; connection = Actions.new; borrowed = false }

-- `RefCell::borrow_mut` held over a call: it panics where the cell is borrowed already.
borrow_mut : {A : Type 0} → M A → M A
borrow_mut m n =
    if n.borrowed
    then panics n
    else (let (r, n') = m (record n { borrowed = true }) in (r, record n' { borrowed = false }))

has_ticker : M Bool
has_ticker = do
  c ← get_connection
  elim c.connection_timeout [ none ↦ pure false | some _ ↦ pure true ]

module _ (env : Platform) where
  -- The address is fixed for now.
  unfoldable pub send : TransportServiceReq → M (Unit {0})
  send (data_group_req req) = do
    frame ← lift (info_frame env req (Group.from_parts 1 1 98))
    Network.send (req_group frame)

  on_connection : TransportServiceInd → M (Option TransportServiceInd)
  unfolding borrow_mut
  on_connection ind = borrow_mut (handle_ind env ind)

  -- The chain of tests on the TPCI of an individual frame.
  individual_ind : ℕ → Frame → M (Option TransportServiceInd)
  unfolding on_connection
  individual_ind tpci frame =
      if tpci >>> 2 == 0
      then pure (some (Types.data_individual frame))
      else if tpci >>> 6 == 1
      then on_connection (data_connected frame)
      else if tpci == 0x80
      then on_connection (connect frame)
      else if tpci == 0x81
      then on_connection (disconnect frame)
      else if bit_and tpci 0x3c == 0xc2
      then on_connection (ack frame)
      else if bit_and tpci 0x3c == 0xc4
      then on_connection (nak frame)
      else fail (invalid_tpdu tpci)

  group_ind : ℕ → Frame → M (Option TransportServiceInd)
  group_ind tpci frame =
      if tpci == 0
      then pure (some (Types.data_group frame))
      else if tpci == 1
      then pure (some (data_tag_group frame))
      else fail (invalid_tpdu tpci)

  broadcast_ind : ℕ → Frame → M (Option TransportServiceInd)
  broadcast_ind tpci frame =
      if tpci == 0 then pure (some (Types.data_broadcast frame)) else fail (invalid_tpdu tpci)

  unfoldable pub receive_ind : NetworkServiceInd → M (Option TransportServiceInd)
  unfolding individual_ind group_ind broadcast_ind
  receive_ind (data_individual frame) = do
    tpci ← lift (Dispatch.tpci env eight frame)
    individual_ind tpci frame
  receive_ind (data_broadcast frame) = do
    tpci ← lift (Dispatch.tpci env six frame)
    broadcast_ind tpci frame
  receive_ind (data_group frame) = do
    tpci ← lift (Dispatch.tpci env six frame)
    group_ind tpci frame
  receive_ind (data_system_broadcast frame) = pure (some (Types.data_system_broadcast frame))

  received : Option NetworkServiceInd → M (Option TransportServiceInd)
  unfolding receive_ind
  received none = pure none
  received (some ind) = receive_ind ind

  -- One round of the loop of `receive`. The guard that `borrow_mut` gives the scrutinee of the
  -- `match` lives until the end of the statement, so the arms run with the cell borrowed. A
  -- tick can come only from a ticker.
  unfoldable pub round : Wakeup → M (Option TransportServiceInd)
  unfolding borrow_mut has_ticker received
  round (frame_arrives frame) =
      borrow_mut do ind ← Network.receive_step env (DataLink.receive frame); received ind
  round tick =
      borrow_mut do armed ← has_ticker; if armed then borrow_mut connection_timeout else pure none

  -- `receive`, on what wakes it; with nothing more to come it stays pending.
  unfoldable pub receive : List Wakeup → M TransportServiceInd
  unfolding round
  receive [] n = (pending, n)
  receive (w ∷ ws) n =
      let later = receive ws in
      (round w >>= λ found. elim found [ none ↦ later | some ind ↦ pure ind ]) n
