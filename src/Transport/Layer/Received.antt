-- ===== src/Transport/Layer/Received.antt =====
-- What the layer makes of a telegram, and what happens when `receive` meets one.
use embassy_knx.Prelude.{ℕ, ◌*◌, ◌/◌, ◌%◌, ◌≤◌, ◌<◌, ◌≡◌, ◌⊎◌, refl, arith}
use embassy_knx.Prelude.{true, false, Option, some, List, ◌∷◌, if◌then◌else◌}
use embassy_knx.Prelude.{ltb, ◌==◌, ◌&&◌, bit_and, ok, err, panic, is_some}
use embassy_knx.Prelude.Bits.Tables.{holds_below, agree_sound}
use embassy_knx.Address.{individual, group}
use embassy_knx.Address.Individual.{IndividualAddress}
use embassy_knx.Address.Group
use embassy_knx.Frame.Types.{FrameResult, invalid_tpdu, six, eight}
use embassy_knx.Frame.Dispatch
use embassy_knx.Frame.Dispatch.{Frame}
use embassy_knx.Frame.Writer.{Platform}
use embassy_knx.Node.{Node}
use embassy_knx.DataLink
use embassy_knx.Network
use embassy_knx.Transport.Machine.{handle_ind}
use embassy_knx.Transport.Types
use embassy_knx.Transport.Types.{
  TransportServiceInd, connect, disconnect, data_connected, data_tag_group,
}
use embassy_knx.Transport.Layer.{receive_ind, receive, Wakeup, frame_arrives, tick}

mask_3c : (t : ℕ) → t < 256 → bit_and t 0x3c ≡ t / 4 % 16 * 4
unfolding holds_below
mask_3c = agree_sound 256 _ _ refl

-- A call on the connection, which is borrowed for it and given back.
abbrev on_free_connection :
    Platform → TransportServiceInd → Node → FrameResult (Option TransportServiceInd) × Node
on_free_connection env ind n =
    let (r, n') = handle_ind env ind (record n { borrowed = true }) in
    (r, record n' { borrowed = false })

-- What an individual telegram is by the eight bits of its TPCI.
abbrev pub by_tpci : Platform → ℕ → Frame → Node → FrameResult (Option TransportServiceInd) × Node
by_tpci env t frame n =
    if ltb t 4
    then (ok (some (Types.data_individual frame)), n)
    else if ltb 63 t && ltb t 128
    then on_free_connection env (data_connected frame) n
    else if t == 128
    then on_free_connection env (connect frame) n
    else if t == 129
    then on_free_connection env (disconnect frame) n
    else (err (invalid_tpdu t), n)

-- An individual telegram with a TPCI below 4 is passed on, one from 64 to 127 is a data frame
-- for the connection, 128 a connect and 129 a disconnect, where the cell of the connection is
-- free. All others are refused, and with them every acknowledgement (192 to 255): the masks by
-- 0x3c never equal 0xc2 or 0xc4.
pub receive_ind-by_tpci :
    (env : Platform) (frame : Frame) (t : ℕ) (n : Node)
    → Dispatch.tpci env eight frame ≡ ok t
    → t < 256
    → n.borrowed ≡ false
    → receive_ind env (Network.data_individual frame) n ≡ by_tpci env t frame n
unfolding receive_ind
receive_ind-by_tpci env frame t n read byte free = ground (arith, mask_3c t byte)

-- Connection-oriented: a data frame, a connect or a disconnect.
abbrev pub IsConnectionOriented : ℕ → Type 0
IsConnectionOriented t = ((64 ≤ t) × (t < 128)) ⊎ (t ≡ 128) ⊎ (t ≡ 129)

-- A connection-oriented telegram to an individual address makes `receive` panic: the cell that
-- its scrutinee has borrowed is still borrowed when the arm borrows it again.
pub receive-panic :
    (env : Platform) (frame : Frame) (later : List Wakeup) (t : ℕ) (n : Node)
    {dst : IndividualAddress}
    → Dispatch.dst_addr env frame ≡ ok (individual dst)
    → Dispatch.tpci env eight frame ≡ ok t
    → IsConnectionOriented t
    → (receive env (frame_arrives frame ∷ later) n).0 ≡ panic
unfolding receive Network.receive_step DataLink.receive receive_ind
receive-panic env frame later t n to read oriented = ground arith

-- The first tick of the connection's ticker, where it has one, makes `receive` panic too.
receive-tick_panic :
    (env : Platform) (later : List Wakeup) (n : Node)
    → is_some n.connection.connection_timeout ≡ true
    → (receive env (tick ∷ later) n).0 ≡ panic
unfolding receive
receive-tick_panic env later n armed = ground arith

-- A telegram to a group other than 0 is passed on by `receive` as data of the group when the
-- upper six bits of its TPCI are 0, and nothing changes.
pub receive_group :
    (env : Platform) (frame : Frame) (later : List Wakeup) (n : Node) {dst : Group.GroupAddress}
    → Dispatch.dst_addr env frame ≡ ok (group dst)
    → 0 < dst.raw
    → Dispatch.tpci env six frame ≡ ok 0
    → n.borrowed ≡ false
    → receive env (frame_arrives frame ∷ later) n ≡ (ok (Types.data_group frame), n)
unfolding receive Network.receive_step DataLink.receive receive_ind Group.eq Group.new
receive_group env frame later n to other read free = ground arith
