-- ===== src/Transport/Layer/Quiet.antt =====
-- What `receive` of the transport layer leaves alone (src/transport_layer.rs).
use embassy_knx.Prelude.{◌≡◌, refl, arith, true, false, List, [], ◌∷◌}
use embassy_knx.Frame.Writer.{Platform}
use embassy_knx.Node.{Node}
use embassy_knx.DataLink
use embassy_knx.Network
use embassy_knx.Network.{NetworkServiceInd}
use embassy_knx.Transport.Layer.{receive_ind, round, receive, Wakeup, frame_arrives, tick}

-- With the cell of the connection borrowed, a telegram changes nothing.
receive_ind-borrowed :
    (env : Platform) (ind : NetworkServiceInd) (n : Node)
    → n.borrowed ≡ true
    → (receive_ind env ind n).1 ≡ n
unfolding receive_ind
receive_ind-borrowed env (Network.data_individual frame) n held = ground arith
receive_ind-borrowed env (Network.data_group frame) n held = ground arith
receive_ind-borrowed env (Network.data_broadcast frame) n held = ground arith
receive_ind-borrowed env (Network.data_system_broadcast frame) n held = ground arith

-- A round changes nothing, since the cell of the connection is borrowed in it.
round-quiet : (env : Platform) (w : Wakeup) (n : Node) → n.borrowed ≡ false → (round env w n).1 ≡ n
unfolding round Network.receive_step DataLink.receive
round-quiet env (frame_arrives frame) n free = grind (arith, receive_ind-borrowed env)
round-quiet env tick n free = ground arith

-- `receive` of the transport layer leaves all of the layers' state as it is, whatever wakes it and
-- however it ends, where the cell of the connection is free: it sends nothing, takes no block, and
-- gives the cell back. So nothing is lost where the application layer drops a pending `receive`.
pub receive-quiet :
    (env : Platform) (ws : List Wakeup) (n : Node) → n.borrowed ≡ false → (receive env ws n).1 ≡ n
unfolding receive
receive-quiet env [] n free = refl
receive-quiet env (w ∷ ws) n free =
    grind (arith, round-quiet env w n free, receive-quiet env ws n free)
