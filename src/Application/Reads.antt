-- ===== src/Application/Reads.antt =====
-- A read of a group value, from the telegram on the bus to the answer.
use embassy_knx.Prelude.{ℕ, ◌<◌, ◌≡◌, refl, arith, ◌==◌, if◌then◌else◌}
use embassy_knx.Prelude.{Bytes, List, [], ◌∷◌, ◌++◌, Bool, true, false, ok, pending}
use mathlib.Core.List.{append-nil}
use embassy_knx.Address.{group}
use embassy_knx.Address.Group.{GroupAddress}
use embassy_knx.DataPoint.{b1}
use embassy_knx.Frame.Types.{normal, six, four}
use embassy_knx.Frame.Writer.{Platform}
use embassy_knx.Frame.Dispatch
use embassy_knx.Frame.Dispatch.{Frame}
use embassy_knx.Node.{Node, Effect, con_reset, enqueue, con_wait, indicate, group_value_read}
use embassy_knx.Application
use embassy_knx.Application.{from_bus, response, res_group_value_read}
use embassy_knx.Application.Laws.{IsAnswer, respond_answers}
use embassy_knx.Application.Response
use embassy_knx.Transport.Layer.{frame_arrives}
use embassy_knx.Transport.Layer.Received.{receive_group}

-- What a group telegram with the APCI makes the application layer do.
abbrev pub indicated : ℕ → List Effect
indicated apci = if apci == 0 then indicate (group_value_read 0) ∷ [] else []

-- The answer of `main` is a response made for one bit that is set.
pub response_step :
    (env : Platform) (n : Node)
    → Application.run_step env
        (response (res_group_value_read (Response.answer (group_value_read 0))))
        n
      ≡ Application.respond env (res_group_value_read (Response.new 0 (b1 1) normal)) n
unfolding Application.run_step Response.answer
response_step env n = refl

-- A telegram of data to a group other than 0, where the connection's cell is free.
module _ (env : Platform) (frame : Frame) (n : Node) {dst : GroupAddress} {apci : ℕ}
    (to : Dispatch.dst_addr env frame ≡ ok (group dst)) (other : 0 < dst.raw)
    (plain : Dispatch.tpci env six frame ≡ ok 0) (read : Dispatch.apci env four frame ≡ ok apci)
    (free : n.borrowed ≡ false) where
  -- Data to a group other than 0 (the upper six bits of the TPCI are 0), where the connection's
  -- cell is free: it is indicated to the application if its APCI is that of a read, and else
  -- ignored; nothing else changes in either case.
  pub group_indicated :
      Application.run_step env (from_bus (frame_arrives frame)) n
      ≡ (ok tt, record n { trace = n.trace ++ indicated apci })
  unfolding Application.run_step
  group_indicated =
      rw (receive_group env frame [] n to other plain free) (ground (arith, append-nil n.trace))

  -- A read of a value, as data to a group other than 0, is answered, where the connection's cell
  -- and a block are free: it is indicated, and once the answer of `main` to the indication comes,
  -- one telegram is sent and confirmed, which carries the value 1 of one bit with normal priority.
  -- `run` then waits on.
  pub read_answered :
      {later : List Bool}
      → apci ≡ 0
      → n.pool ≡ true ∷ later
      → (b : Bytes) × IsAnswer (b1 1) normal b
        × (Application.run env
              (from_bus (frame_arrives frame)
                ∷ response (res_group_value_read (Response.answer (group_value_read 0)))
                ∷ [])
              n
            ≡ (
              pending,
              record n {
                pool = later;
                trace =
                    n.trace
                    ++ indicate (group_value_read 0) ∷ []
                    ++ con_reset ∷ enqueue (Dispatch.standard b) ∷ con_wait ∷ [];
              },
            ))
  unfolding Application.run
  read_answered is_read blocks =
      let shown : List Effect = indicate (group_value_read 0) ∷ [] in
      let indicates : indicated apci ≡ shown = rw is_read in
      let n' : Node = record n { trace = n.trace ++ shown } in
      let (b, answers, responds) = respond_answers env (b1 1) normal n' (omega arith) blocks in
      (b, answers, rw (group_indicated, indicates, response_step env n', responds))
