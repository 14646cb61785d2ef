-- ===== src/Application/Laws.antt =====
-- The telegram that answers a read of a group value.
use embassy_knx.Prelude.{ℕ, ◌+◌, ◌%◌, ◌<◌, ◌≡◌, refl, ◌∙◌, arith}
use embassy_knx.Prelude.{
  bit_or, Bytes, length, drop, List, [], ◌∷◌, ◌++◌, All, Bool, true, ok, ◌>>=◌, >>=-ok,
}
use embassy_knx.Prelude.Bits.Fields.{zero-bit_or}
use embassy_knx.Prelude.Bits.Tables.{holds_below, agree_sound}
use embassy_knx.Settings
use embassy_knx.Address
use embassy_knx.Address.Group
use embassy_knx.DataPoint.{DataPoint, b1, b2, u8}
use embassy_knx.Frame.Types.{FrameResult, Priority, priority_value, six, four}
use embassy_knx.Frame.Writer.{Platform}
use embassy_knx.Frame.Dispatch
use embassy_knx.Frame.Header.{Header, decode}
use embassy_knx.Frame.Standard.Build.{
  IsWellFormed, Writes-IsWellFormed, telegram, from_datapoint_lem,
}
use embassy_knx.Frame.Standard.Setters.{
  Setter, IsInRange, apply_all, update_all, apply_all-update_all,
}
use embassy_knx.Application
use embassy_knx.Application.Response
use embassy_knx.Application.Response.{GroupReadResponse}
use embassy_knx.Node.{Node, con_reset, enqueue, con_wait}
use embassy_knx.Network
use embassy_knx.Transport.Layer
use embassy_knx.Transport.Telegrams.{info_frame}

-- What a value puts into the byte of the APCI, and the bytes that it takes behind it.
abbrev pub small : DataPoint → ℕ
small (b1 v) = v % 2
small (b2 v) = v % 4
small (u8 v) = 0

abbrev pub payload : DataPoint → Bytes
payload (b1 v) = []
payload (b2 v) = []
payload (u8 v) = v ∷ []

-- The header of an answer: from 1.1.120 to the group 1/1/98, seven hops, and the APCI of a
-- response with a small value in its lowest bits.
abbrev pub answer_header : DataPoint → Priority → Header
answer_header d p = record {
  kind = 1;
  repeat = 0;
  priority = priority_value p;
  src = 0x1178;
  dst_group = 1;
  dst = 0x0962;
  hop_count = 7;
  lg = 1 + length (payload d);
  tpci = 0;
  apci = 64 + small d;
}

-- A well-formed telegram that carries the value, with a last byte free for the checksum.
pub record IsAnswer (d : DataPoint) (p : Priority) (b : Bytes) : Type 0 where
  pub well_formed : IsWellFormed b
  pub header : decode b ≡ answer_header d p
  pub carries : drop 8 b ≡ payload d ++ 0 ∷ []

-- The value fits the byte of its newtype.
abbrev pub IsByteValue : DataPoint → Type 0
IsByteValue (b1 v) = v < 256
IsByteValue (b2 v) = v < 256
IsByteValue (u8 v) = v < 256

abbrev setters : Priority → List Setter
setters p =
    Setter.apci four 1
    ∷ Setter.priority p
    ∷ Setter.hop_count 7
    ∷ Setter.dst_addr (Address.group (Group.from_parts 1 1 98))
    ∷ Setter.src_addr Settings.address
    ∷ Setter.tpci six 0
    ∷ []

-- The frame that goes to the network layer, from a response made for the value.
frame_for : Platform → DataPoint → Priority → FrameResult Dispatch.Frame
frame_for env d p = Response.to_transport env (Response.new 0 d p) 0 true >>= λ req.
    info_frame env req (Group.from_parts 1 1 98)

frame_for-apply_all :
    (env : Platform) (d : DataPoint) (p : Priority)
    → frame_for env d p ≡ (apply_all env (setters p) (telegram d) >>= λ b. ok (Dispatch.standard b))
unfolding frame_for Response.to_transport Response.new info_frame Dispatch.from_datapoint
    Dispatch.set_apci Dispatch.set_priority Dispatch.set_hop_count Group.from_parts
frame_for-apply_all env (b1 v) p = rw (from_datapoint_lem env (b1 v))
frame_for-apply_all env (b2 v) p = rw (from_datapoint_lem env (b2 v))
frame_for-apply_all env (u8 v) p = rw (from_datapoint_lem env (u8 v))

response_bit : (x : ℕ) → x < 4 → bit_or x 64 ≡ 64 + x
unfolding holds_below
response_bit = agree_sound 4 _ _ refl

meaning :
    (d : DataPoint) (p : Priority)
    → update_all (setters p) (decode (telegram d)) ≡ answer_header d p
unfolding Settings.address Group.from_parts
meaning (b1 v) p = ground (arith, response_bit (v % 2), zero-bit_or (priority_value p))
meaning (b2 v) p = ground (arith, response_bit (v % 4), zero-bit_or (priority_value p))
meaning (u8 v) p = ground (arith, zero-bit_or (priority_value p))

telegram-IsWellFormed : (d : DataPoint) → IsByteValue d → IsWellFormed (telegram d)
telegram-IsWellFormed (b1 v) h = omega arith
telegram-IsWellFormed (b2 v) h = omega arith
telegram-IsWellFormed (u8 v) h = omega arith

telegram-payload : (d : DataPoint) → drop 8 (telegram d) ≡ payload d ++ 0 ∷ []
telegram-payload (b1 v) = refl
telegram-payload (b2 v) = refl
telegram-payload (u8 v) = refl

setters_fit : (p : Priority) → All IsInRange (setters p)
unfolding Settings.address Group.from_parts
setters_fit p = (omega arith, (tt, (tt, (omega arith, (omega arith, (tt, tt))))))

frame_for-IsAnswer :
    (env : Platform) (d : DataPoint) (p : Priority)
    → IsByteValue d
    → (b : Bytes) × (frame_for env d p ≡ ok (Dispatch.standard b)) × IsAnswer d p b
frame_for-IsAnswer env d p h =
    let start = telegram-IsWellFormed d h in
    let written =
      apply_all-update_all env (setters p) (telegram d) start.long start.bytes (setters_fit p) in
    (
      written.out,
      frame_for-apply_all env d p ∙ rw written.succeeds,
      record {
        well_formed = Writes-IsWellFormed (setters p) (telegram d) start written;
        header = written.header ∙ meaning d p;
        carries = written.same_data ∙ telegram-payload d;
      },
    )

-- With a free block, a response of any value of a byte and any priority is sent and confirmed as
-- one telegram, which answers for the value from this device to the group, and changes nothing
-- else: the call neither fails nor panics.
pub respond_answers :
    (env : Platform) (d : DataPoint) (p : Priority) (n : Node) {later : List Bool}
    → IsByteValue d
    → n.pool ≡ true ∷ later
    → (b : Bytes) × IsAnswer d p b
      × (Application.respond env (Application.res_group_value_read (Response.new 0 d p)) n ≡ (
        ok tt,
        record n {
          pool = later;
          trace = n.trace ++ con_reset ∷ enqueue (Dispatch.standard b) ∷ con_wait ∷ [];
        },
      ))
unfolding Application.respond Layer.send Network.send frame_for
respond_answers env d p n h free =
    let (b, made, answers) = frame_for-IsAnswer env d p h in
    let (req, filled, built) =
      >>=-ok (λ req. info_frame env req (Group.from_parts 1 1 98))
        (Response.to_transport env (Response.new 0 d p) 0 true) made in
    (b, answers, ground (arith, built, filled))
