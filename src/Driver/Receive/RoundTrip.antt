-- ===== src/Driver/Receive/RoundTrip.antt =====
-- A telegram on the line is received (src/ncn51_driver.rs).
use embassy_knx.Prelude.{
  ℕ, suc, ◌+◌, ◌-◌, ◌%◌, ◌≡◌, refl, sym, arith, bit_and, true, false, if◌then◌else◌,
}
use embassy_knx.Prelude.{List, [], ◌∷◌, ◌++◌, Bytes, length, replicate, Outcome, ok, Bool}
use mathlib.Core.List.{append-nil}
use embassy_knx.Address.{Address, individual, group}
use embassy_knx.Address.Individual
use embassy_knx.Settings
use embassy_knx.Frame.Header.{IsBytes, decode, dst_of}
use embassy_knx.Frame.Writer.{Platform}
use embassy_knx.Frame.Dispatch.{Frame, standard}
use embassy_knx.Frame.Standard
use embassy_knx.Frame.Standard.Length.{new_lem}
use embassy_knx.Frame.Standard.Reads.{Reads-decode}
use embassy_knx.Driver.Uart.{TransferError, Driver, Line, silence, ack, pure, write, send_ack}
use embassy_knx.Driver.Receive.{
  receive_rest, receive_frame_int, receive_frame, ack_if_addressed, read_part, or_timeout,
  or_return,
}
use embassy_knx.Driver.Receive.Reading.{line_of, read_all, read_until_silence}
use embassy_knx.Driver.Receive.Checks.{IsTelegram, accept_telegram}

-- What is written for a telegram to the address: an acknowledgement, or nothing.
abbrev pub acks : Address → Bytes
acks (individual a) = if Individual.eq a Settings.address then 0x11 ∷ [] else []
acks (group a) = 0x11 ∷ []

-- The destination in the bytes of a telegram.
abbrev pub destination : Bytes → Address
destination b = dst_of (decode b).dst_group (decode b).dst

ack_written :
    (a : Address) (d : Driver)
    → d.tx ≡ []
    → ack_if_addressed a d ≡ (ok tt, record d { written = d.written ++ acks a })
unfolding ack_if_addressed send_ack write
ack_written (individual a) d free = if_matching (Individual.eq a Settings.address)
  where
    if_matching :
        (matches : Bool)
        → (if matches then send_ack ack else pure tt) d
          ≡ (ok tt, record d { written = d.written ++ (if matches then 0x11 ∷ [] else []) })
    if_matching true = rw free
    if_matching false = rw (append-nil d.written)
ack_written (group a) d free = rw free

module _ (env : Platform) (b0 b1 b2 b3 b4 b5 b6 : ℕ) (rest : Bytes) (d : Driver)
    (later : List Line) where
  received_rest :
      let telegram : Bytes = b0 ∷ b1 ∷ b2 ∷ b3 ∷ b4 ∷ b5 ∷ b6 ∷ rest in
      IsTelegram telegram
      → d.tx ≡ []
      → d.rx ≡ line_of rest (silence ∷ later)
      → receive_rest
          (Standard.writer env)
          (1 + 6)
          (b0 ∷ b1 ∷ b2 ∷ b3 ∷ b4 ∷ b5 ∷ b6 ∷ replicate 17 0)
          d
        ≡ (ok telegram, record d { rx = later; written = d.written ++ acks (destination telegram) })
  unfolding receive_rest read_part or_timeout
  received_rest t free line =
      let telegram : Bytes = b0 ∷ b1 ∷ b2 ∷ b3 ∷ b4 ∷ b5 ∷ b6 ∷ rest in
      let frame : Bytes = b0 ∷ b1 ∷ b2 ∷ b3 ∷ b4 ∷ b5 ∷ b6 ∷ replicate 17 0 in
      let size : length rest + 7 ≡ b5 % 16 + 8 = omega (arith, t.well_formed.agrees) in
      let left : ℕ = 16 - length rest in
      let fits : length rest + suc left ≡ 17 = omega arith in
      let none_before : 0 + length rest ≡ length rest = omega arith in
      let bytes : IsBytes frame = omega (arith, t.well_formed.bytes) in
      rw (
        (Reads-decode env frame (omega arith) bytes).reads_dst,
        ack_written (destination telegram) d free,
        line,
        read_until_silence rest 0 17 left later (sym fits),
        append-nil (rest ++ replicate (suc left) 0),
        none_before,
        accept_telegram env b0 b1 b2 b3 b4 b5 b6 rest (suc left)
            (record d { rx = later; written = d.written ++ acks (destination telegram) })
            (omega (arith, t.well_formed.bytes)) fits size t.sealed,
      )

-- What `receive_frame` makes of a telegram `b`.
abbrev pub received_as :
    Bytes → List Line → List Bool → Driver → Outcome TransferError Frame × Driver
received_as b later pool d = (
  ok (standard b),
  record d { rx = later; pool = pool; written = d.written ++ acks (destination b) },
)

-- A whole standard telegram whose first byte has come, and whose others are on the line before a
-- silence, is received as it is, with a free block and writes that succeed. An acknowledgement is
-- written exactly when it is for a group or for this device, and what the line brings after the
-- silence is left.
pub receive_frame_lem :
    (env : Platform) (ctrl : ℕ) (rest : Bytes) (d : Driver) {later : List Line} {pool : List Bool}
    → IsTelegram (ctrl ∷ rest)
    → bit_and ctrl 0xd3 ≡ 0x90
    → d.rx ≡ line_of rest (silence ∷ later)
    → d.pool ≡ true ∷ pool
    → d.tx ≡ []
    → receive_frame env ctrl d ≡ received_as (ctrl ∷ rest) later pool d
unfolding receive_frame receive_frame_int read_part or_return
receive_frame_lem env ctrl (b1 ∷ b2 ∷ b3 ∷ b4 ∷ b5 ∷ b6 ∷ rest) d {later = later} {pool = pool}
      telegram std line free writes =
    let after_header : Driver = record d { pool = pool; rx = line_of rest (silence ∷ later) } in
    rw (
      std,
      free,
      new_lem env 24 (omega arith) (omega arith),
      line,
      read_all (b1 ∷ b2 ∷ b3 ∷ b4 ∷ b5 ∷ b6 ∷ []) 0 (line_of rest (silence ∷ later)),
      received_rest env ctrl b1 b2 b3 b4 b5 b6 rest after_header later telegram writes refl,
    )
receive_frame_lem env ctrl _ d telegram std line free writes =
    absurd (omega (arith, telegram.well_formed.long))
