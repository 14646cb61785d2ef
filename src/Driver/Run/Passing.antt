-- ===== src/Driver/Run/Passing.antt =====
-- What the rounds of the driver pass on, whatever the line brings (src/ncn51_driver.rs, `run`).
use embassy_knx.Prelude.{ℕ, ◌<◌, ◌≡◌, inl, inr, Bool-cases, ==_iff, ◌==◌, bit_and}
use embassy_knx.Prelude.{All, All-append, List, [], ◌∷◌, Bytes, Outcome, ok, err, panic, pending}
use embassy_knx.Prelude.Word.{dev}
use embassy_knx.Frame.Dispatch.{Frame, standard, extended}
use embassy_knx.Frame.Extended
use embassy_knx.Frame.Writer.{Platform}
use embassy_knx.Driver.Uart.{
  Driver, TransferError, Line, byte, silence, fault, read, next_byte, bind_outcome, pure,
}
use embassy_knx.Driver.Receive.{is_frame_start, receive_frame, receive_frame_int}
use embassy_knx.Driver.Receive.Reading.{IsByteLine}
use embassy_knx.Driver.Receive.Checks.{IsTelegram}
use embassy_knx.Driver.Receive.Keeps.{receive_frame-IsPrivate}
use embassy_knx.Driver.Receive.Sound.{IsPassed, receive_frame-IsPassed}
use embassy_knx.Driver.Receive.LongFrames.{NeverOk, receive_int-NeverOk}
use embassy_knx.Driver.Receive.Remainder.{receive_frame-KeepsAll, dump-All}
use embassy_knx.Driver.Run.{run_step, line_read, after_receive, on_byte}

-- A whole telegram of the standard format.
abbrev pub IsWhole : Frame → Type 0
IsWhole (standard b) = IsTelegram b
IsWhole (extended b) = ⊥

abbrev GivesWhole : Outcome TransferError Frame → Type 0
GivesWhole (ok f) = IsWhole f
GivesWhole _ = Unit

passed-GivesWhole : (r : Outcome TransferError Frame) → IsPassed r → GivesWhole r
passed-GivesWhole (ok (standard b)) h = h
passed-GivesWhole (ok (extended b)) h = absurd h
passed-GivesWhole (err e) h = tt
passed-GivesWhole panic h = tt
passed-GivesWhole pending h = tt

never-GivesWhole :
    (r : Outcome TransferError Bytes × Driver)
    → NeverOk r
    → GivesWhole (bind_outcome r.0 (λ b. pure (extended b)) r.1).0
never-GivesWhole (ok b, d) h = absurd h
never-GivesWhole (err e, d) h = tt
never-GivesWhole (panic, d) h = tt
never-GivesWhole (pending, d) h = tt

module _ (env : Platform) (checks : env.profile ≡ dev) where
  received-GivesWhole :
      (ctrl : ℕ) (d : Driver)
      → ctrl < 256
      → All IsByteLine d.rx
      → GivesWhole (receive_frame env ctrl d).0
  unfolding receive_frame
  received-GivesWhole ctrl d bounded line = elim (Bool-cases (bit_and ctrl 0xd3 == 0x90)) [
    | inl std ↦
        passed-GivesWhole (receive_frame env ctrl d).0
          (receive_frame-IsPassed env ctrl d bounded ((==_iff _ _).0 std) line)
    | inr other ↦ elim (Bool-cases (bit_and ctrl 0xd3 == 0x10)) [
      | inl ext ↦
          rw (other, ext)
            (never-GivesWhole (receive_frame_int (Extended.writer env) ctrl d)
              (receive_int-NeverOk env checks ctrl d))
      | inr neither ↦ rw (other, neither) tt
    ]
  ]

  -- What a round keeps: the frames to pass on are whole telegrams, and the line brings bytes.
  abbrev IsSound : Driver → Type 0
  IsSound d = All IsWhole d.passed × All IsByteLine d.rx

  after_receive-IsSound :
      (r : Outcome TransferError Frame) (d : Driver)
      → GivesWhole r
      → IsSound d
      → IsSound (after_receive r d).1
  unfolding after_receive
  after_receive-IsSound (ok f) d whole (passes, line) =
      (All-append IsWhole d.passed (f ∷ []) passes (whole, tt), line)
  after_receive-IsSound (err e) d whole (passes, line) = (passes, dump-All IsByteLine 0 d.rx line)
  after_receive-IsSound panic d whole sound = sound
  after_receive-IsSound pending d whole sound = sound

  byte-IsSound :
      (ctrl : ℕ) (d : Driver) → ctrl < 256 → IsSound d → IsSound (on_byte env (ok ctrl) d).1
  unfolding on_byte
  byte-IsSound ctrl d bounded (passes, line) = elim (Bool-cases (is_frame_start ctrl)) [
    | inl starts ↦
        let r = receive_frame env ctrl d in
        rw starts (
          after_receive-IsSound r.0 r.1 (received-GivesWhole ctrl d bounded line) (
            rw (receive_frame-IsPrivate env ctrl d).0 passes,
            receive_frame-KeepsAll IsByteLine env ctrl d line,
          ))
    | inr other ↦ rw other (passes, line)
  ]

  on_line-IsSound :
      (rx : List Line) (d : Driver)
      → All IsWhole d.passed
      → All IsByteLine rx
      → IsSound (on_byte env (next_byte rx).0 (record d { rx = (next_byte rx).1 })).1
  unfolding next_byte on_byte
  on_line-IsSound [] d passes line = (passes, tt)
  on_line-IsSound (byte v ∷ rx) d passes line =
      byte-IsSound v (record d { rx = rx }) line.0 (passes, line.1)
  on_line-IsSound (silence ∷ rx) d passes line = on_line-IsSound rx d passes line.1
  on_line-IsSound (fault e ∷ rx) d passes line = (passes, line.1)

  -- A round on the line, under overflow checks.
  pub line_read-IsSound : (d : Driver) → IsSound d → IsSound (run_step env line_read d).1
  unfolding run_step read
  line_read-IsSound d (passes, line) = on_line-IsSound d.rx d passes line
