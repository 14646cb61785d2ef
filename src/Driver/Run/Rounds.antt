-- ===== src/Driver/Run/Rounds.antt =====
-- What one round of the driver does with what comes on the line (src/ncn51_driver.rs, `run`).
use embassy_knx.Prelude.{
  ◌⊎◌, inl, inr, ℕ, ◌+◌, ap, sym, ◌∙◌, arith, length, ◌<◌, ◌≡◌, refl, bit_and, not,
}
use embassy_knx.Prelude.{
  List, [], ◌∷◌, ◌++◌, Bytes, All, Outcome, ok, err, panic, pending, Bool, true,
}
use embassy_knx.Frame.Writer.{Platform}
use embassy_knx.Frame.Dispatch.{Frame, standard, extended}
use embassy_knx.Driver.Uart.{TransferError, Driver, Line, byte, silence, fault, read, dump}
use embassy_knx.Driver.Receive.{receive_frame, is_frame_start}
use embassy_knx.Driver.Receive.Reading.{line_of, IsByteLine}
use embassy_knx.Driver.Receive.Checks.{IsTelegram}
use embassy_knx.Driver.Receive.Keeps.{receive_frame-IsPrivate}
use embassy_knx.Driver.Receive.Sound.{IsPassed, receive_frame-IsPassed}
use embassy_knx.Driver.Receive.RoundTrip.{receive_frame_lem, acks, destination}
use embassy_knx.Driver.Run.{run_step, line_read, after_receive}

-- A whole standard telegram on the line before a silence, where a block is free and writes succeed,
-- is passed on to the stack in one round, which toggles the LED and acknowledges the telegram
-- where it is for this device or a group.
pub telegram_passed_on :
    (env : Platform) (ctrl : ℕ) (rest : Bytes) (d : Driver) {later : List Line} {pool : List Bool}
    → IsTelegram (ctrl ∷ rest)
    → bit_and ctrl 0xd3 ≡ 0x90
    → d.rx ≡ line_of (ctrl ∷ rest) (silence ∷ later)
    → d.pool ≡ true ∷ pool
    → d.tx ≡ []
    → run_step env line_read d ≡ (
      ok tt,
      record d {
        rx = later;
        pool = pool;
        written = d.written ++ acks (destination (ctrl ∷ rest));
        led = not d.led;
        passed = d.passed ++ standard (ctrl ∷ rest) ∷ [];
      },
    )
unfolding run_step read is_frame_start
telegram_passed_on env ctrl rest d {later = later} telegram std line free writes =
    let started : Driver = record d { rx = line_of rest (silence ∷ later) } in
    rw (line, std, receive_frame_lem env ctrl rest started telegram std refl free writes)

-- What a round adds to the frames passed on: one whole telegram, or nothing.
abbrev pub PassesTelegram : List Frame → List Frame → Type 0
PassesTelegram before now =
    (now ≡ before) ⊎ ((b : Bytes) × IsTelegram b × (now ≡ before ++ standard b ∷ []))

after_receive-PassesTelegram :
    (r : Outcome TransferError Frame) (before : List Frame) (d : Driver)
    → IsPassed r
    → d.passed ≡ before
    → let run = after_receive r d in (run.0 ≡ ok tt) × PassesTelegram before run.1.passed
unfolding after_receive
after_receive-PassesTelegram (ok (standard b)) before d h same = (refl, inr (b, h, rw same))
after_receive-PassesTelegram (ok (extended b)) before d h same = elim h [ ]
after_receive-PassesTelegram (err e) before d h same = (refl, inl same)
after_receive-PassesTelegram panic before d h same = elim h [ ]
after_receive-PassesTelegram pending before d h same = elim h [ ]

-- A round that begins with the first byte of a standard frame ends, whatever bytes, silences and
-- faults follow on the line, and whatever the pool and the writes answer: it never panics and
-- never waits for ever, so `run` goes on. It passes on to the stack one whole telegram, or nothing.
pub round_ends :
    (env : Platform) (ctrl : ℕ) (d : Driver) {later : List Line}
    → d.rx ≡ byte ctrl ∷ later
    → ctrl < 256
    → bit_and ctrl 0xd3 ≡ 0x90
    → All IsByteLine later
    → let run = run_step env line_read d in (run.0 ≡ ok tt) × PassesTelegram d.passed run.1.passed
unfolding run_step read is_frame_start
round_ends env ctrl d {later = later} line bounded std bytes =
    let started : Driver = record d { rx = later } in
    let run = receive_frame env ctrl started in
    rw (line, std)
      (after_receive-PassesTelegram run.0 d.passed run.1
        (receive_frame-IsPassed env ctrl started bounded std bytes)
        ((receive_frame-IsPrivate env ctrl started).0))

-- A byte or a fault.
abbrev pub IsNoise : Line → Type 0
IsNoise silence = ⊥
IsNoise _ = Unit

dump_lem :
    (noise : List Line) (count : ℕ) (later : List Line)
    → All IsNoise noise
    → dump count (noise ++ silence ∷ later) ≡ (count + length noise, later)
unfolding dump
dump_lem [] count later all = ap (λ n. (n, later)) (omega arith)
dump_lem (silence ∷ noise) count later all = elim all.0 [ ]
dump_lem (byte v ∷ noise) count later all =
    dump_lem noise (count + 1) later all.1 ∙ ap (λ n. (n, later)) (omega arith)
dump_lem (fault e ∷ noise) count later all =
    dump_lem noise (count + 1) later all.1 ∙ ap (λ n. (n, later)) (omega arith)

-- A round in which the reception of a frame of either format ends with an error passes nothing on,
-- and drops what follows on the line up to the next silence, bytes and faults alike, so that the
-- next round begins behind that silence.
pub failed_round_dumps :
    (env : Platform) (ctrl : ℕ) (d : Driver) {rx later : List Line} {e : TransferError}
    {d' : Driver} (noise : List Line)
    → d.rx ≡ byte ctrl ∷ rx
    → is_frame_start ctrl ≡ true
    → receive_frame env ctrl (record d { rx = rx }) ≡ (err e, d')
    → All IsNoise noise
    → d'.rx ≡ noise ++ silence ∷ later
    → (run_step env line_read d ≡ (ok tt, record d' { rx = later })) × (d'.passed ≡ d.passed)
unfolding run_step read after_receive
failed_round_dumps env ctrl d {rx = rx} {later = later} noise line starts fails all left = (
  rw (line, starts, fails, left, dump_lem noise 0 later all),
  ap (λ run. run.1.passed) (sym fails)
      ∙ (receive_frame-IsPrivate env ctrl (record d { rx = rx })).0,
)
