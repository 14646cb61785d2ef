-- ===== src/Driver/Receive/Sound.antt =====
-- What the driver lets through from the line (src/ncn51_driver.rs, `receive_frame`).
use embassy_knx.Prelude.{ℕ, zero, ◌+◌, ◌/◌, ◌<◌, ◌≡◌, refl, arith}
use embassy_knx.Prelude.{bit_and, Bool, true, false, All-append}
use embassy_knx.Prelude.{
  List, [], ◌∷◌, ◌++◌, Bytes, length, All, replicate, Outcome, ok, err, panic, pending,
}
use embassy_knx.Frame.Header.{IsBytes, decode}
use mathlib.Core.List.{append-nil}
use embassy_knx.Address.{Address}
use embassy_knx.Frame.Standard.Reads.{Reads, Reads-decode}
use embassy_knx.Frame.Writer.{Platform}
use embassy_knx.Frame.Dispatch.{Frame, standard, extended}
use embassy_knx.Frame.Standard
use embassy_knx.Frame.Standard.Length.{new_lem, new_failures}
use embassy_knx.Driver.Uart.{
  Driver, TransferError, frame_error, bind_outcome, answer, pure, write, send_ack, Line,
  timeout_error, read_error, invalid_data, ◌>>=◌,
}
use embassy_knx.Driver.Receive.{
  accept, receive_rest, ack_if_addressed, read_part, or_timeout, or_return, receive_frame_int,
  receive_frame,
}
use embassy_knx.Driver.Receive.Checks.{Ends, bind-Ends, IsTelegram, accept-Ends}
use embassy_knx.Driver.Receive.Reading.{IsByteLine, Says, IsReading, read_lem}
use embassy_knx.Driver.Receive.Accepting.{starts-standard}

ack-Ends : (a : Address) (d : Driver) → Ends (λ _ d'. d'.rx ≡ d.rx) (ack_if_addressed a d)
unfolding ack_if_addressed send_ack write
ack-Ends a d = ground arith

abbrev header : ℕ → ℕ → ℕ → ℕ → ℕ → ℕ → ℕ → Bytes
header b0 b1 b2 b3 b4 b5 b6 = b0 ∷ b1 ∷ b2 ∷ b3 ∷ b4 ∷ b5 ∷ b6 ∷ []

module _ (env : Platform) (b0 b1 b2 b3 b4 b5 b6 : ℕ) (d : Driver) where
  after_second :
      (run : Outcome TransferError ℕ × Bytes × List Line)
      → IsBytes (header b0 b1 b2 b3 b4 b5 b6)
      → b0 / 128 ≡ 1
      → IsReading 17 0 run
      → Ends
          (λ b later. IsTelegram b)
          ((or_timeout run.0 >>= λ n.
              accept (Standard.writer env) (1 + 6 + n) (header b0 b1 b2 b3 b4 b5 b6 ++ run.1 ++ []))
            d)
  unfolding or_timeout
  after_second (ok n, buf, later) bytes std r =
      let whole : n ≡ length r.got = omega (arith, r.says) in
      rw (r.buffer, append-nil (r.got ++ replicate r.left 0), whole)
        (accept-Ends env b0 b1 b2 b3 b4 b5 b6 r.got r.left d
          (All-append (λ x. x < 256) (header b0 b1 b2 b3 b4 b5 b6) r.got bytes r.bytes) r.fits std)
  after_second (err (timeout_error n), buf, later) bytes std r =
      let whole : n ≡ length r.got = omega (arith, r.says) in
      rw (r.buffer, append-nil (r.got ++ replicate r.left 0), whole)
        (accept-Ends env b0 b1 b2 b3 b4 b5 b6 r.got r.left d
          (All-append (λ x. x < 256) (header b0 b1 b2 b3 b4 b5 b6) r.got bytes r.bytes) r.fits std)
  after_second (err (read_error e), buf, later) bytes std r = tt
  after_second (err (frame_error e), buf, later) bytes std r = elim r.says [ ]
  after_second (err (invalid_data e), buf, later) bytes std r = elim r.says [ ]
  after_second (panic, buf, later) bytes std r = elim r.says [ ]
  after_second (pending, buf, later) bytes std r = elim r.says [ ]

module _ (env : Platform) (b0 b1 b2 b3 b4 b5 b6 : ℕ) (d : Driver) where
  receive_rest-Ends :
      IsBytes (header b0 b1 b2 b3 b4 b5 b6)
      → b0 / 128 ≡ 1
      → All IsByteLine d.rx
      → Ends
          (λ b later. IsTelegram b)
          (receive_rest
            (Standard.writer env)
            (1 + 6)
            (header b0 b1 b2 b3 b4 b5 b6 ++ replicate 17 0)
            d)
  unfolding receive_rest read_part
  receive_rest-Ends bytes std line =
      let frame : Bytes = header b0 b1 b2 b3 b4 b5 b6 ++ replicate 17 0 in
      let reads : Reads env frame (decode frame) =
        Reads-decode env frame (omega arith) (omega (arith, bytes)) in
      rw (reads.reads_dst) (
        bind-Ends (λ _ d'. d'.rx ≡ d.rx) (λ b later. IsTelegram b) (ack_if_addressed _ d) _
          (ack-Ends _ d)
          (λ a d' same.
            after_second env b0 b1 b2 b3 b4 b5 b6 _ _ bytes std
              (read_lem 17 0 d'.rx (rw same line))))

-- The header is read into six of the 23 bytes behind the control byte.
module _ (env : Platform) (ctrl : ℕ) (d : Driver) where
  after_first :
      (run : Outcome TransferError ℕ × Bytes × List Line)
      → ctrl < 256
      → ctrl / 128 ≡ 1
      → IsReading 6 0 run
      → d.rx ≡ run.2
      → Ends
          (λ b later. IsTelegram b)
          ((or_return run.0 >>= λ n.
              receive_rest (Standard.writer env) (1 + n) (ctrl ∷ run.1 ++ replicate 17 0))
            d)
  unfolding or_return
  after_first (ok n, buf, later) byte std r line =
      of_length r.got r.left r.buffer r.fits r.bytes r.says
    where
      of_length :
          (got : Bytes) (left : ℕ)
          → buf ≡ got ++ replicate left 0
          → length got + left ≡ 6
          → IsBytes got
          → Says (0 + length got) left (ok n)
          → Ends
              (λ b later. IsTelegram b)
              (receive_rest (Standard.writer env) (1 + n) (ctrl ∷ buf ++ replicate 17 0) d)
      of_length (b1 ∷ b2 ∷ b3 ∷ b4 ∷ b5 ∷ b6 ∷ []) zero same fits bytes says =
          rw (same, says.0)
            (receive_rest-Ends env ctrl b1 b2 b3 b4 b5 b6 d (byte, bytes) std (rw line r.line))
      of_length _ _ same fits bytes says = absurd (omega (arith, fits, says))
  after_first (err e, buf, later) byte std r line = tt
  after_first (panic, buf, later) byte std r line = elim r.says [ ]
  after_first (pending, buf, later) byte std r line = elim r.says [ ]

receive_int-Ends :
    (env : Platform) (ctrl : ℕ) (d : Driver)
    → ctrl < 256
    → ctrl / 128 ≡ 1
    → All IsByteLine d.rx
    → Ends (λ b later. IsTelegram b) (receive_frame_int (Standard.writer env) ctrl d)
unfolding receive_frame_int read_part
receive_int-Ends env ctrl d byte std line = by_pool (answer d.pool) refl
  where
    by_pool :
        (free : Bool)
        → answer d.pool ≡ free
        → Ends (λ b later. IsTelegram b) (receive_frame_int (Standard.writer env) ctrl d)
    by_pool true h =
        rw (h, new_lem env 24 (omega arith) (omega arith))
          (after_first env ctrl _ _ byte std (read_lem 6 0 d.rx line) refl)
    by_pool false h = rw (h, (new_failures env 24 265 (omega arith)).0) tt

-- The driver passes on a whole standard telegram, or nothing.
abbrev pub IsPassed : Outcome TransferError Frame → Type 0
IsPassed (ok (standard b)) = IsTelegram b
IsPassed (ok (extended b)) = ⊥
IsPassed (err e) = Unit
IsPassed panic = ⊥
IsPassed pending = ⊥

-- Whatever bytes, silences and faults the line brings after the first byte of a standard frame,
-- `receive_frame` ends without a panic and without waiting for ever: with an error, or with a
-- telegram that is well formed, as long as its length field says, and has a valid checksum. This
-- holds for every state of the pool and every failure of the writes of acknowledgements.
pub receive_frame-IsPassed :
    (env : Platform) (ctrl : ℕ) (d : Driver)
    → ctrl < 256
    → bit_and ctrl 0xd3 ≡ 0x90
    → All IsByteLine d.rx
    → IsPassed (receive_frame env ctrl d).0
unfolding receive_frame
receive_frame-IsPassed env ctrl d byte std line =
    rw std (passed _ (receive_int-Ends env ctrl d byte (starts-standard ctrl byte std) line))
  where
    passed :
        (run : Outcome TransferError Bytes × Driver)
        → Ends (λ b later. IsTelegram b) run
        → IsPassed (bind_outcome run.0 (λ b. pure (standard b)) run.1).0
    passed (ok b, d) h = h
    passed (err e, d) h = tt
    passed (panic, d) h = h
    passed (pending, d) h = h
