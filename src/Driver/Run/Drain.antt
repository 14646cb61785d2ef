-- ===== src/Driver/Run/Drain.antt =====
-- The loop of the driver comes to the end of the line (src/ncn51_driver.rs, `run`).
use embassy_knx.Prelude.{ℕ, zero, suc, ◌≤◌, ◌<◌, ◌≡◌, ◌≢◌, ◌⊎◌, inl, inr, refl, arith, Bool-cases}
use embassy_knx.Prelude.{List, [], ◌∷◌, length, replicate, Outcome, ok, err, panic, pending}
use embassy_knx.Frame.Dispatch.{Frame}
use embassy_knx.Frame.Writer.{Platform}
use embassy_knx.Driver.Uart.{
  Driver, TransferError, Line, byte, silence, fault, read, next_byte, bind_outcome,
}
use embassy_knx.Driver.Receive.{is_frame_start, receive_frame}
use embassy_knx.Driver.Receive.Drain.{dump-le, receive_frame-ReadsOn}
use embassy_knx.Driver.Receive.Prompt.{receive_frame-IsPrompt}
use embassy_knx.Driver.Run.{Wakeup, run_step, run, line_read, after_receive, on_byte}

-- How a round on a line of `size` events ends: `run` goes on with less of the line, the device
-- panics, or the driver waits, with nothing left of the line.
abbrev IsRound : ℕ → Outcome TransferError (Unit {0}) × Driver → Type 0
IsRound size (ok _, d) = length d.rx < size
IsRound size (panic, d) = Unit
IsRound size (pending, d) = d.rx ≡ []
IsRound size (err e, d) = ⊥

after_receive-IsRound :
    (r : Outcome TransferError Frame) (d : Driver) (size : ℕ)
    → r ≢ pending
    → length d.rx < size
    → IsRound size (after_receive r d)
unfolding after_receive
after_receive-IsRound (ok f) d size ends less = less
after_receive-IsRound (err e) d size ends less = omega (arith, dump-le 0 d.rx)
after_receive-IsRound panic d size ends less = tt
after_receive-IsRound pending d size ends less = absurd (ends refl)

-- How the loop ends.
abbrev pub IsAtEnd : Outcome TransferError (Unit {0}) × Driver → Type 0
IsAtEnd r = (r.0 ≡ panic) ⊎ ((r.0 ≡ pending) × (r.1.rx ≡ []))

module _ (env : Platform) where
  byte-IsRound :
      (ctrl : ℕ) (d : Driver) (size : ℕ)
      → length d.rx < size
      → IsRound size (on_byte env (ok ctrl) d)
  unfolding on_byte
  byte-IsRound ctrl d size less = elim (Bool-cases (is_frame_start ctrl)) [
    | inl starts ↦
        let r = receive_frame env ctrl d in
        rw starts (
          after_receive-IsRound r.0 r.1 size (receive_frame-IsPrompt env ctrl d)
            (omega (arith, receive_frame-ReadsOn env ctrl d)))
    | inr other ↦ rw other less
  ]

  on_line :
      (rx : List Line) (d : Driver) (size : ℕ)
      → length rx ≤ size
      → IsRound size (on_byte env (next_byte rx).0 (record d { rx = (next_byte rx).1 }))
  unfolding next_byte on_byte
  on_line [] d size fits = refl
  on_line (byte v ∷ rx) d size fits = byte-IsRound v (record d { rx = rx }) size (omega arith)
  on_line (silence ∷ rx) d size fits = on_line rx d size (omega arith)
  on_line (fault e ∷ rx) d size fits = omega arith

  line_read-IsRound : (d : Driver) → IsRound (length d.rx) (run_step env line_read d)
  unfolding run_step read
  line_read-IsRound d = on_line d.rx d (length d.rx) (omega arith)

  bind-IsAtEnd :
      (r : Outcome TransferError (Unit {0}) × Driver) (size : ℕ) (later : List Wakeup)
      → IsRound size r
      → (length r.1.rx < size → IsAtEnd (run env later r.1))
      → IsAtEnd (bind_outcome r.0 (λ _. run env later) r.1)
  bind-IsAtEnd (ok _, d) size later less goes_on = goes_on less
  bind-IsAtEnd (err e, d) size later round goes_on = absurd round
  bind-IsAtEnd (panic, d) size later round goes_on = inl refl
  bind-IsAtEnd (pending, d) size later none_left goes_on = inr (refl, none_left)

  -- The driver comes to the end of whatever the line brings: on a line of at most `size` events,
  -- silences and faults among them, `size + 1` rounds of reading suffice to wait for more with
  -- nothing left to read, unless a round panics. No round waits while there is something to read.
  pub line_read_out :
      (size : ℕ) (d : Driver)
      → length d.rx ≤ size
      → IsAtEnd (run env (replicate (suc size) line_read) d)
  unfolding run
  line_read_out zero d fits =
      bind-IsAtEnd (run_step env line_read d) (length d.rx) [] (line_read-IsRound d)
        (λ less. absurd (omega arith))
  line_read_out (suc size) d fits =
      let next = run_step env line_read d in
      bind-IsAtEnd next (length d.rx) (replicate (suc size) line_read) (line_read-IsRound d)
        (λ less. line_read_out size next.1 (omega arith))
