-- ===== src/Driver/Run/Effects.antt =====
-- What a round of the driver leaves alone (src/ncn51_driver.rs, `run`).
use embassy_knx.Prelude.{
  ℕ, zero, suc, ◌+◌, ◌≡◌, refl, ap, ◌∙◌, arith, Bytes, [], ◌∷◌, ◌++◌, Outcome, ok, err, panic,
  pending,
}
use embassy_knx.Frame.Dispatch.{Frame}
use embassy_knx.Frame.Writer.{Platform}
use embassy_knx.Driver.Uart.{Driver, ConStatus, con_not_ok, TransferError, read, write}
use embassy_knx.Driver.Transmit.{read_echo, read_echoes, write_inner, con_status, send_frame}
use embassy_knx.Driver.Receive.Keeps.{IsPrivate, receive_frame-IsPrivate}
use embassy_knx.Driver.Run.{run_step, line_read, frame_waits, after_receive, after_send}

write-IsPrivate : (buf : Bytes) → IsPrivate (write buf)
unfolding write
write-IsPrivate buf d = (refl, refl)

echo-IsPrivate : (x : ℕ) → IsPrivate (read_echo x)
unfolding read_echo
echo-IsPrivate x d = (refl, refl)

echoes-IsPrivate : (buf : Bytes) → IsPrivate (read_echoes buf)
unfolding read_echoes
echoes-IsPrivate [] d = (refl, refl)
echoes-IsPrivate (x ∷ buf) d = grind (arith, echo-IsPrivate x, echoes-IsPrivate buf)

module _ (env : Platform) where
  inner-IsPrivate : (left i : ℕ) (buf : Bytes) → IsPrivate (write_inner env left i buf)
  unfolding write_inner
  inner-IsPrivate zero i buf d = (refl, refl)
  inner-IsPrivate (suc left) i buf d =
      grind (arith, write-IsPrivate, inner-IsPrivate left (i + 1) buf)

  status-IsPrivate : (cmd : ℕ) → IsPrivate (con_status env cmd)
  unfolding con_status
  status-IsPrivate cmd d = ground arith

  send_frame-IsPrivate : (f : Frame) → IsPrivate (send_frame env f)
  unfolding send_frame read
  send_frame-IsPrivate f d =
      grind (arith, write-IsPrivate, inner-IsPrivate, echoes-IsPrivate, status-IsPrivate)

  -- A round on the line confirms nothing.
  pub line_read-confirmed : (d : Driver) → (run_step env line_read d).1.confirmed ≡ d.confirmed
  unfolding run_step read after_receive
  line_read-confirmed d = grind (arith, receive_frame-IsPrivate env)

  after_send-confirmed :
      (r : Outcome TransferError ConStatus) (d : Driver) {d' : Driver}
      → after_send r d ≡ (ok tt, d')
      → (status : ConStatus) × (d'.confirmed ≡ d.confirmed ++ status ∷ []) × (d'.passed ≡ d.passed)
  unfolding after_send
  after_send-confirmed (ok status) d runs = (status, cc, cc)
  after_send-confirmed (err e) d runs = (con_not_ok, cc, cc)
  after_send-confirmed panic d runs = cc
  after_send-confirmed pending d runs = cc

  -- A round that sends a frame and ends gives one confirmation, and passes nothing on.
  pub frame_waits-confirmed :
      (f : Frame) (d : Driver) {d' : Driver}
      → run_step env (frame_waits f) d ≡ (ok tt, d')
      → (status : ConStatus) × (d'.confirmed ≡ d.confirmed ++ status ∷ []) × (d'.passed ≡ d.passed)
  unfolding run_step
  frame_waits-confirmed f d runs =
      let run = send_frame env f d in
      let (status, confirms, keeps) = after_send-confirmed run.0 run.1 runs in
      let (passes, before) = send_frame-IsPrivate f d in
      (status, confirms ∙ ap (λ l. l ++ status ∷ []) before, keeps ∙ passes)
