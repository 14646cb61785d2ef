-- ===== src/Driver/Run/BrokenWrites.antt =====
-- What becomes of a telegram when a write to the serial port fails (src/ncn51_driver.rs, `run`).
use embassy_knx.Prelude.{ℕ, suc, ◌*◌, ◌≤◌, ◌<◌, ◌≡◌, arith, take, replicate, Option, none, some}
use embassy_knx.Prelude.{List, [], ◌∷◌, ◌++◌, Bytes, length, length-append, ok}
use embassy_knx.Frame.Reader
use embassy_knx.Frame.Writer.{Platform}
use embassy_knx.Frame.Dispatch.{standard}
use embassy_knx.Driver.Uart.{Driver, con_not_ok}
use embassy_knx.Driver.Run.{run_step, frame_waits, after_send}
use embassy_knx.Driver.Transmit.Writes.{services, send_frame-all, write_all-broken, length-services}

-- Where the write of byte `k` of the services of a telegram of 2 to 64 bytes, counted from 0, is
-- the first that fails, what the driver has handed to the serial port is the services up to that
-- byte, with the checksum in place of the telegram's last byte. Neither the echo nor a confirmation
-- is read, so that the line is as it was, the data link layer is told that the telegram was not
-- sent, and the loop goes on.
pub broken_write :
    (env : Platform) (x : ℕ) (xs : Bytes) (slot k e : ℕ) (d : Driver) {later : List (Option ℕ)}
    → let b : Bytes = x ∷ xs ++ slot ∷ [] in
      length b ≤ 64
      → k < 2 * length b
      → d.tx ≡ replicate k none ++ some e ∷ later
      → run_step env (frame_waits (standard b)) d ≡ (
        ok tt,
        record d {
          tx = later;
          written = d.written ++ take (suc k) (services 0 (x ∷ xs ++ Reader.checksum b ∷ []));
          confirmed = d.confirmed ++ con_not_ok ∷ [];
        },
      )
unfolding run_step after_send
broken_write env x xs slot k e d {later = later} short within fails =
    let b : Bytes = x ∷ xs ++ slot ∷ [] in
    let all : Bytes = services 0 (x ∷ xs ++ Reader.checksum b ∷ []) in
    let inside : k < length all = omega (
      arith,
      length-services 0 (x ∷ xs ++ Reader.checksum b ∷ []),
      length-append xs (slot ∷ []),
      length-append xs (Reader.checksum b ∷ []),
    ) in
    rw (
      send_frame-all env x xs slot short,
      write_all-broken k all d {e = e} {later = later} fails inside,
    )
