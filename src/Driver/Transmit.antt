-- ===== src/Driver/Transmit.antt =====
-- How the driver sends a telegram (src/ncn51_driver.rs).
pub mod Writes
pub mod Protocol
pub mod Remainder
use embassy_knx.Prelude.{ℕ, zero, suc, ◌+◌, ◌-◌, bit_and, bit_or, [], ◌∷◌}
use embassy_knx.Prelude.{map_ok, if◌then◌else◌, ◌==◌, Bytes, index, length}
use embassy_knx.Prelude.Word.{u8, add8, sub8, ◌>>>◌}
use embassy_knx.Frame.Writer.{Platform}
use embassy_knx.Frame.Dispatch
use embassy_knx.Frame.Dispatch.{Frame}
use embassy_knx.Driver.Uart.{
  D, invalid_data, ConStatus, con_ok, con_not_ok, pure, fail, lift, ◌>>=◌, ◌>>◌, write, read,
  read_with_timeout, u_l_data_start_req, u_l_data_cont_req, u_l_data_end_req,
}

-- One round of the echo, a `read_with_timeout` of one byte of the buffer.
unfoldable pub read_echo : ℕ → D (Unit {0})
read_echo old d =
    let (r, buf, later) = read_with_timeout (old ∷ []) 0 d.rx in
    (map_ok (λ _. tt) r, record d { rx = later })

-- The loop over the echo.
unfoldable pub read_echoes : Bytes → D (Unit {0})
unfolding read_echo
read_echoes [] = pure tt
read_echoes (x ∷ buf) = do read_echo x; read_echoes buf

module _ (env : Platform) where
  -- The loop over the bytes between the first and the last: `left` rounds from index `i` on.
  unfoldable pub write_inner : ℕ → ℕ → Bytes → D (Unit {0})
  write_inner zero i buf = pure tt
  write_inner (suc left) i buf = do
    cmd ← lift (add8 env.profile u_l_data_cont_req (u8 i))
    write (cmd ∷ [])
    v ← lift (index buf i)
    write (v ∷ [])
    write_inner left (i + 1) buf

  -- The confirmation byte.
  unfoldable pub con_status : ℕ → D ConStatus
  con_status cmd =
      if bit_and cmd 0x7f == 0xb
      then pure (if cmd >>> 7 == 0 then con_not_ok else con_ok)
      else fail (invalid_data cmd)

  unfoldable pub send_frame : Frame → D ConStatus
  unfolding write_inner read_echoes con_status
  send_frame frame =
      let buf = Dispatch.data_of frame in
      let sum = Dispatch.checksum frame in
      do
        write (u_l_data_start_req ∷ [])
        first ← lift (index buf 0)
        write (first ∷ [])
        write_inner (length buf - 2) 1 buf
        last ← lift (sub8 env.profile (u8 (length buf)) 1)
        write (bit_or u_l_data_end_req last ∷ [])
        write (sum ∷ [])
        read_echoes buf
        cmd ← read
        con_status cmd
