-- ===== src/Driver/Transmit/Protocol.antt =====
-- What sending a telegram writes to the transceiver, and how it ends (src/ncn51_driver.rs).
use embassy_knx.Prelude.{ℕ, ◌%◌, ◌≤◌, ◌<◌, ◌≡◌, refl, ap, arith, bit_and}
use embassy_knx.Prelude.{List, [], ◌∷◌, ◌++◌, Bytes, length, Outcome, ok, err, if◌then◌else◌, ◌==◌}
use embassy_knx.Prelude.Bits.Tables.{holds_below, agree_sound}
use embassy_knx.Frame.Reader
use embassy_knx.Frame.Writer.{Platform}
use embassy_knx.Frame.Dispatch.{standard}
use embassy_knx.Driver.Uart.{
  Driver, TransferError, invalid_data, ConStatus, con_ok, con_not_ok, Line, byte, read,
  read_with_timeout,
}
use embassy_knx.Driver.Transmit.{read_echo, read_echoes, con_status, send_frame}
use embassy_knx.Driver.Transmit.Writes.{services, send_frame-all, write_all_lem}
use embassy_knx.Driver.Receive.Reading.{line_of}

-- The echo fills the buffer, whatever it is, and changes nothing else.
read_echoes_lem :
    (buf echo : Bytes) (d : Driver) {later : List Line}
    → length echo ≡ length buf
    → d.rx ≡ line_of echo later
    → read_echoes buf d ≡ (ok tt, record d { rx = later })
unfolding read_echoes read_echo read_with_timeout
read_echoes_lem [] [] d {later = later} e line = ap (λ rx. (ok tt, record d { rx = rx })) line
read_echoes_lem [] (x ∷ echo) d e line = absurd (omega arith)
read_echoes_lem (x ∷ buf) [] d e line = absurd (omega arith)
read_echoes_lem (x ∷ buf) (y ∷ echo) d {later = later} e line = rw (
  line,
  read_echoes_lem buf echo (record d { rx = line_of echo later }) {later = later} (omega (arith, e))
      refl,
)

-- What the confirmation byte means: 0x8b is a success, 0x0b a failure, and others are an error.
abbrev pub confirmation : ℕ → Outcome TransferError ConStatus
confirmation c =
    if c == 0x8b then ok con_ok else if c == 0x0b then ok con_not_ok else err (invalid_data c)

mask_7f : (c : ℕ) → c < 256 → bit_and c 0x7f ≡ c % 128
unfolding holds_below
mask_7f = agree_sound 256 _ _ refl

con_status_lem :
    (env : Platform) (c : ℕ) (d : Driver) → c < 256 → con_status env c d ≡ (confirmation c, d)
unfolding con_status
con_status_lem env c d bounded = ground (arith, mask_7f c bounded)

-- A telegram of 2 to 64 bytes, where all writes succeed, is written as the services that the
-- transceiver wants for it, with its checksum in place of its last byte. If its echo and a
-- confirmation follow on the line, the call ends with what the confirmation says, and the rest of
-- the line is left.
pub send_frame_lem :
    (env : Platform) (x : ℕ) (xs echo : Bytes) (slot c : ℕ) (d : Driver) {later : List Line}
    → let b : Bytes = x ∷ xs ++ slot ∷ [] in
      length b ≤ 64
      → length echo ≡ length b
      → c < 256
      → d.tx ≡ []
      → d.rx ≡ line_of echo (byte c ∷ later)
      → send_frame env (standard b) d ≡ (
        confirmation c,
        record d {
          rx = later;
          written = d.written ++ services 0 (x ∷ xs ++ Reader.checksum b ∷ []);
        },
      )
unfolding read
send_frame_lem env x xs echo slot c d {later = later} short same bounded free line =
    let b : Bytes = x ∷ xs ++ slot ∷ [] in
    let all : Bytes = services 0 (x ∷ xs ++ Reader.checksum b ∷ []) in
    let echoing : Driver = record d { written = d.written ++ all } in
    rw (
      send_frame-all env x xs slot short,
      write_all_lem all d free,
      read_echoes_lem b echo echoing {later = byte c ∷ later} same line,
      con_status_lem env c (record echoing { rx = later }) bounded,
    )
