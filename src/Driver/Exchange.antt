-- ===== src/Driver/Exchange.antt =====
-- A telegram from one device to another, and the rounds of the driver (src/ncn51_driver.rs).
use embassy_knx.Prelude.{ℕ, ◌+◌, ◌-◌, ◌<◌, ◌≡◌, refl, sym, ap, ◌∙◌, arith, bit_and, bit_xor}
use embassy_knx.Prelude.{List, [], ◌∷◌, ◌++◌, Bytes, length, length-append, All-append, Bool, true}
use embassy_knx.Prelude.Bits.Tables.{holds_below, agree_sound}
use embassy_knx.Prelude.Bits.Xor.{bit_xor-zero}
use embassy_knx.Frame.Header.{IsBytes}
use embassy_knx.Frame.Reader
use embassy_knx.Frame.Reader.{fold_xor}
use embassy_knx.Driver.Receive.Damage.{fold_xor-lt}
use embassy_knx.Frame.Writer.{Platform}
use embassy_knx.Frame.Dispatch.{standard}
use embassy_knx.Frame.Standard.Build.{IsWellFormed}
use embassy_knx.Driver.Uart.{Driver, Line, byte, silence}
use embassy_knx.Driver.Receive.{receive_frame}
use embassy_knx.Driver.Receive.Reading.{line_of}
use embassy_knx.Driver.Receive.Checks.{IsTelegram}
use embassy_knx.Driver.Receive.RoundTrip.{received_as, receive_frame_lem}
use embassy_knx.Driver.Transmit.{send_frame}
use embassy_knx.Driver.Transmit.Writes.{services}
use embassy_knx.Driver.Transmit.Protocol.{send_frame_lem}

complement_table : (x : ℕ) → x < 256 → 255 - bit_xor x (255 - x) ≡ 0
unfolding holds_below
complement_table = agree_sound 256 (λ x. 255 - bit_xor x (255 - x)) (λ x. 0) refl

fold_xor-last :
    (front : Bytes) (acc last : ℕ)
    → fold_xor acc (front ++ last ∷ []) ≡ bit_xor (fold_xor acc front) last
unfolding fold_xor
fold_xor-last [] acc last = refl
fold_xor-last (x ∷ front) acc last = fold_xor-last front (bit_xor acc x) last

-- The checksum in the free last byte makes the exclusive or of all bytes 255.
checksum-sealed :
    (front : Bytes)
    → IsBytes front
    → Reader.checksum (front ++ Reader.checksum (front ++ 0 ∷ []) ∷ []) ≡ 0
unfolding Reader.checksum
checksum-sealed front bytes =
    let x : ℕ = fold_xor 0 front in
    let bounded : x < 256 = fold_xor-lt front 0 (omega arith) bytes in
    rw (
      fold_xor-last front 0 0,
      bit_xor-zero x,
      fold_xor-last front 0 (255 - x),
      complement_table x bounded,
    )

checksum-lt : (b : Bytes) → Reader.checksum b < 256
unfolding Reader.checksum
checksum-lt b = omega arith

IsBytes-front : (front : Bytes) (last : ℕ) → IsBytes (front ++ last ∷ []) → IsBytes front
IsBytes-front [] last h = tt
IsBytes-front (x ∷ front) last h = (h.0, IsBytes-front front last h.1)

-- Putting the checksum of a well-formed telegram into its last byte, where that is 0, makes a whole
-- telegram of it: it stays well formed, and the exclusive or of its bytes is 255.
pub sealed-IsTelegram :
    (front : Bytes)
    → IsWellFormed (front ++ 0 ∷ [])
    → IsTelegram (front ++ Reader.checksum (front ++ 0 ∷ []) ∷ [])
sealed-IsTelegram (b0 ∷ b1 ∷ b2 ∷ b3 ∷ b4 ∷ b5 ∷ b6 ∷ rest) w =
    let front : Bytes = b0 ∷ b1 ∷ b2 ∷ b3 ∷ b4 ∷ b5 ∷ b6 ∷ rest in
    let sum : ℕ = Reader.checksum (front ++ 0 ∷ []) in
    let bytes : IsBytes front = IsBytes-front front 0 w.bytes in
    record {
      well_formed = record {
        long = omega (arith, w.long, length-append rest (0 ∷ []), length-append rest (sum ∷ []));
        bytes =
            All-append (λ x. x < 256) front (sum ∷ []) bytes (checksum-lt (front ++ 0 ∷ []), tt);
        standard_kind = w.standard_kind;
        agrees =
            omega (arith, w.agrees, length-append rest (0 ∷ []), length-append rest (sum ∷ []));
      };
      sealed = checksum-sealed front bytes;
    }
sealed-IsTelegram _ w = absurd (omega (arith, w.long))

-- The bytes that the services carry to the bus, without the commands.
abbrev pub carried : Bytes → Bytes
carried [] = []
carried (cmd ∷ []) = []
carried (cmd ∷ x ∷ rest) = x ∷ carried rest

carried-services : (i : ℕ) (xs : Bytes) → carried (services i xs) ≡ xs
carried-services i [] = refl
carried-services i (x ∷ []) = refl
carried-services i (x ∷ y ∷ rest) = ap (◌∷◌ x) (carried-services (i + 1) (y ∷ rest))

-- A well-formed telegram with a free last byte and the format bits of a standard frame, which one
-- device sends without a fault of its port, is received by another with a free block: the bytes
-- that the sender's services carry are, on the line of the receiver before a silence, accepted as
-- the telegram with its checksum in the last byte.
pub sent-received :
    (env env' : Platform) (ctrl : ℕ) (front echo rest : Bytes) (c : ℕ) (sender receiver : Driver)
    (after : List Line) {later : List Line} {pool : List Bool}
    → let b : Bytes = ctrl ∷ front ++ 0 ∷ [] in
      IsWellFormed b
      → bit_and ctrl 0xd3 ≡ 0x90
      → length echo ≡ length b
      → c < 256
      → sender.tx ≡ []
      → sender.written ≡ []
      → sender.rx ≡ line_of echo (byte c ∷ after)
      → carried (send_frame env (standard b) sender).1.written ≡ ctrl ∷ rest
      → receiver.rx ≡ line_of rest (silence ∷ later)
      → receiver.pool ≡ true ∷ pool
      → receiver.tx ≡ []
      → receive_frame env' ctrl receiver
        ≡ received_as (ctrl ∷ front ++ Reader.checksum b ∷ []) later pool receiver
sent-received env env' ctrl front echo rest c sender receiver after {later = later} w std same
      bounded writes new_line echoed came line free quiet =
    let b : Bytes = ctrl ∷ front ++ 0 ∷ [] in
    let t : Bytes = front ++ Reader.checksum b ∷ [] in
    let whole = sealed-IsTelegram (ctrl ∷ front) w in
    let sends =
      send_frame_lem env ctrl front echo 0 c sender {later = after} (omega (arith, w)) same bounded
        writes echoed in
    let wrote : (send_frame env (standard b) sender).1.written ≡ services 0 (ctrl ∷ t) =
      rw (sends, new_line) in
    let brought : ctrl ∷ t ≡ ctrl ∷ rest =
      sym (carried-services 0 (ctrl ∷ t)) ∙ ap carried (sym wrote) ∙ came in
    let arrives : t ≡ rest = cc in
    receive_frame_lem env' ctrl t receiver {later = later} whole std (rw arrives line) free quiet
