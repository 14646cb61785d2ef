-- ===== src/Frame/Extended/Length.antt =====
-- The length field of an extended frame (src/frame.rs).
use embassy_knx.Prelude.{ℕ, suc, ◌+◌, ◌-◌, ◌%◌, ◌≤◌, ◌<◌, ◌≡◌, arith, ◌||◌}
use embassy_knx.Prelude.{[], ◌∷◌, Bytes, length, resize, ok, panic, ◌>>=◌, leb, true}
use embassy_knx.Prelude.Bits.Tables.{mask_255}
use embassy_knx.Prelude.Word.{dev, sub8, add8, u8}
use embassy_knx.Address.{Address}
use embassy_knx.Address.Group
use embassy_knx.DataPoint.{DataPoint}
use embassy_knx.Frame.Types.{FrameError}
use embassy_knx.Frame.Writer
use embassy_knx.Frame.Writer.{Platform}
use embassy_knx.Frame.Extended

-- The length field of an extended frame is the low byte of its destination address: once a group
-- address with a low byte below 247 is set in a buffer of at least six bytes, `length()` reads 9
-- more than that byte, whatever the length of the frame is.
pub length-set_dst_addr :
    (env : Platform) (a : Group.GroupAddress) (b : Bytes)
    → a.raw < 65536
    → a.raw % 256 < 247
    → 6 ≤ length b
    → (Writer.set_dst_addr (Extended.reader env) (Address.group a) b >>= Extended.length env)
      ≡ ok (a.raw % 256 + 9)
unfolding Writer.set_dst_addr Writer.set_addr_type Group.write Extended.length add8
length-set_dst_addr env a (b0 ∷ b1 ∷ b2 ∷ b3 ∷ b4 ∷ b5 ∷ rest) h small long =
    ground (arith, mask_255 a.raw)
length-set_dst_addr env a _ h small long = absurd (omega arith)

-- On a buffer of 9 to 255 bytes `set_length` of an extended frame, to at most 264 bytes, stores the
-- length (less 9) that the buffer had before, not the one that is set, and resizes the buffer.
pub set_length_old :
    (env : Platform) (n b0 b1 b2 b3 b4 b5 : ℕ) (rest : Bytes)
    → let b : Bytes = b0 ∷ b1 ∷ b2 ∷ b3 ∷ b4 ∷ b5 ∷ rest in
      9 ≤ length b
      → length b < 256
      → n ≤ 264
      → Extended.set_length env n b
        ≡ ok (resize n 0 (b0 ∷ b1 ∷ b2 ∷ b3 ∷ b4 ∷ (length b - 9) ∷ rest))
unfolding Extended.set_length sub8
set_length_old env n b0 b1 b2 b3 b4 b5 rest long short fits =
    let size : ℕ = suc (suc (suc (suc (suc (suc (length rest)))))) in
    let guard : (leb n 263 || leb 9 n) ≡ true = ground arith in
    let stored : sub8 {E = FrameError} env.profile (u8 size) 8 ≡ ok (size - 8) = ground arith in
    let less_one : sub8 {E = FrameError} env.profile (size - 8) 1 ≡ ok (size - 9) = ground arith in
    rw
      (guard, stored, less_one, env.resize_fits (b0 ∷ b1 ∷ b2 ∷ b3 ∷ b4 ∷ (size - 9) ∷ rest) n fits)

-- Under overflow checks no extended frame can be made from a value: the maximal size of 263, with
-- which it is allocated, is 7 as a byte, and `set_length` subtracts 8 from it.
pub from_datapoint-panic :
    (env : Platform) (d : DataPoint)
    → env.profile ≡ dev
    → Writer.from_datapoint (Extended.writer env) true d ≡ panic
unfolding Writer.from_datapoint Extended.new Extended.set_length sub8
from_datapoint-panic env (DataPoint.b1 v) checks = rw (env.resize_fits [] 263 (omega arith), checks)
from_datapoint-panic env (DataPoint.b2 v) checks = rw (env.resize_fits [] 263 (omega arith), checks)
from_datapoint-panic env (DataPoint.u8 v) checks = rw (env.resize_fits [] 263 (omega arith), checks)
