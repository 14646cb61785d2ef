-- ===== src/Driver/Receive/Accepting.antt =====
-- Which received buffers the checks of the driver let through (src/ncn51_driver.rs).
use embassy_knx.Prelude.{ℕ, zero, suc, ◌/◌, ◌%◌, ◌<◌, ◌≡◌, refl, ap, arith}
use embassy_knx.Prelude.{bit_or, bit_and, bit_xor, if◌then◌else◌, ◌==◌}
use embassy_knx.Prelude.{[], ◌∷◌, ◌++◌, Bytes, length, replicate, resize, index, ok}
use embassy_knx.Prelude.Bits.Tables.{holds_below, agree_sound}
use embassy_knx.Prelude.Bits.Xor.{bit_xor-zero}
use embassy_knx.Prelude.Word.{not8}
use embassy_knx.Frame.Types.{FrameError}
use embassy_knx.Frame.Reader
use embassy_knx.Frame.Reader.{fold_xor}

zeros-fold_xor : (left acc : ℕ) → fold_xor acc (replicate left 0) ≡ acc
unfolding fold_xor
zeros-fold_xor zero acc = refl
zeros-fold_xor (suc left) acc = rw (zeros-fold_xor left (bit_xor acc 0), bit_xor-zero acc)

-- The zeros behind a frame do not change its exclusive or.
fold_xor-append :
    (xs : Bytes) (acc left : ℕ) → fold_xor acc (xs ++ replicate left 0) ≡ fold_xor acc xs
unfolding fold_xor
fold_xor-append [] acc left = zeros-fold_xor left acc
fold_xor-append (x ∷ xs) acc left = fold_xor-append xs (bit_xor acc x) left

pub checksum-append :
    (xs : Bytes) (left : ℕ) → Reader.checksum (xs ++ replicate left 0) ≡ Reader.checksum xs
unfolding Reader.checksum
checksum-append xs left = ap not8 (fold_xor-append xs 0 left)

pub index-append :
    (xs : Bytes) (left : ℕ)
    → index {E = FrameError} (xs ++ replicate (suc left) 0) (length xs) ≡ ok 0
index-append [] left = refl
index-append (x ∷ xs) left = index-append xs left

pub resize-append : (xs ys : Bytes) → resize (length xs) 0 (xs ++ ys) ≡ xs
resize-append [] ys = refl
resize-append (x ∷ xs) ys = ap (◌∷◌ x) (resize-append xs ys)

-- Joining a length field with its own length changes nothing.
pub or_own_length : (b5 : ℕ) → b5 < 256 → bit_or b5 (b5 % 16) ≡ b5
unfolding holds_below
or_own_length = agree_sound 256 (λ x. bit_or x (x % 16)) (λ x. x) refl

-- A control byte that the driver takes for a standard frame says so.
standard_kind_table : (c : ℕ) → c < 256 → (if 0x90 == bit_and c 0xd3 then c / 128 else 1) ≡ 1
unfolding holds_below
standard_kind_table =
    agree_sound 256 (λ c. if 0x90 == bit_and c 0xd3 then c / 128 else 1) (λ c. 1) refl

pub starts-standard : (c : ℕ) → c < 256 → bit_and c 0xd3 ≡ 0x90 → c / 128 ≡ 1
starts-standard c h e = ground (arith, standard_kind_table c h)
