-- ===== src/Driver/Receive/Damage.antt =====
-- What the checksum of a telegram detects (src/frame.rs, `checksum`).
use embassy_knx.Prelude.{ℕ, ◌<◌, ◌≡◌, ◌≢◌, sym, ap, ◌∙◌, arith, bit_xor}
use embassy_knx.Prelude.{[], ◌∷◌, ◌++◌, Bytes}
use embassy_knx.Prelude.Bits.Xor.{bit_xor-lt, bit_xor_comm, bit_xor_cancel}
use embassy_knx.Frame.Header.{IsBytes}
use embassy_knx.Frame.Reader
use embassy_knx.Frame.Reader.{fold_xor}
use embassy_knx.Prelude.{All, ok, bit_and}
use mathlib.Core.Path.{subst}
use embassy_knx.Frame.Writer.{Platform}
use embassy_knx.Frame.Dispatch.{standard}
use embassy_knx.Driver.Uart.{Driver}
use embassy_knx.Driver.Receive.{receive_frame}
use embassy_knx.Driver.Receive.Reading.{IsByteLine}
use embassy_knx.Driver.Receive.Sound.{IsPassed, receive_frame-IsPassed}
use embassy_knx.Driver.Receive.Checks.{IsTelegram}

pub fold_xor-lt : (xs : Bytes) (acc : ℕ) → acc < 256 → IsBytes xs → fold_xor acc xs < 256
unfolding fold_xor
fold_xor-lt [] acc h bytes = h
fold_xor-lt (x ∷ xs) acc h bytes =
    fold_xor-lt xs (bit_xor acc x) (bit_xor-lt acc x h bytes.0) bytes.1

-- What was folded in can be taken out again on either side.
bit_xor_left : (a b c : ℕ) → bit_xor a b ≡ bit_xor a c → b ≡ c
bit_xor_left a b c same =
    sym (bit_xor_cancel b a)
    ∙ ap (λ x. bit_xor x a) (bit_xor_comm b a ∙ same ∙ bit_xor_comm a c)
    ∙ bit_xor_cancel c a

bit_xor_right : (a b c : ℕ) → bit_xor a c ≡ bit_xor b c → a ≡ b
bit_xor_right a b c same =
    sym (bit_xor_cancel a c) ∙ ap (λ x. bit_xor x c) same ∙ bit_xor_cancel b c

-- Folding the same bytes keeps different starts apart.
fold_xor_start : (xs : Bytes) (a b : ℕ) → fold_xor a xs ≡ fold_xor b xs → a ≡ b
unfolding fold_xor
fold_xor_start [] a b same = same
fold_xor_start (x ∷ xs) a b same =
    bit_xor_right a b x (fold_xor_start xs (bit_xor a x) (bit_xor b x) same)

fold_xor_byte :
    (pre post : Bytes) (acc x y : ℕ)
    → fold_xor acc (pre ++ x ∷ post) ≡ fold_xor acc (pre ++ y ∷ post)
    → x ≡ y
unfolding fold_xor
fold_xor_byte [] post acc x y same =
    bit_xor_left acc x y (fold_xor_start post (bit_xor acc x) (bit_xor acc y) same)
fold_xor_byte (p ∷ pre) post acc x y same = fold_xor_byte pre post (bit_xor acc p) x y same

sum_of_sealed : (b : Bytes) → IsBytes b → Reader.checksum b ≡ 0 → fold_xor 0 b ≡ 255
unfolding Reader.checksum
sum_of_sealed b bytes sealed = omega (arith, fold_xor-lt b 0 (omega arith) bytes)

-- A whole telegram of which one byte has become another is no whole telegram.
damaged-IsTelegram :
    (pre post : Bytes) (x y : ℕ)
    → IsTelegram (pre ++ x ∷ post)
    → x ≢ y
    → ¬ IsTelegram (pre ++ y ∷ post)
damaged-IsTelegram pre post x y whole differ damaged =
    let sum = sum_of_sealed (pre ++ x ∷ post) whole.well_formed.bytes whole.sealed in
    let sum' = sum_of_sealed (pre ++ y ∷ post) damaged.well_formed.bytes damaged.sealed in
    differ (fold_xor_byte pre post 0 x y (sum ∙ sym sum'))

-- Of a whole telegram in which one byte has become another, wherever it is, `receive_frame` never
-- makes a frame: not from any line of bytes, silences and faults after the first byte of a
-- standard frame.
pub damaged_refused :
    (env : Platform) (ctrl : ℕ) (d : Driver) (pre post : Bytes) (x y : ℕ)
    → ctrl < 256
    → bit_and ctrl 0xd3 ≡ 0x90
    → All IsByteLine d.rx
    → IsTelegram (pre ++ x ∷ post)
    → x ≢ y
    → (receive_frame env ctrl d).0 ≢ ok (standard (pre ++ y ∷ post))
damaged_refused env ctrl d pre post x y bounded std line whole differ received =
    damaged-IsTelegram pre post x y whole differ
      (subst IsPassed received (receive_frame-IsPassed env ctrl d bounded std line))
