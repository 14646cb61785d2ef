-- ===== src/Frame/Standard/Length.antt =====
-- How a standard telegram is allocated, and what `set_length` accepts.
use embassy_knx.Prelude.{ℕ, zero, suc, ◌-◌, ◌%◌, ◌≤◌, ◌<◌, ◌≡◌, refl, ap, arith}
use embassy_knx.Prelude.{bit_or, true, false, Bytes, length, [], ◌∷◌, replicate, resize}
use embassy_knx.Prelude.{ok, err, panic, leb, ◌||◌, length-resize}
use embassy_knx.Prelude.Bits.Tables.{mask_15}
use embassy_knx.Prelude.Bits.Fields.{zero-bit_or}
use embassy_knx.Prelude.Word.{dev, sub8, u8}
use embassy_knx.Frame.Types.{FrameError, invalid_length, out_of_memory}
use embassy_knx.Frame.Writer.{Platform}
use embassy_knx.Frame.Standard
use embassy_knx.Frame.Standard.{max_frame_size, min_frame_size}
use embassy_knx.Frame.Header.{IsBytes, header_ind}

resize-nil : (n : ℕ) → resize {A = ℕ} n 0 [] ≡ replicate n 0
resize-nil zero = refl
resize-nil (suc n) = rw (resize-nil n)

resize-replicate : (n : ℕ) → resize {A = ℕ} n 0 (replicate n 0) ≡ replicate n 0
resize-replicate zero = refl
resize-replicate (suc n) = rw (resize-replicate n)

-- The buffer that `new` makes: the format's bits, the length field, and zeros.
abbrev pub fresh : ℕ → Bytes
fresh n = 0x90 ∷ 0 ∷ 0 ∷ 0 ∷ 0 ∷ ((n - 8) % 16) ∷ 0 ∷ 0 ∷ replicate (n - 8) 0

-- The guard of `set_length` holds for every number.
guard_holds : (n : ℕ) → (leb n max_frame_size || leb min_frame_size n) ≡ true
guard_holds n = ground arith

past_header :
    (env : Platform) (n : ℕ)
    → 8 ≤ n
    → n < 256
    → sub8 {E = FrameError} env.profile (u8 n) 7 ≡ ok (n - 7)
unfolding sub8
past_header env n h k = ground arith

past_first :
    (env : Platform) (n : ℕ) → 8 ≤ n → sub8 {E = FrameError} env.profile (n - 7) 1 ≡ ok (n - 8)
unfolding sub8
past_first env n h = ground arith

-- For 8 to 255 bytes `set_length` joins the length less 8 into the length field and resizes.
pub set_length_header :
    (env : Platform) (n b0 b1 b2 b3 b4 b5 : ℕ) (rest : Bytes)
    → 8 ≤ n
    → n < 256
    → Standard.set_length env n (b0 ∷ b1 ∷ b2 ∷ b3 ∷ b4 ∷ b5 ∷ rest)
      ≡ ok (resize n 0 (b0 ∷ b1 ∷ b2 ∷ b3 ∷ b4 ∷ bit_or b5 ((n - 8) % 16) ∷ rest))
unfolding Standard.set_length
set_length_header env n b0 b1 b2 b3 b4 b5 rest h k = rw (
  guard_holds n,
  past_header env n h k,
  past_first env n h,
  mask_15 (n - 8),
  env.resize_fits (b0 ∷ b1 ∷ b2 ∷ b3 ∷ b4 ∷ bit_or b5 ((n - 8) % 16) ∷ rest) n (omega arith),
)

-- With a free block, `new` of 8 to 255 bytes gives the fresh telegram of that size.
pub new_lem : (env : Platform) (n : ℕ) → 8 ≤ n → n < 256 → Standard.new env true n ≡ ok (fresh n)
unfolding Standard.new
new_lem env (suc (suc (suc (suc (suc (suc (suc (suc m)))))))) h k =
    let n : ℕ = suc (suc (suc (suc (suc (suc (suc (suc m))))))) in
    rw
      (
        env.resize_fits [] n (omega arith),
        resize-nil m,
        set_length_header env n 0 0 0 0 0 0 (0 ∷ 0 ∷ replicate m 0) h k,
        resize-replicate m,
        zero-bit_or ((n - 8) % 16),
      )
      (ap (λ x. ok (0x90 ∷ 0 ∷ 0 ∷ 0 ∷ 0 ∷ ((n - 8) % 16) ∷ 0 ∷ 0 ∷ replicate {A = ℕ} x 0))
        (omega arith))
new_lem env _ h k = absurd (omega arith)

-- `set_length` accepts lengths above `MAX_FRAME_SIZE`: its guard joins the two bounds by `||`.
-- On a buffer of at least eight bytes every length from 25 to 255 succeeds, and the buffer is
-- resized to it.
pub set_length_above_max :
    (env : Platform) (n : ℕ) (b : Bytes)
    → max_frame_size < n
    → n < 256
    → 8 ≤ length b
    → IsBytes b
    → (out : Bytes) × (Standard.set_length env n b ≡ ok out) × (length out ≡ n)
set_length_above_max env n b above k long bytes =
    header_ind (λ b. (out : Bytes) × (Standard.set_length env n b ≡ ok out) × (length out ≡ n))
      (λ b0 b1 b2 b3 b4 b5 b6 b7 rest. (
        resize n 0 (b0 ∷ b1 ∷ b2 ∷ b3 ∷ b4 ∷ bit_or b5 ((n - 8) % 16) ∷ b6 ∷ b7 ∷ rest),
        set_length_header env n b0 b1 b2 b3 b4 b5 (b6 ∷ b7 ∷ rest) (omega arith) k,
        length-resize n 0 _,
      ))
      b long

-- With an empty pool `new` is `OutOfMemory` for every size, and with a free block it is
-- `InvalidLength` for a size above the capacity of 264.
pub new_failures :
    (env : Platform) (n m : ℕ)
    → 264 < m
    → (Standard.new env false n ≡ err out_of_memory)
      × (Standard.new env true m ≡ err invalid_length)
unfolding Standard.new
new_failures env n m h = (refl, rw (env.resize_full [] m h))

-- Under overflow checks a size below the minimum of 8 makes `new` panic.
new_too_short :
    (env : Platform) (n : ℕ)
    → n < min_frame_size
    → env.profile ≡ dev
    → Standard.new env true n ≡ panic
unfolding Standard.new Standard.set_length sub8
new_too_short env n h e = rw (env.resize_fits [] n (omega arith), guard_holds n, e) (ground arith)
