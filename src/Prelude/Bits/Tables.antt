-- ===== src/Prelude/Bits/Tables.antt =====
-- Masks as remainders, and tables of two bytes checked by evaluation.
use Prim.Native.Nat.{ℕ, zero, suc, ◌+◌, ◌/◌, ◌%◌, ◌≤◌, ◌<◌, bit_and, bit_or}
use mathlib.Core.Path.{◌≡◌, refl}
use mathlib.Core.Bool.{Bool, true, false}
use native.Mathlib.Omega.{arith}
use embassy_knx.Prelude.Bits.Digits.{bit_and_lowest}
use embassy_knx.Prelude.Tests.{◌==◌, ==_iff, if◌then◌else◌}

unfoldable pub holds_below : (ℕ → Bool) → ℕ → Bool
holds_below p zero = true
holds_below p (suc k) = let smaller = holds_below p k in if p k then smaller else false

table_entry : (p : ℕ → Bool) (k i : ℕ) → i < k → holds_below p k ≡ true → p i ≡ true
unfolding holds_below
table_entry p zero i below all = absurd (omega arith)
table_entry p (suc k) i below all = ground (arith, table_entry p k i)

-- Two functions agree below `n`, and on all pairs below `m` and `n`.
abbrev pub agree : ℕ → (ℕ → ℕ) → (ℕ → ℕ) → Bool
agree n f g = holds_below (λ x. f x == g x) n

abbrev pub agree₂ : ℕ → ℕ → (ℕ → ℕ → ℕ) → (ℕ → ℕ → ℕ) → Bool
agree₂ m n f g = holds_below (λ x. agree n (f x) (g x)) m

pub agree_sound : (n : ℕ) (f g : ℕ → ℕ) → agree n f g ≡ true → (x : ℕ) → x < n → f x ≡ g x
agree_sound n f g h x lt = (==_iff (f x) (g x)).0 (table_entry (λ x. f x == g x) n x lt h)

pub agree₂_sound :
    (m n : ℕ) (f g : ℕ → ℕ → ℕ) → agree₂ m n f g ≡ true → (x y : ℕ) → x < m → y < n → f x y ≡ g x y
agree₂_sound m n f g h x y hx hy =
    agree_sound n (f x) (g x) (table_entry (λ x. agree n (f x) (g x)) m x hx h) y hy

and-zero_bounded : (n a : ℕ) → a ≤ n → bit_and a 0 ≡ 0
and-zero_bounded n zero h = refl
and-zero_bounded zero (suc a) h = absurd (omega arith)
and-zero_bounded (suc n) (suc a) h =
    omega (arith, bit_and_lowest (suc a) 0, and-zero_bounded n (suc a / 2) (omega arith))

-- A mask of ones takes the remainder, one digit more at a time.
pub mask_1 : (x : ℕ) → bit_and x 1 ≡ x % 2
mask_1 x = omega (arith, bit_and_lowest x 1, and-zero_bounded (x / 2) (x / 2) (omega arith))

pub mask_3 : (x : ℕ) → bit_and x 3 ≡ x % 4
mask_3 x = omega (arith, bit_and_lowest x 3, mask_1 (x / 2))

pub mask_7 : (x : ℕ) → bit_and x 7 ≡ x % 8
mask_7 x = omega (arith, bit_and_lowest x 7, mask_3 (x / 2))

pub mask_15 : (x : ℕ) → bit_and x 15 ≡ x % 16
mask_15 x = omega (arith, bit_and_lowest x 15, mask_7 (x / 2))

mask_31 : (x : ℕ) → bit_and x 31 ≡ x % 32
mask_31 x = omega (arith, bit_and_lowest x 31, mask_15 (x / 2))

mask_63 : (x : ℕ) → bit_and x 63 ≡ x % 64
mask_63 x = omega (arith, bit_and_lowest x 63, mask_31 (x / 2))

mask_127 : (x : ℕ) → bit_and x 127 ≡ x % 128
mask_127 x = omega (arith, bit_and_lowest x 127, mask_63 (x / 2))

pub mask_255 : (x : ℕ) → bit_and x 255 ≡ x % 256
mask_255 x = omega (arith, bit_and_lowest x 255, mask_127 (x / 2))

-- Three bits joined with all three, and with a higher one.
pub or_7 : (x : ℕ) → x < 8 → bit_or x 7 ≡ 7
unfolding holds_below
or_7 = agree_sound 8 (λ x. bit_or x 7) (λ x. 7) refl

pub or_16 : (x : ℕ) → x < 8 → bit_or 16 x ≡ 16 + x
unfolding holds_below
or_16 = agree_sound 8 (bit_or 16) (λ x. 16 + x) refl
