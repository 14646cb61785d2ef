-- ===== src/Prelude/Bits/Fields.antt =====
-- `|` acts on the two parts of a word separately, so `(hi << 8) | lo` is a sum.
use embassy_knx.Prelude.Bits.Digits.{bit_or_lowest}
use Prim.Native.Nat.{ℕ, zero, suc, ◌+◌, ◌*◌, ◌/◌, ◌^◌, ◌<◌, ◌≤◌, bit_or, bit_or-bitwise}
use mathlib.Core.Path.{◌≡◌, refl}
use native.Mathlib.Nat.{pow-suc}
use native.Mathlib.Omega.{arith}

-- `q` doubled `k` times.
abbrev shifted : ℕ → ℕ → ℕ
shifted zero q = q
shifted (suc k) q = 2 * shifted k q

or-zero_bounded : (n a : ℕ) → a ≤ n → bit_or a 0 ≡ a
or-zero_bounded n zero h = refl
or-zero_bounded zero (suc a) h = absurd (omega arith)
or-zero_bounded (suc n) (suc a) h =
    omega (arith, bit_or_lowest (suc a) 0, or-zero_bounded n (suc a / 2) (omega arith))

pub bit_or-zero : (a : ℕ) → bit_or a 0 ≡ a
bit_or-zero a = or-zero_bounded a a (omega arith)

pub bit_or_cong : (a b c d : ℕ) → a ≡ b → c ≡ d → bit_or a c ≡ bit_or b d
bit_or_cong a b c d p q = cc

bit_or-shifted :
    (k q r s t : ℕ)
    → r < shifted k 1
    → t < shifted k 1
    → bit_or (shifted k q + r) (shifted k s + t) ≡ shifted k (bit_or q s) + bit_or r t
bit_or-shifted zero q (suc r) s t hr ht = absurd (omega arith)
bit_or-shifted zero q zero s (suc t) hr ht = absurd (omega arith)
bit_or-shifted zero q zero s zero hr ht =
    omega (arith, bit_or_cong (q + 0) q (s + 0) s (omega arith) (omega arith))
bit_or-shifted (suc k) q r s t hr ht = omega (
  arith,
  bit_or_lowest (2 * shifted k q + r) (2 * shifted k s + t),
  bit_or_lowest r t,
  halves,
  bit_or-shifted k q (r / 2) s (t / 2) (omega arith) (omega arith),
)
  where
    halves :
        bit_or ((2 * shifted k q + r) / 2) ((2 * shifted k s + t) / 2)
        ≡ bit_or (shifted k q + r / 2) (shifted k s + t / 2)
    halves = bit_or_cong _ _ _ _ (omega arith) (omega arith)

-- The two bytes of a word.
pub bit_or_bytes :
    (q r s t : ℕ)
    → r < 256
    → t < 256
    → bit_or (q * 256 + r) (s * 256 + t) ≡ bit_or q s * 256 + bit_or r t
bit_or_bytes q r s t hr ht = omega (arith, words, bit_or-shifted 8 q r s t hr ht)
  where
    words : bit_or (q * 256 + r) (s * 256 + t) ≡ bit_or (shifted 8 q + r) (shifted 8 s + t)
    words = bit_or_cong _ _ _ _ (omega arith) (omega arith)

-- The result has no more digits than the longer operand.
pub bit_or-lt : (k a b : ℕ) → a < 2 ^ k → b < 2 ^ k → bit_or a b < 2 ^ k
bit_or-lt zero zero zero ha hb = omega arith
bit_or-lt zero (suc a) b ha hb = absurd (omega arith)
bit_or-lt zero zero (suc b) ha hb = absurd (omega arith)
bit_or-lt (suc k) a b ha hb = omega (
  arith,
  pow-suc 2 k,
  bit_or_lowest a b,
  bit_or-lt k (a / 2) (b / 2) (omega (arith, pow-suc 2 k)) (omega (arith, pow-suc 2 k)),
)

pub zero-bit_or : (a : ℕ) → bit_or 0 a ≡ a
zero-bit_or a = bit_or-bitwise 0 a

pub bit_or_word : (hi lo : ℕ) → lo < 256 → bit_or (hi * 256) lo ≡ hi * 256 + lo
bit_or_word hi lo h =
    omega (arith, padded, bit_or_bytes hi 0 0 lo (omega arith) h, bit_or-zero hi, zero-bit_or lo)
  where
    padded : bit_or (hi * 256) lo ≡ bit_or (hi * 256 + 0) (0 * 256 + lo)
    padded = bit_or_cong _ _ _ _ (omega arith) (omega arith)
