-- ===== src/Prelude/Bits/Xor.antt =====
-- `^` is commutative and associative, has 0 for its unit, and undoes itself.
use embassy_knx.Prelude.Bits.Digits.{bit_xor_lowest}
use Prim.Native.Nat.{ℕ, zero, suc, ◌+◌, ◌/◌, ◌^◌, ◌<◌, ◌≤◌, bit_xor}
use mathlib.Core.Path.{◌≡◌, refl, ap}
use native.Mathlib.Nat.{pow-suc}
use native.Mathlib.Omega.{arith}

xor-self_bounded : (n a : ℕ) → a ≤ n → bit_xor a a ≡ 0
xor-self_bounded n zero h = refl
xor-self_bounded zero (suc a) h = absurd (omega arith)
xor-self_bounded (suc n) (suc a) h =
    omega (arith, bit_xor_lowest (suc a) (suc a), xor-self_bounded n (suc a / 2) (omega arith))

bit_xor_self : (a : ℕ) → bit_xor a a ≡ 0
bit_xor_self a = xor-self_bounded a a (omega arith)

comm_bounded : (n a b : ℕ) → a ≤ n → b ≤ n → bit_xor a b ≡ bit_xor b a
comm_bounded zero zero zero ha hb = refl
comm_bounded zero (suc a) b ha hb = absurd (omega arith)
comm_bounded zero zero (suc b) ha hb = absurd (omega arith)
comm_bounded (suc n) a b ha hb = omega (
  arith,
  bit_xor_lowest a b,
  bit_xor_lowest b a,
  comm_bounded n (a / 2) (b / 2) (omega arith) (omega arith),
)

xor-zero_bounded : (n a : ℕ) → a ≤ n → bit_xor a 0 ≡ a
xor-zero_bounded n zero h = refl
xor-zero_bounded zero (suc a) h = absurd (omega arith)
xor-zero_bounded (suc n) (suc a) h =
    omega (arith, bit_xor_lowest (suc a) 0, xor-zero_bounded n (suc a / 2) (omega arith))

pub bit_xor-zero : (a : ℕ) → bit_xor a 0 ≡ a
bit_xor-zero a = xor-zero_bounded a a (omega arith)

pub bit_xor_comm : (a b : ℕ) → bit_xor a b ≡ bit_xor b a
bit_xor_comm a b = comm_bounded (a + b) a b (omega arith) (omega arith)

half-bit_xor : (a b : ℕ) → bit_xor a b / 2 ≡ bit_xor (a / 2) (b / 2)
half-bit_xor a b = omega (arith, bit_xor_lowest a b)

assoc_bounded :
    (n a b c : ℕ) → a ≤ n → b ≤ n → c ≤ n → bit_xor (bit_xor a b) c ≡ bit_xor a (bit_xor b c)
assoc_bounded zero zero zero zero ha hb hc = refl
assoc_bounded zero (suc a) b c ha hb hc = absurd (omega arith)
assoc_bounded zero zero (suc b) c ha hb hc = absurd (omega arith)
assoc_bounded zero zero zero (suc c) ha hb hc = absurd (omega arith)
assoc_bounded (suc n) a b c ha hb hc = omega (
  arith,
  bit_xor_lowest (bit_xor a b) c,
  bit_xor_lowest a (bit_xor b c),
  bit_xor_lowest a b,
  bit_xor_lowest b c,
  ap (λ x. bit_xor x (c / 2)) (half-bit_xor a b),
  ap (bit_xor (a / 2)) (half-bit_xor b c),
  assoc_bounded n (a / 2) (b / 2) (c / 2) (omega arith) (omega arith) (omega arith),
)

bit_xor_assoc : (a b c : ℕ) → bit_xor (bit_xor a b) c ≡ bit_xor a (bit_xor b c)
bit_xor_assoc a b c = assoc_bounded (a + b + c) a b c (omega arith) (omega arith) (omega arith)

-- What was folded in last can be taken out again.
pub bit_xor_cancel : (a b : ℕ) → bit_xor (bit_xor a b) b ≡ a
bit_xor_cancel a b = rw (bit_xor_assoc a b b, bit_xor_self b) (xor-zero_bounded a a (omega arith))

lt_bounded : (k a b : ℕ) → a < 2 ^ k → b < 2 ^ k → bit_xor a b < 2 ^ k
lt_bounded zero zero zero ha hb = omega arith
lt_bounded zero (suc a) b ha hb = absurd (omega arith)
lt_bounded zero zero (suc b) ha hb = absurd (omega arith)
lt_bounded (suc k) a b ha hb = omega (
  arith,
  pow-suc 2 k,
  bit_xor_lowest a b,
  lt_bounded k (a / 2) (b / 2) (omega (arith, pow-suc 2 k)) (omega (arith, pow-suc 2 k)),
)

pub bit_xor-lt : (a b : ℕ) → a < 256 → b < 256 → bit_xor a b < 256
bit_xor-lt = lt_bounded 8
