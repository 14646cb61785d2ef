-- ===== src/Prelude/Bits/Joins.antt =====
-- Values joined by `|` one after the other may come in any order.
use embassy_knx.Prelude.Bits.Digits.{bit_or_lowest}
use Prim.Native.Nat.{ℕ, zero, suc, ◌+◌, ◌/◌, ◌≤◌, bit_or}
use mathlib.Core.Path.{◌≡◌, refl, ap}
use native.Mathlib.Omega.{arith}

half-bit_or : (a b : ℕ) → bit_or a b / 2 ≡ bit_or (a / 2) (b / 2)
half-bit_or a b = omega (arith, bit_or_lowest a b)

swap_bounded : (n a b c : ℕ) → a ≤ n → b ≤ n → c ≤ n → bit_or (bit_or a b) c ≡ bit_or (bit_or a c) b
swap_bounded zero zero zero zero ha hb hc = refl
swap_bounded zero (suc a) b c ha hb hc = absurd (omega arith)
swap_bounded zero zero (suc b) c ha hb hc = absurd (omega arith)
swap_bounded zero zero zero (suc c) ha hb hc = absurd (omega arith)
swap_bounded (suc n) a b c ha hb hc = omega (
  arith,
  bit_or_lowest (bit_or a b) c,
  bit_or_lowest (bit_or a c) b,
  bit_or_lowest a b,
  bit_or_lowest a c,
  ap (λ x. bit_or x (c / 2)) (half-bit_or a b),
  ap (λ x. bit_or x (b / 2)) (half-bit_or a c),
  swap_bounded n (a / 2) (b / 2) (c / 2) (omega arith) (omega arith) (omega arith),
)

pub join_swap : (a b c : ℕ) → bit_or (bit_or a b) c ≡ bit_or (bit_or a c) b
join_swap a b c = swap_bounded (a + b + c) a b c (omega arith) (omega arith) (omega arith)
