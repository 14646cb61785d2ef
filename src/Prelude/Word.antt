-- ===== src/Prelude/Word.antt =====
-- Machine words: casts, shifts, and arithmetic with and without overflow checks.
use Prim.Native.Nat.{ℕ, ◌+◌, ◌-◌, ◌*◌, ◌/◌, ◌%◌, ◌^◌}
use embassy_knx.Prelude.Tests.{ltb, leb, if◌then◌else◌}
use embassy_knx.Prelude.Results.{Outcome, ok, panic}

abbrev pub u8 : ℕ → ℕ
u8 n = n % 256

abbrev pub u16 : ℕ → ℕ
u16 n = n % 65536

infixl 75 ◌>>>◌
abbrev pub ◌>>>◌ : ℕ → ℕ → ℕ
x >>> k = x / 2 ^ k

-- A left shift drops what leaves the word.
abbrev pub shl8 : ℕ → ℕ → ℕ
shl8 x k = u8 (x * 2 ^ k)

abbrev pub shl16 : ℕ → ℕ → ℕ
shl16 x k = u16 (x * 2 ^ k)

-- `!x` on a byte.
abbrev pub not8 : ℕ → ℕ
not8 x = 255 - x

-- The build profile: `dev` panics on an overflow, `release` wraps.
pub data Profile : Type 0 where
  dev release : Profile

overflow : {E : Type 0} → Profile → ℕ → Outcome E ℕ
overflow dev wrapped = panic
overflow release wrapped = ok wrapped

unfoldable pub add8 : {E : Type 0} → Profile → ℕ → ℕ → Outcome E ℕ
unfolding overflow
add8 p a b = if ltb (a + b) 256 then ok (a + b) else overflow p (u8 (a + b))

unfoldable pub sub8 : {E : Type 0} → Profile → ℕ → ℕ → Outcome E ℕ
unfolding overflow
sub8 p a b = if leb b a then ok (a - b) else overflow p (a + 256 - b)
