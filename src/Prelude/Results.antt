-- ===== src/Prelude/Results.antt =====
-- How a call of the program ends. A `Result<T, E>` and a panic are values, and so is a call
-- that waits for input that never comes.
use mathlib.Core.Path.{◌≡◌, refl}

pub data Outcome (E A : Type 0) : Type 0 where
  ok : A → Outcome E A
  err : E → Outcome E A
  panic : Outcome E A
  pending : Outcome E A

infixl 5 ◌>>=◌ ◌>>◌
abbrev pub ◌>>=◌ : {E A B : Type 0} → Outcome E A → (A → Outcome E B) → Outcome E B
ok a >>= f = f a
err e >>= f = err e
panic >>= f = panic
pending >>= f = pending

abbrev pub ◌>>◌ : {E B : Type 0} → Outcome E (Unit {0}) → Outcome E B → Outcome E B
m >> k = m >>= λ _. k

-- `Result::map`.
abbrev pub map_ok : {E A B : Type 0} → (A → B) → Outcome E A → Outcome E B
map_ok f (ok a) = ok (f a)
map_ok f (err e) = err e
map_ok f panic = panic
map_ok f pending = pending

-- A bind succeeds only where both of its parts do.
pub >>=-ok :
    {E A B : Type 0} {b : B} (k : A → Outcome E B) (first : Outcome E A)
    → (first >>= k) ≡ ok b
    → (a : A) × (k a ≡ ok b) × (first ≡ ok a)
>>=-ok k (ok a) same = (a, same, refl)
>>=-ok k (err e) same = cc
>>=-ok k panic same = cc
>>=-ok k pending same = cc
