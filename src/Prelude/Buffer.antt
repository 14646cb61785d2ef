-- ===== src/Prelude/Buffer.antt =====
-- Reads and writes of a byte buffer; one out of range panics, as an index of a slice does.
use embassy_knx.Prelude.Lists.{length}
use embassy_knx.Prelude.Tests.{◌==◌, if◌then◌else◌}
use embassy_knx.Prelude.Results.{Outcome, ok, panic, map_ok}
use Prim.Native.Nat.{ℕ, zero, suc}
use mathlib.Core.List.{List, [], ◌∷◌, ◌++◌}

abbrev pub Bytes : Type 0
Bytes = List ℕ

module _ {E : Type 0} where
  -- `b[i]`
  abbrev pub index : Bytes → ℕ → Outcome E ℕ
  index [] i = panic
  index (x ∷ b) zero = ok x
  index (x ∷ b) (suc i) = index b i

  -- `b[i] = f(b[i])`
  abbrev pub modify_at : Bytes → ℕ → (ℕ → ℕ) → Outcome E Bytes
  modify_at [] i f = panic
  modify_at (x ∷ b) zero f = ok (f x ∷ b)
  modify_at (x ∷ b) (suc i) f = map_ok (◌∷◌ x) (modify_at b i f)

  -- `b[i] = v`
  abbrev pub set_at : Bytes → ℕ → ℕ → Outcome E Bytes
  set_at b i v = modify_at b i (λ _. v)

  -- `&b[i..]`
  abbrev pub slice_from : Bytes → ℕ → Outcome E Bytes
  slice_from b zero = ok b
  slice_from [] (suc i) = panic
  slice_from (x ∷ b) (suc i) = slice_from b i

  -- `&b[..n]` with what follows it
  abbrev pub split_at : Bytes → ℕ → Outcome E (Bytes × Bytes)
  split_at b zero = ok ([], b)
  split_at [] (suc n) = panic
  split_at (x ∷ b) (suc n) = map_ok (λ s. (x ∷ s.0, s.1)) (split_at b n)

  -- A call with `&mut b[i..]`.
  abbrev pub on_slice_from : ℕ → (Bytes → Outcome E Bytes) → Bytes → Outcome E Bytes
  on_slice_from zero f b = f b
  on_slice_from (suc i) f [] = panic
  on_slice_from (suc i) f (x ∷ b) = map_ok (◌∷◌ x) (on_slice_from i f b)

  -- A call with `&mut b[i..i + n]`.
  abbrev pub on_slice : ℕ → ℕ → (Bytes → Outcome E Bytes) → Bytes → Outcome E Bytes
  on_slice i n f = on_slice_from i (λ b. elim (split_at b n) [
    | ok (front, back) ↦ map_ok (λ s. s ++ back) (f front)
    | _ ↦ panic
  ])

  -- `b.clone_from_slice(src)`
  abbrev pub clone_from_slice : Bytes → Bytes → Outcome E Bytes
  clone_from_slice b src = if length b == length src then ok src else panic
