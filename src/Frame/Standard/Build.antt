-- ===== src/Frame/Standard/Build.antt =====
-- Well-formed standard telegrams: those that the code makes are, and the setters keep them so.
use embassy_knx.Prelude.{ℕ, zero, suc, ◌+◌, ◌-◌, ◌%◌, ◌≤◌, ◌≡◌, refl, sym, ap, ◌∙◌, arith}
use embassy_knx.Prelude.{Bytes, length, List, [], ◌∷◌, All, replicate, true, ok, ==_iff}
use embassy_knx.Prelude.Bits.Tables.{mask_1, mask_3}
use embassy_knx.Prelude.Bits.Fields.{zero-bit_or}
use embassy_knx.DataPoint.{DataPoint, b1, b2, u8}
use embassy_knx.Frame.Types.{FrameResult}
use embassy_knx.Frame.Writer
use embassy_knx.Frame.Writer.{Platform}
use embassy_knx.Frame.Standard
use embassy_knx.Frame.Header.{Header, decode, IsBytes}
use embassy_knx.Frame.Standard.Reads.{Reads-decode}
use embassy_knx.Frame.Standard.Writes.{Writes}
use embassy_knx.Frame.Standard.Setters.{
  Setter, IsInRange, apply_all, update, update_all, apply_all-update_all,
}
use embassy_knx.Frame.Standard.Length.{fresh, new_lem, set_length_header}

-- The buffer is bytes, holds a header of the standard format, and is as long as its length
-- field says, the slot of the checksum included.
pub record IsWellFormed (b : Bytes) : Type 0 where
  pub long : 8 ≤ length b
  pub bytes : IsBytes b
  pub standard_kind : (decode b).kind ≡ 1
  pub agrees : (decode b).lg + 8 ≡ length b

-- `length()` of a well-formed telegram is the size of its buffer.
length_lem : (env : Platform) (b : Bytes) → IsWellFormed b → Standard.length env b ≡ ok (length b)
length_lem env b w = (Reads-decode env b w.long w.bytes).reads_length ∙ ap ok w.agrees

length-replicate : (n : ℕ) → length (replicate {A = ℕ} n 0) ≡ n
length-replicate zero = refl
length-replicate (suc n) = ap suc (length-replicate n)

length-fresh : (n : ℕ) → 8 ≤ n → length (fresh n) ≡ n
length-fresh n h = omega (arith, length-replicate (n - 8))

-- Copying a well-formed telegram with a free block gives the same telegram: neither the
-- allocation nor `clone_from_slice` fails.
pub try_from_lem :
    (env : Platform) (b : Bytes)
    → IsWellFormed b
    → Writer.try_from (Standard.writer env) true b ≡ ok b
unfolding Writer.try_from
try_from_lem env b w = rw (
  length_lem env b w,
  new_lem env (length b) w.long (omega (arith, w)),
  (==_iff _ _).1 (length-fresh (length b) w.long),
)

-- No setter touches the format or the length field.
update_keeps : (s : Setter) (h : Header) → ((update s h).kind ≡ h.kind) × ((update s h).lg ≡ h.lg)
update_keeps s h = ground arith

update_all-keeps :
    (ss : List Setter) (h : Header)
    → ((update_all ss h).kind ≡ h.kind) × ((update_all ss h).lg ≡ h.lg)
update_all-keeps [] h = (refl, refl)
update_all-keeps (s ∷ ss) h =
    let first = update_keeps s h in
    let rest = update_all-keeps ss (update s h) in (rest.0 ∙ first.0, rest.1 ∙ first.1)

pub Writes-IsWellFormed :
    (ss : List Setter) (b : Bytes) {result : FrameResult Bytes}
    → IsWellFormed b
    → (written : Writes b (update_all ss (decode b)) result) → IsWellFormed written.out
Writes-IsWellFormed ss b w written =
    let keeps = update_all-keeps ss (decode b) in
    record {
      long = rw written.same_length w.long;
      bytes = written.bytes;
      standard_kind = ap (λ (h : Header). h.kind) written.header ∙ keeps.0 ∙ w.standard_kind;
      agrees =
          ap (λ (h : Header). h.lg + 8) written.header
          ∙ ap (λ (n : ℕ). n + 8) keeps.1
          ∙ w.agrees
          ∙ sym written.same_length;
    }

-- A sequence of setters with values in range keeps a telegram well formed, and none of them fails.
pub apply_all-IsWellFormed :
    (env : Platform) (ss : List Setter) (b : Bytes)
    → IsWellFormed b
    → All IsInRange ss
    → (out : Bytes) × (apply_all env ss b ≡ ok out) × IsWellFormed out
apply_all-IsWellFormed env ss b w r =
    let written = apply_all-update_all env ss b w.long w.bytes r in
    (written.out, written.succeeds, Writes-IsWellFormed ss b w written)

-- What a telegram with the datapoint looks like before its header is filled in. A value of up to
-- five bits shares the byte of the APCI; a longer one follows it.
abbrev pub telegram : DataPoint → Bytes
telegram (b1 v) = 0x90 ∷ 0 ∷ 0 ∷ 0 ∷ 0 ∷ 1 ∷ 0 ∷ (v % 2) ∷ 0 ∷ []
telegram (b2 v) = 0x90 ∷ 0 ∷ 0 ∷ 0 ∷ 0 ∷ 1 ∷ 0 ∷ (v % 4) ∷ 0 ∷ []
telegram (u8 v) = 0x90 ∷ 0 ∷ 0 ∷ 0 ∷ 0 ∷ 2 ∷ 0 ∷ 0 ∷ v ∷ 0 ∷ []

-- With a free block, `from_datapoint` of any value gives the shortest telegram that holds it, with
-- its value in place and all other fields 0; it neither fails nor panics.
pub from_datapoint_lem :
    (env : Platform) (d : DataPoint)
    → Writer.from_datapoint (Standard.writer env) true d ≡ ok (telegram d)
unfolding Writer.from_datapoint
from_datapoint_lem env (b1 v) = rw (
  new_lem env 24 (omega arith) (omega arith),
  mask_1 v,
  zero-bit_or (v % 2),
  set_length_header env 9 0x90 0 0 0 0 0 (0 ∷ (v % 2) ∷ replicate 16 0) (omega arith) (omega arith),
)
from_datapoint_lem env (b2 v) = rw (
  new_lem env 24 (omega arith) (omega arith),
  mask_3 v,
  zero-bit_or (v % 4),
  set_length_header env 9 0x90 0 0 0 0 0 (0 ∷ (v % 4) ∷ replicate 16 0) (omega arith) (omega arith),
)
from_datapoint_lem env (u8 v) = rw (
  new_lem env 24 (omega arith) (omega arith),
  set_length_header env 10 0x90 0 0 0 0 0 (0 ∷ 0 ∷ v ∷ replicate 15 0) (omega arith) (omega arith),
)
