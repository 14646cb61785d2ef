-- ===== src/Frame/Dispatch/Cases.antt =====
-- How a reader of either format can end: with a value, or with a panic on a buffer too short.
use embassy_knx.Prelude.{ℕ, zero, suc, ◌<◌, ◌≡◌, ◌⊎◌, inl, inr, refl, arith}
use embassy_knx.Prelude.{Bytes, [], ◌∷◌, ok, panic, index, slice_from, bit_and}
use embassy_knx.Prelude.Bits.Tables.{mask_7}
use embassy_knx.Prelude.Word.{◌>>>◌}
use embassy_knx.Address.Individual
use embassy_knx.Address.Individual.{IndividualAddress}
use embassy_knx.Frame.Types.{FrameResult}
use embassy_knx.Frame.Reader
use embassy_knx.Frame.Reader.{FrameReader, src_addr_offset, tpci_offset}
use embassy_knx.Frame.Writer.{Platform}
use embassy_knx.Frame.Standard
use embassy_knx.Frame.Extended
use embassy_knx.Frame.Dispatch
use embassy_knx.Frame.Dispatch.{Frame, standard, extended}

abbrev pub Ends : {A : Type 0} → (A → Type 0) → FrameResult A → Type 0
Ends {A} P r = ((a : A) × (r ≡ ok a) × P a) ⊎ (r ≡ panic)

index-Ends : (b : Bytes) (i : ℕ) → Ends (λ (x : ℕ). Unit {0}) (index b i)
index-Ends [] i = inr refl
index-Ends (x ∷ b) zero = inl (x, refl, tt)
index-Ends (x ∷ b) (suc i) = index-Ends b i

slice_from-Ends : (b : Bytes) (i : ℕ) → Ends (λ (s : Bytes). Unit {0}) (slice_from b i)
slice_from-Ends b zero = inl (b, refl, tt)
slice_from-Ends [] (suc i) = inr refl
slice_from-Ends (x ∷ b) (suc i) = slice_from-Ends b i

from_bytes-Ends : (b : Bytes) → Ends (λ (a : IndividualAddress). Unit {0}) (Individual.from_bytes b)
unfolding Individual.from_bytes
from_bytes-Ends [] = inr refl
from_bytes-Ends (x ∷ []) = inr refl
from_bytes-Ends (x ∷ y ∷ b) = inl (_, refl, tt)

reader_src-Ends :
    (r : FrameReader) (b : Bytes) → Ends (λ (a : IndividualAddress). Unit {0}) (Reader.src_addr r b)
unfolding Reader.src_addr
reader_src-Ends r b = elim (slice_from-Ends b (src_addr_offset r)) [
  | inl (s, e, _) ↦ rw e (from_bytes-Ends s)
  | inr e ↦ inr (rw e)
]

reader_seq-Ends : (r : FrameReader) (b : Bytes) → Ends (λ (q : ℕ). q < 8) (Reader.tpci_seq r b)
unfolding Reader.tpci_seq
reader_seq-Ends r b = elim (index-Ends b (tpci_offset r)) [
  | inl (c, e, _) ↦ inl (bit_and (c >>> 2) 7, rw e, omega (arith, mask_7 (c >>> 2)))
  | inr e ↦ inr (rw e)
]

-- The sender is read, or the buffer is too short for it.
pub src_addr-Ends :
    (env : Platform) (frame : Frame)
    → Ends (λ (a : IndividualAddress). Unit {0}) (Dispatch.src_addr env frame)
unfolding Dispatch.src_addr
src_addr-Ends env (standard f) = reader_src-Ends (Standard.reader env) f
src_addr-Ends env (extended f) = reader_src-Ends (Extended.reader env) f

-- A sequence number that is read has three bits.
pub tpci_seq-Ends :
    (env : Platform) (frame : Frame) → Ends (λ (q : ℕ). q < 8) (Dispatch.tpci_seq env frame)
unfolding Dispatch.tpci_seq
tpci_seq-Ends env (standard f) = reader_seq-Ends (Standard.reader env) f
tpci_seq-Ends env (extended f) = reader_seq-Ends (Extended.reader env) f
