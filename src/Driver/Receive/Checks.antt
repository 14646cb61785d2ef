-- ===== src/Driver/Receive/Checks.antt =====
-- The checks that end the reception of a standard frame (src/ncn51_driver.rs).
use embassy_knx.Prelude.{ℕ, zero, suc, ◌+◌, ◌-◌, ◌/◌, ◌%◌, ◌<◌, ◌≡◌, sym, arith, inl, inr}
use embassy_knx.Prelude.{◌==◌, ltb, true, false, Bool-cases, ==_iff}
use embassy_knx.Prelude.{◌∷◌, ◌++◌, Bytes, length, replicate, Outcome, ok, err, panic, pending}
use embassy_knx.Prelude.Bits.Tables.{mask_15}
use embassy_knx.Prelude.Word.{add8}
use embassy_knx.Frame.Types.{invalid_length, checksum}
use embassy_knx.Frame.Header.{IsBytes}
use embassy_knx.Frame.Reader
use embassy_knx.Frame.Writer.{Platform}
use embassy_knx.Frame.Standard
use embassy_knx.Frame.Standard.Length.{set_length_header}
use embassy_knx.Frame.Standard.Build.{IsWellFormed}
use embassy_knx.Driver.Uart.{D, Driver, TransferError, frame_error, bind_outcome}
use embassy_knx.Driver.Receive.{accept}
use embassy_knx.Driver.Receive.Accepting.{
  checksum-append, index-append, resize-append, or_own_length,
}

-- A call ends with a value of which `P` holds or with an error; it neither panics nor waits for
-- ever.
abbrev pub Ends : {A : Type 0} → (A → Driver → Type 0) → Outcome TransferError A × Driver → Type 0
Ends P (ok a, d) = P a d
Ends P (err e, d) = Unit
Ends P (panic, d) = ⊥
Ends P (pending, d) = ⊥

pub bind-Ends :
    {A B : Type 0} (Q : A → Driver → Type 0) (P : B → Driver → Type 0)
    (run : Outcome TransferError A × Driver) (f : A → D B)
    → Ends Q run
    → ((a : A) (d : Driver) → Q a d → Ends P (f a d))
    → Ends P (bind_outcome run.0 f run.1)
bind-Ends Q P (ok a, d) f q k = k a d q
bind-Ends Q P (err e, d) f q k = tt
bind-Ends Q P (panic, d) f q k = elim q [ ]
bind-Ends Q P (pending, d) f q k = elim q [ ]

-- A whole telegram: well formed, and the exclusive or of its bytes is 255.
pub record IsTelegram (b : Bytes) : Type 0 where
  pub well_formed : IsWellFormed b
  pub sealed : Reader.checksum b ≡ 0

length_value :
    (env : Platform) (b0 b1 b2 b3 b4 b5 : ℕ) (rest : Bytes)
    → Standard.length env (b0 ∷ b1 ∷ b2 ∷ b3 ∷ b4 ∷ b5 ∷ rest) ≡ ok (b5 % 16 + 8)
unfolding Standard.length add8
length_value env b0 b1 b2 b3 b4 b5 rest = ground (arith, mask_15 b5)

-- A telegram is accepted from a buffer of 24 bytes in which zeros follow it.
pub accept_telegram :
    (env : Platform) (b0 b1 b2 b3 b4 b5 b6 : ℕ) (rest : Bytes) (left : ℕ) (d : Driver)
    → let b : Bytes = b0 ∷ b1 ∷ b2 ∷ b3 ∷ b4 ∷ b5 ∷ b6 ∷ rest in
      b5 < 256
      → length rest + left ≡ 17
      → length rest + 7 ≡ b5 % 16 + 8
      → Reader.checksum b ≡ 0
      → accept (Standard.writer env) (1 + 6 + length rest) (b ++ replicate left 0) d ≡ (ok b, d)
unfolding accept
accept_telegram env b0 b1 b2 b3 b4 b5 b6 rest zero d byte fits says valid = absurd (omega arith)
accept_telegram env b0 b1 b2 b3 b4 b5 b6 rest (suc left) d byte fits says valid =
    let b : Bytes = b0 ∷ b1 ∷ b2 ∷ b3 ∷ b4 ∷ b5 ∷ b6 ∷ rest in
    let n : ℕ = 1 + 6 + length rest in
    let size : 1 + 6 + length rest ≡ length b = omega arith in
    let big_enough : ltb (length b) 8 ≡ false = ground arith in
    let small_enough : ltb 24 (length b) ≡ false = ground arith in
    let same : (length b == b5 % 16 + 8) ≡ true = (==_iff _ _).1 (omega arith) in
    let lg : (length b - 8) % 16 ≡ b5 % 16 = omega arith in
    rw (
      size,
      big_enough,
      small_enough,
      length_value env b0 b1 b2 b3 b4 b5 (b6 ∷ rest ++ replicate (suc left) 0),
      same,
      index-append b left,
      checksum-append b (suc left),
      valid,
      set_length_header env (length b) b0 b1 b2 b3 b4 b5 (b6 ∷ rest ++ replicate (suc left) 0)
          (omega arith) (omega arith),
      lg,
      or_own_length b5 byte,
      resize-append b (replicate (suc left) 0),
    )

-- A buffer of another length than it says is refused, and so is one with a wrong checksum.
refuse_length :
    (env : Platform) (b0 b1 b2 b3 b4 b5 b6 : ℕ) (rest : Bytes) (left : ℕ) (d : Driver)
    → let b : Bytes = b0 ∷ b1 ∷ b2 ∷ b3 ∷ b4 ∷ b5 ∷ b6 ∷ rest in
      (length rest + 7 == b5 % 16 + 8) ≡ false
      → accept (Standard.writer env) (1 + 6 + length rest) (b ++ replicate left 0) d
        ≡ (err (frame_error invalid_length), d)
unfolding accept
refuse_length env b0 b1 b2 b3 b4 b5 b6 rest left d differs =
    rw (length_value env b0 b1 b2 b3 b4 b5 (b6 ∷ rest ++ replicate left 0)) (ground arith)

refuse_checksum :
    (env : Platform) (b0 b1 b2 b3 b4 b5 b6 : ℕ) (rest : Bytes) (left : ℕ) (d : Driver)
    → let b : Bytes = b0 ∷ b1 ∷ b2 ∷ b3 ∷ b4 ∷ b5 ∷ b6 ∷ rest in
      length rest + left ≡ 17
      → length rest + 7 ≡ b5 % 16 + 8
      → (0 == Reader.checksum b) ≡ false
      → accept (Standard.writer env) (1 + 6 + length rest) (b ++ replicate left 0) d
        ≡ (err (frame_error checksum), d)
unfolding accept
refuse_checksum env b0 b1 b2 b3 b4 b5 b6 rest zero d fits says bad = absurd (omega arith)
refuse_checksum env b0 b1 b2 b3 b4 b5 b6 rest (suc left) d fits says bad =
    let b : Bytes = b0 ∷ b1 ∷ b2 ∷ b3 ∷ b4 ∷ b5 ∷ b6 ∷ rest in
    let size : 1 + 6 + length rest ≡ length b = omega arith in
    let big_enough : ltb (length b) 8 ≡ false = ground arith in
    let small_enough : ltb 24 (length b) ≡ false = ground arith in
    let same : (length b == b5 % 16 + 8) ≡ true = (==_iff _ _).1 (omega arith) in
    rw (
      size,
      big_enough,
      small_enough,
      length_value env b0 b1 b2 b3 b4 b5 (b6 ∷ rest ++ replicate (suc left) 0),
      same,
      index-append b left,
      checksum-append b (suc left),
      bad,
    )

-- What is accepted from such a buffer is the telegram that was read.
pub accept-Ends :
    (env : Platform) (b0 b1 b2 b3 b4 b5 b6 : ℕ) (rest : Bytes) (left : ℕ) (d : Driver)
    → let b : Bytes = b0 ∷ b1 ∷ b2 ∷ b3 ∷ b4 ∷ b5 ∷ b6 ∷ rest in
      IsBytes b
      → length rest + left ≡ 17
      → b0 / 128 ≡ 1
      → Ends
          (λ b later. IsTelegram b)
          (accept (Standard.writer env) (1 + 6 + length rest) (b ++ replicate left 0) d)
accept-Ends env b0 b1 b2 b3 b4 b5 b6 rest left d bytes fits std =
    let b : Bytes = b0 ∷ b1 ∷ b2 ∷ b3 ∷ b4 ∷ b5 ∷ b6 ∷ rest in
    elim (Bool-cases (length rest + 7 == b5 % 16 + 8)) [
      | inr differs ↦ rw (refuse_length env b0 b1 b2 b3 b4 b5 b6 rest left d differs) tt
      | inl same ↦ elim (Bool-cases (0 == Reader.checksum b)) [
        | inr bad ↦
            rw (refuse_checksum env b0 b1 b2 b3 b4 b5 b6 rest left d fits ((==_iff _ _).0 same) bad)
              tt
        | inl valid ↦
            rw
              (accept_telegram env b0 b1 b2 b3 b4 b5 b6 rest left d (omega (arith, bytes)) fits
                ((==_iff _ _).0 same) (sym ((==_iff _ _).0 valid)))
              (record {
                well_formed = record {
                  long = omega (arith, (==_iff _ _).0 same);
                  bytes = bytes;
                  standard_kind = std;
                  agrees = omega (arith, (==_iff _ _).0 same);
                };
                sealed = sym ((==_iff _ _).0 valid);
              })
      ]
    ]
