-- ===== src/Driver/Receive/LongFrames.antt =====
-- What becomes of an extended frame on the line (src/ncn51_driver.rs, `receive_frame`).
use embassy_knx.Prelude.{ℕ, zero, suc, ◌+◌, ◌≤◌, ◌≡◌, refl, ap, arith, leb, ◌||◌, true}
use embassy_knx.Prelude.{
  List, [], ◌∷◌, ◌++◌, Bytes, length, length-append, length-resize, Bool, true, false,
}
use embassy_knx.Prelude.{
  Outcome, ok, err, panic, pending, map_ok, index, modify_at, set_at, split_at,
}
use embassy_knx.Prelude.Word.{dev, sub8, u8}
use embassy_knx.Frame.Types.{FrameError, FrameResult}
use embassy_knx.Frame.Extended
use embassy_knx.Frame.Reader
use embassy_knx.Frame.Reader.{dst_addr}
use embassy_knx.Frame.Writer.{Platform}
use embassy_knx.Driver.Uart.{
  D, Driver, TransferError, Line, byte, silence, fault, read_with_timeout, bind_outcome,
  from_frame_error, answer, rest_of,
}
use embassy_knx.Driver.Receive.{
  ack_if_addressed, or_timeout, accept, receive_rest, receive_frame_int, read_part, or_return,
}

-- A received frame stands in a buffer of 263 bytes, which is 7 as a byte: `set_length` subtracts 8.
set_length-panic :
    (env : Platform) (n : ℕ) (b : Bytes)
    → env.profile ≡ dev
    → length b ≡ 263
    → Extended.set_length env n b ≡ panic
unfolding Extended.set_length sub8
set_length-panic env n b checks size =
    let guard : (leb n 263 || leb 9 n) ≡ true = ground arith in
    let wraps : u8 (length b) ≡ 7 = ap u8 size in rw (guard, wraps, checks)

timeout-length :
    (buf : Bytes) (count : ℕ) (rx : List Line)
    → length (read_with_timeout buf count rx).1 ≡ length buf
unfolding read_with_timeout
timeout-length [] count rx = refl
timeout-length (x ∷ buf) count [] = refl
timeout-length (x ∷ buf) count (byte v ∷ rx) = ap suc (timeout-length buf (count + 1) rx)
timeout-length (x ∷ buf) count (silence ∷ rx) = refl
timeout-length (x ∷ buf) count (fault e ∷ rx) = refl

-- What holds of the value of a call, if it has one.
abbrev IfOk : {A : Type 0} → (A → Type 0) → FrameResult A → Type 0
IfOk P (ok a) = P a
IfOk P _ = Unit

map-IfOk :
    {A B : Type 0} (P : A → Type 0) (Q : B → Type 0) (f : A → B) (r : FrameResult A)
    → IfOk P r
    → ((a : A) → P a → Q (f a))
    → IfOk Q (map_ok f r)
map-IfOk P Q f (ok a) h k = k a h
map-IfOk P Q f (err e) h k = tt
map-IfOk P Q f panic h k = tt
map-IfOk P Q f pending h k = tt

modify-length :
    (b : Bytes) (i : ℕ) (f : ℕ → ℕ) → IfOk (λ b'. length b' ≡ length b) (modify_at b i f)
modify-length [] i f = tt
modify-length (x ∷ b) zero f = refl
modify-length (x ∷ b) (suc i) f =
    map-IfOk (λ b'. length b' ≡ length b) (λ b'. length b' ≡ suc (length b)) (◌∷◌ x)
      (modify_at b i f) (modify-length b i f) (λ b' h. ap suc h)

split-length : (b : Bytes) (n : ℕ) → IfOk (λ s. length s.0 + length s.1 ≡ length b) (split_at b n)
split-length b zero = omega arith
split-length [] (suc n) = tt
split-length (x ∷ b) (suc n) =
    map-IfOk (λ s. length s.0 + length s.1 ≡ length b)
      (λ s. length s.0 + length s.1 ≡ suc (length b)) (λ s. (x ∷ s.0, s.1)) (split_at b n)
      (split-length b n) (λ s h. omega arith)

any-IfOk : {A : Type 0} (r : FrameResult A) → IfOk (λ a. Unit {0}) r
any-IfOk (ok a) = tt
any-IfOk (err e) = tt
any-IfOk panic = tt
any-IfOk pending = tt

-- The call gives no value.
abbrev pub NeverOk : {A : Type 0} → Outcome TransferError A × Driver → Type 0
NeverOk (ok a, d) = ⊥
NeverOk _ = Unit

module _ {A B : Type 0} where
  bind-NeverOk :
      (P : A → Type 0) (r : FrameResult A) (f : A → D B) (d : Driver)
      → IfOk P r
      → ((a : A) → P a → NeverOk (f a d))
      → NeverOk (bind_outcome (from_frame_error r) f d)
  bind-NeverOk P (ok a) f d h k = k a h
  bind-NeverOk P (err e) f d h k = tt
  bind-NeverOk P panic f d h k = tt
  bind-NeverOk P pending f d h k = tt

  then-NeverOk :
      (r : Outcome TransferError A × Driver) (f : A → D B)
      → ((a : A) (d : Driver) → NeverOk (f a d))
      → NeverOk (bind_outcome r.0 f r.1)
  then-NeverOk (ok a, d) f k = k a d
  then-NeverOk (err e, d) f k = tt
  then-NeverOk (panic, d) f k = tt
  then-NeverOk (pending, d) f k = tt

module _ (env : Platform) (checks : env.profile ≡ dev) where
  accept-NeverOk :
      (n : ℕ) (b : Bytes) (d : Driver)
      → length b ≡ 263
      → NeverOk (accept (Extended.writer env) n b d)
  unfolding accept
  accept-NeverOk n b d size = ground (arith, set_length-panic env n b checks size)

  -- An extended frame that passes all checks makes the reception panic under overflow checks: one
  -- of 9 to 263 bytes, as long as it says, with a valid checksum, in its buffer of 263 bytes.
  pub extended_panics :
      (n : ℕ) (b : Bytes) (d : Driver)
      → length b ≡ 263
      → 9 ≤ n
      → n ≤ 263
      → Extended.length env b ≡ ok n
      → index {E = FrameError} b n ≡ ok (Reader.checksum b)
      → accept (Extended.writer env) n b d ≡ (panic, d)
  unfolding accept
  extended_panics n b d size long short says sealed =
      ground (arith, set_length-panic env n b checks size)

  rest-NeverOk :
      (n : ℕ) (b : Bytes) (d : Driver)
      → length b ≡ 263
      → NeverOk (receive_rest (Extended.writer env) n b d)
  unfolding receive_rest read_part or_timeout
  rest-NeverOk n b d size =
      bind-NeverOk (λ a. Unit {0}) (dst_addr (Extended.reader env) b) _ d
        (any-IfOk (dst_addr (Extended.reader env) b))
        (λ dst _. then-NeverOk (ack_if_addressed dst d) _ (λ _ d'.
          bind-NeverOk (λ s. length s.0 + length s.1 ≡ length b) (split_at b 8) _ d'
            (split-length b 8)
            (λ parts fits.
              let second = read_with_timeout parts.1 0 d'.rx in
              then-NeverOk (or_timeout second.0 (record d' { rx = second.2 })) _ (λ more d2.
                accept-NeverOk (n + more) (parts.0 ++ second.1 ++ []) d2 (
                  omega (
                    arith,
                    length-append (parts.0 ++ second.1) [],
                    length-append parts.0 second.1,
                    timeout-length parts.1 0 d'.rx,
                  ))))))

  new-length : (pool : Bool) → IfOk (λ b. length b ≡ 263) (Extended.new env pool 263)
  unfolding Extended.new
  new-length false = tt
  new-length true = rw (env.resize_fits [] 263 (omega arith)) (length-resize {A = ℕ} 263 0 [])

  -- Under overflow checks no extended frame is received.
  pub receive_int-NeverOk :
      (ctrl : ℕ) (d : Driver) → NeverOk (receive_frame_int (Extended.writer env) ctrl d)
  unfolding receive_frame_int read_part or_return
  receive_int-NeverOk ctrl d =
      bind-NeverOk (λ b. length b ≡ 263) (Extended.new env (answer d.pool) 263) _ _
        (new-length (answer d.pool))
        (λ fresh size.
          bind-NeverOk (λ b. length b ≡ length fresh) (set_at fresh 0 ctrl) _ _
            (modify-length fresh 0 (λ _. ctrl))
            (λ started same.
              bind-NeverOk (λ s. length s.0 + length s.1 ≡ length started) (split_at started 1) _ _
                (split-length started 1)
                (λ front fits.
                  bind-NeverOk (λ s. length s.0 + length s.1 ≡ length front.1) (split_at front.1 7)
                    _ _ (split-length front.1 7)
                    (λ header fits'.
                      let first = read_with_timeout header.0 0 d.rx in
                      then-NeverOk
                        (or_return first.0 (record d { rx = first.2; pool = rest_of d.pool })) _
                        (λ header_bytes d'.
                          rest-NeverOk (1 + header_bytes) (front.0 ++ first.1 ++ header.1) d' (
                            omega (
                              arith,
                              length-append (front.0 ++ first.1) header.1,
                              length-append front.0 first.1,
                              timeout-length header.0 0 d.rx,
                            )))))))
