-- ===== src/Driver/Receive/Reading.antt =====
-- What a read of several bytes brings (src/ncn51_driver.rs, `read_with_timeout`).
use embassy_knx.Prelude.{ℕ, zero, suc, ◌+◌, ◌≤◌, ◌<◌, ◌≡◌, refl, ap, arith}
use embassy_knx.Prelude.{List, [], ◌∷◌, ◌++◌, Bytes, length, All, replicate, Outcome, ok, err}
use embassy_knx.Frame.Header.{IsBytes}
use embassy_knx.Driver.Uart.{
  Line, byte, silence, fault, TransferError, timeout_error, read_error, read_with_timeout,
}

-- The line brings the bytes, and then `later`.
abbrev pub line_of : Bytes → List Line → List Line
line_of [] later = later
line_of (x ∷ xs) later = byte x ∷ line_of xs later

abbrev pub IsByteLine : Line → Type 0
IsByteLine (byte v) = v < 256
IsByteLine _ = Unit

-- How many bytes a read says that it has read, which leaves `left` unread.
abbrev pub Says : ℕ → ℕ → Outcome TransferError ℕ → Type 0
Says got left (ok n) = (n ≡ got) × (left ≡ 0)
Says got left (err (timeout_error n)) = (n ≡ got) × (1 ≤ left)
Says got left (err (read_error _)) = Unit
Says got left _ = ⊥

-- A read into `size` zeros, after `count` other bytes, leaves zeros behind what it has read.
pub record IsReading (size count : ℕ) (run : Outcome TransferError ℕ × Bytes × List Line)
    : Type 0 where
  pub got : Bytes
  pub left : ℕ
  pub buffer : run.1 ≡ got ++ replicate left 0
  pub fits : length got + left ≡ size
  pub bytes : IsBytes got
  pub line : All IsByteLine run.2
  pub says : Says (count + length got) left run.0

later_count : (count n : ℕ) → count + suc n ≡ count + 1 + n
later_count count n = omega arith

pub read_lem :
    (size count : ℕ) (rx : List Line)
    → All IsByteLine rx
    → IsReading size count (read_with_timeout (replicate size 0) count rx)
unfolding read_with_timeout
read_lem zero count rx h = record {
  got = [];
  left = 0;
  buffer = refl;
  fits = refl;
  bytes = tt;
  line = h;
  says = (omega arith, refl);
}
read_lem (suc size) count [] h = record {
  got = [];
  left = suc size;
  buffer = refl;
  fits = omega arith;
  bytes = tt;
  line = h;
  says = (omega arith, omega arith);
}
read_lem (suc size) count (byte v ∷ rx) h =
    let rest = read_lem size (count + 1) rx h.1 in
    record {
      got = v ∷ rest.got;
      left = rest.left;
      buffer = ap (◌∷◌ v) rest.buffer;
      fits = omega (arith, rest.fits);
      bytes = (h.0, rest.bytes);
      line = rest.line;
      says = rw (later_count count (length rest.got)) rest.says;
    }
read_lem (suc size) count (silence ∷ rx) h = record {
  got = [];
  left = suc size;
  buffer = refl;
  fits = omega arith;
  bytes = tt;
  line = h.1;
  says = (omega arith, omega arith);
}
read_lem (suc size) count (fault e ∷ rx) h = record {
  got = [];
  left = suc size;
  buffer = refl;
  fits = omega arith;
  bytes = tt;
  line = h.1;
  says = tt;
}

-- Bytes enough fill the buffer.
pub read_all :
    (xs : Bytes) (count : ℕ) (later : List Line)
    → read_with_timeout (replicate (length xs) 0) count (line_of xs later)
      ≡ (ok (count + length xs), xs, later)
unfolding read_with_timeout
read_all [] count later = ap (λ n. (ok n, [], later)) (omega arith)
read_all (x ∷ xs) count later =
    rw (read_all xs (count + 1) later) (ap (λ n. (ok n, x ∷ xs, later)) (omega arith))

-- A silence ends the read before the buffer is full.
pub read_until_silence :
    (xs : Bytes) (count size left : ℕ) (later : List Line)
    → size ≡ length xs + suc left
    → read_with_timeout (replicate size 0) count (line_of xs (silence ∷ later))
      ≡ (err (timeout_error (count + length xs)), xs ++ replicate (suc left) 0, later)
unfolding read_with_timeout
read_until_silence xs count zero left later e = absurd (omega arith)
read_until_silence [] count (suc size) left later e =
    let all_left : size ≡ left = omega (arith, e) in
    let none_read : count + 0 ≡ count = omega arith in rw (none_read, all_left) refl
read_until_silence (x ∷ xs) count (suc size) left later e = rw (
  read_until_silence xs (count + 1) size left later (omega (arith, e)),
  later_count count (length xs),
)
