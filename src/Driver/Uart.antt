-- ===== src/Driver/Uart.antt =====
-- The driver's state, its errors, and its calls of the serial port (src/ncn51_driver.rs). The
-- port is not part of the program: a script says what each of its calls meets.
use embassy_knx.Prelude.{ℕ, ◌+◌, Bool, false, Option, some, List, [], ◌∷◌, ◌++◌}
use embassy_knx.Prelude.{Outcome, ok, err, panic, pending, Bytes, bit_or}
use embassy_knx.Frame.Types.{FrameError, FrameResult}
use embassy_knx.Frame.Dispatch.{Frame}

-- `TransferError`; an error of the port is known by its code.
pub data TransferError : Type 0 where
  timeout_error : ℕ → TransferError
  read_error : ℕ → TransferError
  frame_error : FrameError → TransferError
  invalid_data : ℕ → TransferError

pub data ConStatus : Type 0 where
  con_ok con_not_ok : ConStatus

pub data AckTypes : Type 0 where
  nack busy ack : AckTypes

abbrev pub ack_value : AckTypes → ℕ
ack_value nack = 0x4
ack_value busy = 0x2
ack_value ack = 0x1

-- `mod commands`, as far as it is used.
abbrev pub u_ackn_req : ℕ
u_ackn_req = 0x10

abbrev pub u_l_data_start_req : ℕ
u_l_data_start_req = 0x80

abbrev pub u_l_data_cont_req : ℕ
u_l_data_cont_req = 0x80

abbrev pub u_l_data_end_req : ℕ
u_l_data_end_req = 0x40

-- What happens on the receiving line: a byte, no byte for the time of a bus silence, or a fault.
pub data Line : Type 0 where
  byte : ℕ → Line
  silence : Line
  fault : ℕ → Line

-- `rx` is what the line brings, and is silent once the list ends; `tx` is the error of each write
-- to come, if any, and `written` what was written. `passed` are the frames given to the stack,
-- `confirmed` the signals to the data link layer, and `pool` the answers of the next allocations.
pub record Driver : Type 0 where
  pub rx : List Line
  pub tx : List (Option ℕ)
  pub written : Bytes
  pub pool : List Bool
  pub led : Bool
  pub passed : List Frame
  pub confirmed : List ConStatus

-- The driver as `NCN51Driver::new` makes it, with the LED off, before anything comes on the line. How
-- the port is set up, and which blocks the pool gets, is what the script and the answers stand for.
unfoldable pub new : List Line → List (Option ℕ) → List Bool → Driver
new rx tx pool = record {
  rx = rx;
  tx = tx;
  written = [];
  pool = pool;
  led = false;
  passed = [];
  confirmed = [];
}

abbrev pub D : Type 0 → Type 0
D A = Driver → Outcome TransferError A × Driver

abbrev pub pure : {A : Type 0} → A → D A
pure a d = (ok a, d)

abbrev pub fail : {A : Type 0} → TransferError → D A
fail e d = (err e, d)

abbrev pub bind_outcome : {A B : Type 0} → Outcome TransferError A → (A → D B) → D B
bind_outcome (ok a) f d = f a d
bind_outcome (err e) f d = (err e, d)
bind_outcome panic f d = (panic, d)
bind_outcome pending f d = (pending, d)

infixl 5 ◌>>=◌ ◌>>◌
abbrev pub ◌>>=◌ : {A B : Type 0} → D A → (A → D B) → D B
◌>>=◌ m f d = let (r, d') = m d in bind_outcome r f d'

abbrev pub ◌>>◌ : {B : Type 0} → D (Unit {0}) → D B → D B
m >> k = m >>= λ _. k

-- `From<uarte::Error>`
abbrev pub from_uarte_error : ℕ → TransferError
from_uarte_error e = read_error e

-- `From<FrameError>`
abbrev pub from_frame_error : {A : Type 0} → FrameResult A → Outcome TransferError A
from_frame_error (ok a) = ok a
from_frame_error (err e) = err (frame_error e)
from_frame_error panic = panic
from_frame_error pending = pending

abbrev pub lift : {A : Type 0} → FrameResult A → D A
lift r d = (from_frame_error r, d)

abbrev pub answer : List Bool → Bool
answer [] = false
answer (a ∷ _) = a

abbrev pub rest_of {ℓ} : {A : Type ℓ} → List A → List A
rest_of [] = []
rest_of (_ ∷ later) = later

-- A call that takes one block of the pool.
abbrev pub alloc : {A : Type 0} → (Bool → FrameResult A) → D A
alloc f d = (from_frame_error (f (answer d.pool)), record d { pool = rest_of d.pool })

written_or : List (Option ℕ) → Outcome TransferError (Unit {0})
written_or (some e ∷ _) = err (from_uarte_error e)
written_or _ = ok tt

-- `write` and `write_from_ram`
unfoldable pub write : Bytes → D (Unit {0})
unfolding written_or
write buf d = (written_or d.tx, record d { tx = rest_of d.tx; written = d.written ++ buf })

-- `read` of one byte, which waits for it.
unfoldable pub next_byte : List Line → Outcome TransferError ℕ × List Line
next_byte [] = (pending, [])
next_byte (byte v ∷ later) = (ok v, later)
next_byte (silence ∷ later) = next_byte later
next_byte (fault e ∷ later) = (err (from_uarte_error e), later)

unfoldable pub read : D ℕ
unfolding next_byte
read d = let (r, later) = next_byte d.rx in (r, record d { rx = later })

-- `NCN51Driver::ack`
unfoldable pub send_ack : AckTypes → D (Unit {0})
send_ack a = write (bit_or u_ackn_req (ack_value a) ∷ [])

-- `read_with_timeout`, which fills the buffer byte by byte: how it ends, the buffer, which keeps
-- what was read, and what is left of the line.
unfoldable pub read_with_timeout :
    Bytes → ℕ → List Line → Outcome TransferError ℕ × Bytes × List Line
read_with_timeout [] count rx = (ok count, [], rx)
read_with_timeout (x ∷ buf) count [] = (err (timeout_error count), x ∷ buf, [])
read_with_timeout (x ∷ buf) count (byte v ∷ later) =
    let (r, buf', later') = read_with_timeout buf (count + 1) later in (r, v ∷ buf', later')
read_with_timeout (x ∷ buf) count (silence ∷ later) = (err (timeout_error count), x ∷ buf, later)
read_with_timeout (x ∷ buf) count (fault e ∷ later) = (err (from_uarte_error e), x ∷ buf, later)

-- `read_with_timeout_ignore_errors`: how many reads ended before the silence, and what is left.
unfoldable pub dump : ℕ → List Line → ℕ × List Line
dump count [] = (count, [])
dump count (silence ∷ later) = (count, later)
dump count (byte v ∷ later) = dump (count + 1) later
dump count (fault e ∷ later) = dump (count + 1) later
