-- ===== src/Driver/Transmit/Writes.antt =====
-- The writes of `send_frame` as one sequence of bytes (src/ncn51_driver.rs).
use embassy_knx.Prelude.{
  ℕ, zero, suc, ◌+◌, ◌-◌, ◌*◌, ◌≤◌, ◌<◌, ◌≡◌, refl, sym, fun_ext, arith, bit_or,
}
use embassy_knx.Prelude.{
  List, [], ◌∷◌, ◌++◌, Bytes, length, length-append, drop, take, replicate, Option, none, some,
  Outcome, ok, err, panic, pending, index,
}
use mathlib.Core.List.{append-nil, append_assoc}
use embassy_knx.Prelude.Bits.Tables.{holds_below, agree_sound}
use embassy_knx.Prelude.Word.{add8, sub8, u8}
use embassy_knx.Frame.Types.{FrameError}
use embassy_knx.Frame.Reader
use embassy_knx.Frame.Writer.{Platform}
use embassy_knx.Frame.Dispatch
use embassy_knx.Frame.Dispatch.{standard}
use embassy_knx.Driver.Uart.{
  D, Driver, TransferError, read_error, pure, bind_outcome, ◌>>=◌, ◌>>◌, write, read,
}
use embassy_knx.Driver.Transmit.{write_inner, read_echoes, con_status, send_frame}

-- The transceiver's services for a telegram, from its byte `i` on: each byte follows a command
-- with its index, and the last follows the command that ends the telegram.
abbrev pub services : ℕ → Bytes → Bytes
services i [] = []
services i (x ∷ []) = (64 + i) ∷ x ∷ []
services i (x ∷ y ∷ rest) = (128 + i) ∷ x ∷ services (i + 1) (y ∷ rest)

-- Those of the bytes before the last.
inner : ℕ → Bytes → Bytes
inner i [] = []
inner i (x ∷ xs) = (128 + i) ∷ x ∷ inner (i + 1) xs

plus_zero : (i : ℕ) → i + 0 ≡ i
plus_zero i = omega arith

plus_suc : (i n : ℕ) → i + suc n ≡ i + 1 + n
plus_suc i n = omega arith

inner-services :
    (xs : Bytes) (i last : ℕ)
    → inner i xs ++ (64 + (i + length xs)) ∷ last ∷ [] ≡ services i (xs ++ last ∷ [])
unfolding inner
inner-services [] i last = rw (plus_zero i)
inner-services (x ∷ []) i last = refl
inner-services (x ∷ y ∷ xs) i last =
    rw (plus_suc i (suc (length xs)), inner-services (y ∷ xs) (i + 1) last)

-- Bytes written one by one, up to the first write that fails.
unfoldable pub write_all : Bytes → D (Unit {0})
write_all [] = pure tt
write_all (x ∷ xs) = do write (x ∷ []); write_all xs

bind_assoc_at :
    {A B C : Type 0} (r : Outcome TransferError A) (f : A → D B) (g : B → D C) (d : Driver)
    → (let (r', d') = bind_outcome r f d in bind_outcome r' g d')
      ≡ bind_outcome r (λ a. f a >>= g) d
bind_assoc_at (ok a) f g d = refl
bind_assoc_at (err e) f g d = refl
bind_assoc_at panic f g d = refl
bind_assoc_at pending f g d = refl

bind_assoc :
    {A B C : Type 0} (m : D A) (f : A → D B) (g : B → D C)
    → (m >>= f) >>= g ≡ m >>= (λ a. f a >>= g)
bind_assoc m f g = fun_ext (λ d. bind_assoc_at (m d).0 f g (m d).1)

write_all-append : (xs ys : Bytes) → write_all (xs ++ ys) ≡ write_all xs >> write_all ys
unfolding write_all
write_all-append [] ys = refl
write_all-append (x ∷ xs) ys =
    rw (write_all-append xs ys, bind_assoc (write (x ∷ [])) (λ _. write_all xs) (λ _. write_all ys))

next : (i : ℕ) → i + 1 ≡ suc i
next i = omega arith

-- What stands at the front of the buffer from `i` on is read at `i`.
drop-index :
    (buf : Bytes) (i x : ℕ) (rest : Bytes)
    → drop i buf ≡ x ∷ rest
    → (index {E = FrameError} buf i ≡ ok x) × (drop (suc i) buf ≡ rest)
drop-index [] zero x rest e = cc
drop-index [] (suc i) x rest e = cc
drop-index (y ∷ buf) zero x rest e = (cc, cc)
drop-index (y ∷ buf) (suc i) x rest e = drop-index buf i x rest e

write_inner-all :
    (env : Platform) (i : ℕ) (buf xs rest : Bytes)
    → drop i buf ≡ xs ++ rest
    → i + length xs < 64
    → write_inner env (length xs) i buf ≡ write_all (inner i xs)
unfolding write_inner inner write_all add8
write_inner-all env i buf [] rest here short = refl
write_inner-all env i buf (x ∷ xs) rest here short =
    let (at, beyond) = drop-index buf i x (xs ++ rest) here in
    let no_overflow : add8 {E = FrameError} env.profile 128 (u8 i) ≡ ok (128 + i) = ground arith in
    rw (no_overflow, at, write_inner-all env (i + 1) buf xs rest (rw (next i) beyond) (omega arith))

regroup :
    {A : Type 0} (start first middle command sum : D (Unit {0})) (k : D A)
    → start >> (first >> middle) >> (command >> (sum >> pure tt)) >> k
      ≡ start >> (first >> (middle >> (command >> (sum >> k))))
regroup start first middle command sum k =
    let finish : D (Unit {0}) = command >> (sum >> pure tt) in
    rw (
      bind_assoc (start >> (first >> middle)) (λ _. finish) (λ _. k),
      bind_assoc command (λ _. sum >> pure tt) (λ _. k),
      bind_assoc sum (λ _. pure tt) (λ _. k),
      bind_assoc start (λ _. first >> middle) (λ _. command >> (sum >> k)),
      bind_assoc first (λ _. middle) (λ _. command >> (sum >> k)),
    )

last_command : (n : ℕ) → n < 64 → bit_or 64 n ≡ 64 + n
unfolding holds_below
last_command = agree_sound 64 _ _ refl

last_index_lem :
    (env : Platform) (n m : ℕ)
    → n ≡ m + 1
    → n ≤ 64
    → sub8 {E = FrameError} env.profile (u8 n) 1 ≡ ok m
unfolding sub8
last_index_lem env n m e short = ground arith

-- The sending of a telegram writes its services, with the checksum in place of the last byte, and
-- then reads the echo and the confirmation.
pub send_frame-all :
    (env : Platform) (x : ℕ) (xs : Bytes) (slot : ℕ)
    → let b : Bytes = x ∷ xs ++ slot ∷ [] in
      length b ≤ 64
      → send_frame env (standard b)
        ≡ write_all (services 0 (x ∷ xs ++ Reader.checksum b ∷ []))
          >> (read_echoes b >> (read >>= con_status env))
unfolding send_frame Dispatch.data_of Dispatch.checksum write_all inner
send_frame-all env x xs slot short =
    let b : Bytes = x ∷ xs ++ slot ∷ [] in
    let sum : ℕ = Reader.checksum b in
    let last : ℕ = bit_or 64 (0 + length (x ∷ xs)) in
    let listen : D _ = read_echoes b >> (read >>= con_status env) in
    let rounds : length b - 2 ≡ length xs = omega (arith, length-append xs (slot ∷ [])) in
    let last_index : sub8 {E = FrameError} env.profile (u8 (length b)) 1
        ≡ ok (0 + length (x ∷ xs)) =
      last_index_lem env (length b) (0 + length (x ∷ xs))
        (omega (arith, length-append xs (slot ∷ []))) short in
    let last_byte : last ≡ 64 + (0 + length (x ∷ xs)) =
      last_command _ (omega (arith, length-append xs (slot ∷ []))) in
    let sent : write_all (services 0 (x ∷ xs ++ sum ∷ []))
        ≡ write_all (inner 0 (x ∷ xs)) >> write_all (last ∷ sum ∷ []) =
      rw (
        sym (inner-services (x ∷ xs) 0 sum),
        sym last_byte,
        write_all-append (inner 0 (x ∷ xs)) (last ∷ sum ∷ []),
      ) in
    rw (
      rounds,
      write_inner-all env 1 b xs (slot ∷ []) refl (omega (arith, length-append xs (slot ∷ []))),
      last_index,
      sent,
      regroup (write (128 ∷ [])) (write (x ∷ [])) (write_all (inner 1 xs)) (write (last ∷ []))
          (write (sum ∷ [])) listen,
    )

pub length-services : (i : ℕ) (xs : Bytes) → length (services i xs) ≡ 2 * length xs
length-services i [] = refl
length-services i (x ∷ []) = refl
length-services i (x ∷ y ∷ rest) = omega (arith, length-services (i + 1) (y ∷ rest))

-- Where all writes succeed, all is written.
pub write_all_lem :
    (xs : Bytes) (d : Driver)
    → d.tx ≡ []
    → write_all xs d ≡ (ok tt, record d { written = d.written ++ xs })
unfolding write_all write
write_all_lem [] d free = rw (append-nil d.written)
write_all_lem (x ∷ xs) d free =
    let later = write_all_lem xs (record d { tx = []; written = d.written ++ x ∷ [] }) refl in
    rw (free, later, append_assoc d.written (x ∷ []) xs)

-- The first write that fails is the last.
pub write_all-broken :
    (k : ℕ) (xs : Bytes) (d : Driver) {e : ℕ} {later : List (Option ℕ)}
    → d.tx ≡ replicate k none ++ some e ∷ later
    → k < length xs
    → write_all xs d
      ≡ (err (read_error e), record d { tx = later; written = d.written ++ take (suc k) xs })
unfolding write_all write
write_all-broken k [] d fails short = absurd (omega arith)
write_all-broken zero (x ∷ xs) d fails short = rw fails
write_all-broken (suc k) (x ∷ xs) d {e = e} {later = later} fails short =
    let left : List (Option ℕ) = replicate k none ++ some e ∷ later in
    let step : Driver = record d { tx = left; written = d.written ++ x ∷ [] } in
    rw (
      fails,
      write_all-broken k xs step {e = e} {later = later} refl (omega arith),
      append_assoc d.written (x ∷ []) (take (suc k) xs),
    )
