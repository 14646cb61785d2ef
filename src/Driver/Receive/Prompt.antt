-- ===== src/Driver/Receive/Prompt.antt =====
-- Receiving never waits for ever: each of its reads ends at the latest by its timeout
-- (src/ncn51_driver.rs).
use embassy_knx.Prelude.{ℕ, zero, suc, ◌+◌, ◌≢◌, refl, arith, Bool, List, [], ◌∷◌, Bytes}
use embassy_knx.Prelude.{
  Outcome, ok, err, panic, pending, map_ok, index, slice_from, split_at, modify_at,
}
use embassy_knx.Address.{Address}
use embassy_knx.Frame.Types.{FrameResult}
use embassy_knx.Address.Individual
use embassy_knx.Address.Group
use embassy_knx.Prelude.Word.{add8, sub8}
use embassy_knx.Frame.Reader
use embassy_knx.Frame.Reader.{FrameReader, dst_addr}
use embassy_knx.Frame.Standard
use embassy_knx.Frame.Extended
use embassy_knx.Frame.Writer.{Platform, FrameWriter}
use embassy_knx.Driver.Uart.{
  D, Driver, TransferError, Line, byte, silence, fault, read_with_timeout, write, send_ack,
}
use embassy_knx.Driver.Receive.{
  ack_if_addressed, read_part, or_timeout, or_return, accept, receive_rest, receive_frame_int,
  receive_frame,
}

timeout-prompt :
    (buf : Bytes) (count : ℕ) (rx : List Line) → (read_with_timeout buf count rx).0 ≢ pending
unfolding read_with_timeout
timeout-prompt [] count rx waits = cc
timeout-prompt (x ∷ buf) count [] waits = cc
timeout-prompt (x ∷ buf) count (byte v ∷ rx) waits = timeout-prompt buf (count + 1) rx waits
timeout-prompt (x ∷ buf) count (silence ∷ rx) waits = cc
timeout-prompt (x ∷ buf) count (fault e ∷ rx) waits = cc

abbrev pub IsPrompt : {A : Type 0} → D A → Type 0
IsPrompt m = (d : Driver) → (m d).0 ≢ pending

ack-IsPrompt : (a : Address) → IsPrompt (ack_if_addressed a)
unfolding ack_if_addressed send_ack write
ack-IsPrompt a d = ground arith

or_timeout-IsPrompt : (r : Outcome TransferError ℕ) → r ≢ pending → IsPrompt (or_timeout r)
unfolding or_timeout
or_timeout-IsPrompt r ends d = ground arith

-- A call on a buffer that ends.
abbrev NoWait : {A : Type 0} → FrameResult A → Type 0
NoWait r = r ≢ pending

index-NoWait : (b : Bytes) (i : ℕ) → NoWait (index b i)
index-NoWait [] i waits = cc
index-NoWait (x ∷ b) zero waits = cc
index-NoWait (x ∷ b) (suc i) waits = index-NoWait b i waits

map-NoWait : {A B : Type 0} (f : A → B) (r : FrameResult A) → NoWait r → NoWait (map_ok f r)
map-NoWait f (ok a) ends waits = cc
map-NoWait f (err e) ends waits = cc
map-NoWait f panic ends waits = cc
map-NoWait f pending ends waits = ends refl

modify-NoWait : (b : Bytes) (i : ℕ) (f : ℕ → ℕ) → NoWait (modify_at b i f)
modify-NoWait [] i f waits = cc
modify-NoWait (x ∷ b) zero f waits = cc
modify-NoWait (x ∷ b) (suc i) f waits =
    map-NoWait (◌∷◌ x) (modify_at b i f) (modify-NoWait b i f) waits

split-NoWait : (b : Bytes) (i : ℕ) → NoWait (split_at b i)
split-NoWait b zero waits = cc
split-NoWait [] (suc i) waits = cc
split-NoWait (x ∷ b) (suc i) waits =
    map-NoWait (λ s. (x ∷ s.0, s.1)) (split_at b i) (split-NoWait b i) waits

slice-NoWait : (b : Bytes) (i : ℕ) → NoWait (slice_from b i)
slice-NoWait b zero waits = cc
slice-NoWait [] (suc i) waits = cc
slice-NoWait (x ∷ b) (suc i) waits = slice-NoWait b i waits

-- What the checks use of a format ends.
record IsEnding (w : FrameWriter) : Type 0 where
  length_ends : (b : Bytes) → NoWait (w.reader.length b)
  set_length_ends : (n : ℕ) (b : Bytes) → NoWait (w.set_length n b)
  new_ends : (pool : Bool) (n : ℕ) → NoWait (w.new pool n)

standard-IsEnding : (env : Platform) → IsEnding (Standard.writer env)
unfolding Standard.length Standard.set_length Standard.new add8
standard-IsEnding env = record {
  length_ends = λ b. grind (arith, index-NoWait);
  set_length_ends = λ n b. grind (arith, modify-NoWait);
  new_ends = λ pool n. grind (arith, modify-NoWait);
}

extended-IsEnding : (env : Platform) → IsEnding (Extended.writer env)
unfolding Extended.length Extended.set_length Extended.new add8 sub8
extended-IsEnding env = record {
  length_ends = λ b. grind (arith, index-NoWait);
  set_length_ends = λ n b. grind (arith, modify-NoWait);
  new_ends = λ pool n. grind arith;
}

dst-NoWait : (r : FrameReader) (b : Bytes) → NoWait (dst_addr r b)
unfolding dst_addr Reader.addr_type Group.from_bytes Individual.from_bytes
dst-NoWait r b = grind (arith, index-NoWait, slice-NoWait)

module _ (w : FrameWriter) (ends : IsEnding w) where
  accept-IsPrompt : (n : ℕ) (b : Bytes) → IsPrompt (accept w n b)
  unfolding accept
  accept-IsPrompt n b d = grind (arith, index-NoWait, ends.length_ends, ends.set_length_ends)

  rest-IsPrompt : (n : ℕ) (b : Bytes) → IsPrompt (receive_rest w n b)
  unfolding receive_rest read_part
  rest-IsPrompt n b d = grind (
    arith, ack-IsPrompt, or_timeout-IsPrompt, accept-IsPrompt, timeout-prompt, dst-NoWait,
    split-NoWait,
  )

  receive_int-IsPrompt : (ctrl : ℕ) → IsPrompt (receive_frame_int w ctrl)
  unfolding receive_frame_int read_part or_return
  receive_int-IsPrompt ctrl d =
      grind (arith, rest-IsPrompt, timeout-prompt, split-NoWait, modify-NoWait, ends.new_ends)

-- The reception of a frame ends: with the frame, an error or a panic.
pub receive_frame-IsPrompt : (env : Platform) (ctrl : ℕ) → IsPrompt (receive_frame env ctrl)
unfolding receive_frame
receive_frame-IsPrompt env ctrl d = grind (
  arith,
  receive_int-IsPrompt (Standard.writer env) (standard-IsEnding env) ctrl d,
  receive_int-IsPrompt (Extended.writer env) (extended-IsEnding env) ctrl d,
)
