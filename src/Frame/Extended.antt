-- ===== src/Frame/Extended.antt =====
-- `ExtendedFrame` (src/frame.rs): its constants, its length field, and how one is made.
pub mod Length
pub mod Reads
pub mod Setters
use embassy_knx.Prelude.{clone_from_slice}
use embassy_knx.Prelude.{ℕ, [], bit_or, Bool, true, false, ◌||◌}
use embassy_knx.Prelude.{
  Outcome, ok, err, ◌>>=◌, if◌then◌else◌, leb, Bytes, index, modify_at, set_at,
}
use embassy_knx.Prelude
use embassy_knx.Prelude.Word.{add8, sub8, u8}
use embassy_knx.Frame.Types.{FrameResult, invalid_length, out_of_memory}
use embassy_knx.Frame.Reader.{FrameReader, ctrl, lg_field}
use embassy_knx.Frame.Writer.{Platform, FrameWriter, or_error}

abbrev pub max_frame_size : ℕ
max_frame_size = 263

abbrev pub min_frame_size : ℕ
min_frame_size = 9

-- `HEADER_LENGTH as u8`
abbrev header_u8 : ℕ
header_u8 = 8

unfoldable pub set_frame_type : Bytes → FrameResult Bytes
set_frame_type b = modify_at b ctrl (λ x. bit_or x 0x10)

module _ (env : Platform) where
  unfoldable pub length : Bytes → FrameResult ℕ
  unfolding add8
  length b = do lg ← index b lg_field; n ← add8 env.profile lg header_u8; add8 env.profile n 1

  -- The field is written from the buffer's length before the resize.
  store_length : ℕ → Bytes → FrameResult Bytes
  unfolding sub8
  store_length n b = do
    past_header ← sub8 env.profile (u8 (Prelude.length b)) header_u8
    lg ← sub8 env.profile past_header 1
    b' ← set_at b lg_field lg
    or_error invalid_length (env.resize_default b' n)

  unfoldable pub set_length : ℕ → Bytes → FrameResult Bytes
  unfolding store_length
  set_length n b =
      if leb n max_frame_size || leb min_frame_size n then store_length n b else err invalid_length

  -- `FRAME_POOL.alloc` answers by `pool` whether it has a block.
  unfoldable pub new : Bool → ℕ → FrameResult Bytes
  new false size = err out_of_memory
  new true size = or_error invalid_length (env.resize_default [] size)

  -- `impl FrameReader for ExtendedFrame`
  abbrev pub reader : FrameReader
  reader = record {
    ctrl_offset = 2;
    at_field = 1;
    hop_count_field = 1;
    max_frame_size = 263;
    min_frame_size = 9;
    length = length;
  }

  -- `impl FrameWriter for ExtendedFrame`
  abbrev pub writer : FrameWriter
  writer = record {
    reader = reader;
    set_length = set_length;
    set_frame_type = set_frame_type;
    new = new;
  }

  -- `TryFrom<&ExtendedFrame>`: a frame of the length that the value states, into which the value's
  -- bytes are copied.
  unfoldable pub try_from : Bool → Bytes → FrameResult Bytes
  unfolding length new
  try_from pool value = do n ← length value; b ← new pool n; clone_from_slice b value
