-- ===== src/Frame/Standard.antt =====
-- `StandardFrame` (src/frame.rs): its constants, its length field, and how one is made.
pub mod Reads
pub mod Writes
pub mod Setters
pub mod Orders
pub mod Length
pub mod Build
use embassy_knx.Prelude.{ℕ, [], bit_and, bit_or, Bool, true, false, ◌||◌}
use embassy_knx.Prelude.{Outcome, ok, err, ◌>>=◌, if◌then◌else◌, leb, Bytes, index, modify_at}
use embassy_knx.Prelude.Word.{add8, sub8, u8}
use embassy_knx.Frame.Types.{FrameResult, invalid_length, out_of_memory}
use embassy_knx.Frame.Reader.{FrameReader, ctrl, lg_field}
use embassy_knx.Frame.Writer.{Platform, FrameWriter, or_error}

abbrev pub max_frame_size : ℕ
max_frame_size = 24

abbrev pub min_frame_size : ℕ
min_frame_size = 8

-- `HEADER_LENGTH as u8`
abbrev header_u8 : ℕ
header_u8 = 7

unfoldable pub set_frame_type : Bytes → FrameResult Bytes
set_frame_type b = modify_at b ctrl (λ x. bit_or x 0x90)

module _ (env : Platform) where
  unfoldable pub length : Bytes → FrameResult ℕ
  unfolding add8
  length b = do
    lg ← index b lg_field
    n ← add8 env.profile (bit_and lg 0xf) header_u8
    add8 env.profile n 1

  store_length : ℕ → Bytes → FrameResult Bytes
  unfolding sub8
  store_length n b = do
    past_header ← sub8 env.profile (u8 n) header_u8
    lg ← sub8 env.profile past_header 1
    b' ← modify_at b lg_field (λ x. bit_or x (bit_and lg 0xf))
    or_error invalid_length (env.resize_default b' n)

  unfoldable pub set_length : ℕ → Bytes → FrameResult Bytes
  unfolding store_length
  set_length n b =
      if leb n max_frame_size || leb min_frame_size n then store_length n b else err invalid_length

  -- `FRAME_POOL.alloc` answers by `pool` whether it has a block.
  unfoldable pub new : Bool → ℕ → FrameResult Bytes
  unfolding set_length set_frame_type
  new false size = err out_of_memory
  new true size = do
    buf ← or_error invalid_length (env.resize_default [] size)
    b ← set_length size buf
    set_frame_type b

  -- `impl FrameReader for StandardFrame`
  abbrev pub reader : FrameReader
  reader = record {
    ctrl_offset = 1;
    at_field = 5;
    hop_count_field = 5;
    max_frame_size = 24;
    min_frame_size = 8;
    length = length;
  }

  -- `impl FrameWriter for StandardFrame`
  abbrev pub writer : FrameWriter
  writer = record {
    reader = reader;
    set_length = set_length;
    set_frame_type = set_frame_type;
    new = new;
  }
