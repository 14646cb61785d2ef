-- ===== src/Frame/Format.antt =====
-- What the log shows of a frame (src/frame.rs, `format`).
use embassy_knx.Prelude.{ℕ, zero, suc, ◌+◌, ◌/◌, ◌%◌, ◌≤◌, ◌≡◌, arith, Bytes, length, ok, ◌>>=◌}
use embassy_knx.Prelude.Bits.Tables.{mask_7, mask_15, mask_255}
use embassy_knx.Address.{Address, individual, group}
use embassy_knx.Address.Individual
use embassy_knx.Address.Group
use embassy_knx.Frame.Types.{FrameResult, FrameType, Priority}
use embassy_knx.Frame.Header.{Header, decode, kind_of, priority_of, dst_of, IsBytes}
use embassy_knx.Frame.Reader
use embassy_knx.Frame.Reader.{FrameReader}
use embassy_knx.Frame.Writer.{Platform}
use embassy_knx.Frame.Standard
use embassy_knx.Frame.Extended
use embassy_knx.Frame.Dispatch.{Frame, standard, extended}
use embassy_knx.Frame.Standard.Reads.{Reads, Reads-decode}

-- An address by its printed parts.
pub data Shown : Type 0 where
  shown_individual : ℕ × ℕ × ℕ → Shown
  shown_group : ℕ × ℕ × ℕ → Shown

abbrev show : Address → Shown
show (individual a) = shown_individual (Individual.parts a)
show (group a) = shown_group (Group.parts a)

-- The lines of the output.
pub record Lines : Type 0 where
  pub frame_type : FrameType
  pub priority : Priority
  pub src_addr : ℕ × ℕ × ℕ
  pub dst_addr : Shown
  pub size : ℕ
  pub content : Bytes

-- `FrameReader::format`, which reads the fields in this order.
unfoldable pub format : FrameReader → Bytes → FrameResult Lines
format r b = do
  kind ← Reader.frame_type b
  p ← Reader.priority b
  src ← Reader.src_addr r b
  dst ← Reader.dst_addr r b
  n ← r.length b
  ok (record {
    frame_type = kind;
    priority = p;
    src_addr = Individual.parts src;
    dst_addr = show dst;
    size = n;
    content = b;
  })

-- The derived `Format` of the enum.
unfoldable pub format_frame : Platform → Frame → FrameResult Lines
unfolding format
format_frame env (standard b) = format (Standard.reader env) b
format_frame env (extended b) = format (Extended.reader env) b

-- An address of 16 bits in the usual notation.
abbrev pub dotted : ℕ → ℕ × ℕ × ℕ
dotted a = (a / 4096, a / 256 % 16, a % 256)

abbrev pub slashed : ℕ → ℕ × ℕ × ℕ
slashed a = (a / 2048, a / 256 % 8, a % 256)

abbrev pub notation : ℕ → ℕ → Shown
notation zero a = shown_individual (dotted a)
notation (suc _) a = shown_group (slashed a)

show-notation : (to_group a : ℕ) → show (dst_of to_group a) ≡ notation to_group a
unfolding Individual.parts Group.parts
show-notation zero a = ground (arith, mask_15 (a / 256), mask_255 a)
show-notation (suc n) a = ground (arith, mask_7 (a / 256), mask_255 a)

-- Every buffer of at least eight bytes is shown as a standard frame without a failure or a panic,
-- with overflow checks or without: the format, the priority, both addresses in the usual notation,
-- the length and the bytes. So the log of what the data link layer receives stops nothing.
pub format-decode :
    (env : Platform) (b : Bytes)
    → 8 ≤ length b
    → IsBytes b
    → let h : Header = decode b in
      format_frame env (standard b)
      ≡ ok (record {
        frame_type = kind_of h.kind;
        priority = priority_of h.priority;
        src_addr = dotted h.src;
        dst_addr = notation h.dst_group h.dst;
        size = h.lg + 8;
        content = b;
      })
unfolding format_frame Individual.parts
format-decode env b long bytes =
    let reads : Reads env b (decode b) = Reads-decode env b long bytes in
    let h : Header = decode b in
    rw (
      reads.reads_kind,
      reads.reads_priority,
      reads.reads_src,
      reads.reads_dst,
      reads.reads_length,
      show-notation h.dst_group h.dst,
      mask_15 (h.src / 256),
      mask_255 h.src,
    )
