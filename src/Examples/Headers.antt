-- ===== src/Examples/Headers.antt =====
-- The theorems on what the fields of a frame mean, at concrete telegrams (src/frame.rs).
use embassy_knx.Prelude.{◌≡◌, arith, Bytes, length, drop, List, [], ◌∷◌, ok, replicate}
use embassy_knx.Frame.Types
use embassy_knx.Frame.Types.{low}
use embassy_knx.Frame.Header
use embassy_knx.Frame.Dispatch.{standard}
use embassy_knx.Frame.Format.{format_frame, format-decode, shown_group}
use embassy_knx.Frame.Standard.Setters.{Setter, update, apply_all}
use embassy_knx.Frame.Standard.Orders.{Apart, exchanged, apply_all-any_order}
use embassy_knx.Frame.Extended.Reads.{Reads, decode, extended-decode}
use embassy_knx.Frame.Extended.Setters.{perform, setter-Reads}
use mathlib.Core.Quot
use embassy_knx.Examples.{platform, group_read}

format-decode_example :
    format_frame platform (standard group_read)
    ≡ ok (record {
      frame_type = Header.kind_of 1;
      priority = low;
      src_addr = (1, 1, 5);
      dst_addr = shown_group (1, 1, 98);
      size = 9;
      content = group_read;
    })
format-decode_example = format-decode platform group_read (omega arith) (omega arith)

-- The hop count and the number in the one order and in the other.
abbrev hops_first : List Setter
hops_first = Setter.hop_count 6 ∷ Setter.tpci_seq 3 ∷ []

abbrev number_first : List Setter
number_first = Setter.tpci_seq 3 ∷ Setter.hop_count 6 ∷ []

apart : Apart (Setter.hop_count 6) (Setter.tpci_seq 3)
unfolding Apart
apart = (tt, tt, tt, tt)

apply_all-any_order_example :
    (one other : Bytes) × (apply_all platform hops_first (replicate 8 0) ≡ ok one)
    × (apply_all platform number_first (replicate 8 0) ≡ ok other)
    × (Header.decode one ≡ Header.decode other)
    × (length one ≡ length other)
    × (drop 8 one ≡ drop 8 other)
apply_all-any_order_example =
    apply_all-any_order platform hops_first number_first (replicate 8 0)
      (Quot.sound (exchanged apart)) (omega arith) (omega arith) (tt, (tt, tt)) (tt, (tt, tt))

-- A read of a group value as an extended telegram.
abbrev long_read : Bytes
long_read = 0x3c ∷ 0xe0 ∷ 0x11 ∷ 0x05 ∷ 0x09 ∷ 0x62 ∷ 1 ∷ 0 ∷ 0 ∷ 0 ∷ []

decoded : Reads platform long_read (decode long_read)
decoded = extended-decode platform long_read (omega arith) (omega arith)

-- A TPCI of eight bits.
abbrev tpdu : Setter
tpdu = Setter.tpci Types.eight 0x43

setter-Reads_example :
    (out : Bytes) × (perform platform tpdu long_read ≡ ok out)
    × Reads platform out (update tpdu (decode long_read))
    × ((decode out).lg ≡ 1)
    × (length out ≡ 10)
    × (drop 9 out ≡ 0 ∷ [])
setter-Reads_example =
    setter-Reads platform tpdu long_read (omega arith) (omega arith) (omega arith)
