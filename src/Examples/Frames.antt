-- ===== src/Examples/Frames.antt =====
-- The theorems on addresses and frames at concrete values (src/frame.rs).
use embassy_knx.Prelude.{◌≡◌, refl, arith, Bytes, [], ◌∷◌, length, replicate}
use embassy_knx.Prelude.{ok, panic, ◌>>=◌, true}
use embassy_knx.Address
use embassy_knx.Address
use embassy_knx.Address.{group}
use embassy_knx.Address.Laws.{read_as, write-read_as}
use embassy_knx.DataPoint
use embassy_knx.Frame.Types.{FrameError, four}
use embassy_knx.Frame.Writer
use embassy_knx.Frame.Header.{decode, IsBytes}
use embassy_knx.Frame.Standard
use embassy_knx.Frame.Standard.Reads.{Reads, Reads-decode}
use embassy_knx.Frame.Standard.Writes.{Writes}
use embassy_knx.Frame.Standard.Setters.{Setter, apply, update, apply-update, apply_all}
use embassy_knx.Frame.Standard.Length.{set_length_above_max}
use embassy_knx.Frame.Standard.Build.{
  IsWellFormed, try_from_lem, apply_all-IsWellFormed, from_datapoint_lem,
}
use embassy_knx.Frame.Extended
use embassy_knx.Frame.Extended.Length.{length-set_dst_addr, set_length_old, from_datapoint-panic}
use embassy_knx.Examples.{platform, group_read}

write-read_as_example :
    (Address.write {E = FrameError} (group (record { raw = 0x0962 })) (1 ∷ 2 ∷ 3 ∷ [])
      >>= read_as (group (record { raw = 0x0962 })))
    ≡ ok (group (record { raw = 0x0962 }))
write-read_as_example =
    write-read_as (group (record { raw = 0x0962 })) (1 ∷ 2 ∷ 3 ∷ []) (omega arith) (omega arith)

read-IsBytes : IsBytes group_read
read-IsBytes = omega arith

read-IsWellFormed : IsWellFormed group_read
read-IsWellFormed = omega arith

Reads-decode_example : Reads platform group_read (decode group_read)
Reads-decode_example = Reads-decode platform group_read (omega arith) read-IsBytes

apply-update_example :
    Writes group_read
      (update (Setter.hop_count 3) (decode group_read))
      (apply platform (Setter.hop_count 3) group_read)
apply-update_example =
    apply-update platform (Setter.hop_count 3) group_read (omega arith) read-IsBytes tt

length_above_max :
    (out : Bytes) × (Standard.set_length platform 100 group_read ≡ ok out) × (length out ≡ 100)
length_above_max =
    set_length_above_max platform 100 group_read (omega arith) (omega arith) (omega arith)
      read-IsBytes

try_from_lem_example : Writer.try_from (Standard.writer platform) true group_read ≡ ok group_read
try_from_lem_example = try_from_lem platform group_read read-IsWellFormed

apply_all-IsWellFormed_example :
    (out : Bytes) × (apply_all platform (Setter.apci four 1 ∷ []) group_read ≡ ok out)
    × IsWellFormed out
apply_all-IsWellFormed_example =
    apply_all-IsWellFormed platform (Setter.apci four 1 ∷ []) group_read read-IsWellFormed
      (omega arith, tt)

from_datapoint_lem_example :
    Writer.from_datapoint (Standard.writer platform) true (DataPoint.u8 200)
    ≡ ok (0x90 ∷ 0 ∷ 0 ∷ 0 ∷ 0 ∷ 2 ∷ 0 ∷ 0 ∷ 200 ∷ 0 ∷ [])
from_datapoint_lem_example = from_datapoint_lem platform (DataPoint.u8 200)

length_from_address :
    (Writer.set_dst_addr
        (Extended.reader platform)
        (Address.group (record { raw = 0x0962 }))
        (replicate 20 0)
      >>= Extended.length platform)
    ≡ ok 107
length_from_address =
    length-set_dst_addr platform (record { raw = 0x0962 }) (replicate 20 0) (omega arith)
      (omega arith) (omega arith)

old_length_stored :
    Extended.set_length platform 10 (0x10 ∷ 0xe0 ∷ 0 ∷ 0 ∷ 0 ∷ 0 ∷ replicate 14 0)
    ≡ ok (0x10 ∷ 0xe0 ∷ 0 ∷ 0 ∷ 0 ∷ 11 ∷ 0 ∷ 0 ∷ 0 ∷ 0 ∷ [])
old_length_stored =
    set_length_old platform 10 0x10 0xe0 0 0 0 0 (replicate 14 0) (omega arith) (omega arith)
      (omega arith)

extended_value : Writer.from_datapoint (Extended.writer platform) true (DataPoint.u8 200) ≡ panic
extended_value = from_datapoint-panic platform (DataPoint.u8 200) refl
