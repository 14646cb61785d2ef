-- ===== src/Frame/Types.antt =====
-- The enumerations of src/frame.rs with their `repr(u8)` values, and the frame errors.
use embassy_knx.Prelude.{ℕ, zero, suc, Outcome, ok, panic}

pub data FrameType : Type 0 where
  standard extended : FrameType

pub data FrameError : Type 0 where
  invalid_length out_of_memory checksum : FrameError
  invalid_tpdu : ℕ → FrameError

abbrev pub FrameResult : Type 0 → Type 0
FrameResult = Outcome FrameError

pub data AddressType : Type 0 where
  individual group : AddressType

pub data Priority : Type 0 where
  low normal urgent system : Priority

pub data Repeated : Type 0 where
  repeated not_repeated : Repeated

pub data TpciBits : Type 0 where
  six eight : TpciBits

pub data ApciBits : Type 0 where
  four ten : ApciBits

abbrev pub addr_type_value : AddressType → ℕ
addr_type_value AddressType.individual = 0
addr_type_value AddressType.group = 1

abbrev pub priority_value : Priority → ℕ
priority_value low = 3
priority_value normal = 1
priority_value urgent = 2
priority_value system = 0

abbrev pub repeated_value : Repeated → ℕ
repeated_value repeated = 0
repeated_value not_repeated = 1

-- `unchecked_transmute_from`. A value that no variant has is undefined behaviour, here a panic.
abbrev pub to_frame_type : ℕ → FrameResult FrameType
to_frame_type zero = ok extended
to_frame_type (suc zero) = ok standard
to_frame_type _ = panic

abbrev pub to_addr_type : ℕ → FrameResult AddressType
to_addr_type zero = ok AddressType.individual
to_addr_type (suc zero) = ok AddressType.group
to_addr_type _ = panic

abbrev pub to_priority : ℕ → FrameResult Priority
to_priority zero = ok system
to_priority (suc zero) = ok normal
to_priority (suc (suc zero)) = ok urgent
to_priority (suc (suc (suc zero))) = ok low
to_priority _ = panic

abbrev pub to_repeated : ℕ → FrameResult Repeated
to_repeated zero = ok repeated
to_repeated (suc zero) = ok not_repeated
to_repeated _ = panic
