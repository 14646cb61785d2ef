-- ===== src/Address/Group.antt =====
-- `GroupAddress` (src/frame.rs).
use embassy_knx.Prelude.{ℕ, bit_and, bit_or, Bool, Outcome, ok, ◌>>=◌}
use embassy_knx.Prelude.{Bytes, index, set_at, ◌==◌}
use embassy_knx.Prelude.Word.{u8, shl16, ◌>>>◌}

pub record GroupAddress : Type 0 where
  pub raw : ℕ  -- u16

unfoldable pub from_parts : ℕ → ℕ → ℕ → GroupAddress
from_parts n1 n2 n3 = record { raw = bit_or (bit_or (shl16 n1 11) (shl16 n2 8)) n3 }

unfoldable pub new : ℕ → GroupAddress
new addr = record { raw = addr }

unfoldable pub write : {E : Type 0} → GroupAddress → Bytes → Outcome E Bytes
write a buf = do buf' ← set_at buf 0 (u8 (a.raw >>> 8)); set_at buf' 1 (u8 (bit_and a.raw 0xff))

-- `From<&[u8]>`
unfoldable pub from_bytes : {E : Type 0} → Bytes → Outcome E GroupAddress
from_bytes buf = do hi ← index buf 0; lo ← index buf 1; ok (record { raw = bit_or (shl16 hi 8) lo })

-- The derived `PartialEq`.
unfoldable pub eq : GroupAddress → GroupAddress → Bool
eq a b = a.raw == b.raw

-- The three parts that `Format` prints.
unfoldable pub parts : GroupAddress → ℕ × ℕ × ℕ
parts a = (a.raw >>> 11, bit_and (a.raw >>> 8) 0x7, bit_and a.raw 0xff)
