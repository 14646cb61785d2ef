-- ===== src/Address.antt =====
-- Bus addresses (src/frame.rs): the newtypes of a u16, and the sum that a frame's destination is.
pub mod Individual
pub mod Group
pub mod Laws
use embassy_knx.Prelude.{Outcome, Bytes}
use Individual.{IndividualAddress}
use Group.{GroupAddress}

pub data Address : Type 0 where
  individual : IndividualAddress → Address
  group : GroupAddress → Address

-- `Address::write`
unfoldable pub write : {E : Type 0} → Address → Bytes → Outcome E Bytes
unfolding Individual.write Group.write
write (individual a) buf = Individual.write a buf
write (group a) buf = Group.write a buf
