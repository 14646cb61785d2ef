-- ===== src/Settings.antt =====
-- The address of the device (src/settings.rs).
use embassy_knx.Address.Individual
use embassy_knx.Address.Individual.{IndividualAddress}

unfoldable pub address : IndividualAddress
unfolding Individual.from_parts
address = Individual.from_parts 1 1 120
