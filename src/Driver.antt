-- ===== src/Driver.antt =====
-- The driver of the bus transceiver (src/ncn51_driver.rs).
pub mod Uart
pub mod Receive
pub mod Transmit
pub mod Run
pub mod Exchange
