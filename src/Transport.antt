-- ===== src/Transport.antt =====
-- The transport layer (src/transport_layer.rs).
pub mod Types
pub mod Telegrams
pub mod Actions
pub mod Choice
pub mod Machine
pub mod Layer
