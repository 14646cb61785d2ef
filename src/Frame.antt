-- ===== src/Frame.antt =====
-- Telegrams on the bus (src/frame.rs).
pub mod Types
pub mod Header
pub mod Reader
pub mod Writer
pub mod Standard
pub mod Extended
pub mod Dispatch
pub mod Format
