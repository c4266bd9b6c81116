-- ===== src/Ota.antt =====
-- src/ota: the parts of the over-the-air update.
pub mod Config
pub mod Error
pub mod Version
pub mod Pal
pub mod Protocol
pub mod DataInterface
pub mod Encoding
pub mod ControlInterface
pub mod State
pub mod Builder
pub mod Agent
