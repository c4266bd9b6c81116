-- ===== src/Examples.antt =====
-- examples: a platform layer that keeps a file in memory, what a device makes of a
-- message, how it gets its certificate, its clock and its sockets.
pub mod FileHandler
pub mod Ota
pub mod Provisioning
pub mod Clock
pub mod Network
