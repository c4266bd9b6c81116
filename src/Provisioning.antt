-- ===== src/Provisioning.antt =====
-- src/provisioning: fleet provisioning by claim, by which a device gets its certificate.
pub mod Error
pub mod Topics
pub mod Messages
pub mod Subscriptions
pub mod Fleet
