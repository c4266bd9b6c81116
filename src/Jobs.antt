-- ===== src/Jobs.antt =====
-- src/jobs: what is asked of the job service, over MQTT.
pub mod DataTypes
pub mod Topics
pub mod Requests
pub mod Subscribe
pub mod Unsubscribe
pub mod Describe
pub mod GetPending
pub mod StartNext
pub mod Update
pub mod Room
pub mod Answers
