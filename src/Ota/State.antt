-- ===== src/Ota/State.antt =====
-- src/ota/state.rs: the state machine of the agent.
pub mod Context
pub mod Image
pub mod Ingest
pub mod Job
pub mod Handlers
pub mod Machine
pub mod Invariant
pub mod SelfTest
pub mod Verdict
pub mod Between
pub mod Starting
pub mod Completion
pub mod Selection
pub mod Requests
pub mod OverMqtt
