-- ===== src/Ota/Agent/Unanswered/GivingUp.antt =====
-- src/ota/agent.rs with src/ota/state.rs: how a transfer that nobody answers is given up.
use rustot.Deps.{Deps}
use rustot.Ota.Config.{Config}
