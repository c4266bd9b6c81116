-- ===== src/Ota/ControlInterface.antt =====
-- src/ota/control_interface/mod.rs: what the agent asks of the job service.
pub mod Mqtt
use rustot.Prelude.Stateful.{Exec}
use rustot.Deps.{Deps}
use rustot.Jobs.DataTypes.{JobStatus}
use rustot.Ota.Config.{Config}
use rustot.Ota.Error.{OtaError}
use rustot.Ota.Encoding.Json.{JobStatusReason}
use rustot.Ota.DataInterface.{OnFile}

pub record ControlInterface (d : Deps) : Type 0 where
  pub request_job : Exec d.World OtaError (Unit {0})
  pub update_job_status : Config → JobStatus → JobStatusReason → OnFile d (Unit {0})
  pub cleanup : Exec d.World OtaError (Unit {0})
