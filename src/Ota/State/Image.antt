-- ===== src/Ota/State/Image.antt =====
-- src/ota/state.rs: setting the image state, closing a job, and the platform's self test.
use rustot.Prelude.{Bool, true, false, Option, none, Outcome, ok, err, panic}
use rustot.Prelude.Stateful.{◌>>=◌, ◌>>◌, pure, gets, modify}
use rustot.Deps.{Deps}
use rustot.Jobs.DataTypes.{JobStatus}
use rustot.Ota.Config.{Config}
use rustot.Ota.Error.{OtaError}
use rustot.Ota.Pal.{OtaPal, OtaPalError, ImageState, PalImageState}
use rustot.Ota.Encoding.Json.{JobStatusReason}
use rustot.Ota.ControlInterface.{ControlInterface}
use rustot.Ota.DataInterface.{OnFile}
use rustot.Ota.State.Context.{
  ImageStateReason, Parts, Handler, on_pal, on_file, get_file, data_interface,
}

-- A platform that cannot take the state forces a rejection, unless the job is aborted already.
unfoldable pub forced : ImageState → Outcome OtaPalError (Unit {0}) → Outcome OtaError ImageState
forced s (ok _) = ok s
forced ImageState.aborted (err e) = ok ImageState.aborted
forced _ (err e) = ok ImageState.rejected
forced _ panic = panic

unfoldable pub set_platform : {d : Deps} → OtaPal d → ImageState → OnFile d ImageState
unfolding forced
set_platform pal image_state s =
    let r = pal.set_platform_image_state image_state s.1 in (forced image_state r.0, (s.0, r.1))

-- The status and reason that the job service is told.
unfoldable pub job_status : ImageState → JobStatus
job_status ImageState.testing = JobStatus.in_progress
job_status ImageState.accepted = JobStatus.succeeded
job_status _ = JobStatus.failed

unfoldable pub job_status_reason : ImageState → JobStatusReason
job_status_reason ImageState.testing = JobStatusReason.self_test_active
job_status_reason ImageState.accepted = JobStatusReason.accepted
job_status_reason ImageState.rejected = JobStatusReason.rejected
job_status_reason _ = JobStatusReason.aborted

-- The code captures a failure in the reason and then drops it: no call gets the reason.
unfoldable pub set_image_state_with_reason :
    {d : Deps}
    → ControlInterface d
    → OtaPal d
    → Config
    → ImageState
    → Option ImageStateReason
    → OnFile d ImageState
unfolding set_platform job_status job_status_reason
set_image_state_with_reason control pal config image_state reason = do
  state ← set_platform pal image_state
  control.update_job_status config (job_status state) (job_status_reason state)
  pure state

module _ {d : Deps} (parts : Parts d) where
  unfoldable pub ota_close : Handler d (Unit {0})
  ota_close = do
    config ← gets (λ c. c.config)
    data_interface parts (λ di. di.cleanup config)
    file ← get_file
    on_pal (parts.pal.abort file)
    modify (λ c. record c { active_interface = none })

  abbrev is_pending_commit : Outcome OtaPalError PalImageState → Outcome OtaError Bool
  is_pending_commit (ok PalImageState.pending_commit) = ok true
  is_pending_commit (ok _) = ok false
  is_pending_commit (err e) = ok false
  is_pending_commit panic = panic

  unfoldable pub platform_in_selftest : Handler d Bool
  platform_in_selftest c =
      let r = parts.pal.get_platform_image_state c.world in
      (is_pending_commit r.0, record c { world = r.1 })

  -- `self.image_state = Self::set_image_state_with_reason(..., file_ctx, ...)?` at the file context of
  -- the active interface.
  unfoldable pub set_image_state : ImageState → Option ImageStateReason → Handler d (Unit {0})
  unfolding set_image_state_with_reason
  set_image_state image_state reason = do
    config ← gets (λ c. c.config)
    state ← on_file (set_image_state_with_reason parts.control parts.pal config image_state reason)
    modify (λ c. record c { image_state = state })
