-- ===== src/Ota/State/Verdict.antt =====
-- src/ota/state.rs: what `set_image_state_with_reason` sets and reports.
use rustot.Prelude.{◌≡◌, ◌≢◌, ◌⊎◌, Option, ok, arith, ◌↔◌}
use rustot.Deps.{Deps}
use rustot.Jobs.DataTypes.{JobStatus}
use rustot.Ota.Config.{Config}
use rustot.Ota.Pal.{OtaPal, ImageState}
use rustot.Ota.Encoding.{FileContext}
use rustot.Ota.Encoding.Json.{JobStatusReason}
use rustot.Ota.ControlInterface.{ControlInterface}
use rustot.Ota.State.Context.{ImageStateReason}
use rustot.Ota.State.Image.{
  forced, set_platform, job_status, job_status_reason, set_image_state_with_reason,
}

-- Where the call succeeds, the image state that is set is the one asked for, which the platform took or
-- which is an abortion, or it is a rejection that the platform's error forces, and then the state asked
-- for was not an abortion. An image is accepted only where that was asked and the platform took it. The
-- job service is told once, after the platform, of the state that is set and not of the one asked for:
-- that report succeeds, and it leaves the file context and the world of the call. The status is
-- succeeded exactly for an accepted image, in progress exactly for one that is testing, and failed for
-- any other, and the reason is accepted, self test active or rejected exactly for an image that is
-- accepted, testing or rejected, and aborted for any other.
pub set_image_state_with_reason-accepts :
    {d : Deps} (control : ControlInterface d) (pal : OtaPal d) (config : Config)
    (asked s : ImageState) (reason : Option ImageStateReason) (f : FileContext d) (w : d.World)
    → let call = set_image_state_with_reason control pal config asked reason (f, w) in
      let set = pal.set_platform_image_state asked w in
      let told = control.update_job_status config (job_status s) (job_status_reason s) (f, set.1) in
      call.0 ≡ ok s
      → (((s ≡ asked) × ((set.0 ≡ ok tt) ⊎ (asked ≡ ImageState.aborted)))
          ⊎ ((s ≡ ImageState.rejected) × (asked ≢ ImageState.aborted) × (set.0 ≢ ok tt)))
        × (s ≡ ImageState.accepted → (asked ≡ ImageState.accepted) × (set.0 ≡ ok tt))
        × ((told.0 ≡ ok tt) × (call.1 ≡ told.1))
        × ((job_status s ≡ JobStatus.succeeded) ↔ (s ≡ ImageState.accepted))
        × ((job_status_reason s ≡ JobStatusReason.accepted) ↔ (s ≡ ImageState.accepted))
        × ((job_status_reason s ≡ JobStatusReason.self_test_active) ↔ (s ≡ ImageState.testing))
        × ((job_status_reason s ≡ JobStatusReason.rejected) ↔ (s ≡ ImageState.rejected))
        × ((job_status_reason s ≡ JobStatusReason.aborted)
            ↔ ((s ≢ ImageState.accepted) × (s ≢ ImageState.testing) × (s ≢ ImageState.rejected)))
        × ((job_status s ≡ JobStatus.in_progress) ↔ (s ≡ ImageState.testing))
        × ((job_status s ≡ JobStatus.failed)
            ↔ ((s ≢ ImageState.accepted) × (s ≢ ImageState.testing)))
unfolding set_image_state_with_reason set_platform forced job_status job_status_reason
set_image_state_with_reason-accepts control pal config asked s reason f w e = (
  ground arith,
  λ k. (ground arith, ground arith),
  (ground arith, ground arith),
  (λ k. ground arith, λ k. ground arith),
  (λ k. ground arith, λ k. ground arith),
  (λ k. ground arith, λ k. ground arith),
  (λ k. ground arith, λ k. ground arith),
  (λ k. (λ a. ground arith, λ a. ground arith, λ a. ground arith), λ k. ground arith),
  (λ k. ground arith, λ k. ground arith),
  (λ k. (λ a. ground arith, λ a. ground arith), λ k. ground arith),
)
