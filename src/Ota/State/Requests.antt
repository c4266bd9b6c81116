-- ===== src/Ota/State/Requests.antt =====
-- src/ota/state.rs: requests for blocks, and how they are given up.
use rustot.Prelude.{◌+◌, ◌≤◌, ◌<◌, ◌≡◌, ◌≢◌, some, ok, err, panic, arith}
use rustot.Deps.{Deps}
use rustot.Jobs.DataTypes.{JobStatus}
use rustot.Ota.Encoding.Json.{JobStatusReason}
use rustot.Ota.Error.{OtaError}
use rustot.Ota.Pal.{ImageState}
use rustot.Ota.Encoding.{FileContext}
use rustot.Ota.State.Context.{
  Parts, SmContext, Interface, Events, primary, file_ctx, set_file_ctx, EventQueue, queue_len,
}
use rustot.Ota.State.Image.{
  job_status, job_status_reason, forced, set_platform, set_image_state_with_reason, set_image_state,
}
use rustot.Ota.State.Handlers.{request_data_handler}

-- From one context to the other, the timer is started and the primary interface is asked for blocks of
-- its file, and nothing else changes the world or the file.
abbrev pub Requested : {d : Deps} → Parts d → SmContext d → SmContext d → Type 0
Requested {d} parts c c' =
    (f : FileContext d) × (c.active_interface ≡ some (primary f))
    × (let w = (parts.request_timer.begin c.config.request_wait_ms c.world).1 in
        let r = parts.data_primary.request_file_block c.config (f, w) in
        (c'.active_interface ≡ some (primary r.1.0)) × (c'.world ≡ r.1.1))

pub request_data_handler-Requested :
    {d : Deps} (parts : Parts d) (c : SmContext d) (f : FileContext d)
    → c.active_interface ≡ some (primary f)
    → f.blocks_remaining ≢ 0
    → c.request_momentum ≤ c.config.max_request_momentum
    → (parts.request_timer.begin c.config.request_wait_ms c.world).0 ≡ ok tt
    → Requested parts c (request_data_handler parts c).1
unfolding request_data_handler file_ctx set_file_ctx
request_data_handler-Requested parts c f a more l begun = (f, a, (ground arith, ground arith))

module _ {d : Deps} (parts : Parts d) (c : SmContext d) (i : Interface d) where
  -- With an active job, a timer that starts and a maximum below 255, a request for blocks is refused as
  -- out of range where none remains. While the momentum is at most its maximum the request is not given
  -- up and adds one to the momentum, above the maximum every call fails.
  request_data_handler-momentum :
      c.active_interface ≡ some i
      → c.config.max_request_momentum < 255
      → (parts.request_timer.begin c.config.request_wait_ms c.world).0 ≡ ok tt
      → let r = request_data_handler parts c in
        ((file_ctx i).blocks_remaining ≡ 0 → (r.0 ≡ err OtaError.block_out_of_range) × (r.1 ≡ c))
        × ((file_ctx i).blocks_remaining ≢ 0
            → c.request_momentum ≤ c.config.max_request_momentum
            → (r.1.request_momentum ≡ c.request_momentum + 1) × (r.1.events ≡ c.events))
        × ((file_ctx i).blocks_remaining ≢ 0
            → c.config.max_request_momentum < c.request_momentum
            → r.0 ≢ ok tt)
  unfolding request_data_handler set_image_state set_image_state_with_reason set_platform forced
  request_data_handler-momentum h l t =
      (λ z. (ground arith, ground arith), λ n m. (ground arith, ground arith), λ n m. ground arith)

  -- With an active job of which blocks remain, a momentum above its maximum, a timer that starts and
  -- stops, a platform that does not panic, a job service that takes the report and room in the queue,
  -- a request for blocks aborts: it fails with `MomentumAbort`, the image is aborted, a shutdown is
  -- queued and the momentum starts again at 0.
  pub request_data_handler-aborts :
      (q : EventQueue d)
      → c.active_interface ≡ some i
      → (file_ctx i).blocks_remaining ≢ 0
      → c.config.max_request_momentum < c.request_momentum
      → ((w : d.World) → (parts.request_timer.begin c.config.request_wait_ms w).0 ≡ ok tt)
      → ((w : d.World) → (parts.request_timer.cancel w).0 ≡ ok tt)
      → ((w : d.World) → (parts.pal.set_platform_image_state ImageState.aborted w).0 ≢ panic)
      → ((s : FileContext d × d.World)
          → (parts.control.update_job_status c.config JobStatus.failed JobStatusReason.aborted s).0
            ≡ ok tt)
      → d.enqueue queue_len (Events d) Events.shutdown c.events ≡ some q
      → let r = request_data_handler parts c in
        (r.0 ≡ err OtaError.momentum_abort)
        × (r.1.image_state ≡ ImageState.aborted)
        × (r.1.events ≡ q)
        × (r.1.request_momentum ≡ 0)
  unfolding request_data_handler set_image_state set_image_state_with_reason set_platform forced
      job_status job_status_reason
  request_data_handler-aborts q h n m begins cancels sets reports e =
      let w1 = (parts.request_timer.begin c.config.request_wait_ms c.world).1 in
      let w2 = (parts.request_timer.cancel w1).1 in
      let w3 = (parts.pal.set_platform_image_state ImageState.aborted w2).1 in
      ground (arith, begins c.world, cancels w1, sets w2, reports (file_ctx i, w3))
