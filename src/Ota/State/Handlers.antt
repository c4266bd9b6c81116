-- ===== src/Ota/State/Handlers.antt =====
-- src/ota/state.rs: the other handlers of the state machine.
use rustot.Prelude.{
  ℕ, ◌+◌, Bool, true, false, Option, none, some, List, ltb, leb, ◌==◌, if◌then◌else◌, codes,
}
use rustot.Prelude.Stateful.{◌>>=◌, ◌>>◌, pure, fail, lift, gets, modify}
use rustot.Deps.{Deps}
use rustot.Jobs.DataTypes.{JobStatus}
use rustot.Ota.Config.{u8, u32_sub}
use rustot.Ota.Error.{OtaError}
use rustot.Ota.Pal.{OtaEvent, ImageState}
use rustot.Ota.Encoding.{insert_status}
use rustot.Ota.Encoding.Json.{JobStatusReason}
use rustot.Ota.State.Context.{
  ImageStateReason, RestartReason, inc, JobEventData, Events, Interface, CountDown, Parts, Handler,
  on_world, on_pal, on_timer, on_file, get_file, modify_file, signal, data_interface, match_result,
}
use rustot.Ota.State.Image.{set_image_state, ota_close, platform_in_selftest}
use rustot.Ota.State.Ingest.{ingest_data_block}

-- A timer that may be absent.
unfoldable pub start_optional : {d : Deps} → Option (CountDown d) → ℕ → Handler d (Unit {0})
start_optional none ms = pure tt
start_optional (some t) ms = on_timer (t.begin ms)

unfoldable pub cancel_optional : {d : Deps} → Option (CountDown d) → Handler d (Unit {0})
cancel_optional none = pure tt
cancel_optional (some t) = on_timer t.cancel

abbrev set_momentum : {d : Deps} → ℕ → Handler d (Unit {0})
set_momentum n = modify (λ c. record c { request_momentum = n })

-- What follows the last block: a new firmware image is to be activated, another file is done.
unfoldable pub completion : Option ℕ → JobStatus × JobStatusReason × OtaEvent
completion none = (JobStatus.succeeded, JobStatusReason.accepted, OtaEvent.update_complete)
completion (some n) =
    if n == 0
    then (JobStatus.in_progress, JobStatusReason.sig_check_passed, OtaEvent.activate)
    else (JobStatus.succeeded, JobStatusReason.accepted, OtaEvent.update_complete)

module _ {d : Deps} (parts : Parts d) where
  unfoldable pub restart_handler : RestartReason → Handler d (Unit {0})
  restart_handler (RestartReason.activate cnt) = do
    config ← gets (λ c. c.config)
    if ltb config.activate_delay cnt
        then on_pal (parts.pal.complete_callback OtaEvent.activate)
        else signal (Events.restart (inc (RestartReason.activate cnt)))
  restart_handler (RestartReason.restart cnt) = do
    config ← gets (λ c. c.config)
    if ltb config.activate_delay cnt
        then on_pal parts.pal.reset_device
        else signal (Events.restart (inc (RestartReason.restart cnt)))

  unfoldable pub start_handler : Handler d (Unit {0})
  unfolding start_optional platform_in_selftest
  start_handler = do
    testing ← platform_in_selftest parts
    config ← gets (λ c. c.config)
    if testing then start_optional parts.self_test_timer config.self_test_timeout_ms else pure tt
    signal Events.request_job_document

  unfoldable pub resume_job_handler : Handler d (Unit {0})
  resume_job_handler = signal Events.request_job_document

  -- After a request that failed: try again later, or give up where the momentum is at its maximum.
  unfoldable pub no_response : OtaError → Handler d (Unit {0})
  no_response e = do
    momentum ← gets (λ c. c.request_momentum)
    config ← gets (λ c. c.config)
    if ltb momentum config.max_request_momentum
        then (do
          on_timer (parts.request_timer.begin config.request_wait_ms)
          set_momentum (u8 (momentum + 1))
          fail e)
        else (do
          on_timer parts.request_timer.cancel
          signal Events.shutdown
          fail OtaError.momentum_abort)

  unfoldable pub request_job_handler : Handler d (Unit {0})
  unfolding no_response
  request_job_handler =
      match_result (on_world (λ e. e) parts.control.request_job)
        (λ _. do on_timer parts.request_timer.cancel; set_momentum 0) no_response

  unfoldable pub init_file_handler : Handler d (Unit {0})
  unfolding no_response
  init_file_handler =
      match_result (data_interface parts (λ di. di.init_file_transfer))
        (λ _. do set_momentum 0; signal Events.request_file_block) no_response

  unfoldable pub in_self_test_handler : Handler d (Unit {0})
  unfolding cancel_optional
  in_self_test_handler = do
    in_self_test ← platform_in_selftest parts
    get_file
    if in_self_test
        then (do
          on_pal (parts.pal.complete_callback OtaEvent.start_test)
          modify (λ c. record c { image_state = ImageState.accepted })
          config ← gets (λ c. c.config)
          on_file
              (parts.control.update_job_status config JobStatus.succeeded JobStatusReason.accepted)
          file ← get_file
          file' ← lift (insert_status d (codes "self_test") (codes "accepted") file)
          modify_file (λ _. file')
          cancel_optional parts.self_test_timer)
        else (do
          set_image_state parts ImageState.rejected (some ImageStateReason.image_state_mismatch)
          signal (Events.restart (RestartReason.restart 0)))

  unfoldable pub request_data_handler : Handler d (Unit {0})
  request_data_handler = do
    file ← get_file
    config ← gets (λ c. c.config)
    if ltb 0 file.blocks_remaining
        then (do
          on_timer (parts.request_timer.begin config.request_wait_ms)
          momentum ← gets (λ c. c.request_momentum)
          if leb momentum config.max_request_momentum
              then (do
                set_momentum (u8 (momentum + 1))
                data_interface parts (λ di. di.request_file_block config))
              else (do
                on_timer parts.request_timer.cancel
                set_image_state parts ImageState.aborted none
                signal Events.shutdown
                set_momentum 0
                fail OtaError.momentum_abort))
        else fail OtaError.block_out_of_range

  unfoldable pub job_notification_handler : JobEventData d → Handler d (Unit {0})
  job_notification_handler job = do
    on_timer parts.request_timer.cancel
    on_pal (parts.pal.set_platform_image_state ImageState.aborted)
    ota_close parts

  unfoldable pub finish : OtaEvent → Handler d (Unit {0})
  finish OtaEvent.activate = signal (Events.restart (RestartReason.activate 0))
  finish event = on_pal (parts.pal.complete_callback event)

  unfoldable pub file_complete : Handler d (Unit {0})
  unfolding finish
  file_complete = do
    file ← get_file
    config ← gets (λ c. c.config)
    let done = completion file.file_type
    on_file (parts.control.update_job_status config done.0 done.1)
    signal Events.close_file
    finish done.2

  unfoldable pub block_complete : Handler d (Unit {0})
  block_complete = do
    get_file
    set_momentum 0
    config ← gets (λ c. c.config)
    on_file (parts.control.update_job_status config JobStatus.in_progress JobStatusReason.receiving)
    file ← get_file
    if ltb 1 file.request_block_remaining
        then modify_file
            (λ f. record f { request_block_remaining = u32_sub f.request_block_remaining 1 })
        else (do
          on_timer (parts.request_timer.begin config.request_wait_ms)
          signal Events.request_file_block)

  unfoldable pub block_failed : OtaError → Handler d (Unit {0})
  block_failed e = do
    get_file
    on_pal (parts.pal.set_platform_image_state ImageState.rejected)
    config ← gets (λ c. c.config)
    on_file (parts.control.update_job_status config JobStatus.failed (JobStatusReason.pal 0))
    on_timer parts.request_timer.cancel
    signal Events.close_file
    on_pal (parts.pal.complete_callback OtaEvent.fail)
    fail e

  unfoldable pub process_data_handler : List ℕ → Handler d (Unit {0})
  unfolding file_complete block_complete block_failed
  process_data_handler payload =
      match_result (ingest_data_block parts payload)
        (λ complete. if complete then file_complete else block_complete) block_failed

  unfoldable pub close_file_handler : Handler d (Unit {0})
  unfolding ota_close
  close_file_handler = ota_close parts

  abbrev is_active : Option (Interface d) → Bool
  is_active none = false
  is_active (some _) = true

  unfoldable pub user_abort_handler : Handler d (Unit {0})
  user_abort_handler = do
    active ← gets (λ c. c.active_interface)
    if is_active active
        then (do
          set_image_state parts ImageState.aborted (some ImageStateReason.user_abort)
          ota_close parts)
        else fail OtaError.no_active_job

  unfoldable pub shutdown_handler : Handler d (Unit {0})
  shutdown_handler = do
    active ← gets (λ c. c.active_interface)
    if is_active active
        then (do
          set_image_state parts ImageState.aborted (some ImageStateReason.user_abort)
          ota_close parts)
        else pure tt
