-- ===== src/Ota/State/Invariant/Closing.antt =====
-- src/ota/state.rs: the handlers that end a job, and the active interface.
use rustot.Prelude.{◌≡◌, ◌≢◌, none, Outcome, ok, arith}
use rustot.Deps.{Deps}
use rustot.Ota.Error.{OtaError}
use rustot.Ota.State.Context.{Parts, SmContext, JobEventData}
use rustot.Ota.State.Image.{set_image_state, ota_close}
use rustot.Ota.State.Handlers.{
  job_notification_handler, close_file_handler, user_abort_handler, shutdown_handler,
}

-- How a handler that ends the job ends: the job is closed exactly when the call succeeds.
pub record Closes {d : Deps} (c : SmContext d) (r : Outcome OtaError (Unit {0})) (c' : SmContext d)
    : Type 0 where
  pub config_kept : c'.config ≡ c.config
  pub momentum_kept : c'.request_momentum ≡ c.request_momentum
  pub closed : r ≡ ok tt → c'.active_interface ≡ none
  pub still_active : r ≢ ok tt → c.active_interface ≢ none → c'.active_interface ≢ none

module _ {d : Deps} (parts : Parts d) (c : SmContext d) where
  pub ota_close-Closes : Closes c (ota_close parts c).0 (ota_close parts c).1
  unfolding ota_close
  ota_close-Closes = ground arith

  pub close_file_handler-Closes :
      Closes c (close_file_handler parts c).0 (close_file_handler parts c).1
  unfolding close_file_handler ota_close
  close_file_handler-Closes = ground arith

  pub job_notification_handler-Closes :
      (job : JobEventData d)
      → Closes c (job_notification_handler parts job c).0 (job_notification_handler parts job c).1
  unfolding job_notification_handler ota_close
  job_notification_handler-Closes job = ground arith

  pub user_abort_handler-Closes :
      Closes c (user_abort_handler parts c).0 (user_abort_handler parts c).1
  unfolding user_abort_handler set_image_state ota_close
  user_abort_handler-Closes = ground arith

  pub shutdown_handler-Closes : Closes c (shutdown_handler parts c).0 (shutdown_handler parts c).1
  unfolding shutdown_handler set_image_state ota_close
  shutdown_handler-Closes = ground arith
