-- ===== src/Ota/State/Invariant/Transition.antt =====
-- src/ota/state.rs: what each row of the table of the state machine keeps.
use rustot.Prelude.{◌+◌, ◌≤◌, ◌<◌, ◌≡◌, ◌≢◌, refl, Bool, true, false, Option, none, some, arith}
use rustot.Deps.{Deps}
use rustot.Ota.Config.{Config}
use rustot.Ota.State.Context.{
  States, ready, requesting_job, waiting_for_job, creating_file, requesting_file_block,
  waiting_for_file_block, restarting, suspended, Events, start, request_job_document, request_timer,
  start_self_test, create_file, request_file_block, close_file, suspend, resume, user_abort,
  shutdown, JobEventData, received_job_document, received_file_block, restart, Parts, SmContext,
  Handler,
}
use rustot.Ota.State.Job.{process_job_handler}
use rustot.Ota.State.Machine.{Row, transition, StateMachine, run_row, after_guard, run_table}
use rustot.Ota.State.Invariant.{
  Steady, restart_handler-Keeps, start_handler-Keeps, resume_job_handler-Keeps,
  request_data_handler-Keeps, init_file_handler-Keeps, request_job_handler-Keeps,
  in_self_test_handler-Keeps,
}
use rustot.Ota.State.Invariant.Ingest.{process_data_handler-Keeps}
use rustot.Ota.State.Invariant.Job.{process_job_handler-Binds, process_job_handler-active}
use rustot.Ota.State.Invariant.Closing.{
  Closes, close_file_handler-Closes, job_notification_handler-Closes, user_abort_handler-Closes,
  shutdown_handler-Closes,
}

-- The states in which a file is received.
abbrev pub needs_file : States → Bool
needs_file creating_file = true
needs_file requesting_file_block = true
needs_file waiting_for_file_block = true
needs_file _ = false

-- The configuration is the one the agent was built with, the momentum is at most one above its
-- maximum, and a job is active wherever a file is received.
pub record Sound {d : Deps} (config : Config) (m : StateMachine d) : Type 0 where
  pub config_kept : m.context.config ≡ config
  pub momentum_bound : m.context.request_momentum ≤ config.max_request_momentum + 1
  pub active : needs_file m.state ≡ true → m.context.active_interface ≢ none

module _ {d : Deps} (parts : Parts d) (config : Config)
    (l : config.max_request_momentum < 255) where
  -- What a row keeps, from the state it starts in.
  abbrev Good : States → Option (Row d) → Type 0
  Good state row =
      (c : SmContext d)
      → Sound config (record { state = state; context = c })
      → Sound config (run_row row (record { state = state; context = c })).1

  none-Good : (s : States) → Good s none
  unfolding run_row after_guard
  none-Good s c h = h

  free-Good : (s t : States) → needs_file t ≡ false → Good s (some (none, t))
  unfolding run_row after_guard
  free-Good s t e c h = ground arith

  keeps-Good :
      (h : Handler d (Unit {0})) (s t : States)
      → ((c : SmContext d) → c.config.max_request_momentum < 255 → Steady c (h c).1)
      → (needs_file t ≡ true → needs_file s ≡ true)
      → Good s (some (some h, t))
  unfolding run_row after_guard
  keeps-Good h s t k n c i = ground (arith, k c)

  job-Good :
      (job : JobEventData d)
      → Good waiting_for_job (some (some (process_job_handler parts job), creating_file))
  unfolding run_row after_guard
  job-Good job c i =
      ground (arith, process_job_handler-Binds parts job c, process_job_handler-active parts job c)

  Closes-Good :
      (h : Handler d (Unit {0})) (s t : States)
      → ((c : SmContext d) → Closes c (h c).0 (h c).1)
      → needs_file t ≡ false
      → Good s (some (some h, t))
  unfolding run_row after_guard
  Closes-Good h s t k n c i = ground (arith, k c)

  transition-Good : (s : States) (e : Events d) → Good s (transition parts s e)
  unfolding transition
  transition-Good ready start = keeps-Good _ _ _ (start_handler-Keeps parts) (λ e. cc)
  transition-Good requesting_job request_job_document =
      keeps-Good _ _ _ (request_job_handler-Keeps parts) (λ e. cc)
  transition-Good requesting_job request_timer =
      keeps-Good _ _ _ (request_job_handler-Keeps parts) (λ e. cc)
  transition-Good waiting_for_job (received_job_document job) = job-Good job
  transition-Good waiting_for_job start =
      keeps-Good _ _ _ (request_job_handler-Keeps parts) (λ e. cc)
  transition-Good creating_file start_self_test =
      keeps-Good _ _ _ (in_self_test_handler-Keeps parts) (λ e. cc)
  transition-Good creating_file create_file =
      keeps-Good _ _ _ (init_file_handler-Keeps parts) (λ e. cc)
  transition-Good creating_file request_timer =
      keeps-Good _ _ _ (init_file_handler-Keeps parts) (λ e. cc)
  transition-Good creating_file (restart reason) =
      keeps-Good _ _ _ (restart_handler-Keeps parts reason) (λ e. cc)
  transition-Good requesting_file_block request_file_block =
      keeps-Good _ _ _ (request_data_handler-Keeps parts) (λ e. cc)
  transition-Good requesting_file_block request_timer =
      keeps-Good _ _ _ (request_data_handler-Keeps parts) (λ e. cc)
  transition-Good waiting_for_file_block (received_file_block payload) =
      keeps-Good _ _ _ (process_data_handler-Keeps parts payload) (λ e. cc)
  transition-Good waiting_for_file_block request_timer =
      keeps-Good _ _ _ (request_data_handler-Keeps parts) (λ e. cc)
  transition-Good waiting_for_file_block request_file_block =
      keeps-Good _ _ _ (request_data_handler-Keeps parts) (λ e. cc)
  transition-Good waiting_for_file_block request_job_document =
      keeps-Good _ _ _ (request_job_handler-Keeps parts) (λ e. cc)
  transition-Good waiting_for_file_block (received_job_document job) =
      Closes-Good _ _ _ (λ c. job_notification_handler-Closes parts c job) refl
  transition-Good waiting_for_file_block close_file =
      Closes-Good _ _ _ (close_file_handler-Closes parts) refl
  transition-Good waiting_for_job (restart reason) =
      keeps-Good _ _ _ (restart_handler-Keeps parts reason) (λ e. cc)
  transition-Good restarting (restart reason) =
      keeps-Good _ _ _ (restart_handler-Keeps parts reason) (λ e. cc)
  transition-Good suspended resume = keeps-Good _ _ _ (resume_job_handler-Keeps parts) (λ e. cc)
  transition-Good ready suspend = free-Good _ _ refl
  transition-Good requesting_job suspend = free-Good _ _ refl
  transition-Good waiting_for_job suspend = free-Good _ _ refl
  transition-Good creating_file suspend = free-Good _ _ refl
  transition-Good requesting_file_block suspend = free-Good _ _ refl
  transition-Good waiting_for_file_block suspend = free-Good _ _ refl
  transition-Good ready user_abort = Closes-Good _ _ _ (user_abort_handler-Closes parts) refl
  transition-Good requesting_job user_abort =
      Closes-Good _ _ _ (user_abort_handler-Closes parts) refl
  transition-Good waiting_for_job user_abort =
      Closes-Good _ _ _ (user_abort_handler-Closes parts) refl
  transition-Good creating_file user_abort =
      Closes-Good _ _ _ (user_abort_handler-Closes parts) refl
  transition-Good requesting_file_block user_abort =
      Closes-Good _ _ _ (user_abort_handler-Closes parts) refl
  transition-Good waiting_for_file_block user_abort =
      Closes-Good _ _ _ (user_abort_handler-Closes parts) refl
  transition-Good ready shutdown = Closes-Good _ _ _ (shutdown_handler-Closes parts) refl
  transition-Good requesting_job shutdown = Closes-Good _ _ _ (shutdown_handler-Closes parts) refl
  transition-Good waiting_for_job shutdown = Closes-Good _ _ _ (shutdown_handler-Closes parts) refl
  transition-Good creating_file shutdown = Closes-Good _ _ _ (shutdown_handler-Closes parts) refl
  transition-Good requesting_file_block shutdown =
      Closes-Good _ _ _ (shutdown_handler-Closes parts) refl
  transition-Good waiting_for_file_block shutdown =
      Closes-Good _ _ _ (shutdown_handler-Closes parts) refl
  transition-Good _ _ = none-Good _

  pub run_table-Sound :
      (e : Events d) (m : StateMachine d)
      → Sound config m
      → Sound config (run_table (transition parts) e m).1
  unfolding run_table
  run_table-Sound e m h = transition-Good m.state e m.context h
