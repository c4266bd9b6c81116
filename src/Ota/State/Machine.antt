-- ===== src/Ota/State/Machine.antt =====
-- src/ota/state.rs: the table of the `statemachine!` block, and what the macro makes of it.
use rustot.Prelude.{Option, none, some, Outcome, ok, err, panic, ◌≡◌}
use rustot.Prelude.Stateful.{Exec}
use rustot.Deps.{Deps}
use rustot.Ota.Error.{OtaError}
use rustot.Ota.State.Context.{
  States, ready, requesting_job, waiting_for_job, creating_file, requesting_file_block,
  waiting_for_file_block, restarting, suspended, Events, start, request_job_document, request_timer,
  start_self_test, create_file, request_file_block, close_file, suspend, resume, user_abort,
  shutdown, received_job_document, received_file_block, restart, Parts, SmContext, Handler,
}
use rustot.Ota.State.Job.{process_job_handler}
use rustot.Ota.State.Handlers.{
  restart_handler, start_handler, resume_job_handler, request_job_handler, init_file_handler,
  in_self_test_handler, request_data_handler, job_notification_handler, process_data_handler,
  close_file_handler, user_abort_handler, shutdown_handler,
}

-- A row's guard, if it has one, and the state that it leads to.
abbrev pub Row : Deps → Type 0
Row d = Option (Handler d (Unit {0})) × States

abbrev when : {d : Deps} → Handler d (Unit {0}) → States → Option (Row d)
when guard target = some (some guard, target)

unfoldable pub transition : {d : Deps} → Parts d → States → Events d → Option (Row d)
transition parts ready start = when (start_handler parts) requesting_job
transition parts requesting_job request_job_document =
    when (request_job_handler parts) waiting_for_job
transition parts requesting_job request_timer = when (request_job_handler parts) waiting_for_job
transition parts waiting_for_job (received_job_document job) =
    when (process_job_handler parts job) creating_file
transition parts waiting_for_job start = when (request_job_handler parts) waiting_for_job
transition parts creating_file start_self_test = when (in_self_test_handler parts) waiting_for_job
transition parts creating_file create_file = when (init_file_handler parts) requesting_file_block
transition parts creating_file request_timer = when (init_file_handler parts) requesting_file_block
transition parts creating_file (restart reason) = when (restart_handler parts reason) restarting
transition parts requesting_file_block request_file_block =
    when (request_data_handler parts) waiting_for_file_block
transition parts requesting_file_block request_timer =
    when (request_data_handler parts) waiting_for_file_block
transition parts waiting_for_file_block (received_file_block payload) =
    when (process_data_handler parts payload) waiting_for_file_block
transition parts waiting_for_file_block request_timer =
    when (request_data_handler parts) waiting_for_file_block
transition parts waiting_for_file_block request_file_block =
    when (request_data_handler parts) waiting_for_file_block
transition parts waiting_for_file_block request_job_document =
    when (request_job_handler parts) waiting_for_job
transition parts waiting_for_file_block (received_job_document job) =
    when (job_notification_handler parts job) requesting_job
transition parts waiting_for_file_block close_file = when (close_file_handler parts) waiting_for_job
transition parts waiting_for_job (restart reason) = when (restart_handler parts reason) restarting
transition parts restarting (restart reason) = when (restart_handler parts reason) restarting
transition parts suspended resume = when (resume_job_handler parts) requesting_job
transition parts ready suspend = some (none, suspended)
transition parts requesting_job suspend = some (none, suspended)
transition parts waiting_for_job suspend = some (none, suspended)
transition parts creating_file suspend = some (none, suspended)
transition parts requesting_file_block suspend = some (none, suspended)
transition parts waiting_for_file_block suspend = some (none, suspended)
transition parts ready user_abort = when (user_abort_handler parts) waiting_for_job
transition parts requesting_job user_abort = when (user_abort_handler parts) waiting_for_job
transition parts waiting_for_job user_abort = when (user_abort_handler parts) waiting_for_job
transition parts creating_file user_abort = when (user_abort_handler parts) waiting_for_job
transition parts requesting_file_block user_abort = when (user_abort_handler parts) waiting_for_job
transition parts waiting_for_file_block user_abort = when (user_abort_handler parts) waiting_for_job
transition parts ready shutdown = when (shutdown_handler parts) ready
transition parts requesting_job shutdown = when (shutdown_handler parts) ready
transition parts waiting_for_job shutdown = when (shutdown_handler parts) ready
transition parts creating_file shutdown = when (shutdown_handler parts) ready
transition parts requesting_file_block shutdown = when (shutdown_handler parts) ready
transition parts waiting_for_file_block shutdown = when (shutdown_handler parts) ready
transition parts _ _ = none

-- The `Error` that the macro declares.
pub data Error : Type 0 where
  invalid_event : Error
  guard_failed : OtaError → Error

-- The `StateMachine` that the macro declares.
pub record StateMachine (d : Deps) : Type 0 where
  pub state : States
  pub context : SmContext d

abbrev pub Table : Deps → Type 0
Table d = States → Events d → Option (Row d)

-- `process_event`, whose code the macro writes, is an argument of the models.
pub record Smlang (d : Deps) : Type 0 where
  pub process_event : Table d → Events d → Exec (StateMachine d) Error (Unit {0})

unfoldable pub after_guard :
    {d : Deps}
    → Outcome OtaError (Unit {0})
    → States
    → StateMachine d
    → Outcome Error (Unit {0}) × StateMachine d
after_guard (ok _) target m = (ok tt, record m { state = target })
after_guard (err e) target m = (err (guard_failed e), m)
after_guard panic target m = (panic, m)

unfoldable pub run_row : {d : Deps} → Option (Row d) → Exec (StateMachine d) Error (Unit {0})
unfolding after_guard
run_row none m = (err invalid_event, m)
run_row (some (none, target)) m = (ok tt, record m { state = target })
run_row (some (some guard, target)) m =
    let r = guard m.context in after_guard r.0 target (record m { context = r.1 })

-- What the macro's documentation says: an event without a row is invalid; a row's guard runs first,
-- the state changes only if it succeeds, and its error is handed on.
unfoldable pub run_table : {d : Deps} → Table d → Events d → Exec (StateMachine d) Error (Unit {0})
unfolding run_row
run_table table event m = run_row (table m.state event) m

pub record IsDocumented {d : Deps} (sm : Smlang d) : Type 0 where
  pub process_event_lem :
      (table : Table d) (event : Events d) (m : StateMachine d)
      → sm.process_event table event m ≡ run_table table event m
