-- ===== src/Ota/Agent/Abort.antt =====
-- src/ota/agent.rs: aborting a job.
use rustot.Prelude.{◌≡◌, ◌≢◌, ◌⊎◌, none, ok, err, arith}
use rustot.Deps.{Deps}
use rustot.Ota.Error.{OtaError}
use rustot.Ota.State.Context.{States, waiting_for_job, restarting, suspended, Parts, Events}
use rustot.Ota.State.Handlers.{user_abort_handler}
use rustot.Ota.State.Invariant.Closing.{user_abort_handler-Closes}
use rustot.Ota.State.Machine.{
  invalid_event, guard_failed, StateMachine, Smlang, IsDocumented, transition, run_row, after_guard,
  run_table,
}
use rustot.Ota.Agent.{dispatch, abort}

-- An abort that succeeds leaves the machine waiting for a job with no active interface. Without an
-- active job it fails with `NoActiveJob` and nothing changes, save in the states that refuse it. While
-- a restart is under way or the agent is suspended it is refused, and nothing changes. The state
-- machine is the documented one.
pub abort-closes :
    {d : Deps} (sm : Smlang d) (parts : Parts d) (m : StateMachine d)
    → IsDocumented sm
    → ((s : States)
        → (abort sm parts m).0 ≡ ok s
        → (s ≡ waiting_for_job)
          × ((abort sm parts m).1.state ≡ waiting_for_job)
          × ((abort sm parts m).1.context.active_interface ≡ none))
      × (m.state ≢ restarting
          → m.state ≢ suspended
          → m.context.active_interface ≡ none
          → abort sm parts m ≡ (err (guard_failed OtaError.no_active_job), m))
      × ((m.state ≡ restarting) ⊎ (m.state ≡ suspended) → abort sm parts m ≡ (err invalid_event, m))
unfolding abort dispatch run_table run_row after_guard transition user_abort_handler
abort-closes sm parts m doc =
    let e = doc.process_event_lem (transition parts) Events.user_abort m in
    let k = user_abort_handler-Closes parts m.context in
    (
      λ s h. (ground (arith, e, k), ground (arith, e, k), ground (arith, e, k)),
      λ n n' h. ground (arith, e),
      λ h. ground (arith, e),
    )
