-- ===== src/Tests/Agents.antt =====
-- Runs of an agent whose state machine is the documented one.
use rustot.Prelude.{ℕ, ◌≡◌, ◌≢◌, refl, ◌⊎◌, none, some, [], ◌∷◌, ok, err, arith}
use rustot.Deps.Reference.{reference-QueueLaws}
use rustot.Ota.Config.{default}
use rustot.Ota.Error.{OtaError}
use rustot.Ota.State.Context.{
  States, waiting_for_job, restarting, requesting_job, RestartReason, Events, SmContext, primary,
}
use rustot.Ota.State.Machine.{
  invalid_event, guard_failed, StateMachine, Smlang, IsDocumented, run_table,
}
use rustot.Ota.State.Invariant.Transition.{Sound}
use rustot.Ota.Builder
use rustot.Ota.Builder.{OtaAgentBuilder, new, build}
use rustot.Ota.Agent.{process_event, abort}
use rustot.Ota.Agent.Reachable.{init_call, perform, built, called, Reachable-Sound}
use rustot.Ota.Agent.Activation.{calls, process_event-acts}
use rustot.Ota.Agent.Abort.{abort-closes}
use rustot.Tests.Device.{device, parts, control, interface, timer, pal, context}
use rustot.Tests.Transfer.{first}

abbrev pub machine : Smlang device
machine = record { process_event = run_table }

pub documented : IsDocumented machine
documented = record { process_event_lem = λ table event m. refl }

abbrev pub builder : OtaAgentBuilder device
builder = new control interface timer pal

abbrev started : StateMachine device
started = perform machine (Builder.parts builder) init_call (build builder 0).1

Reachable-Sound_example : Sound default started
unfolding new
Reachable-Sound_example =
    Reachable-Sound machine builder started documented (omega arith)
      (called (build builder 0).1 init_call (built 0))

-- A machine in a state, with these events in its queue.
abbrev at : States → SmContext device → StateMachine device
at s c = record { state = s; context = c }

abbrev waiting : StateMachine device
waiting =
    at waiting_for_job
      (record (context none) { events = Events.restart (RestartReason.activate 0) ∷ [] })

process_event-acts_example :
    ((calls machine parts 6 waiting).context.world ≡ 0)
    × ((process_event machine parts (calls machine parts 6 waiting)).0 ≡ ok restarting)
    × ((process_event machine parts (calls machine parts 6 waiting)).1.context.world ≡ 1)
process_event-acts_example =
    process_event-acts machine (reference-QueueLaws ℕ) parts (RestartReason.activate 0)
      (context none) waiting documented
      (record { state_awaits = refl; queued = refl; others_kept = refl }) (omega arith) refl

abort-closes_example :
    ((s : States)
      → (abort machine parts (at requesting_job (context (some (primary first))))).0 ≡ ok s
      → (s ≡ waiting_for_job)
        × ((abort machine parts (at requesting_job (context (some (primary first))))).1.state
            ≡ waiting_for_job)
        × ((abort machine parts
              (at requesting_job (context (some (primary first))))).1.context.active_interface
            ≡ none))
    × (requesting_job ≢ restarting
        → requesting_job ≢ States.suspended
        → some (primary first) ≡ none
        → abort machine parts (at requesting_job (context (some (primary first)))) ≡ (
          err (guard_failed OtaError.no_active_job),
          at requesting_job (context (some (primary first))),
        ))
    × ((requesting_job ≡ restarting) ⊎ (requesting_job ≡ States.suspended)
        → abort machine parts (at requesting_job (context (some (primary first))))
          ≡ (err invalid_event, at requesting_job (context (some (primary first)))))
abort-closes_example =
    abort-closes machine parts (at requesting_job (context (some (primary first)))) documented
