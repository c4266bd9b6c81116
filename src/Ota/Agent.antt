-- ===== src/Ota/Agent.antt =====
-- src/ota/agent.rs: the agent's public methods.
pub mod Activation
pub mod Download
pub mod Reachable
pub mod Rows
pub mod Unanswered
pub mod Update
pub mod Resting
pub mod Abort
use rustot.Prelude.{ℕ, Bool, Option, none, some, List, Outcome, ok, err, panic, Str}
use rustot.Prelude.Stateful.{Exec, ◌>>=◌, ◌>>◌, pure, gets}
use rustot.Deps.{Deps}
use rustot.Ota.Encoding.Json.{OtaJob}
use rustot.Ota.Pal.{OtaPal}
use rustot.Ota.ControlInterface.{ControlInterface}
use rustot.Ota.State.Context.{
  States, JobEventData, Events, CountDown, Parts, SmContext, Handler, queue_len,
}
use rustot.Ota.State.Image.{ota_close}
use rustot.Ota.State.Machine.{Error, StateMachine, Smlang, transition}

-- A method of the agent.
abbrev pub Method : Deps → Type 0 → Type 0
Method d A = Exec (StateMachine d) Error A

-- `.ok()`: an error is dropped, a panic is not.
abbrev drop_error : {E A : Type 0} → Outcome E A → Outcome Error (Unit {0})
drop_error (ok _) = ok tt
drop_error (err _) = ok tt
drop_error panic = panic

module _ {d : Deps} where
  -- A call on the context through `context_mut()`, its error dropped.
  abbrev on_context : {A : Type 0} → Handler d A → Method d (Unit {0})
  on_context h m = let r = h m.context in (drop_error r.0, record m { context = r.1 })

  -- A call on the world, with its result.
  abbrev in_world :
      {E A : Type 0} → Exec d.World E A → StateMachine d → Outcome E A × StateMachine d
  in_world f m =
      let r = f m.context.world in (r.0, record m { context = record m.context { world = r.1 } })

  abbrev drop_world : {E A : Type 0} → Exec d.World E A → Method d (Unit {0})
  drop_world f m = (drop_error (in_world f m).0, (in_world f m).1)

module _ {d : Deps} (sm : Smlang d) (parts : Parts d) where
  unfoldable pub dispatch : Events d → Method d (Unit {0})
  dispatch event = sm.process_event (transition parts) event

  unfoldable pub init : Method d (Unit {0})
  unfolding dispatch
  init m = let r = dispatch Events.start m in (drop_error r.0, r.1)

  unfoldable pub job_update : Str → OtaJob → Option d.Map → Method d States
  unfolding dispatch
  job_update job_name ota_document status_details = do
    dispatch (
        Events.received_job_document (record {
          job_name = job_name;
          ota_document = ota_document;
          status_details = status_details;
        }))
    gets (λ m. m.state)

  unfoldable pub self_test_expired : Option (CountDown d) → Method d (Unit {0})
  self_test_expired none m = (ok tt, m)
  self_test_expired (some timer) m =
      let r = in_world timer.wait m in
      elim r.0 [
        | ok _ ↦ drop_world parts.pal.reset_device r.1
        | err _ ↦ (ok tt, r.1)
        | panic ↦ (panic, r.1)
      ]

  unfoldable pub timer_callback : Method d (Unit {0})
  unfolding dispatch self_test_expired
  timer_callback m =
      let r = in_world parts.request_timer.wait m in
      elim r.0 [
        | ok _ ↦ dispatch Events.request_timer r.1
        | err _ ↦ self_test_expired parts.self_test_timer r.1
        | panic ↦ (panic, r.1)
      ]

  unfoldable pub next_event : Option (Events d × d.Queue queue_len (Events d)) → Method d (Unit {0})
  next_event none m = (ok tt, m)
  next_event (some (event, rest)) m =
      dispatch event (record m { context = record m.context { events = rest } })

  unfoldable pub process_event : Method d States
  unfolding dispatch next_event
  process_event = do
    queue ← gets (λ m. m.context.events)
    next_event (d.dequeue queue_len (Events d) queue)
    gets (λ m. m.state)

  unfoldable pub handle_message : List ℕ → Method d States
  unfolding dispatch
  handle_message payload = do dispatch (Events.received_file_block payload); gets (λ m. m.state)

  unfoldable pub check_for_update : Method d States
  unfolding dispatch
  check_for_update = do dispatch Events.request_job_document; gets (λ m. m.state)

  unfoldable pub abort : Method d States
  unfolding dispatch
  abort = do dispatch Events.user_abort; gets (λ m. m.state)

  unfoldable pub suspend : Method d States
  unfolding dispatch
  suspend = do drop_world parts.request_timer.cancel; dispatch Events.suspend; gets (λ m. m.state)

  unfoldable pub resume : Method d States
  unfolding dispatch
  resume = do dispatch Events.resume; gets (λ m. m.state)

module _ {d : Deps} (parts : Parts d) where
  -- `Drop::drop`
  unfoldable pub drop : Method d (Unit {0})
  unfolding ota_close
  drop = do on_context (ota_close parts); drop_world parts.control.cleanup
