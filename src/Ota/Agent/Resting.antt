-- ===== src/Ota/Agent/Resting.antt =====
-- src/ota/agent.rs: calls in states that await something else.
use rustot.Prelude.{ℕ, ◌≡◌, ◌≢◌, ◌∙◌, ap, Option, none, some, List, Outcome, ok, err, panic, arith}
use rustot.Prelude.Stateful.{continue}
use rustot.Deps.{Deps}
use rustot.Ota.State.Context.{
  States, waiting_for_file_block, restarting, CountDown, Parts, Events, queue_len,
}
use rustot.Ota.State.Machine.{
  Error, invalid_event, StateMachine, Smlang, IsDocumented, transition, run_row, after_guard,
  run_table,
}
use rustot.Ota.Agent.{
  dispatch, init, job_update, self_test_expired, timer_callback, next_event, process_event,
  handle_message, check_for_update, abort, suspend, resume,
}
use rustot.Ota.Agent.Reachable.{
  Call, init_call, timer_call, event_call, check_call, abort_call, suspend_call, resume_call,
  update_call, message_call, perform,
}

module _ {d : Deps} (sm : Smlang d) (documented : IsDocumented sm) (parts : Parts d) where
  dispatch_lem :
      (e : Events d) (m : StateMachine d) → dispatch sm parts e m ≡ run_table (transition parts) e m
  unfolding dispatch
  dispatch_lem e m = documented.process_event_lem (transition parts) e m

  dispatch_ignored :
      (payload : List ℕ) (m : StateMachine d)
      → m.state ≢ waiting_for_file_block
      → run_table (transition parts) (Events.received_file_block payload) m ≡ (err invalid_event, m)
  unfolding run_table run_row transition
  dispatch_ignored payload m n = ground arith

  run_restarting :
      (e : Events d) (m : StateMachine d)
      → m.state ≡ restarting
      → (run_table (transition parts) e m).1.state ≡ restarting
  unfolding run_table run_row transition after_guard
  run_restarting e m h = ground arith

  dispatch_restarting :
      (e : Events d) (m : StateMachine d)
      → m.state ≡ restarting
      → (dispatch sm parts e m).1.state ≡ restarting
  dispatch_restarting e m h = rw (dispatch_lem e m) (run_restarting e m h)

  self_test_expired-restarting :
      (t : Option (CountDown d)) (m : StateMachine d)
      → m.state ≡ restarting
      → (self_test_expired sm parts t m).1.state ≡ restarting
  unfolding self_test_expired
  self_test_expired-restarting t m h = ground arith

  timer_callback-restarting :
      (m : StateMachine d) → m.state ≡ restarting → (timer_callback sm parts m).1.state ≡ restarting
  unfolding timer_callback
  timer_callback-restarting m h =
      let w = (parts.request_timer.wait m.context.world).1 in
      let m' : StateMachine d = record m { context = record m.context { world = w } } in
      ground (
        arith,
        dispatch_restarting Events.request_timer m',
        self_test_expired-restarting parts.self_test_timer m',
      )

  -- A method that returns the state that it leaves.
  returns_state :
      (r : Outcome Error (Unit {0}) × StateMachine d)
      → r.1.state ≡ restarting
      → (continue r.0 (λ _ s. (ok s.state, s)) r.1).1.state ≡ restarting
  returns_state (ok _, m) h = h
  returns_state (err e, m) h = h
  returns_state (panic, m) h = h

  next_event-restarting :
      (q : Option (Events d × d.Queue queue_len (Events d))) (m : StateMachine d)
      → m.state ≡ restarting
      → (next_event sm parts q m).1.state ≡ restarting
  unfolding next_event
  next_event-restarting none m h = h
  next_event-restarting (some (e, q)) m h = dispatch_restarting e _ h

  perform_restarting :
      (k : Call d) (m : StateMachine d)
      → m.state ≡ restarting
      → (perform sm parts k m).state ≡ restarting
  unfolding perform init process_event check_for_update abort suspend resume job_update
      handle_message
  perform_restarting init_call m h = dispatch_restarting Events.start m h
  perform_restarting timer_call m h = timer_callback-restarting m h
  perform_restarting event_call m h =
      let q = d.dequeue queue_len (Events d) m.context.events in
      returns_state (next_event sm parts q m) (next_event-restarting q m h)
  perform_restarting check_call m h =
      returns_state (dispatch sm parts Events.request_job_document m) (dispatch_restarting _ m h)
  perform_restarting abort_call m h =
      returns_state (dispatch sm parts Events.user_abort m) (dispatch_restarting _ m h)
  perform_restarting suspend_call m h =
      let w = (parts.request_timer.cancel m.context.world).1 in
      let m' : StateMachine d = record m { context = record m.context { world = w } } in
      ground (
        arith,
        returns_state (dispatch sm parts Events.suspend m')
            (dispatch_restarting Events.suspend m' h),
      )
  perform_restarting resume_call m h =
      returns_state (dispatch sm parts Events.resume m) (dispatch_restarting _ m h)
  perform_restarting (update_call name job status) m h =
      let e =
        Events.received_job_document
          (record { job_name = name; ota_document = job; status_details = status }) in
      returns_state (dispatch sm parts e m) (dispatch_restarting e m h)
  perform_restarting (message_call payload) m h =
      returns_state (dispatch sm parts (Events.received_file_block payload) m)
        (dispatch_restarting _ m h)

-- A message that comes in any state but `WaitingForFileBlock` is refused as an invalid event, and
-- nothing changes, whatever it holds. The state machine is the documented one.
handle_message_refused :
    {d : Deps} (sm : Smlang d) (parts : Parts d) (m : StateMachine d) (payload : List ℕ)
    → IsDocumented sm
    → m.state ≢ waiting_for_file_block
    → handle_message sm parts payload m ≡ (err invalid_event, m)
unfolding handle_message
handle_message_refused sm parts m payload doc n =
    ap
      (λ (r : Outcome Error (Unit {0}) × StateMachine _).
        continue {B = States} r.0 (λ _ s. (ok s.state, s)) r.1)
      (dispatch_lem sm doc parts (Events.received_file_block payload) m
        ∙ dispatch_ignored sm doc parts payload m n)

-- A machine that is restarting stays so through every call of a method, whatever the call is given. The
-- state machine is the documented one.
perform-restarting :
    {d : Deps} (sm : Smlang d) (parts : Parts d) (m : StateMachine d) (k : Call d)
    → IsDocumented sm
    → m.state ≡ restarting
    → (perform sm parts k m).state ≡ restarting
perform-restarting sm parts m k doc h = perform_restarting sm doc parts k m h
