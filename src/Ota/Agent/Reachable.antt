-- ===== src/Ota/Agent/Reachable.antt =====
-- src/ota/agent.rs: what holds of an agent after any sequence of calls of its methods.
use rustot.Prelude.{ℕ, ◌<◌, Option, none, some, List, Outcome, ok, err, panic, arith, Str}
use rustot.Prelude.Stateful.{continue}
use rustot.Deps.{Deps}
use rustot.Ota.Encoding.Json.{OtaJob}
use rustot.Ota.Config.{Config}
use rustot.Ota.State.Context.{CountDown, Events, Parts, queue_len}
use rustot.Ota.State.Machine.{Error, StateMachine, Smlang, IsDocumented, transition}
use rustot.Ota.State.Invariant.Transition.{Sound, run_table-Sound}
use rustot.Ota.Builder.{OtaAgentBuilder, build, parts}
use rustot.Ota.Agent.{
  dispatch, init, job_update, self_test_expired, timer_callback, next_event, process_event,
  handle_message, check_for_update, abort, suspend, resume,
}

-- The calls of an agent's methods.
pub data Call (d : Deps) : Type 0 where
  init_call timer_call event_call check_call abort_call suspend_call resume_call : Call d
  update_call : Str → OtaJob → Option d.Map → Call d
  message_call : List ℕ → Call d

module _ {d : Deps} (sm : Smlang d) where
  unfoldable pub perform : Parts d → Call d → StateMachine d → StateMachine d
  perform p init_call m = (init sm p m).1
  perform p timer_call m = (timer_callback sm p m).1
  perform p event_call m = (process_event sm p m).1
  perform p check_call m = (check_for_update sm p m).1
  perform p abort_call m = (abort sm p m).1
  perform p suspend_call m = (suspend sm p m).1
  perform p resume_call m = (resume sm p m).1
  perform p (update_call name job status) m = (job_update sm p name job status m).1
  perform p (message_call payload) m = (handle_message sm p payload m).1

  -- The agent as built, after any calls, and after the world changed between two of them.
  pub data Reachable (b : OtaAgentBuilder d) : StateMachine d → Type 0 where
    built : (w : d.World) → Reachable b (build b w).1
    called : (m : StateMachine d) (k : Call d) → Reachable b m → Reachable b (perform (parts b) k m)
    elapsed :
        (m : StateMachine d) (w : d.World)
        → Reachable b m
        → Reachable b (record m { context = record m.context { world = w } })

module _ {d : Deps} (sm : Smlang d) (documented : IsDocumented sm) (p : Parts d) (config : Config)
    (l : config.max_request_momentum < 255) where
  dispatch-Sound :
      (e : Events d) (m : StateMachine d) → Sound config m → Sound config (dispatch sm p e m).1
  unfolding dispatch
  dispatch-Sound e m h =
      rw (documented.process_event_lem (transition p) e m) (run_table-Sound p config l e m h)

  world-Sound :
      (m : StateMachine d) (w : d.World)
      → Sound config m
      → Sound config (record m { context = record m.context { world = w } })
  world-Sound m w h = ground arith

  self_test_expired-Sound :
      (t : Option (CountDown d)) (m : StateMachine d)
      → Sound config m
      → Sound config (self_test_expired sm p t m).1
  unfolding self_test_expired
  self_test_expired-Sound t m h = ground arith

  timer_callback-Sound :
      (m : StateMachine d) → Sound config m → Sound config (timer_callback sm p m).1
  unfolding timer_callback
  timer_callback-Sound m h =
      let w = (p.request_timer.wait m.context.world).1 in
      let m' : StateMachine d = record m { context = record m.context { world = w } } in
      ground (
        arith,
        world-Sound m w h,
        dispatch-Sound Events.request_timer m',
        self_test_expired-Sound p.self_test_timer m',
      )

  -- A method that returns the state that it leaves.
  returns-Sound :
      (r : Outcome Error (Unit {0}) × StateMachine d)
      → Sound config r.1
      → Sound config (continue r.0 (λ _ s. (ok s.state, s)) r.1).1
  returns-Sound (ok _, m) h = h
  returns-Sound (err e, m) h = h
  returns-Sound (panic, m) h = h

  next_event-Sound :
      (q : Option (Events d × d.Queue queue_len (Events d))) (m : StateMachine d)
      → Sound config m
      → Sound config (next_event sm p q m).1
  unfolding next_event
  next_event-Sound none m h = h
  next_event-Sound (some (e, q)) m h = dispatch-Sound e _ (ground arith)

  perform-Sound :
      (k : Call d) (m : StateMachine d) → Sound config m → Sound config (perform sm p k m)
  unfolding perform init process_event check_for_update abort suspend resume job_update
      handle_message
  perform-Sound init_call m h = dispatch-Sound Events.start m h
  perform-Sound timer_call m h = timer_callback-Sound m h
  perform-Sound event_call m h =
      let q = d.dequeue queue_len (Events d) m.context.events in
      returns-Sound (next_event sm p q m) (next_event-Sound q m h)
  perform-Sound check_call m h =
      returns-Sound (dispatch sm p Events.request_job_document m)
        (dispatch-Sound Events.request_job_document m h)
  perform-Sound abort_call m h =
      returns-Sound (dispatch sm p Events.user_abort m) (dispatch-Sound Events.user_abort m h)
  perform-Sound suspend_call m h =
      let w = (p.request_timer.cancel m.context.world).1 in
      let m' : StateMachine d = record m { context = record m.context { world = w } } in
      let r = dispatch sm p Events.suspend m' in
      ground (
        arith,
        world-Sound m w h,
        returns-Sound r (dispatch-Sound Events.suspend m' (world-Sound m w h)),
      )
  perform-Sound resume_call m h =
      returns-Sound (dispatch sm p Events.resume m) (dispatch-Sound Events.resume m h)
  perform-Sound (update_call name job status) m h =
      let e =
        Events.received_job_document
          (record { job_name = name; ota_document = job; status_details = status }) in
      returns-Sound (dispatch sm p e m) (dispatch-Sound e m h)
  perform-Sound (message_call payload) m h =
      returns-Sound (dispatch sm p (Events.received_file_block payload) m)
        (dispatch-Sound (Events.received_file_block payload) m h)

-- In every state that an agent reaches from its builder, by any calls of its methods and with any
-- changes of the world between them, the configuration is the builder's, the request momentum is at
-- most one above its maximum, and a job is active wherever the machine is in a state that receives a
-- file. The maximum is below 255, the greatest `u8`, and the state machine is the documented one.
pub Reachable-Sound :
    {d : Deps} (sm : Smlang d) (b : OtaAgentBuilder d) (m : StateMachine d)
    → IsDocumented sm
    → b.config.max_request_momentum < 255
    → Reachable sm b m
    → Sound b.config m
unfolding build
Reachable-Sound sm b m doc l (built w) = ground arith
Reachable-Sound sm b m doc l (called m' k r) =
    perform-Sound sm doc (parts b) b.config l k m' (Reachable-Sound sm b m' doc l r)
Reachable-Sound sm b m doc l (elapsed m' w r) =
    world-Sound sm doc (parts b) b.config l m' w (Reachable-Sound sm b m' doc l r)
