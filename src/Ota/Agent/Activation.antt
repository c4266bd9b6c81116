-- ===== src/Ota/Agent/Activation.antt =====
-- src/ota/agent.rs with the restart handler of src/ota/state.rs: a restart that is queued.
use rustot.Prelude.{
  ℕ, zero, suc, ◌+◌, ◌≤◌, ◌<◌, ◌≡◌, refl, ap, ◌∙◌, sym, subst, Bool, true, false, some, [], ◌∷◌,
  Outcome, ok, arith,
}
use rustot.Prelude.Stateful.{Exec, continue}
use rustot.Deps.{Deps, QueueLaws}
use rustot.Ota.Pal.{OtaPalError, OtaEvent}
use rustot.Ota.State.Context.{
  States, waiting_for_job, restarting, creating_file, RestartReason, activate, restart, inc, on_pal,
  signal, Events, Parts, SmContext, EventQueue, queue_len,
}
use rustot.Ota.State.Handlers.{restart_handler}
use rustot.Ota.State.Machine.{
  Error, StateMachine, Smlang, IsDocumented, transition, run_row, after_guard, run_table,
}
use rustot.Ota.Agent.{dispatch, next_event, process_event}

-- A state in which a restart is handled.
abbrev pub awaits_restart : States → Bool
awaits_restart waiting_for_job = true
awaits_restart creating_file = true
awaits_restart restarting = true
awaits_restart _ = false

-- The restart with another count.
abbrev pub counted : RestartReason → ℕ → RestartReason
counted (activate _) n = activate n
counted (restart _) n = restart n

-- What a restart waits for.
abbrev pub action : {d : Deps} → Parts d → RestartReason → Exec d.World OtaPalError (Unit {0})
action parts (activate _) = parts.pal.complete_callback OtaEvent.activate
action parts (restart _) = parts.pal.reset_device

-- The queue holds the restart alone, and everything else is as in the context `c`.
pub record IsWaiting {d : Deps} (c : SmContext d) (reason : RestartReason) (m : StateMachine d)
    : Type 0 where
  pub state_awaits : awaits_restart m.state ≡ true
  pub queued : d.items queue_len (Events d) m.context.events ≡ Events.restart reason ∷ []
  pub others_kept : m.context ≡ record c { events = m.context.events }

-- The machine after so many calls of `process_event`.
abbrev pub calls : {d : Deps} → Smlang d → Parts d → ℕ → StateMachine d → StateMachine d
calls sm parts zero m = m
calls sm parts (suc n) m = calls sm parts n (process_event sm parts m).1

module _ {d : Deps} (sm : Smlang d) (documented : IsDocumented sm) (laws : QueueLaws d)
    (parts : Parts d) where
  dispatch_restart :
      (reason : RestartReason) (m : StateMachine d)
      → awaits_restart m.state ≡ true
      → dispatch sm parts (Events.restart reason) m
        ≡ run_row (some (some (restart_handler parts reason), restarting)) m
  unfolding dispatch run_table transition
  dispatch_restart reason m a =
      documented.process_event_lem (transition parts) (Events.restart reason) m ∙ ground (arith)

  -- A call that takes the restart from the queue.
  process_event_restart :
      (reason : RestartReason) (c : SmContext d) (m : StateMachine d)
      → IsWaiting c reason m
      → (q : EventQueue d) × (d.items queue_len (Events d) q ≡ [])
        × (process_event sm parts m
            ≡ continue
                (run_row
                  (some (some (restart_handler parts reason), restarting))
                  (record { state = m.state; context = record c { events = q } })).0
                (λ _ s. (ok s.state, s))
                (run_row
                  (some (some (restart_handler parts reason), restarting))
                  (record { state = m.state; context = record c { events = q } })).1)
  unfolding process_event next_event
  process_event_restart reason c m h =
      let (q, e, i) =
        laws.dequeue_first queue_len (Events d) m.context.events (Events.restart reason) []
          h.queued in
      let m' : StateMachine d = record {
        state = m.state;
        context = record m.context { events = q };
      } in
      let row = run_row (some (some (restart_handler parts reason), restarting)) in
      let ran : dispatch sm parts (Events.restart reason) m'
          ≡ row (record { state = m.state; context = record c { events = q } }) =
        dispatch_restart reason m' h.state_awaits
        ∙ ap
            (λ (x : SmContext d).
              row (record { state = m.state; context = record x { events = q } }))
            h.others_kept in
      (
        q,
        i,
        simp e (
            ap
              (λ (r : Outcome Error (Unit {0}) × StateMachine d).
                continue {B = States} r.0 (λ _ s. (ok s.state, s)) r.1)
              ran),
      )

  restart_handler_waits :
      (reason : RestartReason) (cnt : ℕ) (c : SmContext d)
      → cnt ≤ c.config.activate_delay
      → c.config.activate_delay < 255
      → restart_handler parts (counted reason cnt) c
        ≡ signal (Events.restart (counted reason (cnt + 1))) c
  unfolding restart_handler inc
  restart_handler_waits (activate _) cnt c l b = ground arith
  restart_handler_waits (restart _) cnt c l b = ground arith

  restart_handler_acts :
      (reason : RestartReason) (cnt : ℕ) (c : SmContext d)
      → c.config.activate_delay < cnt
      → restart_handler parts (counted reason cnt) c ≡ on_pal (action parts reason) c
  unfolding restart_handler
  restart_handler_acts (activate _) cnt c l = ground arith
  restart_handler_acts (restart _) cnt c l = ground arith

  -- One call before the wait is over counts one up.
  wait_step :
      (reason : RestartReason) (cnt : ℕ) (c : SmContext d) (m : StateMachine d)
      → IsWaiting c (counted reason cnt) m
      → cnt ≤ c.config.activate_delay
      → c.config.activate_delay < 255
      → IsWaiting c (counted reason (cnt + 1)) (process_event sm parts m).1
  unfolding run_row after_guard
  wait_step reason cnt c m h l b =
      let (q, i, e) = process_event_restart (counted reason cnt) c m h in
      let next : Events d = Events.restart (counted reason (cnt + 1)) in
      let (q', e', i') = laws.enqueue_room queue_len (Events d) next q (rw i (omega arith)) in
      let stepped : (process_event sm parts m).1
          ≡ record { state = restarting; context = record c { events = q' } } =
        ap (λ (r : Outcome Error States × StateMachine d). r.1) e
        ∙ ground (arith, e', restart_handler_waits reason cnt (record c { events = q }) l b) in
      subst (IsWaiting c (counted reason (cnt + 1))) (sym stepped)
        (record { state_awaits = refl; queued = i' ∙ simp i refl; others_kept = refl })

  waits :
      (reason : RestartReason) (n cnt : ℕ) (c : SmContext d) (m : StateMachine d)
      → IsWaiting c (counted reason cnt) m
      → cnt + n ≤ c.config.activate_delay + 1
      → c.config.activate_delay < 255
      → IsWaiting c (counted reason (cnt + n)) (calls sm parts n m)
  waits reason zero cnt c m h l b = subst (λ k. IsWaiting c (counted reason k) m) (omega arith) h
  waits reason (suc n) cnt c m h l b =
      subst (λ k. IsWaiting c (counted reason k) (calls sm parts (suc n) m)) (omega arith)
        (waits reason n (cnt + 1) c (process_event sm parts m).1
          (wait_step reason cnt c m h (omega arith) b) (omega arith) b)

  -- The call that finds the wait over.
  acts :
      (reason : RestartReason) (cnt : ℕ) (c : SmContext d) (m : StateMachine d)
      → IsWaiting c (counted reason cnt) m
      → c.config.activate_delay < cnt
      → (action parts reason c.world).0 ≡ ok tt
      → ((process_event sm parts m).0 ≡ ok restarting)
        × ((process_event sm parts m).1.context.world ≡ (action parts reason c.world).1)
  unfolding run_row after_guard
  acts reason cnt c m h l w =
      let (q, i, e) = process_event_restart (counted reason cnt) c m h in
      rw e (ground (arith, restart_handler_acts reason cnt (record c { events = q }) l))

-- A restart that is the only event in the queue of a machine that waits for a job, for a file's
-- creation or for a restart is carried out. With an `activate_delay` below 255, as many calls of
-- `process_event` as the delay and one more leave the world as it was, and the call after those runs
-- the platform's `complete_callback(Activate)` or its `reset_device`, by the restart's kind, and where
-- that succeeds returns `Restarting`. The state machine is the documented one, the queue first in
-- first out.
pub process_event-acts :
    {d : Deps} (sm : Smlang d) (laws : QueueLaws d) (parts : Parts d) (reason : RestartReason)
    (c : SmContext d) (m : StateMachine d)
    → IsDocumented sm
    → IsWaiting c (counted reason 0) m
    → c.config.activate_delay < 255
    → (action parts reason c.world).0 ≡ ok tt
    → let m' = calls sm parts (c.config.activate_delay + 1) m in
      (m'.context.world ≡ c.world)
      × ((process_event sm parts m').0 ≡ ok restarting)
      × ((process_event sm parts m').1.context.world ≡ (action parts reason c.world).1)
process_event-acts sm laws parts reason c m doc h b w =
    let n = c.config.activate_delay + 1 in
    let waited : IsWaiting c (counted reason n) (calls sm parts n m) =
      subst (λ k. IsWaiting c (counted reason k) (calls sm parts n m)) (omega arith)
        (waits sm doc laws parts reason n 0 c m h (omega arith) b) in
    let over : c.config.activate_delay < n = omega arith in
    let acted = acts sm doc laws parts reason n c (calls sm parts n m) waited over w in
    (ap (λ (x : SmContext _). x.world) waited.others_kept, acted.0, acted.1)
