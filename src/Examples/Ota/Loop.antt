-- ===== src/Examples/Ota/Loop.antt =====
-- examples/ota.rs: what holds in each turn of the loop.
use rustot.Prelude.{
  ◌+◌, ◌≤◌, ◌<◌, ◌%◌, ◌^◌, ◌≡◌, ◌≢◌, refl, false, not, ◌&&◌, Outcome, ok, err, panic, arith,
}
use rustot.Prelude.Stateful.{continue, ◌>>◌}
use rustot.Deps.{Deps}
use rustot.Ota.State.Machine.{StateMachine, Smlang, IsDocumented}
use rustot.Ota.State.Invariant.Transition.{Sound}
use rustot.Ota.Builder.{OtaAgentBuilder, build, parts}
use rustot.Ota.Agent
use rustot.Ota.Agent.{Method}
use rustot.Ota.Agent.Reachable.{Call, perform, Reachable, Reachable-Sound}
use rustot.Examples.Ota.{OtaUpdate, Reader, Fallible, handle_ota}
use rustot.Examples.Ota.Device.{
  Notification, Device, Step, drop_error, expecting, dropping, on_update, on_notification,
  wait_suspended, turn, when, marked, i32_gt,
}

module _ {d : Deps} (sm : Smlang d) (reader : Reader d) (sleep : d.World → d.World)
    (b : OtaAgentBuilder d) where
  -- The loop after any number of turns, from an agent that was built and initialised. The world may
  -- change between two turns. A panic is not survived.
  pub data Turns : Device d → Type 0 where
    started :
        (w : d.World)
        → Turns (record {
          agent = (Agent.init sm (parts b) (build b w).1).1;
          cnt = 0;
          suspended = false;
        })
    turned :
        (x : Device d) (n : Notification)
        → Turns x
        → (turn sm (parts b) reader sleep n x).0 ≢ panic
        → Turns (turn sm (parts b) reader sleep n x).1
    elapsed :
        (x : Device d) (w : d.World)
        → Turns x
        → Turns
            (record x { agent = record x.agent { context = record x.agent.context { world = w } } })

  -- The agent is one that its methods reach, and it was suspended if more blocks than that came in.
  record Steady (x : Device d) : Type 0 where
    reachable : Reachable sm b x.agent
    few : x.suspended ≡ false → x.cnt ≤ 1000

  abbrev Keeps : Step d → Type 0
  Keeps step = (x : Device d) → Steady x → (step x).0 ≢ panic → Steady (step x).1

  dropping-Keeps :
      {A : Type 0} (f : Method d A)
      → ((m : StateMachine d) → Reachable sm b m → Reachable sm b (f m).1)
      → Keeps (dropping f)
  dropping-Keeps f h x s n = record { reachable = h x.agent s.reachable; few = s.few }

  expecting-Keeps :
      {A : Type 0} (f : Method d A)
      → ((m : StateMachine d) → Reachable sm b m → Reachable sm b (f m).1)
      → Keeps (expecting f)
  expecting-Keeps f h x s n = record { reachable = h x.agent s.reachable; few = s.few }

  after-Keeps :
      (r : Outcome (Unit {0}) (Unit {0})) (y : Device d) (g : Step d)
      → (r ≢ panic → Steady y)
      → Keeps g
      → (continue r (λ _. g) y).0 ≢ panic
      → Steady (continue r (λ _. g) y).1
  after-Keeps (ok a) y g h k n = k y (h (λ e. cc)) n
  after-Keeps (err e) y g h k n = h n
  after-Keeps panic y g h k n = absurd (n refl)

  then-Keeps : (f g : Step d) → Keeps f → Keeps g → Keeps (f >> g)
  then-Keeps f g h k x s n = after-Keeps (f x).0 (f x).1 g (h x s) k n

  call-Reachable :
      (k : Call d) (m : StateMachine d)
      → Reachable sm b m
      → Reachable sm b (perform sm (parts b) k m)
  call-Reachable k m r = Reachable.called m k r

  -- A block is counted after it is handled, and the agent is suspended at the first above 1000.
  count-Keeps :
      (x : Device d)
      → Steady x
      → let y : Device d = record x { cnt = (x.cnt + 1) % 2 ^ 32 } in
        let step =
          when
            (i32_gt y.cnt 1000 && not y.suspended)
            (dropping (Agent.suspend sm (parts b)) >> marked) in
        (step y).0 ≢ panic → Steady (step y).1
  unfolding perform drop_error
  count-Keeps x s n =
      ground (arith, s.reachable, s.few, call-Reachable Call.suspend_call x.agent s.reachable)

  on_update-Keeps : (u : Fallible (OtaUpdate d)) → Keeps (on_update sm (parts b) reader sleep u)
  unfolding on_update perform
  on_update-Keeps (ok (OtaUpdate.job_update i j t)) x s n =
      expecting-Keeps (Agent.job_update sm (parts b) i j t)
        (call-Reachable (Call.update_call i j t)) x s n
  on_update-Keeps (ok (OtaUpdate.block payload)) x s n =
      then-Keeps (dropping (Agent.handle_message sm (parts b) payload)) _
        (dropping-Keeps (Agent.handle_message sm (parts b) payload)
          (call-Reachable (Call.message_call payload)))
        count-Keeps x s n
  on_update-Keeps (err e) x s n = s
  on_update-Keeps panic x s n = s

  on_notification-Keeps : (k : Notification) → Keeps (on_notification sm (parts b) reader sleep k)
  unfolding on_notification
  on_notification-Keeps (Notification.publish topic payload) x s n =
      on_update-Keeps (handle_ota reader topic payload) x s n
  on_notification-Keeps Notification.other x s n = s

  wait-Keeps : Keeps (wait_suspended sm (parts b) reader sleep)
  unfolding wait_suspended perform drop_error
  wait-Keeps x s n =
      let m : StateMachine d = record x.agent {
        context = record x.agent.context { world = sleep x.agent.context.world };
      } in
      let r : Reachable sm b m =
        Reachable.elapsed x.agent (sleep x.agent.context.world) s.reachable in
      ground (arith, s.reachable, s.few, r, call-Reachable Call.resume_call m r)

  turn-Keeps : (k : Notification) → Keeps (turn sm (parts b) reader sleep k)
  unfolding turn perform
  turn-Keeps k =
      then-Keeps _ _
        (expecting-Keeps (Agent.timer_callback sm (parts b)) (call-Reachable Call.timer_call))
        (then-Keeps _ _ (on_notification-Keeps k) (
          then-Keeps _ _ wait-Keeps
            (dropping-Keeps (Agent.process_event sm (parts b)) (call-Reachable Call.event_call))))

  Turns-Steady : (x : Device d) → Turns x → Steady x
  unfolding perform
  Turns-Steady x (started w) = record {
    reachable = Reachable.called (build b w).1 Call.init_call (Reachable.built w);
    few = λ e. omega arith;
  }
  Turns-Steady x (turned y k t n) = turn-Keeps k y (Turns-Steady y t) n
  Turns-Steady x (elapsed y w t) =
      let s = Turns-Steady y t in
      record { reachable = Reachable.elapsed y.agent w s.reachable; few = s.few }

  -- In every turn of the loop, whatever comes in and however the world changes, an agent that was built
  -- with a maximum momentum below 255 is sound: its configuration is the builder's, its momentum at
  -- most one above the maximum, and a job is active wherever it receives a file. As long as the loop has
  -- not suspended it, at most 1000 messages with blocks were counted. The state machine is the
  -- documented one, and no turn before ended by a panic.
  pub Turns-Sound :
      (x : Device d)
      → IsDocumented sm
      → b.config.max_request_momentum < 255
      → Turns x
      → Sound b.config x.agent × (x.suspended ≡ false → x.cnt ≤ 1000)
  Turns-Sound x doc l t =
      let s = Turns-Steady x t in (Reachable-Sound sm b x.agent doc l s.reachable, s.few)
