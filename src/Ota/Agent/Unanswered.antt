-- ===== src/Ota/Agent/Unanswered.antt =====
-- src/ota/agent.rs with src/ota/state.rs: requests for blocks that nobody answers.
pub mod GivingUp
use rustot.Prelude.{
  ℕ, zero, suc, ◌+◌, ◌≤◌, ◌<◌, ◌≡◌, ◌≢◌, refl, sym, ap, ◌∙◌, subst, none, some, [], ◌∷◌, Outcome,
  ok, err, panic, arith,
}
use rustot.Deps.{Deps, QueueLaws}
use rustot.Jobs.DataTypes.{JobStatus}
use rustot.Ota.Config.{Config}
use rustot.Ota.Error.{OtaError}
use rustot.Ota.Pal.{ImageState}
use rustot.Ota.Encoding.{FileContext}
use rustot.Ota.Encoding.Json.{JobStatusReason}
use rustot.Ota.State.Context.{
  States, ready, waiting_for_file_block, Events, Parts, SmContext, primary, queue_len, file_ctx,
  set_file_ctx,
}
use rustot.Ota.State.Image.{
  ota_close, set_image_state, set_image_state_with_reason, set_platform, forced, job_status,
  job_status_reason,
}
use rustot.Ota.State.Handlers.{request_data_handler, shutdown_handler}
use rustot.Ota.State.Requests.{
  Requested, request_data_handler-Requested, request_data_handler-aborts,
}
use rustot.Ota.State.Machine.{
  guard_failed, StateMachine, Smlang, IsDocumented, transition, run_row, after_guard,
}
use rustot.Ota.Agent.{process_event, next_event, timer_callback}
use rustot.Ota.Agent.Rows.{dispatch_row}

-- The calls of a request timer that runs out, of an interface that may fail and of an abortion that is
-- taken.
pub record RunsOut {d : Deps} (parts : Parts d) : Type 0 where
  pub waits : (w : d.World) → (parts.request_timer.wait w).0 ≡ ok tt
  pub begins : (ms : ℕ) (w : d.World) → (parts.request_timer.begin ms w).0 ≡ ok tt
  pub cancels : (w : d.World) → (parts.request_timer.cancel w).0 ≡ ok tt
  pub asks :
      (c : Config) (f : FileContext d) (w : d.World)
      → (parts.data_primary.request_file_block c (f, w)).0 ≢ panic
  pub asks_kept :
      (c : Config) (f : FileContext d) (w : d.World)
      → (parts.data_primary.request_file_block c (f, w)).1.0.blocks_remaining ≡ f.blocks_remaining
  pub sets : (w : d.World) → (parts.pal.set_platform_image_state ImageState.aborted w).0 ≢ panic
  pub reports :
      (c : Config) (s : FileContext d × d.World)
      → (parts.control.update_job_status c JobStatus.failed JobStatusReason.aborted s).0 ≡ ok tt
  pub cleans :
      (c : Config) (s : FileContext d × d.World) → (parts.data_primary.cleanup c s).0 ≡ ok tt
  pub leaves : (f : FileContext d) (w : d.World) → (parts.pal.abort f w).0 ≡ ok tt

-- The machine waits for blocks of which some are to come, with nothing queued and this momentum.
pub record Asks {d : Deps} (config : Config) (n : ℕ) (m : StateMachine d) : Type 0 where
  pub state_waits : m.state ≡ waiting_for_file_block
  pub file : FileContext d
  pub active : m.context.active_interface ≡ some (primary file)
  pub more : file.blocks_remaining ≢ 0
  pub momentum : m.context.request_momentum ≡ n
  pub configured : m.context.config ≡ config
  pub quiet : d.items queue_len (Events d) m.context.events ≡ []

-- The machine after the timer ran out so many times.
abbrev pub ticks : {d : Deps} → Smlang d → Parts d → ℕ → StateMachine d → StateMachine d
ticks sm parts zero m = m
ticks sm parts (suc n) m = ticks sm parts n (timer_callback sm parts m).1

-- A row whose target is the state that the machine is in.
after_guard_same :
    {d : Deps} (r : Outcome OtaError (Unit {0})) (s : States) (m : StateMachine d)
    → m.state ≡ s
    → (after_guard r s m).1 ≡ m
unfolding after_guard
after_guard_same (ok a) s m h = ground (arith, h)
after_guard_same (err e) s m h = refl
after_guard_same panic s m h = refl

module _ {d : Deps} (sm : Smlang d) (documented : IsDocumented sm) (laws : QueueLaws d)
    (parts : Parts d) (runs_out : RunsOut parts) where
  -- The call that finds the timer run out.
  pub tick :
      (m : StateMachine d)
      → m.state ≡ waiting_for_file_block
      → let w = (parts.request_timer.wait m.context.world).1 in
        timer_callback sm parts m
        ≡ run_row
            (some (some (request_data_handler parts), waiting_for_file_block))
            (record m { context = record m.context { world = w } })
  unfolding timer_callback transition
  tick m s =
      let w = (parts.request_timer.wait m.context.world).1 in
      let m' : StateMachine d = record m { context = record m.context { world = w } } in
      rw (runs_out.waits m.context.world, timer_callback)
        (dispatch_row sm documented parts Events.request_timer m' _ (rw s))

  -- A request while the momentum is not above its maximum.
  handler_asks :
      (c : SmContext d) (f : FileContext d)
      → c.active_interface ≡ some (primary f)
      → f.blocks_remaining ≢ 0
      → c.request_momentum ≤ c.config.max_request_momentum
      → c.config.max_request_momentum < 255
      → let r = request_data_handler parts c in
        (r.0 ≢ panic)
        × (r.1.request_momentum ≡ suc c.request_momentum)
        × (r.1.config ≡ c.config)
        × (r.1.events ≡ c.events)
        × (g : FileContext d) × (r.1.active_interface ≡ some (primary g))
        × (g.blocks_remaining ≢ 0)
  unfolding request_data_handler file_ctx set_file_ctx
  handler_asks c f a more l b =
      let w = (parts.request_timer.begin c.config.request_wait_ms c.world).1 in
      let g = (parts.data_primary.request_file_block c.config (f, w)).1.0 in
      let begun = runs_out.begins c.config.request_wait_ms c.world in
      let asked = runs_out.asks c.config f w in
      let kept = runs_out.asks_kept c.config f w in
      (
        ground (arith, a, more, begun, asked),
        ground (arith, a, more, begun, asked),
        ground (arith, a, more, begun, asked),
        ground (arith, a, more, begun, asked),
        g,
        ground (arith, a, more, begun, asked),
        λ e. more (sym kept ∙ e),
      )

  timer_callback-Asks :
      (n : ℕ) (config : Config) (m : StateMachine d)
      → Asks config n m
      → n ≤ config.max_request_momentum
      → config.max_request_momentum < 255
      → Asks config (suc n) (timer_callback sm parts m).1
  unfolding run_row after_guard
  timer_callback-Asks n config m a l b =
      let w = (parts.request_timer.wait m.context.world).1 in
      let (p, momentum, conf, queue, g, active, more) =
        handler_asks (record m.context { world = w }) a.file a.active a.more
          (ground (arith, a.momentum, a.configured)) (ground (arith, a.configured)) in
      let c : SmContext d = record m.context { world = w } in
      let after : StateMachine d = record m { context = (request_data_handler parts c).1 } in
      let same =
        after_guard_same (request_data_handler parts c).0 waiting_for_file_block after
          a.state_waits in
      rw (tick m a.state_waits) (
        subst (Asks config (suc n)) (sym same) (record {
          state_waits = a.state_waits;
          file = g;
          active = active;
          more = more;
          momentum = momentum ∙ ap suc a.momentum;
          configured = conf ∙ a.configured;
          quiet = ap (λ q. d.items queue_len (Events d) q) queue ∙ a.quiet;
        }))

  -- Each such call asks the interface.
  pub timer_callback-Requested :
      (n : ℕ) (config : Config) (m : StateMachine d)
      → Asks config n m
      → n ≤ config.max_request_momentum
      → let w = (parts.request_timer.wait m.context.world).1 in
        Requested parts (record m.context { world = w }) (timer_callback sm parts m).1.context
  unfolding run_row
  timer_callback-Requested n config m a l =
      let c : SmContext d = record m.context {
        world = (parts.request_timer.wait m.context.world).1;
      } in
      let after : StateMachine d = record m { context = (request_data_handler parts c).1 } in
      let same =
        after_guard_same (request_data_handler parts c).0 waiting_for_file_block after
          a.state_waits in
      rw (tick m a.state_waits) (
        subst (λ x. Requested parts c x.context) (sym same)
          (request_data_handler-Requested parts c a.file a.active a.more
            (ground (arith, a.momentum, a.configured)) (runs_out.begins _ _)))

  pub ticks-Asks :
      (k n : ℕ) (config : Config) (m : StateMachine d)
      → Asks config n m
      → n + k ≤ config.max_request_momentum + 1
      → config.max_request_momentum < 255
      → Asks config (n + k) (ticks sm parts k m)
  ticks-Asks zero n config m a l b = subst (λ j. Asks config j m) (omega arith) a
  ticks-Asks (suc k) n config m a l b =
      subst (λ j. Asks config j (ticks sm parts (suc k) m)) (omega arith)
        (ticks-Asks k (suc n) config (timer_callback sm parts m).1
          (timer_callback-Asks n config m a (omega arith) b) (omega arith) b)
