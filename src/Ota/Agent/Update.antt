-- ===== src/Ota/Agent/Update.antt =====
-- src/ota/agent.rs with src/ota/state.rs: from the last block of a firmware image to its activation.
use rustot.Prelude.{
  true, ℕ, ◌+◌, ◌<◌, ◌≡◌, refl, sym, ap, ◌∙◌, subst, none, some, List, [], ◌∷◌, ok, arith,
}
use rustot.Deps.{Deps, QueueLaws}
use rustot.Jobs.DataTypes.{JobStatus}
use rustot.Ota.Config.{Config}
use rustot.Ota.Pal.{OtaEvent}
use rustot.Ota.Encoding.{FileContext}
use rustot.Ota.Encoding.Json.{JobStatusReason}
use rustot.Ota.State.Context.{
  waiting_for_job, waiting_for_file_block, restarting, RestartReason, Events, Parts, SmContext,
  primary, EventQueue, queue_len, file_ctx, set_file_ctx,
}
use rustot.Ota.State.Image.{ota_close}
use rustot.Ota.State.Ingest.{ingest_data_block}
use rustot.Ota.State.Ingest.Arrived.{Worlds}
use rustot.Ota.State.Ingest.Kept.{ingest_data_block-config}
use rustot.Ota.State.Handlers.{
  process_data_handler, file_complete, finish, completion, close_file_handler,
}
use rustot.Ota.State.Completion.{process_data_handler-completes}
use rustot.Ota.State.Machine.{StateMachine, Smlang, IsDocumented, transition, run_row, after_guard}
use rustot.Ota.Agent.{next_event, process_event, handle_message}
use rustot.Ota.Agent.Rows.{dispatch_row}
use rustot.Ota.Agent.Activation.{IsWaiting, calls, process_event-acts}

-- The calls succeed that the end of a file needs, and leave a file that is closed as it is.
pub record Finishes {d : Deps} (parts : Parts d) (ws : Worlds d) : Type 0 where
  pub reports :
      (config : Config) (f : FileContext d) (w : d.World)
      → let r =
          parts.control.update_job_status config JobStatus.in_progress
            JobStatusReason.sig_check_passed
            (f, w) in
        (r.0 ≡ ok tt) × (ws.saved w → ws.saved r.1.1)
  pub cleans :
      (config : Config) (f : FileContext d) (w : d.World)
      → let r = parts.data_primary.cleanup config (f, w) in
        (r.0 ≡ ok tt) × (ws.saved w → ws.saved r.1.1)
  pub leaves :
      (f : FileContext d) (w : d.World)
      → let r = parts.pal.abort f w in (r.0 ≡ ok tt) × (ws.saved w → ws.saved r.1)

module _ {d : Deps} (sm : Smlang d) (documented : IsDocumented sm) (laws : QueueLaws d)
    (parts : Parts d) (ws : Worlds d) where
  abbrev items : EventQueue d → List (Events d)
  items q = d.items queue_len (Events d) q

  abbrev activation : Events d
  activation = Events.restart (RestartReason.activate 0)

  -- What the end of a file keeps.
  completes-active :
      (payload : List ℕ) (c : SmContext d) (f : FileContext d)
      → Finishes parts ws
      → (ingest_data_block parts payload c).0 ≡ ok true
      → (ingest_data_block parts payload c).1.active_interface ≡ some (primary f)
      → f.file_type ≡ some 0
      → let r = process_data_handler parts payload c in
        r.0 ≡ ok tt
        → (r.1.config ≡ c.config)
          × (ws.saved (ingest_data_block parts payload c).1.world → ws.saved r.1.world)
          × ((g : FileContext d) × (r.1.active_interface ≡ some (primary g)))
  unfolding process_data_handler file_complete finish completion file_ctx set_file_ctx
  completes-active payload c f finishes o a t done =
      let c' = (ingest_data_block parts payload c).1 in
      let sent =
        parts.control.update_job_status c'.config JobStatus.in_progress
          JobStatusReason.sig_check_passed (f, c'.world) in
      let (reported, still) = finishes.reports c'.config f c'.world in
      let world : (process_data_handler parts payload c).1.world ≡ sent.1.1 =
        ground (arith, o, a, t, reported, done) in
      let kept = ingest_data_block-config parts payload c in
      (
        ground (arith, o, a, t, reported, done, kept),
        λ h. subst ws.saved (sym world) (still h),
        (sent.1.0, ground (arith, o, a, t, reported, done)),
      )

  -- The message with the last block.
  last_block :
      (finishes : Finishes parts ws) (payload : List ℕ) (m : StateMachine d) (f : FileContext d)
      → m.state ≡ waiting_for_file_block
      → (ingest_data_block parts payload m.context).0 ≡ ok true
      → (ingest_data_block parts payload m.context).1.active_interface ≡ some (primary f)
      → f.file_type ≡ some 0
      → items (ingest_data_block parts payload m.context).1.events ≡ []
      → let r = handle_message sm parts payload m in
        (r.0 ≡ ok waiting_for_file_block)
        × (r.1.state ≡ waiting_for_file_block)
        × (items r.1.context.events ≡ Events.close_file ∷ activation ∷ [])
        × (r.1.context.config ≡ m.context.config)
        × (ws.saved (ingest_data_block parts payload m.context).1.world
            → ws.saved r.1.context.world)
        × ((g : FileContext d) × (r.1.context.active_interface ≡ some (primary g)))
  unfolding handle_message run_row after_guard transition file_ctx
  last_block finishes payload m f s o a t q =
      let done =
        (process_data_handler-completes parts laws m.context (primary f) payload o a t (λ (g, w).
            (finishes.reports (ingest_data_block parts payload m.context).1.config g w).0)).0
          q in
      let kept = completes-active payload m.context f finishes o a t done.0 in
      let row =
        dispatch_row sm documented parts (Events.received_file_block payload) m
          (some (some (process_data_handler parts payload), waiting_for_file_block)) (rw s) in
      rw row (rw done.0 (refl, refl, done.1, kept.0, kept.1, kept.2))

  close_file_handler_ok :
      (c : SmContext d) (g : FileContext d)
      → Finishes parts ws
      → c.active_interface ≡ some (primary g)
      → let r = close_file_handler parts c in
        (r.0 ≡ ok tt)
        × (r.1.active_interface ≡ none)
        × (r.1.config ≡ c.config)
        × (r.1.events ≡ c.events)
        × (ws.saved c.world → ws.saved r.1.world)
  unfolding close_file_handler ota_close file_ctx set_file_ctx
  close_file_handler_ok c g finishes a =
      let cleaned = parts.data_primary.cleanup c.config (g, c.world) in
      let (clean, still) = finishes.cleans c.config g c.world in
      let (left, still') = finishes.leaves cleaned.1.0 cleaned.1.1 in
      let world : (close_file_handler parts c).1.world
          ≡ (parts.pal.abort cleaned.1.0 cleaned.1.1).1 =
        ground (arith, clean, left) in
      (
        ground (arith, clean, left),
        ground (arith, clean, left),
        ground (arith, clean, left),
        ground (arith, clean, left),
        λ h. subst ws.saved (sym world) (still' (still h)),
      )

  -- The call that closes the file.
  closes :
      (finishes : Finishes parts ws) (m : StateMachine d) (g : FileContext d)
      → m.state ≡ waiting_for_file_block
      → items m.context.events ≡ Events.close_file ∷ activation ∷ []
      → m.context.active_interface ≡ some (primary g)
      → let r = process_event sm parts m in
        (r.0 ≡ ok waiting_for_job)
        × (r.1.context.active_interface ≡ none)
        × (r.1.context.config ≡ m.context.config)
        × (ws.saved m.context.world → ws.saved r.1.context.world)
        × IsWaiting r.1.context (RestartReason.activate 0) r.1
  unfolding process_event next_event run_row after_guard transition
  closes finishes m g s q a =
      let (q1, e, i) =
        laws.dequeue_first queue_len (Events d) m.context.events Events.close_file (activation ∷ [])
          q in
      let m' : StateMachine d = record m { context = record m.context { events = q1 } } in
      let row =
        dispatch_row sm documented parts Events.close_file m'
          (some (some (close_file_handler parts), waiting_for_job)) (rw s) in
      let (o, n, k, same, still) = close_file_handler_ok m'.context g finishes a in
      rw e (
        rw row (
          rw o (
            refl,
            n,
            k,
            still,
            record { state_awaits = refl; queued = ap items same ∙ i; others_kept = refl },
          )))

  -- Where the last block of a firmware image comes in while the queue is empty and the calls succeed
  -- that the end of a file needs, the message is taken, the next call of `process_event` closes the file
  -- and leaves the machine waiting for a job with no active interface, and after as many calls as the
  -- `activate_delay` and one more, in which the world stays as it is, the call after those activates the
  -- image by the platform's `complete_callback(Activate)`. A file that the last block left closed is as it was when the machine
  -- waits. The delay is below 255, the state machine is the documented one, and the queue is first in
  -- first out.
  pub handle_message-activates :
      (finishes : Finishes parts ws) (payload : List ℕ) (m : StateMachine d) (f : FileContext d)
      → m.state ≡ waiting_for_file_block
      → (ingest_data_block parts payload m.context).0 ≡ ok true
      → (ingest_data_block parts payload m.context).1.active_interface ≡ some (primary f)
      → f.file_type ≡ some 0
      → items (ingest_data_block parts payload m.context).1.events ≡ []
      → m.context.config.activate_delay < 255
      → ((w : d.World) → (parts.pal.complete_callback OtaEvent.activate w).0 ≡ ok tt)
      → let taken = handle_message sm parts payload m in
        let closed = process_event sm parts taken.1 in
        let waited = calls sm parts (m.context.config.activate_delay + 1) closed.1 in
        let activated = process_event sm parts waited in
        (taken.0 ≡ ok waiting_for_file_block)
        × (closed.0 ≡ ok waiting_for_job)
        × (closed.1.context.active_interface ≡ none)
        × (ws.saved (ingest_data_block parts payload m.context).1.world
            → ws.saved closed.1.context.world)
        × (waited.context.world ≡ closed.1.context.world)
        × (activated.0 ≡ ok restarting)
        × (activated.1.context.world
            ≡ (parts.pal.complete_callback OtaEvent.activate closed.1.context.world).1)
  handle_message-activates finishes payload m f s o a t q l w =
      let taken = handle_message sm parts payload m in
      let (o1, s1, q1, k1, still1, (g, a1)) = last_block finishes payload m f s o a t q in
      let (o2, n2, k2, still2, waiting) = closes finishes taken.1 g s1 q1 a1 in
      let closed = process_event sm parts taken.1 in
      let same : closed.1.context.config ≡ m.context.config = k2 ∙ k1 in
      let acted =
        process_event-acts sm laws parts (RestartReason.activate 0) closed.1.context closed.1
          documented waiting (subst (λ (k : Config). k.activate_delay < 255) (sym same) l)
          (w closed.1.context.world) in
      let (still, o3, w3) =
        subst
          (λ (k : Config).
            let waited = calls sm parts (k.activate_delay + 1) closed.1 in
            let activated = process_event sm parts waited in
            (waited.context.world ≡ closed.1.context.world)
            × (activated.0 ≡ ok restarting)
            × (activated.1.context.world
                ≡ (parts.pal.complete_callback OtaEvent.activate closed.1.context.world).1))
          same acted in
      (o1, o2, n2, λ h. still2 (still1 h), still, o3, w3)
