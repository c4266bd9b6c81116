-- ===== src/Ota/State/Completion.antt =====
-- src/ota/state.rs: what follows the last block of a file.
use rustot.Prelude.{ℕ, ◌≡◌, ◌∙◌, ap, true, none, some, List, [], ◌∷◌, ◌++◌, ok, err, arith}
use rustot.Deps.{Deps, QueueLaws}
use rustot.Jobs.DataTypes.{JobStatus}
use rustot.Ota.Encoding.Json.{JobStatusReason}
use rustot.Ota.Error.{OtaError}
use rustot.Ota.Encoding.{FileContext}
use rustot.Ota.State.Context.{
  Parts, SmContext, Interface, Events, EventQueue, RestartReason, file_ctx, queue_len,
}
use rustot.Ota.State.Ingest.{ingest_data_block}
use rustot.Ota.State.Handlers.{completion, finish, file_complete, process_data_handler}

module _ {d : Deps} (parts : Parts d) (laws : QueueLaws d) (c : SmContext d) (i : Interface d) where
  abbrev items : EventQueue d → List (Events d)
  items q = d.items queue_len (Events d) q

  abbrev activation : Events d
  activation = Events.restart (RestartReason.activate 0)

  -- Both events of a new firmware image find room in an empty queue.
  two_events :
      (q : EventQueue d)
      → items q ≡ []
      → (q1 q2 : EventQueue d) × (d.enqueue queue_len (Events d) Events.close_file q ≡ some q1)
        × (d.enqueue queue_len (Events d) activation q1 ≡ some q2)
        × (items q2 ≡ Events.close_file ∷ activation ∷ [])
  two_events q h =
      let (q1, e1, i1) =
        laws.enqueue_room queue_len (Events d) Events.close_file q (rw h (omega arith)) in
      let k1 : items q1 ≡ Events.close_file ∷ [] = i1 ∙ ap (λ l. l ++ Events.close_file ∷ []) h in
      let (q2, e2, i2) =
        laws.enqueue_room queue_len (Events d) activation q1 (rw k1 (omega arith)) in
      (q1, q2, e1, e2, i2 ∙ ap (λ l. l ++ activation ∷ []) k1)

  -- Only the first of them where the queue holds an event.
  one_event :
      (q : EventQueue d) (e : Events d)
      → items q ≡ e ∷ []
      → (q1 : EventQueue d) × (d.enqueue queue_len (Events d) Events.close_file q ≡ some q1)
        × (d.enqueue queue_len (Events d) activation q1 ≡ none)
        × (items q1 ≡ e ∷ Events.close_file ∷ [])
  one_event q e h =
      let (q1, e1, i1) =
        laws.enqueue_room queue_len (Events d) Events.close_file q (rw h (omega arith)) in
      let k1 : items q1 ≡ e ∷ Events.close_file ∷ [] =
        i1 ∙ ap (λ l. l ++ Events.close_file ∷ []) h in
      (q1, e1, laws.enqueue_full queue_len (Events d) activation q1 (rw k1 (omega arith)), k1)

  -- Where the last block of a firmware image comes in and the job service takes the report, an empty
  -- queue gets the events that close the file and activate the image, in this order. Where one event is
  -- waiting, the call fails with `SignalEventFailed`: the file will be closed, and nothing is queued that
  -- activates the image.
  pub process_data_handler-completes :
      (payload : List ℕ)
      → let c' = (ingest_data_block parts payload c).1 in
        let r = process_data_handler parts payload c in
        (ingest_data_block parts payload c).0 ≡ ok true
        → c'.active_interface ≡ some i
        → (file_ctx i).file_type ≡ some 0
        → ((s : FileContext d × d.World)
            → (parts.control.update_job_status c'.config JobStatus.in_progress
                JobStatusReason.sig_check_passed s).0
              ≡ ok tt)
        → (items c'.events ≡ []
            → (r.0 ≡ ok tt) × (items r.1.events ≡ Events.close_file ∷ activation ∷ []))
          × ((e : Events d)
              → items c'.events ≡ e ∷ []
              → (r.0 ≡ err OtaError.signal_event_failed)
                × (items r.1.events ≡ e ∷ Events.close_file ∷ []))
  unfolding process_data_handler file_complete finish completion
  process_data_handler-completes payload o a t reports =
      let c' = (ingest_data_block parts payload c).1 in
      let sent = reports (file_ctx i, c'.world) in
      (
        λ h.
            let (q1, q2, e1, e2, k) = two_events c'.events h in
            (
              ground (arith, o, a, t, sent, e1, e2),
              ap items (ground (arith, o, a, t, sent, e1, e2)) ∙ k,
            ),
        λ e h.
            let (q1, e1, e2, k) = one_event c'.events e h in
            (
              ground (arith, o, a, t, sent, e1, e2),
              ap items (ground (arith, o, a, t, sent, e1, e2)) ∙ k,
            ),
      )
