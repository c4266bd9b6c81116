-- ===== src/Ota/Agent/Download/Image.antt =====
-- src/ota/agent.rs with src/ota/state.rs: from the job of a firmware image to its activation.
use rustot.Prelude.{ℕ, ◌+◌, ◌-◌, ◌<◌, ◌≡◌, none, List, ok}
use rustot.Deps.{Deps, BitsLaws, QueueLaws}
use rustot.Ota.Config.{Config}
use rustot.Ota.Pal.{OtaEvent}
use rustot.Ota.Version.{Version}
use rustot.Ota.State.Between.{Continues}
use rustot.Ota.State.Context.{waiting_for_job, waiting_for_file_block, restarting, Parts}
use rustot.Ota.State.Ingest.Arrived.{Worlds}
use rustot.Ota.State.Machine.{StateMachine, Smlang, IsDocumented}
use rustot.Ota.Agent.{process_event, handle_message}
use rustot.Ota.Agent.Activation.{calls}
use rustot.Ota.Agent.Update.{Finishes}
use rustot.Ota.Agent.Download.{turns}

module _ {d : Deps} (sm : Smlang d) (documented : IsDocumented sm) (bits : BitsLaws d)
    (queues : QueueLaws d) (parts : Parts d) (ws : Worlds d) (continues : Continues parts ws)
    (finishes : Finishes parts ws) (payload : ℕ → List ℕ)
    (activates : (w : d.World) → (parts.pal.complete_callback OtaEvent.activate w).0 ≡ ok tt) where
  -- What follows the message with the last block, where `delay` is the `activate_delay`.
  abbrev Activates : List ℕ → ℕ → StateMachine d → Type 0
  Activates bytes delay m =
      let taken = handle_message sm parts bytes m in
      let closed = process_event sm parts taken.1 in
      let waited = calls sm parts (delay + 1) closed.1 in
      let activated = process_event sm parts waited in
      (taken.0 ≡ ok waiting_for_file_block)
      × (closed.0 ≡ ok waiting_for_job)
      × (closed.1.context.active_interface ≡ none)
      × ws.saved closed.1.context.world
      × (waited.context.world ≡ closed.1.context.world)
      × (activated.0 ≡ ok restarting)
      × (activated.1.context.world
          ≡ (parts.pal.complete_callback OtaEvent.activate closed.1.context.world).1)

  -- The turns of all blocks, and what follows the last.
  abbrev Updates : ℕ → ℕ → StateMachine d → Type 0
  Updates n delay m =
      ((j : ℕ)
        → j < n
        → (handle_message sm parts (payload j) (turns sm parts payload j m)).0
          ≡ ok waiting_for_file_block)
      × Activates (payload (n - 1)) delay (turns sm parts payload (n - 1) m)
