-- ===== src/Ota/Agent/Download.antt =====
-- src/ota/agent.rs with src/ota/state.rs: a firmware image that comes in block by block.
pub mod Image
pub mod Start
use rustot.Prelude.{
  ℕ, zero, suc, ◌+◌, ◌-◌, ◌≤◌, ◌<◌, ◌≡◌, ◌≢◌, refl, sym, ap, ◌∙◌, ◌⊎◌, subst, inl, inr, true, false,
  some, none, List, [], ◌∷◌, ok, arith, ◌==◌,
}
use rustot.Deps.{Deps, BitsLaws, QueueLaws}
use rustot.Ota.Config.{Config}
use rustot.Ota.Pal.{OtaEvent}
use rustot.Ota.Encoding.{FileContext}
use rustot.Ota.DataInterface.Validate.{file_blocks}
use rustot.Ota.State.Between.{
  Touches, Continues, Quiet, process_data_handler-continues, request_data_handler-continues,
}
use rustot.Ota.State.Context.{
  States, waiting_for_job, waiting_for_file_block, restarting, Events, Parts, SmContext, primary,
  queue_len,
}
use rustot.Ota.State.Handlers.{process_data_handler, request_data_handler}
use rustot.Ota.State.Requests.{Requested, request_data_handler-Requested}
use rustot.Ota.State.Ingest.{ingest_data_block}
use rustot.Ota.State.Ingest.Arrived.{Worlds, Streams, Arrived}
use rustot.Ota.State.Ingest.InOrder.{arrives}
use rustot.Ota.State.Ingest.Kept.{
  ingest_data_block-config, ingest_data_block-events, ingest_data_block-Described,
}
use rustot.Ota.State.Ingest.Window.{missing, IsReceiving}
use rustot.Ota.State.Machine.{StateMachine, Smlang, IsDocumented, transition, run_row, after_guard}
use rustot.Ota.Agent.{next_event, process_event, handle_message}
use rustot.Ota.Agent.Rows.{dispatch_row}
use rustot.Ota.Agent.Activation.{calls}
use rustot.Ota.Agent.Update.{Finishes, handle_message-activates}

-- A message, and the call of `process_event` after it.
abbrev pub turn : {d : Deps} → Smlang d → Parts d → List ℕ → StateMachine d → StateMachine d
turn sm parts payload m = (process_event sm parts (handle_message sm parts payload m).1).1

-- The machine after the turns of the first payloads.
abbrev pub turns :
    {d : Deps} → Smlang d → Parts d → (ℕ → List ℕ) → ℕ → StateMachine d → StateMachine d
turns sm parts payload zero m = m
turns sm parts payload (suc k) m = turn sm parts (payload k) (turns sm parts payload k m)

-- What has arrived does not depend on the status details and on the count of requested blocks.
pub Arrived-Touches :
    {d : Deps} (ws : Worlds d) (b size k : ℕ) (c c' : SmContext d) (a : Arrived ws b size k c)
    (g : FileContext d)
    → k < file_blocks size b
    → (ws.held k c.world → ws.held k c'.world)
    → c'.config ≡ c.config
    → c'.active_interface ≡ some (primary g)
    → Touches a.file g
    → (a' : Arrived ws b size k c') × (a'.file.file_type ≡ a.file.file_type)
Arrived-Touches ws b size k c c' a g l pass same h (details, n, e) = (
  record {
    file = record a.file { status_details = details; request_block_remaining = n };
    active = h ∙ ap (λ x. some (primary x)) e;
    sized = ap (λ (x : Config). x.block_size) same ∙ a.sized;
    file_sized = a.file_sized;
    placed = a.placed;
    receiving = record {
      fits = a.receiving.fits;
      in_file = a.receiving.in_file;
      counted = a.receiving.counted;
      clear = a.receiving.clear;
    };
    to_come = a.to_come;
    remaining = a.remaining;
    reach = a.reach;
    held = λ m. pass (a.held m);
    saved = λ z. absurd (omega (arith, z, l));
  },
  refl,
)

-- A machine in a state, to which the blocks before `k` of a firmware image came, with these events
-- queued.
pub record Stands {d : Deps} (ws : Worlds d) (s : States) (config : Config) (b size k : ℕ)
    (queued : List (Events d)) (m : StateMachine d) : Type 0 where
  pub state_is : m.state ≡ s
  pub arrived : Arrived ws b size k m.context
  pub firmware : arrived.file.file_type ≡ some 0
  pub configured : m.context.config ≡ config
  pub in_queue : d.items queue_len (Events d) m.context.events ≡ queued

-- A machine that waits for the block `k`.
abbrev pub Waits :
    {d : Deps} → Worlds d → Config → ℕ → ℕ → ℕ → List (Events d) → StateMachine d → Type 0
Waits ws config b size k queued m = Stands ws waiting_for_file_block config b size k queued m

-- A call of `process_event` that makes a request, in a state where requests are made.
pub asks :
    {d : Deps} (sm : Smlang d) (documented : IsDocumented sm) (queues : QueueLaws d)
    (parts : Parts d) (ws : Worlds d) (continues : Continues parts ws) (s : States)
    (config : Config) (b size k : ℕ) (m : StateMachine d)
    → transition parts s Events.request_file_block
      ≡ some (some (request_data_handler parts), waiting_for_file_block)
    → Stands ws s config b size k (Events.request_file_block ∷ []) m
    → m.context.request_momentum ≡ 0
    → k < file_blocks size b
    → let r = process_event sm parts m in
      (r.0 ≡ ok waiting_for_file_block)
      × Waits ws config b size k [] r.1
      × Requested parts m.context r.1.context
unfolding process_event next_event run_row after_guard
asks {d} sm documented queues parts ws continues s config b size k m h a z l =
    let (q, e, i) =
      queues.dequeue_first queue_len (Events d) m.context.events Events.request_file_block []
        a.in_queue in
    let m' : StateMachine d = record m { context = record m.context { events = q } } in
    let more : a.arrived.file.blocks_remaining ≢ 0 = λ n. omega (arith, n, a.arrived.remaining) in
    let (o, conf, events, passes, g, active, touched) =
      request_data_handler-continues queues parts ws continues m'.context a.arrived.file
        a.arrived.active more z in
    let next =
      Arrived-Touches ws b size k m.context (request_data_handler parts m'.context).1 a.arrived g l
        (passes k) conf active touched in
    let row =
      dispatch_row sm documented parts Events.request_file_block m'
        (some (some (request_data_handler parts), waiting_for_file_block))
        (ap (λ x. transition parts x Events.request_file_block) a.state_is ∙ h) in
    let requested =
      request_data_handler-Requested parts m'.context a.arrived.file a.arrived.active more
        (rw z (omega arith)) (continues.begins _ _).0 in
    rw e (
      rw row (
        rw o (
          refl,
          record {
            state_is = refl;
            arrived = next.0;
            firmware = next.1 ∙ a.firmware;
            configured = conf ∙ a.configured;
            in_queue = ap (λ q. d.items queue_len (Events d) q) events ∙ i;
          },
          requested,
        )))

module _ {d : Deps} (sm : Smlang d) (documented : IsDocumented sm) (bits : BitsLaws d)
    (queues : QueueLaws d) (parts : Parts d) (ws : Worlds d) (continues : Continues parts ws)
    (payload : ℕ → List ℕ) where
  -- The message with a block that is not the last.
  takes :
      (config : Config) (b size k : ℕ) (m : StateMachine d)
      → Streams parts payload ws b size
      → Waits ws config b size k [] m
      → suc k < file_blocks size b
      → let r = handle_message sm parts (payload k) m in
        (r.0 ≡ ok waiting_for_file_block)
        × (Waits ws config b size (suc k) [] r.1
            ⊎ (Waits ws config b size (suc k) (Events.request_file_block ∷ []) r.1
                × (r.1.context.request_momentum ≡ 0)))
  unfolding handle_message run_row after_guard transition
  takes config b size k m service a l =
      let c = m.context in
      let c' = (ingest_data_block parts (payload k) c).1 in
      let (o, arrived) = arrives bits parts payload ws k c b size service a.arrived (omega arith) in
      let empty =
        ap (λ q. d.items queue_len (Events d) q) (ingest_data_block-events parts (payload k) c)
        ∙ a.in_queue in
      let (done, conf, momentum, quiet, passes, g, active, touched) =
        process_data_handler-continues queues parts ws continues (payload k) c arrived.file
          (o ∙ ap ok (ground arith)) arrived.active empty in
      let firmware : arrived.file.file_type ≡ some 0 =
        (ingest_data_block-Described parts (payload k) c a.arrived.file arrived.file
          (service.keeps k (omega arith)) a.arrived.active arrived.active).0
        ∙ a.firmware in
      let after : StateMachine d = record {
        state = waiting_for_file_block;
        context = (process_data_handler parts (payload k) c).1;
      } in
      let next =
        Arrived-Touches ws b size (suc k) c' after.context arrived g l (passes (suc k)) conf active
          touched in
      let waits : (queued : List (Events d))
          → d.items queue_len (Events d) after.context.events ≡ queued
          → Waits ws config b size (suc k) queued after =
        λ queued q. record {
          state_is = refl;
          arrived = next.0;
          firmware = next.1 ∙ firmware;
          configured = conf ∙ ingest_data_block-config parts (payload k) c ∙ a.configured;
          in_queue = q;
        } in
      let row =
        dispatch_row sm documented parts (Events.received_file_block (payload k)) m
          (some (some (process_data_handler parts (payload k)), waiting_for_file_block))
          (rw (a.state_is)) in
      rw row (
        rw done (
          refl,
          elim quiet [
            | inl q ↦ inl (waits [] q)
            | inr q ↦ inr (waits (Events.request_file_block ∷ []) q, momentum)
          ],
        ))

  -- The call of `process_event` after it where nothing is queued.
  rests :
      (config : Config) (b size k : ℕ) (m : StateMachine d)
      → Waits ws config b size k [] m
      → Waits ws config b size k [] (process_event sm parts m).1
  unfolding process_event next_event
  rests config b size k m a =
      rw (queues.dequeue_empty queue_len (Events d) m.context.events a.in_queue) a

  pub turn-Waits :
      (config : Config) (b size k : ℕ) (m : StateMachine d)
      → Streams parts payload ws b size
      → Waits ws config b size k [] m
      → suc k < file_blocks size b
      → ((handle_message sm parts (payload k) m).0 ≡ ok waiting_for_file_block)
        × Waits ws config b size (suc k) [] (turn sm parts (payload k) m)
  unfolding transition
  turn-Waits config b size k m service a l =
      let (o, next) = takes config b size k m service a l in
      let taken = (handle_message sm parts (payload k) m).1 in
      (
        o,
        elim next [
          | inl w ↦ rests config b size (suc k) taken w
          | inr (w, z) ↦
              (asks sm documented queues parts ws continues waiting_for_file_block config b size
                (suc k) taken refl w z l).1
        ],
      )

  pub turns-Waits :
      (k : ℕ) (config : Config) (b size : ℕ) (m : StateMachine d)
      → Streams parts payload ws b size
      → Waits ws config b size 0 [] m
      → k < file_blocks size b
      → Waits ws config b size k [] (turns sm parts payload k m)
  turns-Waits zero config b size m service a l = a
  turns-Waits (suc k) config b size m service a l =
      (turn-Waits config b size k (turns sm parts payload k m) service
        (turns-Waits k config b size m service a (omega arith)) l).1
