-- ===== src/Tests/Updates.antt =====
-- A file that comes in block by block, and what follows its last block.
use rustot.Prelude.{
  ℕ, suc, ◌<◌, ◌≡◌, refl, true, codes, none, some, List, [], ◌∷◌, ok, arith, ◌==◌, if◌then◌else◌,
}
use rustot.Deps.Reference.{reference-BitsLaws}
use rustot.Ota.Error.{OtaError}
use rustot.Ota.Encoding.{FileContext}
use rustot.Ota.DataInterface.{FileBlock, validate}
use rustot.Ota.DataInterface.Validate.{file_blocks, validate_iff}
use rustot.Ota.State.Context.{
  waiting_for_job, JobEventData, waiting_for_file_block, primary, SmContext,
}
use rustot.Ota.State.Ingest.{ingest_data_block}
use rustot.Ota.State.Ingest.Shape.{Decodes}
use rustot.Ota.State.Ingest.Window.{missing}
use rustot.Ota.State.Ingest.Arrived.{Worlds, Streams}
use rustot.Ota.State.Ingest.InOrder.{received, ingest_data_block-in_order}
use rustot.Ota.State.Machine.{StateMachine}
use rustot.Ota.Agent.{process_event, handle_message, timer_callback, job_update}
use rustot.Ota.Agent.Download.{turns}
use rustot.Ota.Protocol.{Protocol}
use rustot.Ota.Agent.Unanswered.{ticks}
use rustot.Tests.Device.{device, parts, context, job}
use rustot.Tests.Transfer.{first, first-IsReceiving, sizes, keeps, forty}
use rustot.Tests.Agents.{machine}

-- The payload with the block `k`.
abbrev size_of : ℕ → ℕ
size_of k = if k == 39 then 16 else 256

abbrev payload : ℕ → List ℕ
payload k = k ∷ size_of k ∷ []

abbrev block_of : ℕ → FileBlock
block_of k = record {
  client_token = none;
  file_id = 0;
  block_size = size_of k;
  block_id = k;
  block_payload = [];
}

abbrev receiving : SmContext device
receiving = context (some (primary first))

valid :
    (k : ℕ) → k < file_blocks 10000 256 → validate {E = OtaError} (block_of k) 256 10000 ≡ ok true
valid k l = (validate_iff (block_of k) 256 10000 sizes).1 (l, ground (arith, forty))

decodes :
    (k : ℕ) (c : SmContext device) (f : FileContext device)
    → c.active_interface ≡ some (primary f)
    → Decodes parts (payload k) c (block_of k)
decodes k c f a = rw a

-- Worlds of which nothing is said.
abbrev worlds : Worlds device
worlds = record { path = []; held = λ k w. Unit; saved = λ w. Unit }

service : Streams parts payload worlds 256 10000
service = record {
  keeps = λ k l. keeps (payload k);
  reads = λ k f w l h. tt;
  decodes = λ k c f l a. (
    block_of k,
    decodes k c f a,
    refl,
    valid k l,
    record {
      writes = λ f w h. ((0, refl), tt);
      cancels = λ w h. (refl, tt);
      closes = λ f w p h. (refl, λ e. tt);
    },
  );
}

to_come : (j : ℕ) → j < file_blocks 10000 256 → missing device first j ≡ true
to_come j l = ground (arith, forty)

ingest_data_block-in_order_example :
    ((k : ℕ)
      → k < 40
      → (ingest_data_block parts (payload k) (received parts payload k receiving)).0
        ≡ ok (suc k == 40))
    × ((f' : FileContext device) × ((received parts payload 40 receiving).active_interface
          ≡ some (primary f'))
        × (f'.blocks_remaining ≡ 0))
    × worlds.saved (received parts payload 40 receiving).world
ingest_data_block-in_order_example =
    ingest_data_block-in_order (reference-BitsLaws ℕ) parts payload worlds receiving first service
      refl first-IsReceiving to_come refl tt

-- A machine that waits for a block.
abbrev waiting : SmContext device → StateMachine device
waiting c = record { state = waiting_for_file_block; context = c }

-- Three requests with the momentum of the first block, then the abortion.
abbrev asking : StateMachine device
asking = waiting (record receiving { request_momentum = 1 })

abbrev given_up : StateMachine device
given_up = (timer_callback machine parts (ticks machine parts 3 asking)).1

abbrev announced : JobEventData device
announced = record { job_name = codes "Job-name"; ota_document = job; status_details = none }

abbrev idle : StateMachine device
idle = record { state = waiting_for_job; context = context none }

abbrev started : StateMachine device
started = (job_update machine parts (codes "Job-name") job none idle).1

abbrev created : StateMachine device
created = (process_event machine parts started).1

abbrev beginning : StateMachine device
beginning = (process_event machine parts created).1

-- The machine before the last block, and after its turn.
abbrev nearly : StateMachine device
nearly = turns machine parts payload 39 beginning

abbrev whole : StateMachine device
whole = (process_event machine parts (handle_message machine parts (payload 39) nearly).1).1
