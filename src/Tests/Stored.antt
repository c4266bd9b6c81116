-- ===== src/Tests/Stored.antt =====
-- A device with the file handler that gets a file of three bytes, in two blocks.
use rustot.Prelude.{
  ℕ, zero, suc, ◌<◌, ◌≡◌, refl, true, Option, none, some, List, [], ◌∷◌, ok, arith, codes, ltb, Str,
  str_eq, str_eq_iff, if◌then◌else◌,
}
use rustot.Prelude.Stateful.{pure}
use rustot.Deps.{Deps}
use rustot.Deps.Reference.{reference}
use rustot.Ota.Config.{Config, default}
use rustot.Ota.Error.{OtaError}
use rustot.Ota.Pal.{ImageState}
use rustot.Ota.Protocol.{Protocol}
use rustot.Ota.Encoding.{FileContext}
use rustot.Ota.Encoding.Json.{OtaJob, Signature, signature}
use rustot.Ota.DataInterface.{FileBlock, validate}
use rustot.Ota.DataInterface.Validate.{Fits, file_blocks, validate_iff}
use rustot.Examples.FileHandler.Assembled.{Carries}
use rustot.Ota.State.Context.{waiting_for_job, JobEventData, Parts, SmContext, primary}
use rustot.Ota.State.Ingest.Shape.{Decodes}
use rustot.Ota.State.Machine.{StateMachine, Smlang, run_table}
use rustot.Ota.Agent.{process_event, handle_message, job_update}
use rustot.Ota.Agent.Download.{turns}
use rustot.Examples.FileHandler.{Cursor, FileSystem, file_handler}
use rustot.Examples.FileHandler.Update.{Disk, with_handler}
use rustot.Tests.Device.{file, job}
use rustot.Tests.Assembly.{block_of, read, image, carries_first, carries_last, two}

-- The world is the buffer and the files on the disk.
abbrev Place : Type 0
Place = Option Cursor × (Str → Option (List ℕ))

abbrev device : Deps
device = reference Place

abbrev fs : FileSystem device
fs = record {
  filebuf = λ w. w.0;
  set_filebuf = λ b w. (b, w.1);
  save =
      λ path bytes w. (ok tt, (w.0, λ other. if str_eq path other then some bytes else w.1 other));
}

disk : Disk device fs
disk = record {
  read = λ w path. w.1 path;
  saves = λ path bytes w. (refl, rw ((str_eq_iff path path).1 refl));
}

abbrev parts : Parts device
parts = record {
  control = record {
    request_job = pure tt;
    update_job_status = λ config status reason. pure tt;
    cleanup = pure tt;
  };
  data_primary = record {
    protocol = Protocol.mqtt;
    init_file_transfer = pure tt;
    request_file_block = λ config. pure tt;
    decode_file_block = λ payload s. (read payload, s);
    cleanup = λ config. pure tt;
  };
  data_secondary = none;
  pal = file_handler fs;
  request_timer = record { begin = λ ms. pure tt; wait = pure tt; cancel = pure tt };
  self_test_timer = none;
}

abbrev small : OtaJob
small = record job { files = record file { filesize = 3; filepath = codes "image" } ∷ [] }

abbrev announced : JobEventData device
announced = record { job_name = codes "Job-name"; ota_document = small; status_details = none }

abbrev config : Config
config = record default { block_size = 2 }

abbrev context : FileContext device
context = record {
  filepath = codes "image";
  filesize = 3;
  fileid = 0;
  certfile = codes "cert";
  update_data_url = none;
  auth_scheme = none;
  signature = Signature.sha1_rsa [];
  file_type = some 0;
  status_details = (codes "updated_by", codes "0.1.0") ∷ [];
  block_offset = 0;
  blocks_remaining = 2;
  request_block_remaining = 2;
  job_name = codes "Job-name";
  stream_name = codes "test_stream";
  bitmap = λ i. ltb i 2;
}

sizes : Fits 3 2
sizes = record { block_pos = omega arith; file_pos = omega arith; sum_fits = omega arith }

-- The payloads of the blocks.
abbrev payload : ℕ → List ℕ
payload zero = 0 ∷ 7 ∷ 8 ∷ []
payload (suc k) = 1 ∷ 9 ∷ []

valid_first : validate {E = OtaError} (block_of 0 (7 ∷ 8 ∷ [])) 2 3 ≡ ok true
valid_first = (validate_iff (block_of 0 (7 ∷ 8 ∷ [])) 2 3 sizes).1 (omega (arith, two), refl)

valid_last : validate {E = OtaError} (block_of 1 (9 ∷ [])) 2 3 ≡ ok true
valid_last = (validate_iff (block_of 1 (9 ∷ [])) 2 3 sizes).1 (omega (arith, two), refl)

blocks :
    (k : ℕ) (c : SmContext device) (f : FileContext device)
    → k < file_blocks 3 2
    → c.active_interface ≡ some (primary f)
    → (block : FileBlock) × Decodes (with_handler fs disk parts) (payload k) c block
      × (block.block_id ≡ k)
      × (validate {E = OtaError} block 2 3 ≡ ok true)
      × Carries image 2 block
blocks zero c f l a = (block_of 0 (7 ∷ 8 ∷ []), rw a, refl, valid_first, carries_first)
blocks (suc zero) c f l a = (block_of 1 (9 ∷ []), rw a, refl, valid_last, carries_last)
blocks (suc (suc k)) c f l a = absurd (omega (arith, l, two))

abbrev machine : Smlang device
machine = record { process_event = run_table }

abbrev idle : StateMachine device
idle = record {
  state = waiting_for_job;
  context = record {
    events = [];
    active_interface = none;
    request_momentum = 0;
    config = config;
    image_state = ImageState.unknown;
    world = (none, λ path. none);
  };
}

abbrev handler : Parts device
handler = with_handler fs disk parts

abbrev started : StateMachine device
started = (job_update machine handler (codes "Job-name") small none idle).1

abbrev requested : StateMachine device
requested = (process_event machine handler (process_event machine handler started).1).1

-- The machine before the last block, and after its turn.
abbrev nearly : StateMachine device
nearly = (handle_message machine handler (payload 1) (turns machine handler payload 1 requested)).1

abbrev whole : StateMachine device
whole = (process_event machine handler nearly).1
