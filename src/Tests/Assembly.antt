-- ===== src/Tests/Assembly.antt =====
-- A file of three bytes, in two blocks, that come in the wrong order.
use rustot.Prelude.{
  ℕ, zero, suc, ◌+◌, ◌<◌, ◌≡◌, refl, Option, none, some, List, [], ◌∷◌, Outcome, ok, err, arith,
  ltb, get_elem?,
}
use rustot.Prelude.Stateful.{pure}
use rustot.Deps.{Deps}
use rustot.Deps.Reference.{reference}
use rustot.Ota.Config.{default}
use rustot.Ota.Error.{OtaError}
use rustot.Ota.Pal.{ImageState}
use rustot.Ota.Protocol.{Protocol}
use rustot.Ota.Encoding.{FileContext}
use rustot.Ota.Encoding.Json.{Signature}
use rustot.Ota.DataInterface.{FileBlock}
use rustot.Ota.DataInterface.Validate.{file_blocks}
use rustot.Ota.State.Context.{CountDown, Parts, SmContext, primary}
use rustot.Ota.State.Ingest.{ingest_data_block}
use rustot.Examples.FileHandler.{Cursor, FileSystem, file_handler}
use rustot.Examples.FileHandler.Assembled.{Carries}

-- The world is the buffer.
abbrev machine : Deps
machine = reference (Option Cursor)

abbrev fs : FileSystem machine
fs = record { filebuf = λ w. w; set_filebuf = λ b w. b; save = λ path bytes w. (ok tt, w) }

abbrev timer : CountDown machine
timer = record { begin = λ ms. pure tt; wait = pure tt; cancel = pure tt }

abbrev pub block_of : ℕ → List ℕ → FileBlock
block_of id bytes = record {
  client_token = none;
  file_id = 0;
  block_size = if_last id;
  block_id = id;
  block_payload = bytes;
}
  where
    if_last : ℕ → ℕ
    if_last zero = 2
    if_last (suc n) = 1

abbrev pub read : List ℕ → Outcome OtaError FileBlock
read [] = err OtaError.encoding
read (id ∷ bytes) = ok (block_of id bytes)

abbrev parts : Parts machine
parts = record {
  control = record {
    request_job = pure tt;
    update_job_status = λ config status reason. pure tt;
    cleanup = pure tt;
  };
  data_primary = record {
    protocol = Protocol.mqtt;
    init_file_transfer = pure tt;
    request_file_block = λ config. pure tt;
    decode_file_block = λ payload s. (read payload, s);
    cleanup = λ config. pure tt;
  };
  data_secondary = none;
  pal = file_handler fs;
  request_timer = timer;
  self_test_timer = none;
}

abbrev file : FileContext machine
file = record {
  filepath = [];
  filesize = 3;
  fileid = 0;
  certfile = [];
  update_data_url = none;
  auth_scheme = none;
  signature = Signature.sha1_rsa [];
  file_type = some 0;
  status_details = [];
  block_offset = 0;
  blocks_remaining = 2;
  request_block_remaining = 2;
  job_name = [];
  stream_name = [];
  bitmap = λ i. ltb i 2;
}

abbrev start : SmContext machine
start = record {
  events = [];
  active_interface = some (primary file);
  request_momentum = 0;
  config = record default { block_size = 2 };
  image_state = ImageState.unknown;
  world = some (record { inner = []; position = 0 });
}

pub two : file_blocks 3 2 ≡ 2
two = refl

abbrev pub image : List ℕ
image = 7 ∷ 8 ∷ 9 ∷ []

last_bytes : (j : ℕ) → j < 2 → get_elem? {A = ℕ} (9 ∷ []) j ≡ get_elem? image (2 + j)
last_bytes zero h = refl
last_bytes (suc zero) h = refl
last_bytes (suc (suc j)) h = absurd (omega arith)

first_bytes : (j : ℕ) → j < 2 → get_elem? {A = ℕ} (7 ∷ 8 ∷ []) j ≡ get_elem? image (0 + j)
first_bytes zero h = refl
first_bytes (suc zero) h = refl
first_bytes (suc (suc j)) h = absurd (omega arith)

pub carries_last : Carries image 2 (block_of 1 (9 ∷ []))
carries_last = record { size = omega arith; bytes = last_bytes }

pub carries_first : Carries image 2 (block_of 0 (7 ∷ 8 ∷ []))
carries_first = record { size = omega arith; bytes = first_bytes }

abbrev half : SmContext machine
half = (ingest_data_block parts (1 ∷ 9 ∷ []) start).1
