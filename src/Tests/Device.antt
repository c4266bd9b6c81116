-- ===== src/Tests/Device.antt =====
-- A device whose calls all succeed and count, with an interface that reads a payload as the number
-- and the size of a block.
use rustot.Prelude.{ℕ, ◌+◌, Option, none, some, List, [], ◌∷◌, Outcome, ok, err, codes}
use rustot.Prelude.Stateful.{Exec}
use rustot.Deps.{Deps}
use rustot.Deps.Reference.{reference}
use rustot.Ota.Config.{default}
use rustot.Ota.Error.{OtaError}
use rustot.Ota.Version.{new}
use rustot.Ota.Pal.{OtaPal, PalImageState, ImageState}
use rustot.Ota.Protocol.{Protocol}
use rustot.Ota.Encoding.Json.{FileDescription, OtaJob}
use rustot.Ota.ControlInterface.{ControlInterface}
use rustot.Ota.DataInterface.{DataInterface, FileBlock}
use rustot.Ota.State.Context.{CountDown, Parts, SmContext, Interface}

abbrev pub device : Deps
device = reference ℕ

-- A call that succeeds.
abbrev pub succeed : {E A : Type 0} → A → Exec ℕ E A
succeed a w = (ok a, w + 1)

abbrev pub timer : CountDown device
timer = record { begin = λ ms. succeed tt; wait = succeed tt; cancel = succeed tt }

abbrev pub pal : OtaPal device
pal = record {
  abort = λ f. succeed tt;
  activate_new_image = succeed tt;
  create_file_for_rx = λ f. succeed tt;
  get_platform_image_state = succeed PalImageState.valid;
  set_platform_image_state = λ s. succeed tt;
  reset_device = succeed tt;
  close_file = λ f. succeed tt;
  write_block = λ f o p. succeed 0;
  complete_callback = λ e. succeed tt;
  get_active_firmware_version = succeed (new 1 2 3);
}

abbrev pub control : ControlInterface device
control = record {
  request_job = succeed tt;
  update_job_status = λ config status reason s. (ok tt, s);
  cleanup = succeed tt;
}

abbrev pub read_block : List ℕ → Outcome OtaError FileBlock
read_block (id ∷ size ∷ bytes) = ok (record {
  client_token = none;
  file_id = 0;
  block_size = size;
  block_id = id;
  block_payload = bytes;
})
read_block _ = err OtaError.encoding

abbrev pub interface : DataInterface device
interface = record {
  protocol = Protocol.mqtt;
  init_file_transfer = λ s. (ok tt, s);
  request_file_block = λ config s. (ok tt, s);
  decode_file_block = λ payload s. (read_block payload, s);
  cleanup = λ config s. (ok tt, s);
}

abbrev pub parts : Parts device
parts = record {
  control = control;
  data_primary = interface;
  data_secondary = none;
  pal = pal;
  request_timer = timer;
  self_test_timer = some timer;
}

-- A file of 40 blocks, the last of 16 bytes.
abbrev pub file : FileDescription
file = record {
  filepath = [];
  filesize = 10000;
  fileid = 0;
  certfile = codes "cert";
  update_data_url = none;
  auth_scheme = none;
  sha1_rsa = some [];
  sha256_rsa = none;
  sha1_ecdsa = none;
  sha256_ecdsa = none;
  file_type = some 0;
}

abbrev pub job : OtaJob
job = record { protocols = Protocol.mqtt ∷ []; streamname = codes "test_stream"; files = file ∷ [] }

abbrev pub context : Option (Interface device) → SmContext device
context active = record {
  events = [];
  active_interface = active;
  request_momentum = 0;
  config = default;
  image_state = ImageState.unknown;
  world = 0;
}
