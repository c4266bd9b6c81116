-- ===== src/Tests/Transfer.antt =====
-- Blocks of a file that come in.
use rustot.Prelude.{
  ℕ, suc, ◌<◌, min, ◌≡◌, refl, ◌↔◌, true, not, ◌&&◌, none, some, List, [], ◌∷◌, ok, arith, ltb,
  ◌==◌, codes,
}
use rustot.Deps.Reference.{reference-BitsLaws, insert_in}
use rustot.Ota.Config.{default}
use rustot.Ota.Error.{OtaError}
use rustot.Ota.Version.{new, to_string}
use rustot.Ota.Encoding.Json.{Signature, signature}
use rustot.Ota.Encoding.{FileContext, total_blocks, string_from, string_from?, new_bitmap, new_from}
use rustot.Ota.DataInterface.{FileBlock, validate}
use rustot.Ota.DataInterface.Validate.{Fits, file_blocks, validate_iff}
use rustot.Ota.State.Context.{primary, file_ctx, set_file_ctx, SmContext}
use rustot.Ota.State.Ingest.{ingest_data_block}
use rustot.Ota.State.Ingest.Shape.{DecodeKeepsFile, Decodes}
use rustot.Ota.State.Ingest.Window.{missing, IsReceiving}
use rustot.Ota.State.Ingest.Refinement.{Ingested, ingest_data_block-Ingested}
use rustot.Ota.State.Ingest.Begin.{new_from-IsReceiving}
use rustot.Ota.State.Ingest.Accept.{IsWilling, ingest_data_block-accepts}
use rustot.Prelude.Text.{print_u8}
use rustot.Tests.Device.{device, parts, file, job, context}

abbrev pub first : FileContext device
first = record {
  filepath = [];
  filesize = 10000;
  fileid = 0;
  certfile = codes "cert";
  update_data_url = none;
  auth_scheme = none;
  signature = Signature.sha1_rsa [];
  file_type = some 0;
  status_details = (codes "updated_by", codes "1.2.3") ∷ [];
  block_offset = 0;
  blocks_remaining = 40;
  request_block_remaining = 31;
  job_name = codes "Job-name";
  stream_name = codes "test_stream";
  bitmap = λ i. ltb i 31;
}

pub first_made : new_from device (codes "Job-name") job none 0 default (new 1 2 3) ≡ ok first
unfolding new_from new_bitmap total_blocks string_from string_from? signature to_string print_u8
    insert_in
first_made = refl

pub forty : file_blocks 10000 256 ≡ 40
forty = refl

pub sizes : Fits 10000 256
sizes = record { block_pos = omega arith; file_pos = omega arith; sum_fits = omega arith }

new_from-IsReceiving_example :
    (first.filesize ≡ 10000)
    × IsReceiving device 256 first
    × ((j : ℕ) → j < 40 → missing device first j ≡ true)
new_from-IsReceiving_example =
    new_from-IsReceiving device (reference-BitsLaws ℕ) (codes "Job-name") job none 0 default
      (new 1 2 3) file first refl sizes first_made

pub first-IsReceiving : IsReceiving device 256 first
first-IsReceiving =
    (new_from-IsReceiving device (reference-BitsLaws ℕ) (codes "Job-name") job none 0 default
      (new 1 2 3) file first refl sizes first_made).1

abbrev last_block : FileBlock
last_block = record {
  client_token = none;
  file_id = 0;
  block_size = 16;
  block_id = 39;
  block_payload = [];
}

validate_iff_example :
    (validate {E = OtaError} last_block 256 10000 ≡ ok true) ↔ ((39 < 40) × (16 ≡ min 256 16))
validate_iff_example = validate_iff last_block 256 10000 sizes

-- The decoder of the device, and what it makes of a payload.
pub keeps : (bytes : List ℕ) → DecodeKeepsFile parts bytes
keeps bytes = record { primary_keeps = λ f w. refl; secondary_keeps = λ ds e. cc }

pub willing : IsWilling parts
willing = record {
  writes = λ f offset bytes w. (0, refl);
  closes = λ f w. refl;
  cancels = λ w. refl;
}

abbrev receiving : SmContext device
receiving = context (some (primary first))

abbrev first_block : FileBlock
first_block = record {
  client_token = none;
  file_id = 0;
  block_size = 256;
  block_id = 0;
  block_payload = [];
}

reaches : (block : FileBlock) → Decodes parts (0 ∷ 256 ∷ []) receiving block → block.block_id < 32
reaches block e = ground arith

ingest_data_block-Ingested_example :
    (f' : FileContext device) × ((ingest_data_block parts
        (0 ∷ 256 ∷ [])
        receiving).1.active_interface
      ≡ some (set_file_ctx f' (primary first)))
    × Ingested 256 first (ingest_data_block parts (0 ∷ 256 ∷ []) receiving).0 f'
unfolding file_ctx
ingest_data_block-Ingested_example =
    ingest_data_block-Ingested (reference-BitsLaws ℕ) parts (0 ∷ 256 ∷ []) receiving (primary first)
      (keeps (0 ∷ 256 ∷ [])) refl first-IsReceiving reaches

ingest_data_block-accepts_example :
    (f' : FileContext device) × ((ingest_data_block parts (0 ∷ 256 ∷ []) receiving).0
      ≡ ok (40 == 1))
    × ((ingest_data_block parts (0 ∷ 256 ∷ []) receiving).1.active_interface
        ≡ some (set_file_ctx f' (primary first)))
    × (40 ≡ suc f'.blocks_remaining)
    × ((j : ℕ)
        → j < file_blocks 10000 256
        → missing device f' j ≡ (missing device first j && not (j == 0)))
unfolding file_ctx
ingest_data_block-accepts_example =
    ingest_data_block-accepts (reference-BitsLaws ℕ) parts (0 ∷ 256 ∷ []) receiving (primary first)
      first_block willing (keeps (0 ∷ 256 ∷ [])) refl refl first-IsReceiving
      ((validate_iff first_block 256 10000 sizes).1 (omega (arith, forty), ground arith))
      (omega arith) refl
