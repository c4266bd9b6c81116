-- ===== src/Tests/Documents.antt =====
-- Job documents.
use rustot.Prelude.{◌≡◌, refl, none, err}
use rustot.Ota.Error.{OtaError}
use rustot.Ota.Pal.{ImageState, OtaPalError}
use rustot.Ota.State.Context.{Parts}
use rustot.Ota.State.Job.{create_file}
use rustot.Ota.State.Job.Documents.{create_file_masked}
use rustot.Tests.Device.{device, parts, context}
use rustot.Tests.Transfer.{first}

-- A device with no room for the file.
abbrev full : Parts device
full = record parts {
  pal = record parts.pal { create_file_for_rx = λ f w. (err OtaPalError.file_too_large, w) };
}

create_file_masked_example :
    ((create_file full first (context none)).0 ≡ err OtaError.invalid_interface)
    × ((create_file full first (context none)).1.image_state ≡ ImageState.aborted)
create_file_masked_example =
    create_file_masked full (context none) first OtaPalError.file_too_large refl refl (λ s. refl)
      (λ e. cc)
