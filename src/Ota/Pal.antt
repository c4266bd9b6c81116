-- ===== src/Ota/Pal.antt =====
-- src/ota/pal.rs: the states and events of the platform layer, and firmware versions.
use rustot.Prelude.{ℕ, List}
use rustot.Prelude.Stateful.{Exec, ◌>>◌, pure}
use rustot.Deps.{Deps}
use rustot.Ota.Encoding.{FileContext}
use rustot.Ota.Version.{Version}
use rustot.Ota.Error.{OtaError}

pub data ImageState : Type 0 where
  unknown aborted rejected accepted testing : ImageState

-- The generic `Custom` code is a number.
pub data OtaPalError : Type 0 where
  signature_check_failed file_write_failed file_too_large file_close_failed bad_file_handle
        unsupported bad_image_state commit_failed version_check :
      OtaPalError
  custom : ℕ → OtaPalError

pub data PalImageState : Type 0 where
  pending_commit valid invalid : PalImageState

pub data OtaEvent : Type 0 where
  activate fail start_test self_test_failed update_complete : OtaEvent

-- `From<OtaPalError<E>> for OtaError` drops the cause.
unfoldable pub from_pal_error : OtaPalError → OtaError
from_pal_error e = OtaError.pal

-- The platform layer. A call may change the device, and so the world.
pub record OtaPal (d : Deps) : Type 0 where
  pub abort : FileContext d → Exec d.World OtaPalError (Unit {0})
  pub activate_new_image : Exec d.World OtaPalError (Unit {0})
  pub create_file_for_rx : FileContext d → Exec d.World OtaPalError (Unit {0})
  pub get_platform_image_state : Exec d.World OtaPalError PalImageState
  pub set_platform_image_state : ImageState → Exec d.World OtaPalError (Unit {0})
  pub reset_device : Exec d.World OtaPalError (Unit {0})
  pub close_file : FileContext d → Exec d.World OtaPalError (Unit {0})
  pub write_block : FileContext d → ℕ → List ℕ → Exec d.World OtaPalError ℕ
  pub complete_callback : OtaEvent → Exec d.World OtaPalError (Unit {0})
  pub get_active_firmware_version : Exec d.World OtaPalError Version

-- What a platform gets that writes no `activate_new_image` of its own.
unfoldable pub default_activate_new_image :
    {d : Deps} → OtaPal d → Exec d.World OtaPalError (Unit {0})
default_activate_new_image pal = pal.reset_device

-- What a platform gets that writes no `complete_callback` of its own.
unfoldable pub default_complete_callback :
    {d : Deps} → OtaPal d → OtaEvent → Exec d.World OtaPalError (Unit {0})
default_complete_callback pal OtaEvent.activate = pal.activate_new_image
default_complete_callback pal OtaEvent.fail = pure tt
default_complete_callback pal OtaEvent.update_complete = pure tt
default_complete_callback pal OtaEvent.start_test = do
  pal.set_platform_image_state ImageState.accepted
  pure tt
default_complete_callback pal OtaEvent.self_test_failed = pure tt
