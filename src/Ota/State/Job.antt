-- ===== src/Ota/State/Job.antt =====
-- src/ota/state.rs: a job document becomes the file context of the active interface.
pub mod Documents
use rustot.Prelude.{
  ℕ, Bool, true, false, not, ◌&&◌, ◌||◌, ◌⊎◌, inl, inr, Option, none, some, List, [], ◌∷◌, Outcome,
  ok, err, panic, map_ok, ok_or, any, get_elem?, ◌==◌, if◌then◌else◌, Str, str_eq,
}
use rustot.Prelude.Stateful.{◌>>=◌, ◌>>◌, pure, fail, lift, gets, modify}
use rustot.Deps.{Deps}
use rustot.Ota.Config.{Config}
use rustot.Ota.Error.{OtaError}
use rustot.Ota.Version.{Version, new, version_lt}
use rustot.Ota.Pal.{OtaPal, OtaPalError, OtaEvent, ImageState, from_pal_error}
use rustot.Ota.Protocol.{Protocol, protocol_eq}
use rustot.Ota.Encoding.{FileContext, string_from?, new_from, self_test, updated_by}
use rustot.Ota.Encoding.Json.{FileDescription, OtaJob}
use rustot.Ota.DataInterface.{DataInterface}
use rustot.Ota.State.Context.{
  ImageStateReason, RestartReason, JobEventData, Events, Interface, Parts, SmContext, Handler,
  file_ctx, on_world, on_pal, on_local, get_file, modify_file, signal, data_interface,
}
use rustot.Ota.State.Image.{set_image_state_with_reason, ota_close, platform_in_selftest}

-- `files.get(0).map(|f| f.filesize).unwrap_or_default()`
unfoldable pub first_filesize : List FileDescription → ℕ
first_filesize [] = 0
first_filesize (f ∷ _) = f.filesize

-- `files.get(0).map(|f| f.update_data_url.map(String::from)).ok_or(InvalidFile)`
unfoldable pub new_url : Deps → List FileDescription → Outcome OtaError (Option Str)
new_url d [] = err OtaError.invalid_file
new_url d (f ∷ _) = string_from? d 64 f.update_data_url

-- `file_type == Some(0)`
is_firmware : Option ℕ → Bool
is_firmware none = false
is_firmware (some n) = n == 0

-- `updated_by().map_or(true, |v| v < active_version)`
is_newer : Version → Option Version → Bool
is_newer active_version none = true
is_newer active_version (some v) = version_lt v active_version

-- The version is checked only where the target is the device itself, and an update with no
-- `updated_by` passes.
unfoldable pub version_check : {d : Deps} → FileContext d → Version → Bool
unfolding is_firmware is_newer
version_check {d} file active_version =
    if file.fileid == 0 && is_firmware file.file_type
    then is_newer active_version (updated_by d file)
    else true

module _ {d : Deps} (parts : Parts d) where
  -- `set_image_state_with_reason` at a file context that is a local variable.
  unfoldable pub set_local_image_state :
      ImageState → Option ImageStateReason → FileContext d → Handler d (FileContext d)
  unfolding set_image_state_with_reason
  set_local_image_state image_state reason file = do
    config ← gets (λ c. c.config)
    r ←
        on_local (set_image_state_with_reason parts.control parts.pal config image_state reason)
          file
    modify (λ c. record c { image_state = r.0 })
    pure r.1

  abbrev or_zero : Outcome OtaPalError Version → Outcome OtaError Version
  or_zero (ok v) = ok v
  or_zero (err e) = ok (new 0 0 0)
  or_zero panic = panic

  unfoldable pub active_version : Handler d Version
  active_version c =
      let r = parts.pal.get_active_firmware_version c.world in
      (or_zero r.0, record c { world = r.1 })

  unfoldable pub handle_self_test_job : FileContext d → Handler d (FileContext d)
  unfolding active_version set_local_image_state version_check
  handle_self_test_job file = do
    version ← active_version
    config ← gets (λ c. c.config)
    if config.allow_downgrade || version_check file version
        then set_local_image_state ImageState.testing (some ImageStateReason.version_check) file
        else (do
          file' ←
              set_local_image_state ImageState.rejected (some ImageStateReason.version_check) file
          on_pal (parts.pal.complete_callback OtaEvent.self_test_failed)
          signal (Events.restart (RestartReason.restart 0))
          pure file')

  -- A file context for a job that is not the active one.
  unfoldable pub new_file_context : JobEventData d → Handler d (FileContext d)
  new_file_context job = do
    version ← on_pal parts.pal.get_active_firmware_version
    config ← gets (λ c. c.config)
    lift (new_from d job.job_name job.ota_document job.status_details 0 config version)

  -- On the left a new job, on the right the active one with a new address.
  unfoldable pub match_active :
      JobEventData d → Option (Interface d) → Handler d (FileContext d ⊎ FileContext d)
  unfolding new_file_context new_url
  match_active job none = do file ← new_file_context job; pure (inl file)
  match_active job (some active) =
      if not (str_eq (file_ctx active).stream_name job.ota_document.streamname)
      then (do
        on_pal (parts.pal.set_platform_image_state ImageState.aborted)
        on_pal (parts.pal.abort (file_ctx active))
        config ← gets (λ c. c.config)
        data_interface parts (λ di. di.cleanup config)
        file ← new_file_context job
        pure (inl file))
      else (do
        url ← lift (new_url d job.ota_document.files)
        modify_file (λ f. record f { update_data_url = url })
        file ← get_file
        pure (inr file))

  unfoldable pub after_create :
      FileContext d → Outcome OtaPalError (Unit {0}) → Handler d (FileContext d)
  after_create file (ok _) = pure file
  after_create file (err e) = do
    set_local_image_state ImageState.aborted (some (ImageStateReason.pal e)) file
    ota_close parts
    fail (from_pal_error e)
  after_create file panic = lift panic

  unfoldable pub create_file : FileContext d → Handler d (FileContext d)
  unfolding after_create set_local_image_state ota_close
  create_file file c =
      let r = parts.pal.create_file_for_rx file c.world in
      after_create file r.0 (record c { world = r.1 })

  unfoldable pub begin_job : FileContext d ⊎ FileContext d → Handler d (FileContext d)
  unfolding handle_self_test_job create_file
  begin_job (inl file) = if self_test d file then handle_self_test_job file else create_file file
  begin_job (inr file) = pure file

  unfoldable pub get_file_context_from_job : JobEventData d → Handler d (FileContext d)
  unfolding first_filesize match_active begin_job
  get_file_context_from_job job =
      if first_filesize job.ota_document.files == 0 then fail OtaError.zero_file_size else (do
        active ← gets (λ c. c.active_interface)
        file ← match_active job active
        begin_job file)

  -- The primary interface if the job allows its protocol, else the secondary one; `none` gives the
  -- file context back.
  unfoldable pub select_interface : FileContext d → List Protocol → Option (Interface d)
  select_interface file protocols =
      if any (protocol_eq parts.data_primary.protocol) protocols
      then some (Interface.primary file)
      else elim parts.data_secondary [
        | none ↦ none
        | some ds ↦
            if any (protocol_eq ds.protocol) protocols
            then some (Interface.secondary file)
            else none
      ]

  unfoldable pub set_active : FileContext d → Option (Interface d) → Handler d (Unit {0})
  set_active file (some interface) = modify (λ c. record c { active_interface = some interface })
  set_active file none = do
    set_local_image_state ImageState.aborted (some ImageStateReason.invalid_data_protocol) file
    fail OtaError.invalid_interface

  unfoldable pub start_job : FileContext d → ImageState → Handler d (Unit {0})
  start_job file image_state =
      if self_test d file
      then (elim image_state [
        | ImageState.testing ↦ signal Events.start_self_test
        | _ ↦ fail OtaError.invalid_file
      ])
      else (do
        testing ← platform_in_selftest parts
        if testing
            then signal (Events.restart (RestartReason.restart 0))
            else signal Events.create_file)

  unfoldable pub process_job_handler : JobEventData d → Handler d (Unit {0})
  unfolding set_active start_job
  process_job_handler job = do
    file ← get_file_context_from_job job
    set_active file (select_interface file job.ota_document.protocols)
    file' ← get_file
    image_state ← gets (λ c. c.image_state)
    start_job file' image_state
