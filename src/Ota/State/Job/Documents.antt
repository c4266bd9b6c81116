-- ===== src/Ota/State/Job/Documents.antt =====
-- src/ota/state.rs: what a job document does to the file context.
use rustot.Prelude.{
  ◌≡◌, ◌≢◌, ◌⊎◌, Option, none, some, List, [], ◌∷◌, ok, err, panic, arith, str_eq_iff, Str,
}
use rustot.Deps.{Deps}
use rustot.Jobs.DataTypes.{JobStatus}
use rustot.Ota.Error.{OtaError}
use rustot.Ota.Pal.{OtaPalError, ImageState}
use rustot.Ota.Encoding.{FileContext, string_from?}
use rustot.Ota.Encoding.Json.{FileDescription, JobStatusReason}
use rustot.Ota.State.Context.{Parts, SmContext, Interface, JobEventData, file_ctx, set_file_ctx}
use rustot.Ota.State.Image.{
  set_platform, forced, job_status, job_status_reason, set_image_state_with_reason, ota_close,
}
use rustot.Ota.State.Ingest.Shape.{file_ctx-set_file_ctx}
use rustot.Ota.State.Job.{
  first_filesize, new_url, match_active, begin_job, after_create, create_file,
  set_local_image_state, get_file_context_from_job, process_job_handler,
}

module _ {d : Deps} (parts : Parts d) (c : SmContext d) where
  -- A document with no file, or with a first file of no bytes, is refused as `ZeroFileSize` and nothing
  -- changes.
  pub process_job_handler-empty :
      (job : JobEventData d)
      → (job.ota_document.files ≡ [])
        ⊎ ((f : FileDescription) × (rest : List FileDescription) × (job.ota_document.files
              ≡ f ∷ rest)
            × (f.filesize ≡ 0))
      → process_job_handler parts job c ≡ (err OtaError.zero_file_size, c)
  unfolding process_job_handler get_file_context_from_job first_filesize
  process_job_handler-empty job h = ground (arith, h)

  -- A document for the stream that is received already changes the address of the file and nothing
  -- else: the context of the file that is received so far is what the call returns.
  get_file_context_from_job-same :
      (job : JobEventData d) (i : Interface d) (file : FileDescription)
      (rest : List FileDescription) (url : Option Str)
      → c.active_interface ≡ some i
      → job.ota_document.streamname ≡ (file_ctx i).stream_name
      → job.ota_document.files ≡ file ∷ rest
      → file.filesize ≢ 0
      → string_from? {E = OtaError} d 64 file.update_data_url ≡ ok url
      → let f : FileContext d = record (file_ctx i) { update_data_url = url } in
        get_file_context_from_job parts job c
        ≡ (ok f, record c { active_interface = some (set_file_ctx f i) })
  unfolding get_file_context_from_job first_filesize match_active new_url begin_job
  get_file_context_from_job-same job i file rest url a s fs n u = ground (
    arith,
    str_eq_iff (file_ctx i).stream_name job.ota_document.streamname,
    file_ctx-set_file_ctx (record (file_ctx i) { update_data_url = url }) i,
  )

  -- Where the platform creates the file, nothing else changes and the call returns the file's context.
  -- Where it does not, the call never succeeds.
  pub create_file-outcomes :
      (f : FileContext d)
      → let made = parts.pal.create_file_for_rx f c.world in
        (made.0 ≡ ok tt → create_file parts f c ≡ (ok f, record c { world = made.1 }))
        × ((e : OtaPalError) (f' : FileContext d)
            → made.0 ≡ err e
            → (create_file parts f c).0 ≢ ok f')
  unfolding create_file after_create set_local_image_state ota_close set_image_state_with_reason
      set_platform forced job_status job_status_reason
  create_file-outcomes f = (λ m. ground arith, λ e f' m. ground arith)

  -- Where the platform cannot create the file of a job while no job is active, the job service takes the
  -- report and the platform does not panic, the image is aborted, and the failure is `InvalidInterface`
  -- and not the platform's.
  pub create_file_masked :
      (f : FileContext d) (e : OtaPalError)
      → let made = parts.pal.create_file_for_rx f c.world in
        made.0 ≡ err e
        → c.active_interface ≡ none
        → ((s : FileContext d × d.World)
            → (parts.control.update_job_status c.config JobStatus.failed JobStatusReason.aborted
                s).0
              ≡ ok tt)
        → (parts.pal.set_platform_image_state ImageState.aborted made.1).0 ≢ panic
        → ((create_file parts f c).0 ≡ err OtaError.invalid_interface)
          × ((create_file parts f c).1.image_state ≡ ImageState.aborted)
  unfolding create_file after_create set_local_image_state ota_close set_image_state_with_reason
      set_platform forced job_status job_status_reason
  create_file_masked f e m a reports n =
      let made = parts.pal.create_file_for_rx f c.world in
      let set = parts.pal.set_platform_image_state ImageState.aborted made.1 in
      (ground (arith, reports (f, set.1)), ground (arith, reports (f, set.1)))
