-- ===== src/Ota/State/Starting.antt =====
-- src/ota/state.rs: from the document of a new job to the first request for blocks.
use rustot.Prelude.{
  ◌≡◌, ◌≢◌, sym, subst, ap, ◌∙◌, true, false, none, some, List, [], ◌∷◌, ◌++◌, ok, arith, any,
}
use rustot.Deps.{Deps, QueueLaws}
use rustot.Ota.Pal.{PalImageState}
use rustot.Ota.Protocol.{protocol_eq}
use rustot.Ota.Version.{Version}
use rustot.Ota.Encoding.{FileContext, new_from, self_test}
use rustot.Ota.Encoding.Json.{FileDescription}
use rustot.Ota.State.Between.{Touches}
use rustot.Ota.State.Ingest.Arrived.{Worlds}
use rustot.Ota.State.Context.{
  Events, JobEventData, Parts, SmContext, primary, queue_len, EventQueue, file_ctx, set_file_ctx,
}
use rustot.Ota.State.Handlers.{init_file_handler}
use rustot.Ota.State.Image.{platform_in_selftest}
use rustot.Ota.State.Job.{
  first_filesize, match_active, new_file_context, begin_job, after_create, create_file,
  get_file_context_from_job, select_interface, set_active, start_job, process_job_handler,
}

-- The calls succeed that the beginning of a job needs, the platform is not in a self test, and from the
-- creation of the file on the file and its storage, in which no block is yet, stay as they are.
pub record Starts {d : Deps} (parts : Parts d) (ws : Worlds d) : Type 0 where
  pub creates :
      (f : FileContext d) (w : d.World)
      → let r = parts.pal.create_file_for_rx f w in (r.0 ≡ ok tt) × ws.held 0 r.1
  pub settled :
      (w : d.World)
      → let r = parts.pal.get_platform_image_state w in
        (s : PalImageState) × (r.0 ≡ ok s)
        × (s ≢ PalImageState.pending_commit)
        × (ws.held 0 w → ws.held 0 r.1)
  pub prepares :
      (f : FileContext d) (w : d.World)
      → let r = parts.data_primary.init_file_transfer (f, w) in
        (r.0 ≡ ok tt) × Touches f r.1.0 × (ws.held 0 w → ws.held 0 r.1.1)

module _ {d : Deps} (laws : QueueLaws d) (parts : Parts d) (ws : Worlds d)
    (starts : Starts parts ws) (c : SmContext d) where
  abbrev items : EventQueue d → List (Events d)
  items q = d.items queue_len (Events d) q

  -- The file context of a new job that is no self test.
  get_file_context_from_job-new :
      (job : JobEventData d) (file : FileDescription) (rest : List FileDescription) (v : Version)
      (f : FileContext d)
      → c.active_interface ≡ none
      → job.ota_document.files ≡ file ∷ rest
      → file.filesize ≢ 0
      → (parts.pal.get_active_firmware_version c.world).0 ≡ ok v
      → new_from d job.job_name job.ota_document job.status_details 0 c.config v ≡ ok f
      → self_test d f ≡ false
      → let w = (parts.pal.get_active_firmware_version c.world).1 in
        get_file_context_from_job parts job c
        ≡ (ok f, record c { world = (parts.pal.create_file_for_rx f w).1 })
  unfolding get_file_context_from_job first_filesize match_active new_file_context begin_job
      create_file after_create
  get_file_context_from_job-new job file rest v f a g z ver made normal =
      let created = (starts.creates f (parts.pal.get_active_firmware_version c.world).1).0 in
      ground (arith, a, g, z, ver, made, normal, created)

  pub process_job_handler-starts :
      (job : JobEventData d) (file : FileDescription) (rest : List FileDescription) (v : Version)
      (f : FileContext d)
      → c.active_interface ≡ none
      → items c.events ≡ []
      → job.ota_document.files ≡ file ∷ rest
      → file.filesize ≢ 0
      → (parts.pal.get_active_firmware_version c.world).0 ≡ ok v
      → new_from d job.job_name job.ota_document job.status_details 0 c.config v ≡ ok f
      → self_test d f ≡ false
      → any (protocol_eq parts.data_primary.protocol) job.ota_document.protocols ≡ true
      → let r = process_job_handler parts job c in
        (r.0 ≡ ok tt)
        × (r.1.active_interface ≡ some (primary f))
        × (r.1.config ≡ c.config)
        × (items r.1.events ≡ Events.create_file ∷ [])
        × ws.held 0 r.1.world
  unfolding process_job_handler select_interface set_active start_job platform_in_selftest file_ctx
  process_job_handler-starts job file rest v f a q g z ver made normal p =
      let w1 = (parts.pal.get_active_firmware_version c.world).1 in
      let w2 = (parts.pal.create_file_for_rx f w1).1 in
      let got = get_file_context_from_job-new job file rest v f a g z ver made normal in
      let (s, state, out, still) = starts.settled w2 in
      let world : (process_job_handler parts job c).1.world
          ≡ (parts.pal.get_platform_image_state w2).1 =
        ground (arith, got, normal, p, state, out) in
      let (q1, e, i) =
        laws.enqueue_room queue_len (Events d) Events.create_file c.events (rw q (omega arith)) in
      (
        ground (arith, got, normal, p, state, out, e),
        ground (arith, got, normal, p, state, out, e),
        ground (arith, got, normal, p, state, out, e),
        ap items (ground (arith, got, normal, p, state, out, e))
            ∙ i
            ∙ ap (λ l. l ++ Events.create_file ∷ []) q,
        subst (ws.held 0) (sym world) (still (starts.creates f w1).1),
      )

  -- The transfer of a file is begun, and blocks are to be requested.
  pub init_file_handler-starts :
      (f : FileContext d)
      → c.active_interface ≡ some (primary f)
      → items c.events ≡ []
      → let r = init_file_handler parts c in
        (r.0 ≡ ok tt)
        × (r.1.config ≡ c.config)
        × (r.1.request_momentum ≡ 0)
        × (items r.1.events ≡ Events.request_file_block ∷ [])
        × (ws.held 0 c.world → ws.held 0 r.1.world)
        × (g : FileContext d) × (r.1.active_interface ≡ some (primary g))
        × Touches f g
  unfolding init_file_handler file_ctx set_file_ctx
  init_file_handler-starts f a q =
      let (prepared, touched, still) = starts.prepares f c.world in
      let (q1, e, i) =
        laws.enqueue_room queue_len (Events d) Events.request_file_block c.events
          (rw q (omega arith)) in
      let world : (init_file_handler parts c).1.world
          ≡ (parts.data_primary.init_file_transfer (f, c.world)).1.1 =
        ground (arith, a, prepared, e) in
      (
        ground (arith, a, prepared, e),
        ground (arith, a, prepared, e),
        ground (arith, a, prepared, e),
        ap items (ground (arith, a, prepared, e))
            ∙ i
            ∙ ap (λ l. l ++ Events.request_file_block ∷ []) q,
        λ h. subst (ws.held 0) (sym world) (still h),
        (parts.data_primary.init_file_transfer (f, c.world)).1.0,
        ground (arith, a, prepared, e),
        touched,
      )
