-- ===== src/Ota/Agent/Download/Start.antt =====
-- src/ota/agent.rs with src/ota/state.rs: from the document of a new job to the wait for its blocks.
use rustot.Prelude.{
  ℕ, ◌<◌, ◌≡◌, refl, ap, ◌∙◌, subst, true, false, none, some, List, [], ◌∷◌, ok, arith, any,
}
use rustot.Deps.{Deps, BitsLaws, QueueLaws}
use rustot.Ota.Config.{Config}
use rustot.Ota.Protocol.{protocol_eq}
use rustot.Ota.Version.{Version}
use rustot.Ota.Encoding.{FileContext, new_from, self_test}
use rustot.Ota.Encoding.Json.{FileDescription}
use rustot.Ota.DataInterface.Validate.{Fits, file_blocks}
use rustot.Ota.State.Between.{Continues}
use rustot.Ota.State.Starting.{Starts, process_job_handler-starts, init_file_handler-starts}
use rustot.Ota.State.Context.{
  waiting_for_job, creating_file, requesting_file_block, waiting_for_file_block, Events,
  JobEventData, Parts, queue_len,
}
use rustot.Ota.State.Handlers.{init_file_handler}
use rustot.Ota.State.Requests.{Requested}
use rustot.Ota.State.Job.{process_job_handler}
use rustot.Ota.State.Ingest.Begin.{new_from-IsReceiving}
use rustot.Ota.State.Ingest.Arrived.{Worlds, begins}
use rustot.Ota.State.Machine.{StateMachine, Smlang, IsDocumented, transition, run_row, after_guard}
use rustot.Ota.Agent.{next_event, process_event, job_update}
use rustot.Ota.Agent.Rows.{dispatch_row}
use rustot.Ota.Agent.Download.{Stands, Waits, Arrived-Touches, asks}

module _ {d : Deps} (sm : Smlang d) (documented : IsDocumented sm) (bits : BitsLaws d)
    (queues : QueueLaws d) (parts : Parts d) (ws : Worlds d) (starts : Starts parts ws)
    (continues : Continues parts ws) where
  -- The document of the job.
  starts_job :
      (m : StateMachine d) (job : JobEventData d) (file : FileDescription)
      (rest : List FileDescription) (v : Version) (f : FileContext d)
      → m.state ≡ waiting_for_job
      → m.context.active_interface ≡ none
      → d.items queue_len (Events d) m.context.events ≡ []
      → job.ota_document.files ≡ file ∷ rest
      → Fits file.filesize m.context.config.block_size
      → (parts.pal.get_active_firmware_version m.context.world).0 ≡ ok v
      → new_from d job.job_name job.ota_document job.status_details 0 m.context.config v ≡ ok f
      → f.file_type ≡ some 0
      → f.filepath ≡ ws.path
      → self_test d f ≡ false
      → any (protocol_eq parts.data_primary.protocol) job.ota_document.protocols ≡ true
      → let r = job_update sm parts job.job_name job.ota_document job.status_details m in
        (r.0 ≡ ok creating_file)
        × Stands ws creating_file m.context.config m.context.config.block_size f.filesize 0
            (Events.create_file ∷ [])
            r.1
  unfolding job_update run_row after_guard transition
  starts_job m job file rest v f s a q g fits ver made t at normal p =
      let c = m.context in
      let (done, active, conf, queue, held) =
        process_job_handler-starts queues parts ws starts c job file rest v f a q g
          (λ e. omega (arith, e, fits.file_pos)) ver made normal p in
      let (size, receiving, all) =
        new_from-IsReceiving d bits job.job_name job.ota_document job.status_details 0 c.config v
          file f (rw g refl) fits made in
      let c' = (process_job_handler parts job c).1 in
      let row =
        dispatch_row sm documented parts (Events.received_job_document job) m
          (some (some (process_job_handler parts job), creating_file)) (rw s) in
      let (begun, same) =
        begins ws c.config.block_size c' f active (ap (λ (x : Config). x.block_size) conf) receiving
          all at held in
      rw row (
        rw done (
          refl,
          record {
            state_is = refl;
            arrived = begun;
            firmware = ap (λ (x : FileContext d). x.file_type) same ∙ t;
            configured = conf;
            in_queue = queue;
          },
        ))

  -- The call that begins the transfer.
  creates_file :
      (config : Config) (b size : ℕ) (m : StateMachine d)
      → Stands ws creating_file config b size 0 (Events.create_file ∷ []) m
      → 0 < file_blocks size b
      → let r = process_event sm parts m in
        (r.0 ≡ ok requesting_file_block)
        × Stands ws requesting_file_block config b size 0 (Events.request_file_block ∷ []) r.1
        × (r.1.context.request_momentum ≡ 0)
  unfolding process_event next_event run_row after_guard transition
  creates_file config b size m a l =
      let (q, e, i) =
        queues.dequeue_first queue_len (Events d) m.context.events Events.create_file []
          a.in_queue in
      let m' : StateMachine d = record m { context = record m.context { events = q } } in
      let (o, conf, momentum, queue, still, g, active, touched) =
        init_file_handler-starts queues parts ws starts m'.context a.arrived.file a.arrived.active
          i in
      let next =
        Arrived-Touches ws b size 0 m.context (init_file_handler parts m'.context).1 a.arrived g l
          still conf active touched in
      let row =
        dispatch_row sm documented parts Events.create_file m'
          (some (some (init_file_handler parts), requesting_file_block)) (rw (a.state_is)) in
      rw e (
        rw row (
          rw o (
            refl,
            record {
              state_is = refl;
              arrived = next.0;
              firmware = next.1 ∙ a.firmware;
              configured = conf ∙ a.configured;
              in_queue = queue;
            },
            momentum,
          )))

  -- The document of a new job is taken, the next call of `process_event` begins its transfer, and the
  -- one after that makes the first request.
  pub job_update-Waits :
      (m : StateMachine d) (job : JobEventData d) (file : FileDescription)
      (rest : List FileDescription) (v : Version) (f : FileContext d)
      → m.state ≡ waiting_for_job
      → m.context.active_interface ≡ none
      → d.items queue_len (Events d) m.context.events ≡ []
      → job.ota_document.files ≡ file ∷ rest
      → Fits file.filesize m.context.config.block_size
      → (parts.pal.get_active_firmware_version m.context.world).0 ≡ ok v
      → new_from d job.job_name job.ota_document job.status_details 0 m.context.config v ≡ ok f
      → f.file_type ≡ some 0
      → f.filepath ≡ ws.path
      → self_test d f ≡ false
      → any (protocol_eq parts.data_primary.protocol) job.ota_document.protocols ≡ true
      → let started = job_update sm parts job.job_name job.ota_document job.status_details m in
        let created = process_event sm parts started.1 in
        let requested = process_event sm parts created.1 in
        (started.0 ≡ ok creating_file)
        × (created.0 ≡ ok requesting_file_block)
        × (requested.0 ≡ ok waiting_for_file_block)
        × Requested parts created.1.context requested.1.context
        × Waits ws m.context.config m.context.config.block_size f.filesize 0 [] requested.1
  unfolding transition
  job_update-Waits m job file rest v f s a q g fits ver made t at normal p =
      let config = m.context.config in
      let started = job_update sm parts job.job_name job.ota_document job.status_details m in
      let (o1, w1) = starts_job m job file rest v f s a q g fits ver made t at normal p in
      let pos : 0 < file_blocks f.filesize config.block_size =
        subst (λ x. 0 < file_blocks x config.block_size) w1.arrived.file_sized
          (omega (arith, w1.arrived.receiving.in_file)) in
      let (o2, w2, z) = creates_file config config.block_size f.filesize started.1 w1 pos in
      let created = process_event sm parts started.1 in
      let (o3, w3, asked) =
        asks sm documented queues parts ws continues requesting_file_block config config.block_size
          f.filesize 0 created.1 refl w2 z pos in
      (o1, o2, o3, asked, w3)
