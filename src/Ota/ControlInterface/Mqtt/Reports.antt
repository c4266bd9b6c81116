-- ===== src/Ota/ControlInterface/Mqtt/Reports.antt =====
-- src/ota/control_interface/mqtt.rs: which reports are sent.
use rustot.Prelude.{
  ℕ, ◌%◌, ◌≤◌, ◌<◌, ◌≡◌, ◌≢◌, none, some, List, ok, err, panic, arith, codes, length, Str, map_err,
}
use rustot.Deps.{Deps, MapLaws}
use rustot.Jobs.DataTypes.{JobStatus}
use rustot.Jobs.Topics.{JobTopic, topic_path}
use rustot.Mqtt.{Mqtt, at_least_once}
use rustot.Jobs.Requests.{Json, published}
use rustot.Jobs.Update.{Update, blank, new, status_details, request, send}
use rustot.Jobs.Update.Room.{topic_payload_total}
use rustot.Ota.Config.{Config, u32, u32_sub}
use rustot.Ota.Error.{OtaError, from_job_error}
use rustot.Ota.Pal.{ImageState}
use rustot.Ota.Encoding.{FileContext, total_blocks, insert_status}
use rustot.Ota.Encoding.Json.{JobStatusReason, as_str}
use rustot.Ota.ControlInterface.Mqtt.{is_skipped, report, report_progress, update_job_status}
use rustot.Ota.State.Context.{Parts, SmContext}
use rustot.Ota.State.Ingest.{ingest_data_block}
use rustot.Ota.State.Handlers.{block_failed, process_data_handler}

module _ {d : Deps} (json : Json d) (mqtt : Mqtt d) (config : Config) where
  -- While a file is received, a report of progress is not sent where blocks remain, some have come and
  -- their number is not a multiple of the update frequency: the call succeeds, and only the status
  -- details of the file change.
  pub update_job_status-skips :
      (f f' : FileContext d) (w : d.World) (n : ℕ)
      → total_blocks {E = OtaError} f.filesize config.block_size ≡ ok n
      → insert_status d (codes "self_test") (codes "receiving") f ≡ ok f'
      → config.status_update_frequency ≢ 0
      → f.blocks_remaining ≢ 0
      → u32_sub (u32 n) (u32 f.blocks_remaining) % config.status_update_frequency ≢ 0
      → update_job_status json mqtt config JobStatus.in_progress JobStatusReason.receiving (f, w)
        ≡ (ok tt, (f', w))
  unfolding update_job_status report_progress is_skipped as_str insert_status
  update_job_status-skips f f' w n t i z b s = ground (arith, t, i)

  -- A report of any status but in progress and succeeded, with any reason that has a text, is sent,
  -- whatever has come of the file: where the status details have room, the names are short enough and
  -- the request is encoded, its payload goes to the job's update topic and is to be delivered at least
  -- once. The call succeeds or fails as this one publication does, the status details are the ones that
  -- were sent, and nothing else is done.
  pub update_job_status-reports :
      (f f' : FileContext d) (w : d.World) (status : JobStatus) (reason : JobStatusReason)
      (text : Str) (payload : List ℕ)
      → MapLaws d
      → status ≢ JobStatus.in_progress
      → status ≢ JobStatus.succeeded
      → as_str {E = OtaError} reason ≡ ok text
      → insert_status d (codes "self_test") text f ≡ ok f'
      → length mqtt.client_id ≤ 128
      → length f'.job_name < 64
      → json.to_vec 512 (request (status_details f'.status_details (blank f'.job_name status)))
        ≡ some payload
      → let path = topic_path (JobTopic.update f'.job_name) mqtt.client_id in
        let published = mqtt.publish path payload at_least_once w in
        update_job_status json mqtt config status reason (f, w)
        ≡ (map_err (λ e. OtaError.mqtt e) published.0, (f', published.1))
  unfolding update_job_status report new blank status_details send published from_job_error
  update_job_status-reports f f' w status reason text payload laws p s t i l h e =
      let u : Update d = status_details f'.status_details (blank f'.job_name status) in
      ground (arith, t, i, topic_payload_total json u mqtt.client_id payload laws l h e)

module _ {d : Deps} (json : Json d) (mqtt : Mqtt d) where
  -- Over MQTT, a block that cannot be ingested makes the agent panic where a job is active and the
  -- platform takes the rejection: the reason of the report is a platform's code, which has no text.
  pub process_data_handler-panics :
      (parts : Parts d) (payload : List ℕ) (c : SmContext d) (e : OtaError)
      → parts.control.update_job_status ≡ update_job_status json mqtt
      → let c' = (ingest_data_block parts payload c).1 in
        (ingest_data_block parts payload c).0 ≡ err e
        → c'.active_interface ≢ none
        → (parts.pal.set_platform_image_state ImageState.rejected c'.world).0 ≡ ok tt
        → (process_data_handler parts payload c).0 ≡ panic
  unfolding process_data_handler block_failed update_job_status as_str
  process_data_handler-panics parts payload c e control i a s = ground (arith, i, a, s)
