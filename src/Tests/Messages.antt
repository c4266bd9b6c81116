-- ===== src/Tests/Messages.antt =====
-- Messages that come in.
use rustot.Prelude.{◌≡◌, refl, none, some, [], ◌∷◌, ◌++◌, ok, err, codes}
use rustot.Prelude.Text.{has}
use rustot.Jobs.DataTypes.{JobStatus}
use rustot.Jobs.Topics.{JobTopic, topic_path}
use rustot.Jobs.Answers.{JobExecution}
use rustot.Ota.DataInterface.Mqtt.Topics.{Encoding, OtaTopic, stream_path}
use rustot.Examples.Ota.{Jobs, Reader, OtaUpdate, ota, job_of, handle_ota}
use rustot.Examples.Ota.Dispatch.{handle_ota-dispatches}
use rustot.Tests.Device.{device, job}

abbrev execution : JobExecution device Jobs
execution = record {
  approximate_seconds_before_timed_out = none;
  execution_number = some 1;
  job_document = some (ota job);
  job_id = codes "AFR_OTA-7";
  last_updated_at = 0;
  queued_at = 0;
  started_at = none;
  status = JobStatus.queued;
  status_details = none;
  thing_name = none;
  version_number = 1;
}

-- An answer holds the job, a notification none.
abbrev pub reader : Reader device
reader = record {
  next_changed = λ bytes. some (record { execution = none; timestamp = 0 });
  described = λ bytes.
      some (record { execution = some execution; timestamp = 0; client_token = codes "0:thing" });
}

handle_ota-dispatches_example :
    (handle_ota reader (topic_path JobTopic.get_next (codes "thing") ++ codes "/accepted") (5 ∷ [])
      ≡ ok (OtaUpdate.job_update (codes "AFR_OTA-7") job none))
    × (handle_ota reader (topic_path JobTopic.notify_next (codes "thing")) (5 ∷ []) ≡ err tt)
    × (handle_ota reader
          (stream_path (OtaTopic.stream_data Encoding.cbor (codes "AFR_OTA-7")) (codes "thing"))
          (5 ∷ [])
        ≡ ok (OtaUpdate.block (5 ∷ [])))
unfolding has job_of
handle_ota-dispatches_example =
    handle_ota-dispatches reader (codes "thing") (codes "AFR_OTA-7") Encoding.cbor (5 ∷ []) refl
      refl
