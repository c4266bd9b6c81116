-- ===== src/Jobs/Update.antt =====
-- src/jobs/update.rs: the request that reports the status of a job.
pub mod Room
use rustot.Prelude.{
  ℕ, ◌+◌, Bool, true, false, Option, none, some, List, Outcome, ok, err, panic, assert, length, ltb,
  Str,
}
use rustot.Prelude.Fallible.{◌>>=◌, ◌>>◌}
use rustot.Prelude.Stateful.{Exec}
use rustot.Deps.{Deps}
use rustot.Mqtt.{Mqtt, QoS}
use rustot.Ota.Error.{JobError}
use rustot.Jobs.DataTypes.{JobStatus}
use rustot.Jobs.Topics.{JobTopic}
use rustot.Jobs.Requests
use rustot.Jobs.Requests.{
  I64, Json, Request, then_true, fits_token, published, max_thing_name_len, max_job_id_len,
}

pub record Update (d : Deps) : Type 0 where
  pub job_id : Str
  pub status : JobStatus
  pub client_token : Option Str
  pub status_details : Option d.Map
  pub include_job_document : Bool
  pub execution_number : Option I64
  pub include_job_execution_state : Bool
  pub expected_version : Option I64
  pub step_timeout_in_minutes : Option I64

module _ {d : Deps} where
  unfoldable pub blank : Str → JobStatus → Update d
  blank id s = record {
    job_id = id;
    status = s;
    client_token = none;
    status_details = none;
    include_job_document = false;
    execution_number = none;
    include_job_execution_state = false;
    expected_version = none;
    step_timeout_in_minutes = none;
  }

  -- `Update::new`
  unfoldable pub new : {E : Type 0} → Str → JobStatus → Outcome E (Update d)
  unfolding blank
  new id s = do assert (ltb (length id) max_job_id_len); ok (blank id s)

  unfoldable pub client_token : {E : Type 0} → Str → Update d → Outcome E (Update d)
  client_token token u = do assert (fits_token token); ok (record u { client_token = some token })

  unfoldable pub status_details : d.Map → Update d → Update d
  status_details details u = record u { status_details = some details }

  unfoldable pub include_job_document : Update d → Update d
  include_job_document u = record u { include_job_document = true }

  unfoldable pub include_job_execution_state : Update d → Update d
  include_job_execution_state u = record u { include_job_execution_state = true }

  unfoldable pub execution_number : I64 → Update d → Update d
  execution_number n u = record u { execution_number = some n }

  unfoldable pub expected_version : I64 → Update d → Update d
  expected_version n u = record u { expected_version = some n }

  unfoldable pub step_timeout_in_minutes : I64 → Update d → Update d
  step_timeout_in_minutes n u = record u { step_timeout_in_minutes = some n }

  unfoldable pub request : Update d → Request d
  request u = Request.update (record {
    execution_number = u.execution_number;
    expected_version = u.expected_version;
    include_job_document = then_true u.include_job_document;
    include_job_execution_state = then_true u.include_job_execution_state;
    status = u.status;
    status_details = u.status_details;
    step_timeout_in_minutes = u.step_timeout_in_minutes;
    client_token = u.client_token;
  })

module _ {d : Deps} (json : Json d) where
  unfoldable pub topic_payload : Update d → Str → Outcome JobError (Str × List ℕ)
  unfolding Requests.topic_payload request
  topic_payload u =
      Requests.topic_payload json (max_thing_name_len + max_job_id_len + 25) 512
        (JobTopic.update u.job_id) (request u)

  -- `Update::send`
  unfoldable pub send : Mqtt d → QoS → Update d → Exec d.World JobError (Unit {0})
  unfolding topic_payload published
  send mqtt qos u = published mqtt qos (topic_payload u mqtt.client_id)
